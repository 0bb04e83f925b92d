-- ===== src/Base/Floats.antt =====
-- The operations of a Python float that the program uses, as a parameter. `of_ratio n d` is the float
-- that a literal or a whole number n / d is read as.
use turbobond.Base.Tests.{if◌then◌else◌}
use Prim.Native.Nat.{ℕ}
use mathlib.Core.Bool.{Bool}
use mathlib.Core.List.{List, [], ◌∷◌}

pub record Floats (F : Type 0) : Type 0 where
  pub of_ratio : ℕ → ℕ → F
  pub add : F → F → F
  pub sub : F → F → F
  pub mul : F → F → F
  pub div : F → F → F
  pub sqrt : F → F
  pub eq : F → F → Bool
  pub lt : F → F → Bool
  pub le : F → F → Bool

module _ {F : Type 0} (fl : Floats F) where
  -- `max(a, b)` and `min(a, b)` keep the first of two that do not compare.
  unfoldable pub fmax : F → F → F
  fmax a b = if fl.lt a b then b else a

  unfoldable pub fmin : F → F → F
  fmin a b = if fl.lt b a then b else a

  unfoldable pub fsum : List F → F → F
  fsum [] acc = acc
  fsum (x ∷ xs) acc = fsum xs (fl.add acc x)

-- `max(xs, key=f)` and `min(xs, key=f)` on the elements after the first: the earliest of the best.
module _ {F : Type 0} (fl : Floats F) {A : Type 0} (key : A → F) where
  unfoldable pub max_by : A → List A → A
  max_by best [] = best
  max_by best (x ∷ xs) = max_by (if fl.lt (key best) (key x) then x else best) xs

  unfoldable pub min_by : A → List A → A
  min_by best [] = best
  min_by best (x ∷ xs) = min_by (if fl.lt (key x) (key best) then x else best) xs
