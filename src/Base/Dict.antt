-- ===== src/Base/Dict.antt =====
-- A Python dict with integer keys, as a list of entries in insertion order.
use Prim.Native.Nat.{ℕ, suc, ◌+◌, ◌≤◌}
use mathlib.Core.Path.{◌≡◌, refl}
use mathlib.Core.Bool.{Bool, true, false, ◌||◌}
use mathlib.Core.Option.{Option, none, some}
use mathlib.Core.List.{List, [], ◌∷◌}
use native.Mathlib.Omega.{arith}
use mathlib.Core.Logic.{inl, inr}
use turbobond.Base.Tests.{Bool-cases, ◌==◌, if◌then◌else◌}
use turbobond.Base.Lists.{length}

abbrev pub Dict {ℓ} : Type ℓ → Type ℓ
Dict V = List (ℕ × V)

module _ {ℓ} {V : Type ℓ} where
  -- `d.get(k)`
  unfoldable pub lookup : ℕ → Dict V → Option V
  lookup k [] = none
  lookup k ((j, v) ∷ d) = if j == k then some v else lookup k d

  -- `k in d`
  unfoldable pub has : ℕ → Dict V → Bool
  has k [] = false
  has k ((j, v) ∷ d) = (j == k) || has k d

  -- `d[k] = v`: an existing key keeps its place.
  unfoldable pub insert : ℕ → V → Dict V → Dict V
  insert k v [] = (k, v) ∷ []
  insert k v ((j, w) ∷ d) = if j == k then (k, v) ∷ d else (j, w) ∷ insert k v d

  -- `d.pop(k, None)`, the dict that is left.
  unfoldable pub erase : ℕ → Dict V → Dict V
  erase k [] = []
  erase k ((j, v) ∷ d) = let rest = erase k d in if j == k then rest else (j, v) ∷ rest

  -- `d.values()`
  unfoldable pub values : Dict V → List V
  values [] = []
  values ((k, v) ∷ d) = v ∷ values d

  pub lookup-insert :
      (k j : ℕ) (v : V) (d : Dict V)
      → lookup j (insert k v d) ≡ (if k == j then some v else lookup j d)
  unfolding lookup insert
  lookup-insert k j v [] = refl
  lookup-insert k j v ((i, w) ∷ d) = ground (arith, lookup-insert k j v d)

  pub lookup-insert_self : (k : ℕ) (v : V) (d : Dict V) → lookup k (insert k v d) ≡ some v
  lookup-insert_self k v d = ground (arith, lookup-insert k k v d)

  pub lookup-erase :
      (k j : ℕ) (d : Dict V) → lookup j (erase k d) ≡ (if k == j then none else lookup j d)
  unfolding lookup erase
  lookup-erase k j [] = ground arith
  lookup-erase k j ((i, w) ∷ d) = ground (arith, lookup-erase k j d)

  pub length-insert : (k : ℕ) (v : V) (d : Dict V) → length (insert k v d) ≤ length d + 1
  unfolding insert
  length-insert k v [] = omega arith
  length-insert k v ((j, w) ∷ d) = ground (arith, length-insert k v d)

  pub length-erase : (k : ℕ) (d : Dict V) → length (erase k d) ≤ length d
  unfolding erase
  length-erase k [] = omega arith
  length-erase k ((j, w) ∷ d) = ground (arith, length-erase k d)

  -- No key twice.
  abbrev pub Distinct : Dict V → Type 0
  Distinct [] = Unit {0}
  Distinct ((j, v) ∷ d) = (has j d ≡ false) × Distinct d

  pub has-insert :
      (k j : ℕ) (v : V) (d : Dict V) → has j (insert k v d) ≡ (if k == j then true else has j d)
  unfolding has insert
  has-insert k j v [] = ground arith
  has-insert k j v ((i, w) ∷ d) = ground (arith, has-insert k j v d)

  pub has-erase : (k j : ℕ) (d : Dict V) → has j (erase k d) ≡ (if k == j then false else has j d)
  unfolding has erase
  has-erase k j [] = ground arith
  has-erase k j ((i, w) ∷ d) = ground (arith, has-erase k j d)

  pub insert-Distinct : (k : ℕ) (v : V) (d : Dict V) → Distinct d → Distinct (insert k v d)
  unfolding insert has
  insert-Distinct k v [] e = (refl, tt)
  insert-Distinct k v ((j, w) ∷ d) e = ground (arith, insert-Distinct k v d, has-insert k j v d)

  pub erase-Distinct : (k : ℕ) (d : Dict V) → Distinct d → Distinct (erase k d)
  unfolding erase has
  erase-Distinct k [] e = tt
  erase-Distinct k ((j, w) ∷ d) e = ground (arith, erase-Distinct k d, has-erase k j d)

  erase_absent : (k : ℕ) (d : Dict V) → has k d ≡ false → erase k d ≡ d
  unfolding erase has
  erase_absent k [] e = refl
  erase_absent k ((j, w) ∷ d) e = ground (arith, erase_absent k d)

  pub length-erase-has :
      (k : ℕ) (d : Dict V) → Distinct d → has k d ≡ true → length d ≡ suc (length (erase k d))
  unfolding erase has
  length-erase-has k [] u e = cc
  length-erase-has k ((j, w) ∷ d) u e =
      ground (arith, length-erase-has k d, erase_absent j d, erase_absent k d)

  pub length-insert_new :
      (k : ℕ) (v : V) (d : Dict V) → has k d ≡ false → length (insert k v d) ≡ suc (length d)
  unfolding insert has
  length-insert_new k v [] e = refl
  length-insert_new k v ((j, w) ∷ d) e = ground (arith, length-insert_new k v d)

  pub lookup-has : (k : ℕ) (d : Dict V) → has k d ≡ true → (v : V) × (lookup k d ≡ some v)
  unfolding lookup has
  lookup-has k [] e = absurd (ground (arith, e))
  lookup-has k ((j, w) ∷ d) e = elim (Bool-cases (j == k)) [
    | inl hit ↦ (w, ground arith)
    | inr miss ↦ let (v, p) = lookup-has k d (ground arith) in (v, ground (arith, p))
  ]

  -- What holds of every entry.
  module _ {κ} (P : ℕ → V → Type κ) where
    abbrev pub Each : Dict V → Type κ
    Each [] = Unit {κ}
    Each ((j, v) ∷ d) = P j v × Each d

    pub erase-Each : (k : ℕ) (d : Dict V) → Each d → Each (erase k d)
    unfolding erase
    erase-Each k [] a = tt
    erase-Each k ((j, w) ∷ d) a = ground (arith, erase-Each k d)

    pub insert-Each : (k : ℕ) (v : V) (d : Dict V) → P k v → Each d → Each (insert k v d)
    unfolding insert
    insert-Each k v [] p a = (p, tt)
    insert-Each k v ((j, w) ∷ d) p a = ground (arith, insert-Each k v d)

    pub lookup-Each : (k : ℕ) (v : V) (d : Dict V) → Each d → lookup k d ≡ some v → P k v
    unfolding lookup
    lookup-Each k v [] a e = absurd (ground (arith, e))
    lookup-Each k v ((j, w) ∷ d) a e = ground (arith, lookup-Each k v d)
