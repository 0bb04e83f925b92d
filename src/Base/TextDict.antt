-- ===== src/Base/TextDict.antt =====
-- A Python dict with texts as keys, as a list of entries in insertion order.
use Prim.Native.String.{String}
use mathlib.Core.Path.{◌≡◌, refl}
use mathlib.Core.Option.{Option, none, some}
use mathlib.Core.List.{List, [], ◌∷◌}
use native.Mathlib.Omega.{arith}
use turbobond.Base.Tests.{if◌then◌else◌}
use turbobond.Base.Text.{text_eq, text_eq_iff, text_eq_refl}

abbrev pub TextDict {ℓ} : Type ℓ → Type ℓ
TextDict V = List (String × V)

module _ {ℓ} {V : Type ℓ} where
  -- `d.get(k)`
  unfoldable pub text_lookup : String → TextDict V → Option V
  text_lookup k [] = none
  text_lookup k ((j, v) ∷ d) = if text_eq j k then some v else text_lookup k d

  -- `d[k] = v`: an existing key keeps its place.
  unfoldable pub text_insert : String → V → TextDict V → TextDict V
  text_insert k v [] = (k, v) ∷ []
  text_insert k v ((j, w) ∷ d) =
      let rest = text_insert k v d in if text_eq j k then (j, v) ∷ d else (j, w) ∷ rest

  -- `d.pop(k, None)`, the dict that is left.
  unfoldable pub text_erase : String → TextDict V → TextDict V
  text_erase k [] = []
  text_erase k ((j, v) ∷ d) =
      let rest = text_erase k d in if text_eq j k then rest else (j, v) ∷ rest

  pub text_lookup-text_insert :
      (k j : String) (v : V) (d : TextDict V)
      → text_lookup j (text_insert k v d) ≡ (if text_eq k j then some v else text_lookup j d)
  unfolding text_lookup text_insert
  text_lookup-text_insert k j v [] = refl
  text_lookup-text_insert k j v ((i, w) ∷ d) =
      ground
        (arith, text_eq_iff k j, text_eq_iff i k, text_eq_iff i j, text_lookup-text_insert k j v d)

  pub text_lookup-text_insert_self :
      (k : String) (v : V) (d : TextDict V) → text_lookup k (text_insert k v d) ≡ some v
  text_lookup-text_insert_self k v d =
      ground (arith, text_eq_refl k, text_lookup-text_insert k k v d)

  pub text_lookup-text_erase :
      (k j : String) (d : TextDict V)
      → text_lookup j (text_erase k d) ≡ (if text_eq k j then none else text_lookup j d)
  unfolding text_lookup text_erase
  text_lookup-text_erase k j [] = ground arith
  text_lookup-text_erase k j ((i, w) ∷ d) =
      ground
        (arith, text_eq_iff k j, text_eq_iff i k, text_eq_iff i j, text_lookup-text_erase k j d)
