-- ===== src/Reorder/Order.antt =====
-- Ascending and descending lists of sequence numbers, and maps keyed by such a list.
use turbobond.Base.{
  ℕ, suc, ◌-◌, ◌≤◌, ◌<◌, ◌≡◌, refl, Bool, true, false, List, [], ◌∷◌, leb, ◌==◌, if◌then◌else◌,
  length, elem, keep, arith,
}
use turbobond.Base.Dict.{
  Dict, insert, erase, has, Distinct, erase-Distinct, insert-Distinct, has-erase, has-insert,
  length-erase-has, length-insert_new,
}
use turbobond.Reorder.{heappush}

-- Strictly ascending from `n` on.
abbrev pub Above : ℕ → List ℕ → Type 0
Above n [] = Unit {0}
Above n (x ∷ xs) = (n ≤ x) × Above (suc x) xs

-- Strictly descending below `n`.
abbrev pub Falling : ℕ → List ℕ → Type 0
Falling n [] = Unit {0}
Falling n (x ∷ xs) = (x < n) × Falling x xs

pub Above-mono : (m n : ℕ) (xs : List ℕ) → m ≤ n → Above n xs → Above m xs
Above-mono m n [] h a = tt
Above-mono m n (x ∷ xs) h a = (omega arith, a.1)

pub Above-not_elem : (k n : ℕ) (xs : List ℕ) → k < n → Above n xs → elem k xs ≡ false
unfolding elem
Above-not_elem k n [] h a = refl
Above-not_elem k n (x ∷ xs) h a = ground (arith, Above-not_elem k (suc x) xs)

pub heappush-Above :
    (s n : ℕ) (xs : List ℕ) → n ≤ s → elem s xs ≡ false → Above n xs → Above n (heappush s xs)
unfolding heappush elem
heappush-Above s n [] h e a = (h, tt)
heappush-Above s n (x ∷ xs) h e a = ground (arith, heappush-Above s (suc x) xs)

pub elem-heappush :
    (s t : ℕ) (xs : List ℕ) → elem t (heappush s xs) ≡ (if t == s then true else elem t xs)
unfolding heappush elem
elem-heappush s t [] = ground arith
elem-heappush s t (x ∷ xs) = ground (arith, elem-heappush s t xs)

pub length-heappush : (s : ℕ) (xs : List ℕ) → length (heappush s xs) ≡ suc (length xs)
unfolding heappush
length-heappush s [] = refl
length-heappush s (x ∷ xs) = ground (arith, length-heappush s xs)

pub Falling-mono : (m n : ℕ) (xs : List ℕ) → m ≤ n → Falling m xs → Falling n xs
Falling-mono m n [] h a = tt
Falling-mono m n (x ∷ xs) h a = (omega arith, a.1)

pub Falling-not_elem : (k n : ℕ) (xs : List ℕ) → n ≤ k → Falling n xs → elem k xs ≡ false
unfolding elem
Falling-not_elem k n [] h a = refl
Falling-not_elem k n (x ∷ xs) h a = ground (arith, Falling-not_elem k x xs)

pub keep-Falling : (n : ℕ) (p : ℕ → Bool) (xs : List ℕ) → Falling n xs → Falling n (keep p xs)
keep-Falling n p [] a = tt
keep-Falling n p (x ∷ xs) a = ground (arith, keep-Falling x p xs, Falling-mono x n (keep p xs))

-- Of a descending list below `n`, at most `n - cut` are `cut` or more.
pub length-keep-Falling :
    (n cut : ℕ) (xs : List ℕ) → Falling n xs → length (keep (leb cut) xs) ≤ n - cut
length-keep-Falling n cut [] a = omega arith
length-keep-Falling n cut (x ∷ xs) a = ground (arith, length-keep-Falling x cut xs)

-- The map's keys are the list's elements, each once.
pub record Keyed {ℓ} {V : Type ℓ} (h : List ℕ) (d : Dict V) : Type ℓ where
  pub distinct : Distinct d
  pub size : length d ≡ length h
  pub same : (s : ℕ) → has s d ≡ elem s h

module _ {ℓ} {V : Type ℓ} where
  pub Keyed-pop :
      (n x : ℕ) (h : List ℕ) (d : Dict V) → Above n (x ∷ h) → Keyed (x ∷ h) d → Keyed h (erase x d)
  unfolding elem
  Keyed-pop n x h d a k = record {
    distinct = erase-Distinct x d k.distinct;
    size = ground (arith, k.size, k.same x, length-erase-has x d k.distinct);
    same = λ s. ground (arith, k.same s, has-erase x s d, Above-not_elem x (suc x) h);
  }

  pub Keyed-push :
      (s : ℕ) (v : V) (h : List ℕ) (d : Dict V)
      → has s d ≡ false
      → Keyed h d
      → Keyed (heappush s h) (insert s v d)
  Keyed-push s v h d e k = record {
    distinct = insert-Distinct s v d k.distinct;
    size = omega (arith, k.size, length-heappush s h, length-insert_new s v d e);
    same = λ t. ground (arith, k.same t, has-insert s t v d, elem-heappush s t h);
  }
