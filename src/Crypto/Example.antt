-- ===== src/Crypto/Example.antt =====
-- An AEAD for the tests: the tag is 16 zero bytes in front of the text. It shows that the laws of
-- `IsAead` can be met.
use turbobond.Base.{ℕ, zero, suc, ◌+◌, ◌≡◌, refl, List, [], ◌∷◌, Option, none, some, arith, ◌==◌}
use turbobond.Base.{if◌then◌else◌, length, All}
use turbobond.Base.Words.{IsByte}
use turbobond.Crypto.{Aead, IsAead}

unfoldable pub add_tag : ℕ → List ℕ → List ℕ
add_tag zero p = p
add_tag (suc n) p = 0 ∷ add_tag n p

unfoldable pub strip_tag : ℕ → List ℕ → Option (List ℕ)
strip_tag zero c = some c
strip_tag (suc n) [] = none
strip_tag (suc n) (b ∷ c) = let rest = strip_tag n c in if b == 0 then rest else none

abbrev pub zero_tag : Aead
zero_tag = record { encrypt = λ n p d. add_tag 16 p; decrypt = λ n c d. strip_tag 16 c }

opens : (n : ℕ) (p : List ℕ) → strip_tag n (add_tag n p) ≡ some p
unfolding strip_tag add_tag
opens zero p = refl
opens (suc n) p = opens n p

exact : (n : ℕ) (c p : List ℕ) → strip_tag n c ≡ some p → add_tag n p ≡ c
unfolding strip_tag add_tag
exact zero c p e = ground arith
exact (suc n) [] p e = cc
exact (suc n) (b ∷ c) p e = ground (arith, exact n c p)

tag_length : (n : ℕ) (p : List ℕ) → length (add_tag n p) ≡ length p + n
unfolding add_tag
tag_length zero p = omega arith
tag_length (suc n) p = omega (arith, tag_length n p)

bytes_left : (n : ℕ) (c p : List ℕ) → All IsByte c → strip_tag n c ≡ some p → All IsByte p
unfolding strip_tag
bytes_left zero c p a e = ground arith
bytes_left (suc n) [] p a e = absurd (ground arith)
bytes_left (suc n) (b ∷ c) p a e = bytes_left n c p a.1 (ground arith)

pub zero_tag-IsAead : IsAead zero_tag
zero_tag-IsAead = record {
  opens = λ n p d. opens 16 p;
  exact = λ n c d p. exact 16 c p;
  length-encrypt = λ n p d. tag_length 16 p;
  decrypt-IsByte = λ n c d p. bytes_left 16 c p;
}
