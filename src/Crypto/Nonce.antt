-- ===== src/Crypto/Nonce.antt =====
-- When two datagrams get one nonce.
use turbobond.Base.{ℕ, ◌%◌, ◌^◌, ◌<◌, ◌≡◌, ap, ◌∙◌, sym, List, ◌++◌, some, arith}
use turbobond.Base.{take, drop, take-append_of_length, drop-append_of_length}
use turbobond.Base.Bits.{bit_and_ones}
use turbobond.Base.Words.{to_bytes, from_bytes, length-to_bytes, from_bytes-to_bytes}
use turbobond.Crypto.{nonce, mask64}

pub mask64-mod : (c : ℕ) → mask64 c ≡ c % 2 ^ 64
mask64-mod c = bit_and_ones 64 c

nonce_bytes :
    (l c : ℕ) {n : List ℕ}
    → nonce l c ≡ some n
    → (l < 2 ^ 32) × (n ≡ to_bytes 4 l ++ to_bytes 8 (c % 2 ^ 64))
unfolding nonce
nonce_bytes l c h = ground (arith, mask64-mod c)

head_of_nonce : (l c : ℕ) (n : List ℕ) → nonce l c ≡ some n → from_bytes 0 (take 4 n) ≡ l
head_of_nonce l c n h =
    let (fits, e) = nonce_bytes l c h in
    ap (λ b. from_bytes 0 (take 4 b)) e
    ∙ ap (from_bytes 0) (take-append_of_length 4 _ (to_bytes 8 (c % 2 ^ 64)) (length-to_bytes 4 l))
    ∙ from_bytes-to_bytes 4 l (omega arith)

tail_of_nonce : (l c : ℕ) (n : List ℕ) → nonce l c ≡ some n → from_bytes 0 (drop 4 n) ≡ c % 2 ^ 64
tail_of_nonce l c n h =
    let (fits, e) = nonce_bytes l c h in
    ap (λ b. from_bytes 0 (drop 4 b)) e
    ∙ ap (from_bytes 0) (drop-append_of_length 4 _ (to_bytes 8 (c % 2 ^ 64)) (length-to_bytes 4 l))
    ∙ from_bytes-to_bytes 8 (c % 2 ^ 64) (omega arith)

-- Two calls of `nonce` that succeed with the same bytes were given the same link id and counters that
-- agree modulo 2^64.
pub nonce-injective :
    (l c l' c' : ℕ) (n : List ℕ)
    → nonce l c ≡ some n
    → nonce l' c' ≡ some n
    → (l ≡ l') × (c % 2 ^ 64 ≡ c' % 2 ^ 64)
nonce-injective l c l' c' n p q = (
  sym (head_of_nonce l c n p) ∙ head_of_nonce l' c' n q,
  sym (tail_of_nonce l c n p) ∙ tail_of_nonce l' c' n q,
)
