-- ===== src/Crypto/Tests.antt =====
-- Runs of the nonce.
use turbobond.Base.{ℕ, ◌+◌, ◌%◌, ◌^◌, ◌≡◌, refl, [], ◌∷◌, some, none}
use turbobond.Base.Words.{to_bytes}
use turbobond.Crypto.{nonce}
use turbobond.Crypto.Nonce.{nonce-injective}

nonce_small : nonce 2 258 ≡ some (0 ∷ 0 ∷ 0 ∷ 2 ∷ 0 ∷ 0 ∷ 0 ∷ 0 ∷ 0 ∷ 0 ∷ 1 ∷ 2 ∷ [])
unfolding nonce to_bytes
nonce_small = refl

nonce_too_wide : nonce (2 ^ 32) 1 ≡ none
unfolding nonce
nonce_too_wide = refl

-- Two counters that differ by 2^64 share the nonce.
nonce-injective_example : (◌≡◌ {A = ℕ} 2 2) × (258 % 2 ^ 64 ≡ (258 + 2 ^ 64) % 2 ^ 64)
unfolding nonce to_bytes
nonce-injective_example = nonce-injective 2 258 2 (258 + 2 ^ 64) _ nonce_small refl
