-- ===== src/Crypto.antt =====
-- turbobond/util/crypto.py: the sealer of tunnel datagrams. The AEAD itself (ChaCha20-Poly1305 of the
-- `cryptography` package, under one key) is a parameter: `Aead` are its two calls, and `IsAead` is
-- what is documented of them.
pub mod Nonce
pub mod Example
mod Tests
use turbobond.Base.{ℕ, ◌+◌, ◌-◌, ◌^◌, ◌≡◌, List, ◌++◌, Option, none, some, bit_and, ltb}
use turbobond.Base.{if◌then◌else◌, length, All}
use turbobond.Base.Words.{to_bytes, IsByte}

-- The arguments are the nonce, the data and the associated data. `none` is `InvalidTag`.
pub record Aead : Type 0 where
  pub encrypt : List ℕ → List ℕ → List ℕ → List ℕ
  pub decrypt : List ℕ → List ℕ → List ℕ → Option (List ℕ)

-- Encryption is deterministic in its nonce and appends a 16-byte tag, so a text that decrypts is the
-- encryption of what it decrypts to.
pub record IsAead (a : Aead) : Type 0 where
  pub opens : (n p d : List ℕ) → a.decrypt n (a.encrypt n p d) d ≡ some p
  pub exact : (n c d p : List ℕ) → a.decrypt n c d ≡ some p → a.encrypt n p d ≡ c
  pub length-encrypt : (n p d : List ℕ) → length (a.encrypt n p d) ≡ length p + 16
  pub decrypt-IsByte : (n c d p : List ℕ) → All IsByte c → a.decrypt n c d ≡ some p → All IsByte p

-- `counter & 0xFFFFFFFFFFFFFFFF`
abbrev pub mask64 : ℕ → ℕ
mask64 c = bit_and c (2 ^ 64 - 1)

-- `none` is the OverflowError of `link_id.to_bytes(4, "big")`.
unfoldable pub nonce : ℕ → ℕ → Option (List ℕ)
nonce link_id counter =
    if ltb link_id (2 ^ 32) then some (to_bytes 4 link_id ++ to_bytes 8 (mask64 counter)) else none

module _ (a : Aead) where
  unfoldable pub seal : List ℕ → ℕ → ℕ → List ℕ → Option (List ℕ)
  seal plaintext link_id counter aad = elim (nonce link_id counter) [
    | none ↦ none
    | some n ↦ some (a.encrypt n plaintext aad)
  ]

  -- Every exception, that of the nonce too, becomes None.
  unfoldable pub open_sealed : List ℕ → ℕ → ℕ → List ℕ → Option (List ℕ)
  open_sealed ciphertext link_id counter aad = elim (nonce link_id counter) [
    | none ↦ none
    | some n ↦ a.decrypt n ciphertext aad
  ]
