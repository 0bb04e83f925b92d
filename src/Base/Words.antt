-- ===== src/Base/Words.antt =====
-- Fixed-width big-endian integers, as `struct.pack` and `int.to_bytes` lay them out.
use Prim.Native.Nat.{ℕ, zero, suc, ◌+◌, ◌*◌, ◌/◌, ◌%◌, ◌^◌, ◌<◌}
use mathlib.Core.Path.{◌≡◌, refl, ap, sym, ◌∙◌}
use mathlib.Core.List.{List, [], ◌∷◌, ◌++◌, append-nil, append_assoc}
use native.Mathlib.Nat.{pow-suc}
use native.Mathlib.Omega.{arith}
use turbobond.Base.Lists.{length, length-append, All, All-append}

abbrev pub IsByte : ℕ → Type 0
IsByte b = b < 256

-- The lowest `n` bytes of `v`, most significant first.
unfoldable pub to_bytes : ℕ → ℕ → List ℕ
to_bytes zero v = []
to_bytes (suc n) v = to_bytes n (v / 256) ++ (v % 256) ∷ []

-- `int.from_bytes(data, "big")`, on from the value `acc` of the bytes before.
unfoldable pub from_bytes : ℕ → List ℕ → ℕ
from_bytes acc [] = acc
from_bytes acc (b ∷ bs) = from_bytes (acc * 256 + b) bs

pub length-to_bytes : (n v : ℕ) → length (to_bytes n v) ≡ n
unfolding to_bytes
length-to_bytes zero v = refl
length-to_bytes (suc n) v =
    omega
      (arith, length-append (to_bytes n (v / 256)) ((v % 256) ∷ []), length-to_bytes n (v / 256))

pub to_bytes-IsByte : (n v : ℕ) → All IsByte (to_bytes n v)
unfolding to_bytes
to_bytes-IsByte zero v = tt
to_bytes-IsByte (suc n) v =
    All-append IsByte (to_bytes n (v / 256)) _ (to_bytes-IsByte n (v / 256)) (omega arith)

from_bytes-append :
    (acc : ℕ) (xs ys : List ℕ) → from_bytes acc (xs ++ ys) ≡ from_bytes (from_bytes acc xs) ys
unfolding from_bytes
from_bytes-append acc [] ys = refl
from_bytes-append acc (x ∷ xs) ys = from_bytes-append (acc * 256 + x) xs ys

-- Reading back what was written gives the number, if it fits.
pub from_bytes-to_bytes : (n v : ℕ) → v < 256 ^ n → from_bytes 0 (to_bytes n v) ≡ v
unfolding from_bytes to_bytes
from_bytes-to_bytes zero v h = omega arith
from_bytes-to_bytes (suc n) v h =
    from_bytes-append 0 (to_bytes n (v / 256)) ((v % 256) ∷ [])
    ∙ omega (arith, from_bytes-to_bytes n (v / 256) (omega (arith, pow-suc 256 n)))

from_bytes-lt :
    (acc m : ℕ) (bs : List ℕ) → All IsByte bs → acc < m → from_bytes acc bs < m * 256 ^ length bs
unfolding from_bytes
from_bytes-lt acc m [] a h = omega arith
from_bytes-lt acc m (b ∷ bs) a h = omega (
  arith,
  from_bytes-lt (acc * 256 + b) (m * 256) bs a.1 (omega arith),
  ap (λ t. m * t) (pow-suc 256 (length bs)),
)

-- What is read from `n` bytes fits `n` bytes.
pub from_bytes_fits : (bs : List ℕ) → All IsByte bs → from_bytes 0 bs < 256 ^ length bs
from_bytes_fits bs a = omega (arith, from_bytes-lt 0 1 bs a (omega arith))

to_bytes-from_bytes_on :
    (n acc : ℕ) (bs : List ℕ)
    → All IsByte bs
    → to_bytes (n + length bs) (from_bytes acc bs) ≡ to_bytes n acc ++ bs
unfolding from_bytes
to_bytes-from_bytes_on n acc [] a =
    let e : n + 0 ≡ n = omega arith in
    ap (λ k. to_bytes k acc) e ∙ sym (append-nil (to_bytes n acc))
to_bytes-from_bytes_on n acc (b ∷ bs) (small, a) =
    let e : n + suc (length bs) ≡ suc n + length bs = omega arith in
    let q : (acc * 256 + b) / 256 ≡ acc = omega arith in
    let r : (acc * 256 + b) % 256 ≡ b = omega arith in
    ap (λ k. to_bytes k (from_bytes (acc * 256 + b) bs)) e
    ∙ to_bytes-from_bytes_on (suc n) (acc * 256 + b) bs a
    ∙ unfold to_bytes in
      (ap (λ k. (to_bytes n k ++ ((acc * 256 + b) % 256) ∷ []) ++ bs) q
        ∙ ap (λ k. (to_bytes n acc ++ k ∷ []) ++ bs) r
        ∙ append_assoc (to_bytes n acc) (b ∷ []) bs)

-- Writing back what was read gives the bytes.
pub to_bytes-from_bytes :
    (n : ℕ) (bs : List ℕ) → length bs ≡ n → All IsByte bs → to_bytes n (from_bytes 0 bs) ≡ bs
to_bytes-from_bytes n bs e a =
    let k : n ≡ 0 + length bs = omega arith in
    ap (λ m. to_bytes m (from_bytes 0 bs)) k
    ∙ to_bytes-from_bytes_on 0 0 bs a
    ∙ unfold to_bytes in refl
