-- ===== src/Base/Bits.antt =====
-- Single bits of a number, and the laws of `&`, `|` and `<<` on them. A Python integer has no width.
use Prim.Native.Nat.{
  ℕ, zero, suc, ◌+◌, ◌-◌, ◌*◌, ◌/◌, ◌%◌, ◌^◌, ◌≤◌, ◌<◌, min, max, bit_and, bit_or, digits,
  bit_and-bitwise, bit_or-bitwise,
}
use mathlib.Core.Path.{◌≡◌, refl, ap, ◌∙◌}
use native.Mathlib.Nat.{pow-suc, div-add-mod, mod-lt, one-le-pow}
use native.Mathlib.Omega.{arith}
use turbobond.Base.Tests.{ltb, if◌then◌else◌}

-- Bit `k` of `x`, as 0 or 1.
unfoldable pub bit : ℕ → ℕ → ℕ
bit x zero = x % 2
bit x (suc k) = bit (x / 2) k

-- More digits than the first number has change nothing.
digits_enough :
    (z : ℕ → ℕ) (f : ℕ → ℕ → ℕ) (n m a b : ℕ) → a ≤ n → a ≤ m → digits z f n a b ≡ digits z f m a b
digits_enough z f zero zero a b p q = refl
digits_enough z f zero (suc m) zero b p q = refl
digits_enough z f zero (suc m) (suc a) b p q = absurd (omega arith)
digits_enough z f (suc n) zero zero b p q = refl
digits_enough z f (suc n) zero (suc a) b p q = absurd (omega arith)
digits_enough z f (suc n) (suc m) zero b p q = refl
digits_enough z f (suc n) (suc m) (suc a) b p q =
    ap (λ t. t * 2 + f (suc a % 2) (b % 2))
      (digits_enough z f n m (suc a / 2) (b / 2) (omega arith) (omega arith))

pub bit_and_halves : (a b : ℕ) → bit_and a b ≡ bit_and (a / 2) (b / 2) * 2 + min (a % 2) (b % 2)
bit_and_halves zero b = omega (arith, bit_and-bitwise 0 b, bit_and-bitwise 0 (b / 2))
bit_and_halves (suc a) b = omega (
  arith,
  bit_and-bitwise (suc a) b,
  bit_and-bitwise (suc a / 2) (b / 2),
  digits_enough (λ b. zero) min a (suc a / 2) (suc a / 2) (b / 2) (omega arith) (omega arith),
)

pub bit_or_halves : (a b : ℕ) → bit_or a b ≡ bit_or (a / 2) (b / 2) * 2 + max (a % 2) (b % 2)
bit_or_halves zero b = omega (arith, bit_or-bitwise 0 b, bit_or-bitwise 0 (b / 2))
bit_or_halves (suc a) b = omega (
  arith,
  bit_or-bitwise (suc a) b,
  bit_or-bitwise (suc a / 2) (b / 2),
  digits_enough (λ b. b) max a (suc a / 2) (suc a / 2) (b / 2) (omega arith) (omega arith),
)

two-pow-suc : (k : ℕ) → 2 ^ suc k ≡ 2 * 2 ^ k
two-pow-suc k = omega (arith, pow-suc 2 k)

pub bit-bit_and : (x y k : ℕ) → bit (bit_and x y) k ≡ min (bit x k) (bit y k)
unfolding bit
bit-bit_and x y zero = omega (arith, bit_and_halves x y)
bit-bit_and x y (suc k) =
    let e : bit_and x y / 2 ≡ bit_and (x / 2) (y / 2) = omega (arith, bit_and_halves x y) in
    ap (λ t. bit t k) e ∙ bit-bit_and (x / 2) (y / 2) k

pub bit-bit_or : (x y k : ℕ) → bit (bit_or x y) k ≡ max (bit x k) (bit y k)
unfolding bit
bit-bit_or x y zero = omega (arith, bit_or_halves x y)
bit-bit_or x y (suc k) =
    let e : bit_or x y / 2 ≡ bit_or (x / 2) (y / 2) = omega (arith, bit_or_halves x y) in
    ap (λ t. bit t k) e ∙ bit-bit_or (x / 2) (y / 2) k

pub bit-zero : (k : ℕ) → bit 0 k ≡ 0
unfolding bit
bit-zero zero = refl
bit-zero (suc k) = bit-zero k

pub bit-le : (x k : ℕ) → bit x k ≤ 1
unfolding bit
bit-le x zero = omega arith
bit-le x (suc k) = bit-le (x / 2) k

-- The mask of `n` ones, `(1 << n) - 1`.
pub bit_ones : (n k : ℕ) → bit (2 ^ n - 1) k ≡ (if ltb k n then 1 else 0)
unfolding bit
bit_ones zero k = bit-zero k ∙ ground arith
bit_ones (suc n) zero = ground (arith, two-pow-suc n, one-le-pow n 2)
bit_ones (suc n) (suc k) =
    let e : (2 ^ suc n - 1) / 2 ≡ 2 ^ n - 1 = omega (arith, two-pow-suc n, one-le-pow n 2) in
    ap (λ t. bit t k) e ∙ bit_ones n k ∙ ground arith

-- The bits of `x << s`.
pub bit_shift : (s x k : ℕ) → bit (x * 2 ^ s) k ≡ (if ltb k s then 0 else bit x (k - s))
unfolding bit
bit_shift zero x k =
    let e : x * 2 ^ 0 ≡ x = omega arith in
    let d : k ≡ k - 0 = omega arith in ap (λ t. bit t k) e ∙ ap (bit x) d ∙ ground arith
bit_shift (suc s) x zero = ground (arith, ap (λ t. x * t) (two-pow-suc s))
bit_shift (suc s) x (suc k) =
    let e : x * 2 ^ suc s / 2 ≡ x * 2 ^ s = omega (arith, ap (λ t. x * t) (two-pow-suc s)) in
    let d : suc k - suc s ≡ k - s = omega arith in
    ap (λ t. bit t k) e ∙ bit_shift s x k ∙ ground (arith, ap (bit x) d)

bit_and-zero_below : (n a : ℕ) → a ≤ n → bit_and a 0 ≡ 0
bit_and-zero_below n zero h = refl
bit_and-zero_below zero (suc a) h = absurd (omega arith)
bit_and-zero_below (suc n) (suc a) h =
    omega (arith, bit_and_halves (suc a) 0, bit_and-zero_below n (suc a / 2) (omega arith))

pub bit_and-zero : (a : ℕ) → bit_and a 0 ≡ 0
bit_and-zero a = bit_and-zero_below a a (omega arith)

-- `x & (1 << k)` is bit `k` of `x`, at its place.
pub bit_and-pow : (x k : ℕ) → bit_and x (2 ^ k) ≡ bit x k * 2 ^ k
unfolding bit
bit_and-pow x zero = omega (arith, bit_and_halves x 1, bit_and-zero (x / 2))
bit_and-pow x (suc k) =
    let e : 2 ^ suc k / 2 ≡ 2 ^ k = omega (arith, two-pow-suc k) in
    let i : bit_and (x / 2) (2 ^ suc k / 2) ≡ bit (x / 2) k * 2 ^ k =
      ap (bit_and (x / 2)) e ∙ bit_and-pow (x / 2) k in
    omega (
      arith,
      bit_and_halves x (2 ^ suc k),
      i,
      two-pow-suc k,
      ap (λ t. bit (x / 2) k * t) (two-pow-suc k),
    )

mod_double : (a m : ℕ) → 0 < m → a % (2 * m) ≡ a / 2 % m * 2 + a % 2
mod_double a m h = grind (arith, div-add-mod (a / 2) m, mod-lt (a / 2) h, div-add-mod a (2 * m))

-- `x & ((1 << n) - 1)` is the remainder by `2 ^ n`.
pub bit_and_ones : (n x : ℕ) → bit_and x (2 ^ n - 1) ≡ x % 2 ^ n
bit_and_ones zero x = omega (arith, bit_and-zero x)
bit_and_ones (suc n) x =
    let e : (2 ^ suc n - 1) / 2 ≡ 2 ^ n - 1 = omega (arith, two-pow-suc n, one-le-pow n 2) in
    let i : bit_and (x / 2) ((2 ^ suc n - 1) / 2) ≡ x / 2 % 2 ^ n =
      ap (bit_and (x / 2)) e ∙ bit_and_ones n (x / 2) in
    omega (
      arith,
      bit_and_halves x (2 ^ suc n - 1),
      i,
      two-pow-suc n,
      one-le-pow n 2,
      mod_double x (2 ^ n) (one-le-pow n 2 (omega arith)),
      ap (λ t. x % t) (two-pow-suc n),
    )
