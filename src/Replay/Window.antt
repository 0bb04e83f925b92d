-- ===== src/Replay/Window.antt =====
-- The window in terms of single bits, and counters that are refused for good.
use turbobond.Base.{
  ℕ, zero, suc, ◌+◌, ◌-◌, ◌*◌, ◌^◌, ◌≤◌, ◌<◌, ◌≡◌, refl, ap, ◌∙◌, ◌⊎◌, bit_and, bit_or, true, false,
  ltb, ◌==◌, if◌then◌else◌, List, [], ◌∷◌, arith,
}
use turbobond.Base.Bits.{
  bit, bit-le, bit-bit_and, bit-bit_or, bit_ones, bit_shift, bit-zero, bit_and-pow,
}
use native.Mathlib.Nat.{one-le-pow}
use turbobond.Replay.{ReplayWindow, advance, check_and_update, run}

bit_unit : (k : ℕ) → bit 1 k ≡ (if k == 0 then 1 else 0)
unfolding bit
bit_unit zero = refl
bit_unit (suc k) = bit-zero k ∙ ground arith

-- `1 << s` has one bit.
pub bit_one : (s k : ℕ) → bit (1 * 2 ^ s) k ≡ (if k == s then 1 else 0)
bit_one s k = bit_shift s 1 k ∙ ground (arith, bit_unit (k - s))

-- Bit `k` after the window has moved up by `shift`.
pub bit_moved :
    (bm size shift k : ℕ)
    → 0 < shift
    → bit (bit_and (bit_or (bm * 2 ^ shift) 1) (1 * 2 ^ size - 1)) k ≡ (
        if ltb k size
        then (if k == 0 then 1 else if ltb k shift then 0 else bit bm (k - shift))
        else 0)
bit_moved bm size shift k h =
    let e : 1 * 2 ^ size ≡ 2 ^ size = omega arith in
    ground (
      arith,
      e,
      bit-bit_and (bit_or (bm * 2 ^ shift) 1) (1 * 2 ^ size - 1) k,
      bit-bit_or (bm * 2 ^ shift) 1 k,
      bit_ones size k,
      bit_shift shift bm k,
      bit_unit k,
      bit-le bm (k - shift),
    )

-- The bitmap test on `1 << k` asks for bit `k`.
pub mask_test : (bm k : ℕ) → (bit_and bm (1 * 2 ^ k) == 0) ≡ (bit bm k == 0)
mask_test bm k =
    let e : 1 * 2 ^ k ≡ 2 ^ k = omega arith in
    ground (arith, e, bit_and-pow bm k, bit-le bm k, one-le-pow k 2 (omega arith))

pub bit_set : (bm k j : ℕ) → bit (bit_or bm (1 * 2 ^ k)) j ≡ (if j == k then 1 else bit bm j)
bit_set bm k j = ground (arith, bit-bit_or bm (1 * 2 ^ k) j, bit_one k j, bit-le bm j)

-- A counter that the window will never take again: it is at or below the highest one, and either out
-- of the window or marked in the bitmap.
abbrev pub IsUsed : ℕ → ReplayWindow → Type 0
IsUsed c w = (c ≤ w.highest) × ((w.size ≤ w.highest - c) ⊎ (bit w.bitmap (w.highest - c) ≡ 1))

pub check_used : (w : ReplayWindow) (c : ℕ) → IsUsed c w → (check_and_update w c).1 ≡ false
unfolding check_and_update
check_used w c u = ground (arith, mask_test w.bitmap (w.highest - c))

sub_self : (c : ℕ) → c - c ≡ 0
sub_self c = omega arith

pub accept-IsUsed :
    (w : ReplayWindow) (c : ℕ) → (check_and_update w c).1 ≡ true → IsUsed c (check_and_update w c).0
unfolding check_and_update advance
accept-IsUsed w c h = ground (
  arith,
  bit_moved w.bitmap w.size (c - w.highest) 0,
  bit_set w.bitmap (w.highest - c) (w.highest - c),
  bit_one 0 0,
  ap (bit 1) (sub_self c),
  ap (bit (bit_and (bit_or (w.bitmap * 2 ^ (c - w.highest)) 1) (1 * 2 ^ w.size - 1))) (sub_self c),
)

add_sub : (a b : ℕ) → a + b - b ≡ a
add_sub a b = omega arith

same_offset : (x h c d : ℕ) → c ≤ h → h < d → bit x (d - c) ≡ bit x (h - c + (d - h))
same_offset x h c d p q = ap (bit x) (omega arith)

check-IsUsed : (w : ReplayWindow) (c d : ℕ) → IsUsed c w → IsUsed c (check_and_update w d).0
unfolding check_and_update advance
check-IsUsed w c d u =
    let off = w.highest - c in
    let shift = d - w.highest in
    ground (
      arith,
      bit_moved w.bitmap w.size shift (off + shift),
      bit_set w.bitmap (w.highest - d) off,
      ap (bit w.bitmap) (add_sub off shift),
      same_offset (bit_and (bit_or (w.bitmap * 2 ^ shift) 1) (1 * 2 ^ w.size - 1)) w.highest c d,
    )

run-IsUsed : (w : ReplayWindow) (c : ℕ) (cs : List ℕ) → IsUsed c w → IsUsed c (run w cs).0
unfolding run
run-IsUsed w c [] u = u
run-IsUsed w c (d ∷ cs) u = run-IsUsed (check_and_update w d).0 c cs (check-IsUsed w c d u)

-- Once the window has accepted a counter it refuses that counter for good, whatever counters come in
-- between: no datagram is taken twice.
pub accepted_once :
    (w : ReplayWindow) (c : ℕ) (cs : List ℕ)
    → (check_and_update w c).1 ≡ true
    → (check_and_update (run (check_and_update w c).0 cs).0 c).1 ≡ false
accepted_once w c cs h =
    check_used _ c (run-IsUsed (check_and_update w c).0 c cs (accept-IsUsed w c h))
