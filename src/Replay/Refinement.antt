-- ===== src/Replay/Refinement.antt =====
-- The bitmap window against a plain description by the set of counters accepted so far.
use turbobond.Base.{
  ℕ, ◌+◌, ◌-◌, ◌*◌, ◌^◌, ◌≤◌, ◌<◌, max, ◌≡◌, refl, ap, ◌∙◌, bit_or, Bool, true, ltb, ◌==◌,
  if◌then◌else◌, List, [], ◌∷◌, arith, not, ◌&&◌, elem,
}
use turbobond.Base.Bits.{bit}
use turbobond.Replay.{ReplayWindow, init, advance, check_and_update, run}
use turbobond.Replay.Window.{bit_moved, bit_one, bit_set, mask_test}

-- The highest counter accepted so far, 0 if there is none.
unfoldable pub top : List ℕ → ℕ
top [] = 0
top (c ∷ seen) = max c (top seen)

-- A counter is fresh if it is not 0, not `size` or more below the highest one, and not seen before.
unfoldable pub is_fresh : ℕ → List ℕ → ℕ → Bool
is_fresh size seen c = not (c == 0) && (ltb (top seen) (c + size) && not (elem c seen))

unfoldable pub verdicts : ℕ → List ℕ → List ℕ → List Bool
verdicts size seen [] = []
verdicts size seen (c ∷ cs) =
    let fresh = is_fresh size seen c in fresh ∷ verdicts size (if fresh then c ∷ seen else seen) cs

-- The window and the list of accepted counters tell the same.
record Tracks (w : ReplayWindow) (seen : List ℕ) : Type 0 where
  height : w.highest ≡ top seen
  marked :
      (c : ℕ)
      → 0 < c
      → c ≤ w.highest
      → w.highest - c < w.size
      → bit w.bitmap (w.highest - c) ≡ (if elem c seen then 1 else 0)

elem-le-top : (c : ℕ) (seen : List ℕ) → elem c seen ≡ true → c ≤ top seen
unfolding elem top
elem-le-top c [] h = cc
elem-le-top c (d ∷ seen) h = ground (arith, elem-le-top c seen)

check-is_fresh :
    (w : ReplayWindow) (seen : List ℕ) (c : ℕ)
    → Tracks w seen
    → (check_and_update w c).1 ≡ is_fresh w.size seen c
unfolding check_and_update is_fresh
check-is_fresh w seen c t =
    ground (arith, t.height, t.marked c, mask_test w.bitmap (w.highest - c), elem-le-top c seen)

-- The list after a counter.
abbrev after : ReplayWindow → List ℕ → ℕ → List ℕ
after w seen c = if (check_and_update w c).1 then c ∷ seen else seen

check-height :
    (w : ReplayWindow) (seen : List ℕ) (c : ℕ)
    → Tracks w seen
    → (check_and_update w c).0.highest ≡ top (after w seen c)
unfolding check_and_update advance top
check-height w seen c t = ground (arith, t.height)

back_offset : (x h c d : ℕ) → c ≤ h → h < d → bit x (d - c - (d - h)) ≡ bit x (h - c)
back_offset x h c d p q = ap (bit x) (omega arith)

marked_advance :
    (w : ReplayWindow) (seen : List ℕ) (d c : ℕ)
    → Tracks w seen
    → w.highest < d
    → 0 < c
    → c ≤ d
    → d - c < w.size
    → bit (advance w d).bitmap (d - c) ≡ (if elem c (d ∷ seen) then 1 else 0)
unfolding advance elem
marked_advance w seen d c t h p q r = ground (
  arith,
  t.height,
  t.marked c,
  bit_one 0 (d - c),
  bit_moved w.bitmap w.size (d - w.highest) (d - c),
  back_offset w.bitmap w.highest c d,
  elem-le-top c seen,
)

marked_old :
    (w : ReplayWindow) (seen : List ℕ) (d c : ℕ)
    → Tracks w seen
    → d ≤ w.highest
    → 0 < c
    → c ≤ w.highest
    → w.highest - c < w.size
    → bit (bit_or w.bitmap (1 * 2 ^ (w.highest - d))) (w.highest - c)
      ≡ (if elem c (d ∷ seen) then 1 else 0)
unfolding elem
marked_old w seen d c t h p q r =
    ground (arith, t.marked c, bit_set w.bitmap (w.highest - d) (w.highest - c))

advance_fields :
    (w : ReplayWindow) (d : ℕ) → ((advance w d).highest ≡ d) × ((advance w d).size ≡ w.size)
unfolding advance
advance_fields w d = (refl, refl)

check-marked :
    (w : ReplayWindow) (seen : List ℕ) (d c : ℕ)
    → Tracks w seen
    → 0 < c
    → c ≤ (check_and_update w d).0.highest
    → (check_and_update w d).0.highest - c < w.size
    → bit (check_and_update w d).0.bitmap ((check_and_update w d).0.highest - c)
      ≡ (if elem c (after w seen d) then 1 else 0)
unfolding check_and_update
check-marked w seen d c t p q r =
    ground
      (arith, marked_advance w seen d c t, marked_old w seen d c t, t.marked c, advance_fields w d)

check-size : (w : ReplayWindow) (d : ℕ) → (check_and_update w d).0.size ≡ w.size
unfolding check_and_update advance
check-size w d = ground arith

check-Tracks :
    (w : ReplayWindow) (seen : List ℕ) (d : ℕ)
    → Tracks w seen
    → Tracks (check_and_update w d).0 (after w seen d)
check-Tracks w seen d t = record {
  height = check-height w seen d t;
  marked = λ c p q r. check-marked w seen d c t p q (rw (check-size w d) at r);
}

run-verdicts :
    (w : ReplayWindow) (seen : List ℕ) (cs : List ℕ)
    → Tracks w seen
    → (run w cs).1 ≡ verdicts w.size seen cs
unfolding run verdicts
run-verdicts w seen [] t = refl
run-verdicts w seen (c ∷ cs) t =
    let ih = run-verdicts (check_and_update w c).0 (after w seen c) cs (check-Tracks w seen c t) in
    rw (← check-is_fresh w seen c t) (
      ap (◌∷◌ (check_and_update w c).1)
        (ih ∙ ap (λ s. verdicts s (after w seen c) cs) (check-size w c)))

init-Tracks : (size : ℕ) → Tracks (init size) []
unfolding init top elem
init-Tracks size = record { height = refl; marked = λ c p q r. absurd (omega arith) }

-- From a new window of any size, the answers to any sequence of counters are those of the description:
-- fresh means not 0, less than `size` below the highest accepted counter, and not accepted before.
pub run-init-verdicts : (size : ℕ) (cs : List ℕ) → (run (init size) cs).1 ≡ verdicts size [] cs
run-init-verdicts size cs = run-verdicts (init size) [] cs (init-Tracks size) ∙ unfold init in refl
