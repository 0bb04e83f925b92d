-- ===== src/Replay.antt =====
-- turbobond/bond/protocol.py, ReplayWindow: the counters of one link that were seen, as a bitmap below
-- the highest one. A Python integer has no width; `x << n` is `x * 2 ^ n`.
pub mod Window
pub mod Refinement
mod Tests
use turbobond.Base.{ℕ, suc, ◌+◌, ◌-◌, ◌*◌, ◌^◌, bit_and, bit_or, Bool, true, false, ltb, leb, ◌==◌}
use turbobond.Base.{not, List, [], ◌∷◌, if◌then◌else◌}

pub record ReplayWindow : Type 0 where
  pub size : ℕ
  pub highest : ℕ
  pub bitmap : ℕ

-- The size of a window that is made without one.
abbrev pub default_size : ℕ
default_size = 4096

-- `__init__`
unfoldable pub init : ℕ → ReplayWindow
init size = record { size = size; highest = 0; bitmap = 0 }

-- A counter above the highest one: the window moves up to it.
unfoldable pub advance : ReplayWindow → ℕ → ReplayWindow
advance w counter =
    let shift = counter - w.highest in
    record w {
      highest = counter;
      bitmap =
          if leb w.size shift
          then 1
          else bit_and (bit_or (w.bitmap * 2 ^ shift) 1) (1 * 2 ^ w.size - 1);
    }

-- The new window, and whether the counter is fresh.
unfoldable pub check_and_update : ReplayWindow → ℕ → ReplayWindow × Bool
check_and_update w counter =
    if counter == 0
    then (w, false)
    else if ltb w.highest counter
    then (advance w counter, true)
    else let offset = w.highest - counter in
      let mask = 1 * 2 ^ offset in
      if leb w.size offset
      then (w, false)
      else if not (bit_and w.bitmap mask == 0)
      then (w, false)
      else (record w { bitmap = bit_or w.bitmap mask }, true)

-- The window after a list of counters, and the answer for each.
unfoldable pub run : ReplayWindow → List ℕ → ReplayWindow × List Bool
run w [] = (w, [])
run w (c ∷ cs) =
    let (w', fresh) = check_and_update w c in let (w'', rest) = run w' cs in (w'', fresh ∷ rest)
