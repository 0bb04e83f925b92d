-- ===== src/Replay/Tests.antt =====
-- Runs of a window of eight counters, and the theorems at them.
use turbobond.Base.{ℕ, ◌≡◌, refl, List, [], ◌∷◌, true, false, elem}
use turbobond.Replay.{init, check_and_update, run}
use turbobond.Replay.Window.{accepted_once}
use turbobond.Replay.Refinement.{run-init-verdicts, verdicts, is_fresh, top}

abbrev arrivals : List ℕ
arrivals = 3 ∷ 1 ∷ 3 ∷ 0 ∷ 20 ∷ 13 ∷ 12 ∷ 13 ∷ []

arrivals-verdicts :
    verdicts 8 [] arrivals ≡ true ∷ true ∷ false ∷ false ∷ true ∷ true ∷ false ∷ false ∷ []
unfolding verdicts is_fresh top elem
arrivals-verdicts = refl

three_accepted : (check_and_update (init 8) 3).1 ≡ true
unfolding init check_and_update
three_accepted = refl

accepted_once_example :
    (check_and_update (run (check_and_update (init 8) 3).0 arrivals).0 3).1 ≡ false
accepted_once_example = accepted_once (init 8) 3 arrivals three_accepted

run-init-verdicts_example : (run (init 8) arrivals).1 ≡ verdicts 8 [] arrivals
run-init-verdicts_example = run-init-verdicts 8 arrivals
