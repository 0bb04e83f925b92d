-- ===== src/Selector/Tests.antt =====
-- A selector over floats in thousandths, and the theorems on it.
use turbobond.Base.{ℕ, ◌≡◌, refl, true, false, some, List, [], ◌∷◌, map, arith}
use turbobond.Base.Milli.{milli}
use turbobond.Selector.{
  direct, shadow, same_route, other_route, RouteSelector, RoutePolicy, Answers, returned,
  new_selector, status, fit, switch_to, set_preferred, evaluate, check_all, check_route,
  take_availability, take_probe, failed, decide, activated, checked, evaluated, switched, step, run,
}
use turbobond.Selector.Flags.{IsValid, run-new_selector}
use turbobond.Selector.Moves.{Justified, evaluate-Justified}
use turbobond.Selector.Failover.{turned, turns_fail_over}

abbrev policy : RoutePolicy
policy = record {
  default_route = direct;
  failover_after_failures = 3;
  auto_failover = true;
  has_on_switch = true;
  has_availability = true;
}

abbrev good : Answers ℕ
good = record {
  availability = returned (true, "");
  probed = returned (record { reachable = true; rtt_ms = 20000; loss_pct = 0; error = "" });
}

abbrev bad : Answers ℕ
bad = record {
  availability = returned (true, "");
  probed = returned (record { reachable = false; rtt_ms = 0; loss_pct = 0; error = "timeout" });
}

abbrev new : RouteSelector ℕ
new = new_selector 0 policy

abbrev failing : List (Answers ℕ × Answers ℕ × ℕ)
failing = (bad, good, 1) ∷ (bad, good, 2) ∷ (bad, good, 3) ∷ []

-- Two failures are not enough, three are.
two_failures :
    (run milli (map (turned milli) ((bad, good, 1) ∷ (bad, good, 2) ∷ [])) new).state.active
    ≡ direct
unfolding run step evaluate check_all check_route take_availability take_probe failed decide
    switch_to activated status fit other_route same_route new_selector
two_failures = refl

-- A preference for a route that is not available is kept, though the switch is refused.
refused_preference :
    ((set_preferred (some shadow) false 1 new).0 ≡ false)
    × ((set_preferred (some shadow) false 1 new).1.state.preferred ≡ shadow)
unfolding set_preferred switch_to status same_route new_selector
refused_preference = (refl, refl)

run-new_selector_example : IsValid (
    run milli
      (checked good good 1 ∷ switched (some shadow) false 2 ∷ evaluated good bad false 3 ∷ [])
      (new_selector 0 policy))
run-new_selector_example =
    run-new_selector milli 0 policy
      (checked good good 1 ∷ switched (some shadow) false 2 ∷ evaluated good bad false 3 ∷ [])

evaluate-Justified_example :
    Justified (check_all milli 1 bad good new) ((evaluate milli bad good false 1 new).state.active)
evaluate-Justified_example = evaluate-Justified milli bad good false 1 new

turns_fail_over_example : (run milli (map (turned milli) failing) new).state.active ≡ shadow
unfolding other_route new_selector
turns_fail_over_example =
    turns_fail_over milli direct failing new refl ((refl, refl), ((refl, refl), ((refl, refl), tt)))
      (omega arith) (omega arith)
