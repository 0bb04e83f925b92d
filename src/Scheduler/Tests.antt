-- ===== src/Scheduler/Tests.antt =====
-- Runs of the scheduler, and the theorems on them at concrete links.
use turbobond.Base.{ℕ, ◌≡◌, refl, ◌⊎◌, true, false, ◌&&◌, ◌||◌, List, [], ◌∷◌, some, elem, arith}
use turbobond.Base.Milli.{milli}
use turbobond.Links.{Link, up, usable, is_state, state_code}
use turbobond.Scheduler.{
  BondScheduler, Call, pick, relink, new_scheduler, candidates, prefer, ready, select, calls,
}
use turbobond.Scheduler.Example.{uplink, three_links}
use turbobond.Scheduler.Runs.{Sent, dropping, select_cases}
use turbobond.Scheduler.Totals.{Adds, calls-Adds}
use turbobond.Scheduler.Packet.{is_critical_packet}
use turbobond.Scheduler.Critical.{ipv4, is_critical_packet-ipv4}

two_candidates : candidates three_links ≡ uplink 1 up ∷ uplink 2 up ∷ []
unfolding candidates prefer ready usable is_state state_code new_scheduler
two_candidates = refl

select_cases_example :
    ((candidates three_links ≡ [])
      × (select milli 900 false three_links ≡ some ([], dropping milli three_links)))
    ⊎ ((chosen : List (Link ℕ)) × (t : BondScheduler ℕ) × (select milli 900 false three_links
          ≡ some (chosen, t))
        × Sent milli 900 three_links chosen t)
select_cases_example = select_cases milli 900 false three_links

abbrev three_calls : List (Call ℕ)
three_calls = pick 900 false ∷ relink (uplink 2 up ∷ []) ∷ pick 700 true ∷ []

calls-Adds_example :
    (log : List (ℕ × List (Link ℕ))) × (t : BondScheduler ℕ) × (calls milli three_calls three_links
      ≡ some (log, t))
    × Adds milli log three_links t
calls-Adds_example = calls-Adds milli three_calls three_links

abbrev eight_zeros : List ℕ
eight_zeros = 0 ∷ 0 ∷ 0 ∷ 0 ∷ 0 ∷ 0 ∷ 0 ∷ 0 ∷ []

is_critical_packet-ipv4_example :
    is_critical_packet (ipv4 5 eight_zeros 17 (0 ∷ 0 ∷ eight_zeros) 40000 5060 (1 ∷ [])) (5060 ∷ [])
    ≡ (elem 17 (6 ∷ 17 ∷ 132 ∷ []) && (elem 40000 (5060 ∷ []) || elem 5060 (5060 ∷ [])))
is_critical_packet-ipv4_example =
    is_critical_packet-ipv4 5 17 40000 5060 eight_zeros (0 ∷ 0 ∷ eight_zeros) (1 ∷ []) (5060 ∷ [])
      (omega arith) (omega arith) refl refl (omega arith) (omega arith)
