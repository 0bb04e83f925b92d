-- ===== src/Scheduler/Keeps.antt =====
-- turbobond/bond/scheduler.py: a pick changes no packet or byte count of any link.
use turbobond.Base.{
  ℕ, zero, suc, ◌+◌, ◌*◌, ◌%◌, ◌≡◌, refl, ◌∙◌, Bool, true, false, Option, none, some, List, ◌∷◌,
  if◌then◌else◌, length, get_elem?, map,
}
use turbobond.Base.Dict.{Dict, insert}
use turbobond.Base.Floats.{Floats, fsum}
use turbobond.Links.{Link, effective_weight}
use turbobond.Scheduler.{
  BondScheduler, LinkCounters, SchedulerMode, weighted, lowest_latency, redundant, counters_of,
  setdefault, with_per_link, with_counters, paying, try_link, scan, credit, pick_loop, picked,
  weighted_pick, one_link, choose_by, choose,
}
use turbobond.Scheduler.Tally.{
  tally, packets_of, bytes_of, insert_sums, setdefault_sums, credit_sums,
}

module _ {F : Type 0} (fl : Floats F) (key : ℕ) where
  -- The state that a function answers with has the tally of `s`.
  abbrev pub Keeps : {A : Type 0} → BondScheduler F → Option (A × BondScheduler F) → Type 0
  Keeps s none = Unit {0}
  Keeps s (some (a, t)) = tally fl key t ≡ tally fl key s

  -- Two per-link tables of the same sums make the same tally.
  tally_of_sums :
      (s : BondScheduler F) (d : Dict (LinkCounters F))
      → packets_of fl key d ≡ packets_of fl key (s.stats.per_link)
      → bytes_of fl key d ≡ bytes_of fl key (s.stats.per_link)
      → tally fl key (with_per_link fl d s) ≡ tally fl key s
  unfolding tally with_per_link
  tally_of_sums s d p b = rw (p, b) refl

  tally-with_counters :
      (l : Link F) (s : BondScheduler F) → tally fl key (with_counters fl l s) ≡ tally fl key s
  unfolding with_counters
  tally-with_counters l s =
      let sums = setdefault_sums fl key (l.link_id) (s.stats.per_link) in
      tally_of_sums s (setdefault fl (l.link_id) (s.stats.per_link)) sums.0 sums.1

  tally-paying :
      (l : Link F) (i n : ℕ) (len : F) (s : BondScheduler F)
      → tally fl key (paying fl l i n len s) ≡ tally fl key s
  unfolding paying with_per_link tally
  tally-paying l i n len s =
      let old = counters_of fl (l.link_id) (s.stats.per_link) in
      let new = record old { deficit = fl.sub (old.deficit) len } in
      let sums = insert_sums fl key (l.link_id) new (s.stats.per_link) refl refl in
      tally_of_sums s (insert (l.link_id) new (s.stats.per_link)) sums.0 sums.1

  tally-crediting :
      (cs : List (Link F)) (w : F) (s : BondScheduler F)
      → tally fl key
          (with_per_link fl (credit fl cs (length cs) w (s.quantum) (s.stats.per_link)) s)
        ≡ tally fl key s
  tally-crediting cs w s =
      let sums = credit_sums fl key cs (length cs) w (s.quantum) (s.stats.per_link) in
      tally_of_sums s (credit fl cs (length cs) w (s.quantum) (s.stats.per_link)) sums.0 sums.1

  try_link-Keeps :
      (l : Link F) (i n : ℕ) (len : F) (s t : BondScheduler F)
      (rest : Option (Option (Link F) × BondScheduler F))
      → tally fl key t ≡ tally fl key s
      → Keeps s rest
      → Keeps s (try_link fl l i n len t rest)
  unfolding try_link
  try_link-Keeps l i n len s t rest p q =
      elim (fl.le len ((counters_of fl (l.link_id) (t.stats.per_link)).deficit))
        as (λ b. Keeps s (if b then some (some l, paying fl l i n len t) else rest)) [
          | true ↦ tally-paying l i n len t ∙ p
          | false ↦ q
        ]

  scan-Keeps :
      (cs : List (Link F)) (n : F) (offset left : ℕ) (s t : BondScheduler F)
      → tally fl key t ≡ tally fl key s
      → Keeps s (scan fl cs n offset left t)
  unfolding scan
  scan-Keeps cs n offset zero s t p = p
  scan-Keeps cs n offset (suc left) s t p =
      elim (get_elem? cs ((t.cursor + offset) % length cs))
        as (λ o. Keeps s (elim o [
          | none ↦ none
          | some l ↦
              try_link fl l ((t.cursor + offset) % length cs) (length cs) n (with_counters fl l t)
                (scan fl cs n (suc offset) left (with_counters fl l t))
        ])) [
          | none ↦ tt
          | some l ↦
              try_link-Keeps l ((t.cursor + offset) % length cs) (length cs) n s
                (with_counters fl l t) (scan fl cs n (suc offset) left (with_counters fl l t))
                (tally-with_counters l t ∙ p)
                (scan-Keeps cs n (suc offset) left s (with_counters fl l t)
                  (tally-with_counters l t ∙ p))
        ]

  -- The scheduler after the credits of a pass.
  abbrev crediting : List (Link F) → F → BondScheduler F → BondScheduler F
  crediting cs w s = with_per_link fl (credit fl cs (length cs) w (s.quantum) (s.stats.per_link)) s

  pick_loop-Keeps :
      (cs : List (Link F)) (n total : F) (passes : ℕ) (s t : BondScheduler F)
      → tally fl key t ≡ tally fl key s
      → Keeps s (pick_loop fl cs n total passes t)
  unfolding pick_loop
  pick_loop-Keeps cs n total zero s t p = p
  pick_loop-Keeps cs n total (suc passes) s t p =
      elim (scan fl cs n 0 (length cs) t)
          as (λ o.
            Keeps s o
            → Keeps s (elim o [
              | none ↦ none
              | some r ↦ elim (r.0) [
                | some link ↦ some (some link, r.1)
                | none ↦ pick_loop fl cs n total passes (crediting cs total (r.1))
              ]
            ])) [
              | none ↦ λ q. q
              | some (none, r) ↦ λ q.
                  pick_loop-Keeps cs n total passes s (crediting cs total r)
                    (tally-crediting cs total r ∙ q)
              | some (some l, r) ↦ λ q. q
            ]
        (scan-Keeps cs n 0 (length cs) s t p)

  picked-Keeps :
      (l : Link F) (ls : List (Link F)) (s : BondScheduler F)
      (o : Option (Option (Link F) × BondScheduler F))
      → Keeps s o
      → Keeps s (picked fl l ls o)
  unfolding picked
  picked-Keeps l ls s none q = q
  picked-Keeps l ls s (some (some m, t)) q = q
  picked-Keeps l ls s (some (none, t)) q = q

  weighted_pick-Keeps :
      (l : Link F) (ls : List (Link F)) (n : ℕ) (s : BondScheduler F)
      → Keeps s (weighted_pick fl l ls n s)
  unfolding weighted_pick
  weighted_pick-Keeps l ls n s =
      let total = fsum fl (map (effective_weight fl) (l ∷ ls)) (fl.of_ratio 0 1) in
      let passes = length (l ∷ ls) * 2 + 2 in
      let loop = pick_loop fl (l ∷ ls) (fl.of_ratio n 1) total passes s in
      elim (fl.le total (fl.of_ratio 0 1))
        as (λ b. Keeps s (if b then some (l, s) else picked fl l ls loop)) [
          | true ↦ refl
          | false ↦
              picked-Keeps l ls s loop
                (pick_loop-Keeps (l ∷ ls) (fl.of_ratio n 1) total passes s s refl)
        ]

  one_link-Keeps :
      (s : BondScheduler F) (o : Option (Link F × BondScheduler F))
      → Keeps s o
      → Keeps s (one_link fl o)
  unfolding one_link
  one_link-Keeps s none q = q
  one_link-Keeps s (some r) q = q

  choose_by-Keeps :
      (mode : SchedulerMode) (l : Link F) (ls : List (Link F)) (n : ℕ) (s : BondScheduler F)
      → Keeps s (choose_by fl mode l ls n s)
  unfolding choose_by
  choose_by-Keeps redundant l ls n s = refl
  choose_by-Keeps lowest_latency l ls n s = refl
  choose_by-Keeps weighted l ls n s =
      one_link-Keeps s (weighted_pick fl l ls n s) (weighted_pick-Keeps l ls n s)

  pub choose-Keeps :
      (l : Link F) (ls : List (Link F)) (n : ℕ) (critical : Bool) (s : BondScheduler F)
      → Keeps s (choose fl l ls n critical s)
  unfolding choose
  choose-Keeps l ls n true s = refl
  choose-Keeps l ls n false s = choose_by-Keeps (s.mode) l ls n s
