-- ===== src/Scheduler/Totals.antt =====
-- turbobond/bond/scheduler.py: what a row of calls adds up to.
use turbobond.Base.{
  ℕ, ◌+◌, ◌*◌, ◌≡◌, refl, sym, inl, inr, Bool, some, List, [], ◌∷◌, length, arith, subst,
}
use turbobond.Base.Floats.{Floats}
use turbobond.Links.{Link}
use turbobond.Scheduler.{BondScheduler, Call, pick, relink, select, set_links, with_per_link, calls}
use turbobond.Scheduler.Tally.{Tally, tally, times, sync_counters_sums}
use turbobond.Scheduler.Runs.{dropping, counted, select_cases}

module _ {F : Type 0} (fl : Floats F) where
  -- The packets that a log puts on the link id, and their bytes.
  unfoldable pub copies : ℕ → List (ℕ × List (Link F)) → ℕ
  copies key [] = 0
  copies key ((n, ls) ∷ log) = times key ls + copies key log

  unfoldable pub carried : ℕ → List (ℕ × List (Link F)) → ℕ
  carried key [] = 0
  carried key ((n, ls) ∷ log) = n * times key ls + carried key log

  abbrev Plus : ℕ → List (ℕ × List (Link F)) → Tally → Tally → Type 0
  Plus key log x y =
      (y.packets ≡ x.packets + copies key log)
      × (y.bytes ≡ x.bytes + carried key log)
      × (y.total_packets + y.dropped ≡ x.total_packets + x.dropped + length log)

  -- What a row of calls adds to the counters, by its log.
  abbrev pub Adds : List (ℕ × List (Link F)) → BondScheduler F → BondScheduler F → Type 0
  Adds log s t = (key : ℕ) → Plus key log (tally fl key s) (tally fl key t)

  Adds-of_counted :
      (n : ℕ) (chosen : List (Link F)) (s t : BondScheduler F)
      → ((key : ℕ) → tally fl key t ≡ counted n (times key chosen) (tally fl key s))
      → Adds ((n, chosen) ∷ []) s t
  unfolding counted copies carried
  Adds-of_counted n chosen s t k key =
      subst (Plus key ((n, chosen) ∷ []) (tally fl key s)) (sym (k key))
        (omega arith, omega arith, omega arith)

  select-Adds :
      (n : ℕ) (critical : Bool) (s : BondScheduler F)
      → (chosen : List (Link F)) × (t : BondScheduler F) × (select fl n critical s
          ≡ some (chosen, t))
        × Adds ((n, chosen) ∷ []) s t
  unfolding tally copies carried times
  select-Adds n critical s = elim (select_cases fl n critical s) [
    | inl (e, d) ↦ ([], dropping fl s, d, λ key. (omega arith, omega arith, omega arith))
    | inr (chosen, t, d, (h, (c, k))) ↦ (chosen, t, d, Adds-of_counted n chosen s t k)
  ]

  set_links-tally :
      (key : ℕ) (links : List (Link F)) (s : BondScheduler F)
      → tally fl key (set_links fl links s) ≡ tally fl key s
  unfolding set_links tally with_per_link
  set_links-tally key links s =
      let sums = sync_counters_sums fl key links (s.stats.per_link) in rw (sums.0, sums.1) refl

  Adds-trans :
      (log : List (ℕ × List (Link F))) (n : ℕ) (chosen : List (Link F)) (s t u : BondScheduler F)
      → Adds ((n, chosen) ∷ []) s t
      → Adds log t u
      → Adds ((n, chosen) ∷ log) s u
  unfolding copies carried
  Adds-trans log n chosen s t u a b key =
      let p = a key in
      let q = b key in (omega (arith, p.0, q.0), omega (arith, p.1, q.1), omega (arith, p.2, q.2))

  calls_pick :
      (cs : List (Call F)) (n : ℕ) (critical : Bool) (s t u : BondScheduler F)
      (chosen : List (Link F)) (log : List (ℕ × List (Link F)))
      → select fl n critical s ≡ some (chosen, t)
      → calls fl cs t ≡ some (log, u)
      → calls fl (pick n critical ∷ cs) s ≡ some ((n, chosen) ∷ log, u)
  unfolding calls
  calls_pick cs n critical s t u chosen log d e = rw (d, calls) (rw (e, calls) refl)

  -- Any row of calls is answered, the counters of each link id grow by exactly the packets and bytes that
  -- the answers put on links with the id, and every packet is counted as sent or as dropped.
  pub calls-Adds :
      (cs : List (Call F)) (s : BondScheduler F)
      → (log : List (ℕ × List (Link F))) × (t : BondScheduler F) × (calls fl cs s ≡ some (log, t))
        × Adds log s t
  unfolding calls copies carried
  calls-Adds [] s = ([], s, refl, λ key. (omega arith, omega arith, omega arith))
  calls-Adds (relink links ∷ cs) s =
      let (log, t, e, a) = calls-Adds cs (set_links fl links s) in
      (
        log,
        t,
        e,
        λ key. subst (λ y. Plus key log y (tally fl key t)) (set_links-tally key links s) (a key),
      )
  calls-Adds (pick n critical ∷ cs) s =
      let (chosen, t, d, a) = select-Adds n critical s in
      let (log, u, e, b) = calls-Adds cs t in
      (
        (n, chosen) ∷ log,
        u,
        calls_pick cs n critical s t u chosen log d e,
        Adds-trans log n chosen s t u a b,
      )
