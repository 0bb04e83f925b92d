-- ===== src/Links/Runs.antt =====
-- turbobond/links/monitor.py: what a link's state says of its latest probes.
use turbobond.Base.{
  ◌≤◌, ◌≡◌, refl, ap, sym, ◌∙◌, true, not, ◌&&◌, ◌||◌, List, [], ◌∷◌, ltb, ◌==◌, arith,
}
use turbobond.Base.Floats.{Floats}
use turbobond.Links.{
  Link, unknown, up, degraded, down, Probe, usable, healthy, probes, is_state, state_code, evaluate,
  poor_quality,
}
use turbobond.Links.Machine.{
  failing_run, passing_run, reading, probe_state, probe_health, probes_enabled, probes_failures,
  probes_successes, evaluate_usable, evaluate_up, evaluate_first, reading_state,
}

module _ {F : Type 0} where
  passing_of_no_failing :
      (p : Probe F) (h : List (Probe F)) → failing_run (p ∷ h) ≡ 0 → 1 ≤ passing_run (p ∷ h)
  unfolding failing_run passing_run
  passing_of_no_failing p h e = ground arith

module _ {F : Type 0} (fl : Floats F) where
  -- The state after at least one probe, by the runs.
  probes_state :
      (l : Link F) (p : Probe F) (h : List (Probe F))
      → l.enabled ≡ true
      → (probes fl l (p ∷ h)).state ≡ evaluate fl (reading fl (probes fl l h) p)
  unfolding probes
  probes_state l p h e = probe_state fl (probes fl l h) p (probes_enabled fl l h e)

  probes-reading :
      (l : Link F) (p : Probe F) (h : List (Probe F))
      → l.enabled ≡ true
      → (probes fl l (p ∷ h)).health ≡ (reading fl (probes fl l h) p).health
  unfolding probes
  probes-reading l p h e = probe_health fl (probes fl l h) p (probes_enabled fl l h e)

  usable_of_state :
      (l : Link F)
      → l.enabled ≡ true
      → usable l ≡ (is_state (l.state) up || is_state (l.state) degraded)
  unfolding usable
  usable_of_state l e = rw (e) refl

  healthy_of_state : (l : Link F) → l.enabled ≡ true → healthy l ≡ is_state (l.state) up
  unfolding healthy
  healthy_of_state l e = rw (e) refl

  module _ (l : Link F) (p : Probe F) (h : List (Probe F)) (on : l.enabled ≡ true)
      (f0 : l.health.consecutive_failures ≡ 0) (s0 : l.health.consecutive_successes ≡ 0) where
    run_failures : (reading fl (probes fl l h) p).health.consecutive_failures ≡ failing_run (p ∷ h)
    run_failures =
        ap (λ x. x.consecutive_failures) (sym (probes-reading l p h on))
        ∙ probes_failures fl l (p ∷ h) on f0

    run_successes :
        (reading fl (probes fl l h) p).health.consecutive_successes ≡ passing_run (p ∷ h)
    run_successes =
        ap (λ x. x.consecutive_successes) (sym (probes-reading l p h on))
        ∙ probes_successes fl l (p ∷ h) on s0

    run_starts :
        (reading fl (probes fl l h) p).health.consecutive_failures ≡ 0
        → 1 ≤ (reading fl (probes fl l h) p).health.consecutive_successes
    run_starts e = rw (run_successes) (passing_of_no_failing p h (sym run_failures ∙ e))

    -- A new enabled link that has been probed is usable exactly when fewer than two of its latest
    -- probes in a row have failed.
    pub usable-probes : usable (probes fl l (p ∷ h)) ≡ ltb (failing_run (p ∷ h)) 2
    usable-probes =
        usable_of_state (probes fl l (p ∷ h)) (probes_enabled fl l (p ∷ h) on)
        ∙ (ap (λ s. is_state s up || is_state s degraded) (probes_state l p h on)
            ∙ (evaluate_usable fl (reading fl (probes fl l h) p) run_starts
                ∙ ap (λ n. ltb n 2) run_failures))

    -- A new enabled link that has been probed is healthy exactly when its latest probe succeeded, its
    -- averages are within the limits, and it was not down or unknown before that probe with fewer than
    -- three successes in a row by now.
    pub healthy-probes : healthy (probes fl l (p ∷ h)) ≡ (
        (failing_run (p ∷ h) == 0)
        && (not (poor_quality fl ((probes fl l (p ∷ h)).health))
            && not (
                (is_state ((probes fl l h).state) down || is_state ((probes fl l h).state) unknown)
                && ltb (passing_run (p ∷ h)) 3)))
    healthy-probes =
        healthy_of_state (probes fl l (p ∷ h)) (probes_enabled fl l (p ∷ h) on)
        ∙ (ap (λ s. is_state s up) (probes_state l p h on)
            ∙ (evaluate_up fl (reading fl (probes fl l h) p) run_starts
                ∙ rw
                    (
                      run_failures,
                      run_successes,
                      ← probes-reading l p h on,
                      reading_state fl (probes fl l h) p,
                    )
                    refl))

  one_run : (p : Probe F) → p.result.reachable ≡ true → passing_run (p ∷ []) ≡ 1
  unfolding passing_run
  one_run p e = rw (e) refl

  no_failing :
      (p : Probe F) (h : List (Probe F)) → p.result.reachable ≡ true → failing_run (p ∷ h) ≡ 0
  unfolding failing_run
  no_failing p h e = rw (e) refl

  first_success :
      (l : Link F) (p : Probe F)
      → l.enabled ≡ true
      → l.state ≡ unknown
      → l.health.consecutive_failures ≡ 0
      → l.health.consecutive_successes ≡ 0
      → p.result.reachable ≡ true
      → (probes fl l (p ∷ [])).state ≡ degraded
  unfolding probes
  first_success l p on u f0 s0 e =
      probes_state l p [] on
      ∙ evaluate_first fl (reading fl l p) (reading_state fl l p ∙ u)
          (run_failures l p [] on f0 s0 ∙ no_failing p [] e)
          (run_successes l p [] on f0 s0 ∙ one_run p e)

  -- A new enabled link of unknown state whose first two probes succeed is healthy after the second,
  -- unless its averages are outside the limits then: two successes are enough.
  pub second_success :
      (l : Link F) (first second : Probe F)
      → l.enabled ≡ true
      → l.state ≡ unknown
      → l.health.consecutive_failures ≡ 0
      → l.health.consecutive_successes ≡ 0
      → first.result.reachable ≡ true
      → second.result.reachable ≡ true
      → healthy (probes fl l (second ∷ first ∷ []))
        ≡ not (poor_quality fl ((probes fl l (second ∷ first ∷ [])).health))
  unfolding is_state state_code
  second_success l first second on u f0 s0 e1 e2 =
      healthy-probes l second (first ∷ []) on f0 s0
      ∙ rw (first_success l first on u f0 s0 e1, no_failing second (first ∷ []) e2) (ground arith)
