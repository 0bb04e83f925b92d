-- ===== src/Links/Machine.antt =====
-- turbobond/links/monitor.py: the state machine that the probes drive.
use turbobond.Base.{
  ℕ, ◌≤◌, suc, ◌≡◌, refl, true, not, List, [], ◌∷◌, ltb, ◌==◌, if◌then◌else◌, arith, ap, ◌∙◌, ◌&&◌,
  ◌||◌,
}
use turbobond.Base.Floats.{Floats}
use turbobond.Links.{
  Link, LinkState, unknown, up, degraded, down, Probe, probe, probes, probe_link, transition,
  is_state, state_code, evaluate, measured, record_success, record_failure, poor_quality,
}

-- How many of the latest probes in a row failed, and how many succeeded.
module _ {F : Type 0} where
  unfoldable pub failing_run : List (Probe F) → ℕ
  failing_run [] = 0
  failing_run (p ∷ earlier) =
      let rest = failing_run earlier in if p.result.reachable then 0 else suc rest

  unfoldable pub passing_run : List (Probe F) → ℕ
  passing_run [] = 0
  passing_run (p ∷ earlier) =
      let rest = passing_run earlier in if p.result.reachable then suc rest else 0

pub is_state→eq : (a b : LinkState) → is_state a b ≡ true → a ≡ b
unfolding is_state state_code
is_state→eq a b e = ground arith

module _ {F : Type 0} where
  pub transition_state : (l : Link F) (s : LinkState) → (transition l s).0.state ≡ s
  unfolding transition
  transition_state l s = ground (arith, is_state→eq (l.state) s)

  pub transition_enabled : (l : Link F) (s : LinkState) → (transition l s).0.enabled ≡ l.enabled
  unfolding transition
  transition_enabled l s = ground arith

  pub transition_health : (l : Link F) (s : LinkState) → (transition l s).0.health ≡ l.health
  unfolding transition
  transition_health l s = ground arith

module _ {F : Type 0} (fl : Floats F) where
  -- What a probe of an enabled link measures.
  abbrev pub reading : Link F → Probe F → Link F
  reading l p = measured fl l (p.now) (p.result) (p.rx) (p.tx)

  pub probe_on :
      (l : Link F) (p : Probe F)
      → l.enabled ≡ true
      → probe fl l p ≡ transition (reading l p) (evaluate fl (reading l p))
  unfolding probe probe_link
  probe_on l p e = rw (e) refl

  pub probe_state :
      (l : Link F) (p : Probe F)
      → l.enabled ≡ true
      → (probe fl l p).0.state ≡ evaluate fl (reading l p)
  probe_state l p e =
      ap (λ r. r.0.state) (probe_on l p e)
      ∙ transition_state (reading l p) (evaluate fl (reading l p))

  pub probe_health :
      (l : Link F) (p : Probe F) → l.enabled ≡ true → (probe fl l p).0.health ≡ (reading l p).health
  probe_health l p e =
      ap (λ r. r.0.health) (probe_on l p e)
      ∙ transition_health (reading l p) (evaluate fl (reading l p))

  reading_enabled : (l : Link F) (p : Probe F) → (reading l p).enabled ≡ l.enabled
  unfolding measured
  reading_enabled l p = refl

  pub probe_enabled :
      (l : Link F) (p : Probe F) → l.enabled ≡ true → (probe fl l p).0.enabled ≡ true
  probe_enabled l p e =
      ap (λ r. r.0.enabled) (probe_on l p e)
      ∙ (transition_enabled (reading l p) (evaluate fl (reading l p)) ∙ (reading_enabled l p ∙ e))

  pub reading_state : (l : Link F) (p : Probe F) → (reading l p).state ≡ l.state
  unfolding measured
  reading_state l p = refl

  reading_failures :
      (l : Link F) (p : Probe F)
      → (reading l p).health.consecutive_failures
        ≡ (if p.result.reachable then 0 else suc (l.health.consecutive_failures))
  unfolding measured record_success record_failure
  reading_failures l p = ground arith

  reading_successes :
      (l : Link F) (p : Probe F)
      → (reading l p).health.consecutive_successes
        ≡ (if p.result.reachable then suc (l.health.consecutive_successes) else 0)
  unfolding measured record_success record_failure
  reading_successes l p = ground arith

  pub probes_enabled :
      (l : Link F) (ps : List (Probe F)) → l.enabled ≡ true → (probes fl l ps).enabled ≡ true
  unfolding probes
  probes_enabled l [] e = e
  probes_enabled l (p ∷ earlier) e =
      probe_enabled (probes fl l earlier) p (probes_enabled l earlier e)

  -- The counters of a link that starts with none are the runs of its latest probes.
  pub probes_failures :
      (l : Link F) (ps : List (Probe F))
      → l.enabled ≡ true
      → l.health.consecutive_failures ≡ 0
      → (probes fl l ps).health.consecutive_failures ≡ failing_run ps
  unfolding probes failing_run
  probes_failures l [] e z = z
  probes_failures l (p ∷ earlier) e z =
      ap (λ h. h.consecutive_failures)
        (probe_health (probes fl l earlier) p (probes_enabled l earlier e))
      ∙ (reading_failures (probes fl l earlier) p ∙ rw (probes_failures l earlier e z) refl)

  pub probes_successes :
      (l : Link F) (ps : List (Probe F))
      → l.enabled ≡ true
      → l.health.consecutive_successes ≡ 0
      → (probes fl l ps).health.consecutive_successes ≡ passing_run ps
  unfolding probes passing_run
  probes_successes l [] e z = z
  probes_successes l (p ∷ earlier) e z =
      ap (λ h. h.consecutive_successes)
        (probe_health (probes fl l earlier) p (probes_enabled l earlier e))
      ∙ (reading_successes (probes fl l earlier) p ∙ rw (probes_successes l earlier e z) refl)

  -- What `_evaluate` makes of the counters.
  pub evaluate_usable :
      (l : Link F)
      → (l.health.consecutive_failures ≡ 0 → 1 ≤ l.health.consecutive_successes)
      → (is_state (evaluate fl l) up || is_state (evaluate fl l) degraded)
        ≡ ltb (l.health.consecutive_failures) 2
  unfolding evaluate is_state state_code
  evaluate_usable l h = ground arith

  pub evaluate_up :
      (l : Link F)
      → (l.health.consecutive_failures ≡ 0 → 1 ≤ l.health.consecutive_successes)
      → is_state (evaluate fl l) up ≡ (
          (l.health.consecutive_failures == 0)
          && (not (poor_quality fl (l.health))
              && not (
                  (is_state (l.state) down || is_state (l.state) unknown)
                  && ltb (l.health.consecutive_successes) 3)))
  unfolding evaluate is_state state_code
  evaluate_up l h = ground arith

  pub evaluate_first :
      (l : Link F)
      → l.state ≡ unknown
      → l.health.consecutive_failures ≡ 0
      → l.health.consecutive_successes ≡ 1
      → evaluate fl l ≡ degraded
  unfolding evaluate is_state state_code
  evaluate_first l u f s = rw (u, f, s) (ground arith)
