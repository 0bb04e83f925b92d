-- ===== src/Selector/Flags.antt =====
-- turbobond/transport/selector.py: exactly the active route is flagged, and what health stands for.
use turbobond.Base.{
  ℕ, ◌<◌, ◌≡◌, refl, Bool, true, false, ◌&&◌, not, none, some, List, [], ◌∷◌, arith, if_keeps, ◌∙◌,
  leb,
}
use turbobond.Base.Floats.{Floats}
use turbobond.Selector.{
  RouteName, direct, shadow, same_route, RouteStatus, RouteSelector, RoutePolicy, Outcome, returned,
  raised, Answers, Probe, new_selector, failed, excepted, take_probe, take_availability,
  check_route, check_all, activated, switch_to, set_preferred, decide, evaluate, status,
  other_route, fit, recovery_threshold, Event, checked, evaluated, switched, preferred_set, step,
  run,
}

-- A route that is taken for healthy was reachable at its latest check.
pub record Sound {F : Type 0} (s : RouteStatus F) : Type 0 where
  pub available : s.healthy ≡ true → s.available ≡ true
  pub no_failure : s.healthy ≡ true → s.consecutive_failures ≡ 0
  pub some_success : s.healthy ≡ true → 0 < s.consecutive_successes

pub record IsValid {F : Type 0} (v : RouteSelector F) : Type 0 where
  pub direct_flag : v.state.statuses.of_direct.active ≡ same_route direct (v.state.active)
  pub shadow_flag : v.state.statuses.of_shadow.active ≡ same_route shadow (v.state.active)
  pub direct_sound : Sound (v.state.statuses.of_direct)
  pub shadow_sound : Sound (v.state.statuses.of_shadow)

module _ {F : Type 0} where
  -- A status that is not healthy is sound.
  ill-Sound : (s : RouteStatus F) → s.healthy ≡ false → Sound s
  ill-Sound s e = record {
    available = λ h. absurd (ground (arith, e, h));
    no_failure = λ h. absurd (ground (arith, e, h));
    some_success = λ h. absurd (ground (arith, e, h));
  }

  -- The flag is no part of it.
  flag-Sound : (s : RouteStatus F) (b : Bool) → Sound s → Sound (record s { active = b })
  flag-Sound s b o = record {
    available = o.available;
    no_failure = o.no_failure;
    some_success = o.some_success;
  }

  activated-IsValid :
      (n : RouteName) (now : ℕ) (v : RouteSelector F) → IsValid v → IsValid (activated n now v)
  unfolding activated
  activated-IsValid n now v o = record {
    direct_flag = refl;
    shadow_flag = refl;
    direct_sound = flag-Sound (v.state.statuses.of_direct) (same_route direct n) (o.direct_sound);
    shadow_sound = flag-Sound (v.state.statuses.of_shadow) (same_route shadow n) (o.shadow_sound);
  }

  switch_to-IsValid :
      (n : RouteName) (raises : Bool) (now : ℕ) (v : RouteSelector F)
      → IsValid v
      → IsValid ((switch_to (some n) raises now v).1)
  unfolding switch_to
  switch_to-IsValid n raises now v o =
      let P : Bool × RouteSelector F → Type 0 = λ r. IsValid (r.1) in
      if_keeps P (same_route (v.state.active) n) (true, v) _ o
        (if_keeps P (not ((status n (v.state.statuses)).available) && v.policy.has_availability)
          (false, v) _ o
          (if_keeps P (v.policy.has_on_switch && raises) (false, v) _ o
            (activated-IsValid n now v o)))

  set_preferred-IsValid :
      (n : RouteName) (raises : Bool) (now : ℕ) (v : RouteSelector F)
      → IsValid v
      → IsValid ((set_preferred (some n) raises now v).1)
  unfolding set_preferred
  set_preferred-IsValid n raises now v o =
      switch_to-IsValid n raises now
        (record v {
          policy = record (v.policy) { default_route = n };
          state = record (v.state) { preferred = n };
        })
        (record {
          direct_flag = o.direct_flag;
          shadow_flag = o.shadow_flag;
          direct_sound = o.direct_sound;
          shadow_sound = o.shadow_sound;
        })

  decide-IsValid :
      (raises : Bool) (now : ℕ) (v : RouteSelector F) → IsValid v → IsValid (decide raises now v)
  unfolding decide
  decide-IsValid raises now v o =
      let a = status (v.state.active) (v.state.statuses) in
      let p = status (v.state.preferred) (v.state.statuses) in
      if_keeps IsValid (not (v.policy.auto_failover)) v _ o (
        if_keeps IsValid (leb (v.policy.failover_after_failures) (a.consecutive_failures)) _ _
          (if_keeps IsValid (fit (status (other_route (v.state.active)) (v.state.statuses))) _ v
            (switch_to-IsValid (other_route (v.state.active)) raises now v o) o)
          (if_keeps IsValid
            (not (same_route (v.state.active) (v.state.preferred))
              && fit p
              && leb recovery_threshold (p.consecutive_successes))
            _ v (switch_to-IsValid (v.state.preferred) raises now v o) o))

module _ {F : Type 0} (fl : Floats F) where
  take_probe-Sound :
      (r : Outcome (Probe F)) (s : RouteStatus F) → s.available ≡ true → Sound (take_probe fl r s)
  unfolding take_probe excepted failed
  take_probe-Sound (raised m) s e = ill-Sound _ refl
  take_probe-Sound (returned p) s e =
      if_keeps Sound (p.reachable && fl.lt (p.loss_pct) (fl.of_ratio 50 1)) _ _
        (record { available = λ h. e; no_failure = λ h. refl; some_success = λ h. omega arith })
        (ill-Sound _ refl)

  take_availability-Sound :
      (a : Outcome (Bool × _)) (r : Outcome (Probe F)) (s : RouteStatus F)
      → Sound (take_availability fl a r s)
  unfolding take_availability excepted failed
  take_availability-Sound (raised m) r s = ill-Sound _ refl
  take_availability-Sound (returned (true, m)) r s = take_probe-Sound r _ refl
  take_availability-Sound (returned (false, m)) r s = ill-Sound _ refl

  check_route-Sound :
      (p : RoutePolicy) (now : ℕ) (a : Answers F) (s : RouteStatus F)
      → Sound (check_route fl p now a s)
  unfolding check_route
  check_route-Sound p now a s =
      if_keeps Sound (p.has_availability) _ _
        (take_availability-Sound (a.availability) (a.probed) _) (take_probe-Sound (a.probed) _ refl)

  take_probe_active :
      (r : Outcome (Probe F)) (s : RouteStatus F) → (take_probe fl r s).active ≡ s.active
  unfolding take_probe excepted failed
  take_probe_active (raised m) s = refl
  take_probe_active (returned p) s =
      if_keeps (λ (x : RouteStatus F). x.active ≡ s.active)
        (p.reachable && fl.lt (p.loss_pct) (fl.of_ratio 50 1)) _ _ refl refl

  take_availability_active :
      (a : Outcome (Bool × _)) (r : Outcome (Probe F)) (s : RouteStatus F)
      → (take_availability fl a r s).active ≡ s.active
  unfolding take_availability excepted failed
  take_availability_active (raised m) r s = refl
  take_availability_active (returned (true, m)) r s = take_probe_active r _
  take_availability_active (returned (false, m)) r s = refl

  pub check_route_active :
      (p : RoutePolicy) (now : ℕ) (a : Answers F) (s : RouteStatus F)
      → (check_route fl p now a s).active ≡ s.active
  unfolding check_route
  check_route_active p now a s =
      if_keeps (λ (x : RouteStatus F). x.active ≡ s.active) (p.has_availability) _ _
        (take_availability_active (a.availability) (a.probed) _) (take_probe_active (a.probed) _)

  check_all-IsValid :
      (now : ℕ) (d s : Answers F) (v : RouteSelector F)
      → IsValid v
      → IsValid (check_all fl now d s v)
  unfolding check_all
  check_all-IsValid now d s v o = record {
    direct_flag = check_route_active (v.policy) now d (v.state.statuses.of_direct) ∙ o.direct_flag;
    shadow_flag = check_route_active (v.policy) now s (v.state.statuses.of_shadow) ∙ o.shadow_flag;
    direct_sound = check_route-Sound (v.policy) now d (v.state.statuses.of_direct);
    shadow_sound = check_route-Sound (v.policy) now s (v.state.statuses.of_shadow);
  }

  step-IsValid : (e : Event F) (v : RouteSelector F) → IsValid v → IsValid (step fl e v)
  unfolding step evaluate switch_to set_preferred
  step-IsValid (checked d s now) v o = check_all-IsValid now d s v o
  step-IsValid (evaluated d s raises now) v o =
      decide-IsValid raises now _ (check_all-IsValid now d s v o)
  step-IsValid (switched none raises now) v o = o
  step-IsValid (switched (some n) raises now) v o = switch_to-IsValid n raises now v o
  step-IsValid (preferred_set none raises now) v o = o
  step-IsValid (preferred_set (some n) raises now) v o = set_preferred-IsValid n raises now v o

  run_keeps-IsValid :
      (es : List (Event F)) (v : RouteSelector F) → IsValid v → IsValid (run fl es v)
  unfolding run
  run_keeps-IsValid [] v o = o
  run_keeps-IsValid (e ∷ es) v o = run_keeps-IsValid es (step fl e v) (step-IsValid e v o)

  -- After whatever checks, evaluations, switches and changes of preference, of a new selector exactly
  -- the active route is flagged as active, and a route that is taken for healthy is available, has no
  -- failure counted and at least one success.
  pub run-new_selector :
      (zero : F) (policy : RoutePolicy) (es : List (Event F))
      → IsValid (run fl es (new_selector zero policy))
  unfolding new_selector
  run-new_selector zero policy es = run_keeps-IsValid es _ (record {
    direct_flag = refl;
    shadow_flag = refl;
    direct_sound = ill-Sound _ refl;
    shadow_sound = ill-Sound _ refl;
  })
