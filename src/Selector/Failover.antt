-- ===== src/Selector/Failover.antt =====
-- turbobond/transport/selector.py: a route that keeps failing is left for the other one.
use turbobond.Base.{
  ℕ, ◌+◌, ◌≤◌, ◌<◌, ◌≡◌, refl, sym, subst, ap, ◌∙◌, ◌⊎◌, inl, inr, Bool, true, false, ◌&&◌, Option,
  none, some, List, [], ◌∷◌, length, map, All, if_split, if◌then◌else◌, arith,
}
use Prim.Native.String.{String}
use turbobond.Base.Floats.{Floats}
use turbobond.Selector.{
  RouteName, direct, shadow, same_route, other_route, RouteStatus, Statuses, RouteSelector,
  RoutePolicy, Answers, Probe, Outcome, returned, raised, status, fit, failed, activated, switch_to,
  decide, evaluate, check_route, take_availability, take_probe, check_all, Event, evaluated, step,
  run,
}

module _ {F : Type 0} (fl : Floats F) where
  -- What the answers of a check say of the route, where nothing was raised.
  abbrev probe_verdict : Outcome (Probe F) → Option Bool
  probe_verdict (raised m) = none
  probe_verdict (returned p) = some (p.reachable && fl.lt (p.loss_pct) (fl.of_ratio 50 1))

  abbrev verdict : Bool → Outcome (Bool × String) → Outcome (Probe F) → Option Bool
  verdict false a p = probe_verdict p
  verdict true (raised m) p = none
  verdict true (returned (false, m)) p = some false
  verdict true (returned (true, m)) p = probe_verdict p

  -- One turn of the loop, without a failure of the switch: the answers for both routes and the time.
  abbrev pub Turn : Type 0
  Turn = Answers F × Answers F × ℕ

  abbrev pub answers_on : RouteName → Turn → Answers F
  answers_on direct t = t.0
  answers_on shadow t = t.1

  abbrev pub turned : Turn → Event F
  turned (d, s, now) = evaluated d s false now

  -- In this turn the route fails, and the other one answers.
  abbrev pub Fails : RouteName → Bool → Turn → Type 0
  Fails a checks t =
      (verdict checks ((answers_on a t).availability) ((answers_on a t).probed) ≡ some false)
      × (verdict checks ((answers_on (other_route a) t).availability)
            ((answers_on (other_route a) t).probed)
          ≡ some true)

  abbrev Bad : RouteStatus F → RouteStatus F → Type 0
  Bad s r = (r.healthy ≡ false) × (r.consecutive_failures ≡ s.consecutive_failures + 1)

  probe-Bad :
      (p : Outcome (Probe F)) (s : RouteStatus F)
      → probe_verdict p ≡ some false
      → Bad s (take_probe fl p s)
  unfolding take_probe failed
  probe-Bad (raised m) s e = absurd (ground (arith, e))
  probe-Bad (returned p) s e =
      if_split (Bad s) (p.reachable && fl.lt (p.loss_pct) (fl.of_ratio 50 1)) _ _
        (λ t. absurd (ground (arith, e, t))) (λ t. (refl, refl))

  probe_good :
      (p : Outcome (Probe F)) (s : RouteStatus F)
      → probe_verdict p ≡ some true
      → s.available ≡ true
      → fit (take_probe fl p s) ≡ true
  unfolding take_probe failed fit
  probe_good (raised m) s e h = absurd (ground (arith, e))
  probe_good (returned p) s e h = ground (arith, e, h)

  check-Bad :
      (checks : Bool) (a : Outcome (Bool × String)) (r : Outcome (Probe F)) (s : RouteStatus F)
      → verdict checks a r ≡ some false
      → Bad s (
          if checks
          then take_availability fl a r s
          else take_probe fl r (record s { available = true }))
  unfolding take_availability failed
  check-Bad false a r s e = probe-Bad r _ e
  check-Bad true (raised m) r s e = absurd (ground (arith, e))
  check-Bad true (returned (false, m)) r s e = (refl, refl)
  check-Bad true (returned (true, m)) r s e = probe-Bad r _ e

  check_good :
      (checks : Bool) (a : Outcome (Bool × String)) (r : Outcome (Probe F)) (s : RouteStatus F)
      → verdict checks a r ≡ some true
      → fit (
          if checks
          then take_availability fl a r s
          else take_probe fl r (record s { available = true }))
        ≡ true
  unfolding take_availability
  check_good false a r s e = probe_good r _ e refl
  check_good true (raised m) r s e = absurd (ground (arith, e))
  check_good true (returned (false, m)) r s e = absurd (ground (arith, e))
  check_good true (returned (true, m)) r s e = probe_good r _ e refl

  -- What the checks of such a turn find.
  checked-Fails :
      (a : RouteName) (t : Turn) (v : RouteSelector F)
      → Fails a (v.policy.has_availability) t
      → Bad
          (status a (v.state.statuses))
          (status a ((check_all fl (t.2) (t.0) (t.1) v).state.statuses))
        × (fit (status (other_route a) ((check_all fl (t.2) (t.0) (t.1) v).state.statuses)) ≡ true)
  unfolding check_all check_route status other_route
  checked-Fails direct (d, s, now) v (b, g) = (
    check-Bad (v.policy.has_availability) (d.availability) (d.probed) _ b,
    check_good (v.policy.has_availability) (s.availability) (s.probed) _ g,
  )
  checked-Fails shadow (d, s, now) v (b, g) = (
    check-Bad (v.policy.has_availability) (s.availability) (s.probed) _ b,
    check_good (v.policy.has_availability) (d.availability) (d.probed) _ g,
  )

module _ {F : Type 0} where
  -- Where a turn leads: the other route, or still the same one, which has not failed often enough.
  abbrev pub Led : RouteName → RouteSelector F → RouteSelector F → Type 0
  Led a v w =
      (w.policy ≡ v.policy)
      × ((status a (w.state.statuses)).consecutive_failures
          ≡ (status a (v.state.statuses)).consecutive_failures)
      × ((w.state.active ≡ other_route a)
          ⊎ ((w.state.active ≡ a)
              × (v.state.active ≡ a)
              × ((status a (v.state.statuses)).consecutive_failures
                  < v.policy.failover_after_failures)))

  abbrev selector : RoutePolicy → RouteName → RouteName → ℕ → ℕ → Statuses F → RouteSelector F
  selector p act pref n ts s = record {
    policy = p;
    state = record {
      active = act;
      preferred = pref;
      switches = n;
      last_switch_ts = ts;
      statuses = s;
    };
  }

  decide-Led :
      (a act pref : RouteName) (p : RoutePolicy) (n ts now : ℕ) (s : Statuses F)
      → p.auto_failover ≡ true
      → (status a s).healthy ≡ false
      → fit (status (other_route a) s) ≡ true
      → Led a (selector p act pref n ts s) (decide false now (selector p act pref n ts s))
  unfolding decide switch_to activated status fit other_route same_route
  decide-Led direct direct direct p n ts now s e b g = ground (arith, e, b, g)
  decide-Led direct direct shadow p n ts now s e b g = ground (arith, e, b, g)
  decide-Led direct shadow direct p n ts now s e b g = ground (arith, e, b, g)
  decide-Led direct shadow shadow p n ts now s e b g = ground (arith, e, b, g)
  decide-Led shadow direct direct p n ts now s e b g = ground (arith, e, b, g)
  decide-Led shadow direct shadow p n ts now s e b g = ground (arith, e, b, g)
  decide-Led shadow shadow direct p n ts now s e b g = ground (arith, e, b, g)
  decide-Led shadow shadow shadow p n ts now s e b g = ground (arith, e, b, g)

module _ {F : Type 0} (fl : Floats F) where
  -- After `k` such turns.
  abbrev After : RouteName → ℕ → RouteSelector F → Type 0
  After a k v =
      (v.state.active ≡ other_route a)
      ⊎ ((v.state.active ≡ a)
          × (k ≤ (status a (v.state.statuses)).consecutive_failures)
          × ((k ≡ 0) ⊎ (k < v.policy.failover_after_failures)))

  both_routes : (a b : RouteName) → (b ≡ a) ⊎ (b ≡ other_route a)
  unfolding other_route
  both_routes direct direct = inl refl
  both_routes direct shadow = inr refl
  both_routes shadow direct = inr refl
  both_routes shadow shadow = inl refl

  other_route_moves : (a b : RouteName) → b ≡ a → b ≡ other_route a → ⊥
  unfolding other_route
  other_route_moves direct b e f = absurd (ground (arith, e, f))
  other_route_moves shadow b e f = absurd (ground (arith, e, f))

  turn-After :
      (a : RouteName) (k : ℕ) (t : Turn fl) (v : RouteSelector F)
      → v.policy.auto_failover ≡ true
      → Fails fl a (v.policy.has_availability) t
      → After a k v
      → (let w = step fl (turned fl t) v in (w.policy ≡ v.policy) × After a (k + 1) w)
  unfolding step evaluate check_all
  turn-After a k (d, s, now) v auto f o =
      let w = check_all fl now d s v in
      let ((ill, more), good) = checked-Fails fl a (d, s, now) v f in
      let (same, count, led) =
        decide-Led a (w.state.active) (w.state.preferred) (w.policy) (w.state.switches)
          (w.state.last_switch_ts) now (w.state.statuses) auto ill good in
      (
        same,
        elim led [
          | inl e ↦ inl e
          | inr (e, was, few) ↦ elim o [
            | inl other ↦ absurd (other_route_moves a (v.state.active) was other)
            | inr (_, counted, _) ↦
                inr (e, omega arith, inr (omega (arith, ap (λ p. p.failover_after_failures) same)))
          ]
        ],
      )

  turns-After :
      (a : RouteName) (k : ℕ) (ts : List (Turn fl)) (v : RouteSelector F)
      → v.policy.auto_failover ≡ true
      → All (Fails fl a (v.policy.has_availability)) ts
      → After a k v
      → (let w = run fl (map (turned fl) ts) v in (w.policy ≡ v.policy) × After a (k + length ts) w)
  unfolding run
  turns-After a k [] v auto f o = (refl, subst (λ i. After a i v) (omega arith) o)
  turns-After a k (t ∷ ts) v auto (f, fs) o =
      let w = step fl (turned fl t) v in
      let (same, o') = turn-After a k t v auto f o in
      let (same', last) =
        turns-After a (k + 1) ts w (ap (λ p. p.auto_failover) same ∙ auto)
          (subst (λ p. All (Fails fl a (p.has_availability)) ts) (sym same) fs) o' in
      (same' ∙ same, subst (λ i. After a i (run fl (map (turned fl) ts) w)) (omega arith) last)

  -- With automatic failover, once a route has failed and the other one has answered in as many
  -- evaluations in a row as the policy asks for, and in at least one, the other route is active,
  -- whichever was active and whichever is preferred before, where no switch raises.
  pub turns_fail_over :
      (a : RouteName) (ts : List (Turn fl)) (v : RouteSelector F)
      → v.policy.auto_failover ≡ true
      → All (Fails fl a (v.policy.has_availability)) ts
      → 0 < length ts
      → v.policy.failover_after_failures ≤ length ts
      → (run fl (map (turned fl) ts) v).state.active ≡ other_route a
  turns_fail_over a ts v auto f some_turn enough =
      let start : After a 0 v = elim (both_routes a (v.state.active)) [
        | inl e ↦ inr (e, omega arith, inl refl)
        | inr e ↦ inl e
      ] in
      let (same, last) = turns-After a 0 ts v auto f start in
      elim last [
        | inl e ↦ e
        | inr (e, _, inl none_yet) ↦ absurd (omega arith)
        | inr (e, _, inr few) ↦ absurd (omega (arith, ap (λ p. p.failover_after_failures) same))
      ]
