-- ===== src/Selector/Moves.antt =====
-- turbobond/transport/selector.py: when the active route changes.
use turbobond.Base.{
  ℕ, ◌≤◌, ◌≡◌, refl, sym, ◌⊎◌, inl, inr, Bool, true, false, ◌&&◌, not, some, if_split, if_keeps,
  if◌then◌else◌, leb→le, arith,
}
use turbobond.Base.Floats.{Floats}
use turbobond.Selector.{
  RouteName, direct, shadow, same_route, other_route, RouteSelector, Answers, status, fit,
  activated, switch_to, decide, evaluate, check_all, recovery_threshold,
}

pub same_route→eq : (a b : RouteName) → same_route a b ≡ true → a ≡ b
unfolding same_route
same_route→eq direct direct e = refl
same_route→eq direct shadow e = absurd (ground (arith, e))
same_route→eq shadow direct e = absurd (ground (arith, e))
same_route→eq shadow shadow e = refl

pub same_route_refl : (a : RouteName) → same_route a a ≡ true
unfolding same_route
same_route_refl direct = refl
same_route_refl shadow = refl

module _ {F : Type 0} where
  -- What `switch_to` answers, and what it leaves when it refuses.
  abbrev Answer : RouteName → RouteSelector F → Bool × RouteSelector F → Type 0
  Answer n v r = (r.0 ≡ same_route (r.1.state.active) n) × (r.0 ≡ false → r.1 ≡ v)

  -- `switch_to` answers whether the route is the active one after the call, and a refusal changes
  -- nothing.
  pub switch_to-Answer :
      (n : RouteName) (raises : Bool) (now : ℕ) (v : RouteSelector F)
      → Answer n v (switch_to (some n) raises now v)
  unfolding switch_to activated
  switch_to-Answer n raises now v =
      if_split (Answer n v) (same_route (v.state.active) n) (true, v) _
        (λ e. (sym e, λ h. absurd (ground (arith, h))))
        (λ e.
          let refused : Answer n v (false, v) = (sym e, λ h. refl) in
          if_keeps (Answer n v) _ _ _ refused (
            if_keeps (Answer n v) _ _ _ refused
              (sym (same_route_refl n), λ h. absurd (ground (arith, h)))))

  -- After the call the active route is one of two.
  switch_to_active :
      (P : RouteName → Type 0) (n : RouteName) (raises : Bool) (now : ℕ) (v : RouteSelector F)
      → P (v.state.active)
      → P n
      → P ((switch_to (some n) raises now v).1.state.active)
  unfolding switch_to activated
  switch_to_active P n raises now v old new =
      let Q : Bool × RouteSelector F → Type 0 = λ r. P (r.1.state.active) in
      let last : Bool × RouteSelector F = (true, activated n now v) in
      let unless_raised : Bool × RouteSelector F =
        if v.policy.has_on_switch && raises then (false, v) else last in
      let unless_refused : Bool × RouteSelector F =
        if not ((status n (v.state.statuses)).available) && v.policy.has_availability
        then (false, v)
        else unless_raised in
      if_keeps Q (same_route (v.state.active) n) (true, v) unless_refused old
        (if_keeps Q (not ((status n (v.state.statuses)).available) && v.policy.has_availability)
          (false, v) unless_raised old
          (if_keeps Q (v.policy.has_on_switch && raises) (false, v) last old new))

  -- Why `v`, whose routes were just checked, makes `n` active: it was, or automatic failover is on, `n`
  -- is available and healthy, and the active route has failed often enough or `n` is the preferred
  -- route and has succeeded often enough.
  abbrev pub Justified : RouteSelector F → RouteName → Type 0
  Justified v n =
      (n ≡ v.state.active)
      ⊎ ((v.policy.auto_failover ≡ true)
          × (fit (status n (v.state.statuses)) ≡ true)
          × ((v.policy.failover_after_failures
                ≤ (status (v.state.active) (v.state.statuses)).consecutive_failures)
              ⊎ ((n ≡ v.state.preferred)
                  × (recovery_threshold ≤ (status n (v.state.statuses)).consecutive_successes))))

  decide-Justified :
      (raises : Bool) (now : ℕ) (v : RouteSelector F)
      → Justified v ((decide raises now v).state.active)
  unfolding decide
  decide-Justified raises now v =
      let P : RouteSelector F → Type 0 = λ w. Justified v (w.state.active) in
      if_split P (not (v.policy.auto_failover)) v _ (λ e. inl refl)
        (λ e.
          let auto : v.policy.auto_failover ≡ true = ground (arith, e) in
          if_split P _ _ _
            (λ t.
              if_split P _ _ v
                (λ f.
                  switch_to_active (Justified v) (other_route (v.state.active)) raises now v
                    (inl refl) (inr (auto, f, inl (leb→le _ _ t))))
                (λ f. inl refl))
            (λ t.
              if_split P _ _ v
                (λ f.
                  switch_to_active (Justified v) (v.state.preferred) raises now v (inl refl)
                    (inr (auto, ground (arith, f), inr (refl, leb→le _ _ (ground (arith, f))))))
                (λ f. inl refl)))

module _ {F : Type 0} (fl : Floats F) where
  -- An evaluation makes a route active only if it was active before, or automatic failover is on, this
  -- evaluation found the route available and healthy, and either the route that was active has now
  -- failed as often in a row as the policy allows, or the new one is the preferred route and has at
  -- least four successes in a row.
  pub evaluate-Justified :
      (d s : Answers F) (raises : Bool) (now : ℕ) (v : RouteSelector F)
      → Justified (check_all fl now d s v) ((evaluate fl d s raises now v).state.active)
  unfolding evaluate
  evaluate-Justified d s raises now v = decide-Justified raises now (check_all fl now d s v)
