-- ===== src/Selector.antt =====
-- turbobond/transport/selector.py and transport/profiles.py: the two routes, their health, and the
-- decision which of them is active. A name that is not in ROUTES is `none`. What the program waits for
-- is an argument: the answer of the availability check, the probe, and whether `on_switch` raised.
pub mod Flags
pub mod Moves
pub mod Failover
mod Tests
use turbobond.Base.{
  ℕ, ◌+◌, Bool, true, false, not, ◌&&◌, Option, none, some, List, [], ◌∷◌, leb, if◌then◌else◌,
}
use turbobond.Base.Floats.{Floats}
use turbobond.Base.Text.{or_text}
use Prim.Native.String.{String}

pub data RouteName : Type 0 where
  direct shadow : RouteName

-- `a == b` on names of routes
unfoldable pub same_route : RouteName → RouteName → Bool
same_route direct direct = true
same_route direct shadow = false
same_route shadow direct = false
same_route shadow shadow = true

unfoldable pub other_route : RouteName → RouteName
other_route direct = shadow
other_route shadow = direct

abbrev pub recovery_threshold : ℕ
recovery_threshold = 4

pub record RouteStatus (F : Type 0) : Type 0 where
  pub available : Bool
  pub healthy : Bool
  pub active : Bool
  pub rtt_ms : F
  pub loss_pct : F
  pub consecutive_failures : ℕ
  pub consecutive_successes : ℕ
  pub last_check_ts : ℕ
  pub reason : String

-- `statuses`, which holds one entry for each of ROUTES.
pub record Statuses (F : Type 0) : Type 0 where
  pub of_direct : RouteStatus F
  pub of_shadow : RouteStatus F

pub record SelectorState (F : Type 0) : Type 0 where
  pub active : RouteName
  pub preferred : RouteName
  pub switches : ℕ
  pub last_switch_ts : ℕ
  pub statuses : Statuses F

-- The parts of RoutePolicy that the selector reads; the last two say whether the callbacks are given.
pub record RoutePolicy : Type 0 where
  pub default_route : RouteName
  pub failover_after_failures : ℕ
  pub auto_failover : Bool
  pub has_on_switch : Bool
  pub has_availability : Bool

pub record RouteSelector (F : Type 0) : Type 0 where
  pub policy : RoutePolicy
  pub state : SelectorState F

-- What an awaited call did: it returned, or it raised with a message.
pub data Outcome (A : Type 0) : Type 0 where
  returned : A → Outcome A
  raised : String → Outcome A

-- What `netcheck.probe_best` returns of a route.
pub record Probe (F : Type 0) : Type 0 where
  pub reachable : Bool
  pub rtt_ms : F
  pub loss_pct : F
  pub error : String

-- What one check of a route waits for.
pub record Answers (F : Type 0) : Type 0 where
  pub availability : Outcome (Bool × String)
  pub probed : Outcome (Probe F)

module _ {F : Type 0} where
  unfoldable pub status : RouteName → Statuses F → RouteStatus F
  status direct s = s.of_direct
  status shadow s = s.of_shadow

  abbrev pub new_status : F → Bool → RouteStatus F
  new_status zero active = record {
    available = false;
    healthy = false;
    active = active;
    rtt_ms = zero;
    loss_pct = zero;
    consecutive_failures = 0;
    consecutive_successes = 0;
    last_check_ts = 0;
    reason = "";
  }

  unfoldable pub new_selector : F → RoutePolicy → RouteSelector F
  new_selector zero policy = record {
    policy = policy;
    state = record {
      active = policy.default_route;
      preferred = policy.default_route;
      switches = 0;
      last_switch_ts = 0;
      statuses = record {
        of_direct = new_status zero (same_route direct (policy.default_route));
        of_shadow = new_status zero (same_route shadow (policy.default_route));
      };
    };
  }

  -- The branches of `check_route` that count a failure.
  unfoldable pub failed : String → RouteStatus F → RouteStatus F
  failed reason s = record s {
    healthy = false;
    consecutive_successes = 0;
    consecutive_failures = s.consecutive_failures + 1;
    reason = reason;
  }

  -- `check_all` on an exception of a check.
  unfoldable pub excepted : String → RouteStatus F → RouteStatus F
  excepted message s = record s { healthy = false; reason = message }

module _ {F : Type 0} (fl : Floats F) where
  -- The second half of `check_route`: a probe of a route that is available.
  unfoldable pub take_probe : Outcome (Probe F) → RouteStatus F → RouteStatus F
  take_probe (raised message) s = excepted message s
  take_probe (returned p) s =
      let measured = record s { rtt_ms = p.rtt_ms; loss_pct = p.loss_pct } in
      if p.reachable && fl.lt (p.loss_pct) (fl.of_ratio 50 1)
      then record measured {
        healthy = true;
        consecutive_failures = 0;
        consecutive_successes = s.consecutive_successes + 1;
        reason = "";
      }
      else failed (or_text (p.error) "no reply from any probe target") measured

  -- With the answer of the availability check.
  unfoldable pub take_availability :
      Outcome (Bool × String) → Outcome (Probe F) → RouteStatus F → RouteStatus F
  take_availability (raised message) probed s = excepted message s
  take_availability (returned (true, reason)) probed s =
      take_probe probed (record s { available = true; reason = reason })
  take_availability (returned (false, reason)) probed s =
      failed reason (record s { available = false })

  -- `check_route` as `check_all` runs it, with what `check_all` does on an exception.
  unfoldable pub check_route : RoutePolicy → ℕ → Answers F → RouteStatus F → RouteStatus F
  check_route policy now a s =
      let checked = record s { last_check_ts = now } in
      if policy.has_availability
      then take_availability (a.availability) (a.probed) checked
      else take_probe (a.probed) (record checked { available = true })

  unfoldable pub check_all : ℕ → Answers F → Answers F → RouteSelector F → RouteSelector F
  check_all now on_direct on_shadow v = record v {
    state = record (v.state) {
      statuses = record {
        of_direct = check_route (v.policy) now on_direct (v.state.statuses.of_direct);
        of_shadow = check_route (v.policy) now on_shadow (v.state.statuses.of_shadow);
      };
    };
  }

module _ {F : Type 0} where
  -- The end of `switch_to`.
  unfoldable pub activated : RouteName → ℕ → RouteSelector F → RouteSelector F
  activated name now v = record v {
    state = record (v.state) {
      active = name;
      switches = v.state.switches + 1;
      last_switch_ts = now;
      statuses = record {
        of_direct = record (v.state.statuses.of_direct) { active = same_route direct name };
        of_shadow = record (v.state.statuses.of_shadow) { active = same_route shadow name };
      };
    };
  }

  -- `switch_to`; the flag says whether `on_switch` raises.
  unfoldable pub switch_to : Option RouteName → Bool → ℕ → RouteSelector F → Bool × RouteSelector F
  switch_to none raises now v = (false, v)
  switch_to (some name) raises now v =
      if same_route (v.state.active) name
      then (true, v)
      else if not ((status name (v.state.statuses)).available) && v.policy.has_availability
      then (false, v)
      else if v.policy.has_on_switch && raises
      then (false, v)
      else (true, activated name now v)

  unfoldable pub set_preferred :
      Option RouteName → Bool → ℕ → RouteSelector F → Bool × RouteSelector F
  set_preferred none raises now v = (false, v)
  set_preferred (some name) raises now v = switch_to (some name) raises now (record v {
    policy = record (v.policy) { default_route = name };
    state = record (v.state) { preferred = name };
  })

  -- `available and healthy`
  unfoldable pub fit : RouteStatus F → Bool
  fit s = s.available && s.healthy

  -- `evaluate` after the checks.
  unfoldable pub decide : Bool → ℕ → RouteSelector F → RouteSelector F
  decide raises now v =
      let active = status (v.state.active) (v.state.statuses) in
      let alternate = other_route (v.state.active) in
      let preferred = status (v.state.preferred) (v.state.statuses) in
      if not (v.policy.auto_failover)
      then v
      else if leb (v.policy.failover_after_failures) (active.consecutive_failures)
      then (if fit (status alternate (v.state.statuses))
          then (switch_to (some alternate) raises now v).1
          else v)
      else if not (same_route (v.state.active) (v.state.preferred))
          && fit preferred
          && leb recovery_threshold (preferred.consecutive_successes)
      then (switch_to (some (v.state.preferred)) raises now v).1
      else v

module _ {F : Type 0} (fl : Floats F) where
  unfoldable pub evaluate : Answers F → Answers F → Bool → ℕ → RouteSelector F → RouteSelector F
  evaluate on_direct on_shadow raises now v =
      decide raises now (check_all fl now on_direct on_shadow v)

-- What happens to a selector.
pub data Event (F : Type 0) : Type 0 where
  checked : Answers F → Answers F → ℕ → Event F
  evaluated : Answers F → Answers F → Bool → ℕ → Event F
  switched : Option RouteName → Bool → ℕ → Event F
  preferred_set : Option RouteName → Bool → ℕ → Event F

module _ {F : Type 0} (fl : Floats F) where
  unfoldable pub step : Event F → RouteSelector F → RouteSelector F
  step (checked d s now) v = check_all fl now d s v
  step (evaluated d s raises now) v = evaluate fl d s raises now v
  step (switched name raises now) v = (switch_to name raises now v).1
  step (preferred_set name raises now) v = (set_preferred name raises now v).1

  unfoldable pub run : List (Event F) → RouteSelector F → RouteSelector F
  run [] v = v
  run (e ∷ es) v = run es (step e v)
