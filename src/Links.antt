-- ===== src/Links.antt =====
-- turbobond/links/model.py and links/monitor.py: an uplink, its health, and the monitor that probes it.
-- Floats are the parameter `Floats`, and the caller gives the time and what the probe measured.
pub mod Machine
pub mod Runs
mod Tests
use turbobond.Base.{
  ℕ, ◌+◌, Bool, true, false, not, ◌&&◌, ◌||◌, Option, none, some, List, [], ◌∷◌, leb, ltb, ◌==◌,
  if◌then◌else◌, keep,
}
use turbobond.Base.Floats.{Floats, fmax, fmin, max_by}

pub data LinkState : Type 0 where
  unknown up degraded down disabled : LinkState

-- `a is b` on the members of the enumeration
unfoldable pub state_code : LinkState → ℕ
state_code unknown = 0
state_code up = 1
state_code degraded = 2
state_code down = 3
state_code disabled = 4

unfoldable pub is_state : LinkState → LinkState → Bool
is_state a b = state_code a == state_code b

pub record LinkHealth (F : Type 0) : Type 0 where
  pub rtt_ms : F
  pub jitter_ms : F
  pub loss_pct : F
  pub rx_mbps : F
  pub tx_mbps : F
  pub consecutive_failures : ℕ
  pub consecutive_successes : ℕ
  pub last_ok_ts : F
  pub last_check_ts : F
  pub error : List ℕ

-- The fields that no modelled code reads (interface, gateway, source_ip, table_id) are left out.
pub record Link (F : Type 0) : Type 0 where
  pub name : List ℕ
  pub weight : F
  pub uplink_mbps : F
  pub downlink_mbps : F
  pub metered : Bool
  pub enabled : Bool
  pub link_id : ℕ
  pub state : LinkState
  pub health : LinkHealth F
  pub tunnel_ready : Bool

-- What `netcheck.probe_best` returned.
pub record ProbeResult (F : Type 0) : Type 0 where
  pub reachable : Bool
  pub rtt_ms : F
  pub jitter_ms : F
  pub loss_pct : F
  pub error : List ℕ

-- What one call of `probe_link` finds: the time, the probe, and the measured rates.
pub record Probe (F : Type 0) : Type 0 where
  pub now : F
  pub result : ProbeResult F
  pub rx : F
  pub tx : F

abbrev pub fail_threshold : ℕ
fail_threshold = 2

abbrev pub degrade_threshold : ℕ
degrade_threshold = 1

abbrev pub recover_threshold : ℕ
recover_threshold = 3

-- The error of a probe that named none.
abbrev unreachable : List ℕ
unreachable = b'u' ∷ b'n' ∷ b'r' ∷ b'e' ∷ b'a' ∷ b'c' ∷ b'h' ∷ b'a' ∷ b'b' ∷ b'l' ∷ b'e' ∷ []

module _ {F : Type 0} where
  unfoldable pub usable : Link F → Bool
  usable l = l.enabled && (is_state (l.state) up || is_state (l.state) degraded)

  unfoldable pub healthy : Link F → Bool
  healthy l = l.enabled && is_state (l.state) up

  -- The links that are usable, in their order.
  unfoldable pub usable_links : List (Link F) → List (Link F)
  usable_links links = keep usable links

  -- A transition, and the call `on_state_change(link, old, new)` when the state is a new one.
  unfoldable pub transition : Link F → LinkState → Link F × Option (LinkState × LinkState)
  transition l new_state =
      if is_state (l.state) new_state
      then (l, none)
      else (record l { state = new_state }, some (l.state, new_state))

module _ {F : Type 0} (fl : Floats F) where
  -- alpha * new + (1 - alpha) * old, with alpha = 0.3
  unfoldable pub ewma : F → F → F
  ewma new old =
      let alpha = fl.of_ratio 3 10 in
      fl.add (fl.mul alpha new) (fl.mul (fl.sub (fl.of_ratio 1 1) alpha) old)

  unfoldable pub record_success : LinkHealth F → F → F → F → F → LinkHealth F
  record_success h now rtt jitter loss = record h {
    rtt_ms = if fl.eq (h.rtt_ms) (fl.of_ratio 0 1) then rtt else ewma rtt (h.rtt_ms);
    jitter_ms = if fl.eq (h.jitter_ms) (fl.of_ratio 0 1) then jitter else ewma jitter (h.jitter_ms);
    loss_pct = ewma loss (h.loss_pct);
    consecutive_failures = 0;
    consecutive_successes = h.consecutive_successes + 1;
    last_ok_ts = now;
    last_check_ts = now;
    error = [];
  }

  unfoldable pub record_failure : LinkHealth F → F → List ℕ → LinkHealth F
  record_failure h now error = record h {
    consecutive_successes = 0;
    consecutive_failures = h.consecutive_failures + 1;
    loss_pct = fmin fl (fl.of_ratio 100 1) (
        fl.add (fl.mul (h.loss_pct) (fl.of_ratio 7 10))
          (fl.mul (fl.of_ratio 100 1) (fl.of_ratio 3 10)));
    last_check_ts = now;
    error = elim error [ [] ↦ h.error | c ∷ cs ↦ c ∷ cs ];
  }

  unfoldable pub effective_weight : Link F → F
  effective_weight l =
      if not (usable l)
      then fl.of_ratio 0 1
      else let scaled =
          if fl.lt (fl.of_ratio 0 1) (l.uplink_mbps)
          then fl.mul (l.weight)
              (fmax fl (fl.of_ratio 1 10) (fl.div (l.uplink_mbps) (fl.of_ratio 10 1)))
          else l.weight in
        let loss_factor =
          fmax fl (fl.of_ratio 5 100)
            (fl.sub (fl.of_ratio 1 1) (fl.sqrt (fl.div (l.health.loss_pct) (fl.of_ratio 100 1)))) in
        let rtt = fmax fl (l.health.rtt_ms) (fl.of_ratio 1 1) in
        let latency_factor =
          fl.div (fl.of_ratio 1 1) (fl.add (fl.of_ratio 1 1) (fl.div rtt (fl.of_ratio 100 1))) in
        let held_back = if l.metered then fl.mul scaled (fl.of_ratio 25 100) else scaled in
        let base =
          if is_state (l.state) degraded then fl.mul held_back (fl.of_ratio 4 10) else held_back in
        fmax fl (fl.of_ratio 1 1000) (fl.mul (fl.mul base loss_factor) latency_factor)

  -- The three quality tests of `_evaluate`.
  unfoldable pub poor_quality : LinkHealth F → Bool
  poor_quality h =
      fl.le (fl.of_ratio 8 1) (h.loss_pct)
      || (fl.le (fl.of_ratio 400 1) (h.rtt_ms) || fl.le (fl.of_ratio 80 1) (h.jitter_ms))

  unfoldable pub evaluate : Link F → LinkState
  evaluate l =
      if leb fail_threshold (l.health.consecutive_failures)
      then down
      else if leb degrade_threshold (l.health.consecutive_failures)
      then degraded
      else if poor_quality (l.health)
      then degraded
      else if (is_state (l.state) down || is_state (l.state) unknown)
          && ltb (l.health.consecutive_successes) recover_threshold
      then (if l.health.consecutive_successes == 0 then down else degraded)
      else up

  -- The link with the health that the probe and the measured rates give it.
  unfoldable pub measured : Link F → F → ProbeResult F → F → F → Link F
  measured l now result rx tx =
      let health =
        if result.reachable
        then record_success (l.health) now (result.rtt_ms) (result.jitter_ms) (result.loss_pct)
        else record_failure (l.health) now
            (elim (result.error) [ [] ↦ unreachable | c ∷ cs ↦ c ∷ cs ]) in
      record l {
        health = record health { rx_mbps = rx; tx_mbps = tx };
        uplink_mbps = if fl.lt (l.uplink_mbps) tx then tx else l.uplink_mbps;
        downlink_mbps = if fl.lt (l.downlink_mbps) rx then rx else l.downlink_mbps;
      }

  unfoldable pub probe_link :
      Link F → F → ProbeResult F → F → F → Link F × Option (LinkState × LinkState)
  probe_link l now result rx tx =
      if not (l.enabled)
      then transition l disabled
      else let m = measured l now result rx tx in transition m (evaluate m)

  -- One probe of a link: the time, the result, and the measured rates.
  unfoldable pub probe : Link F → Probe F → Link F × Option (LinkState × LinkState)
  probe l p = probe_link l (p.now) (p.result) (p.rx) (p.tx)

  -- The link after a row of probes, the latest one first.
  unfoldable pub probes : Link F → List (Probe F) → Link F
  probes l [] = l
  probes l (p ∷ earlier) = (probe (probes l earlier) p).0

  unfoldable pub best_link : List (Link F) → Option (Link F)
  best_link links = elim (usable_links links) [
    | [] ↦ none
    | l ∷ ls ↦ some (max_by fl effective_weight l ls)
  ]
