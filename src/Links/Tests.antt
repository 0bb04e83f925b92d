-- ===== src/Links/Tests.antt =====
-- Runs of the monitor, and the theorems on them at concrete links.
use turbobond.Base.{ℕ, ◌≡◌, refl, true, false, not, ◌&&◌, ◌||◌, [], ◌∷◌, ltb, ◌==◌}
use turbobond.Base.Milli.{milli}
use turbobond.Base.Floats.{fmin}
use turbobond.Links.{
  Link, unknown, up, degraded, down, Probe, usable, healthy, probe, probes, is_state, poor_quality,
  probe_link, transition, measured, evaluate, record_success, record_failure, ewma, state_code,
}
use turbobond.Links.Machine.{failing_run, passing_run}
use turbobond.Links.Runs.{usable-probes, healthy-probes, second_success}

abbrev link : Link ℕ
link = record {
  name = [];
  weight = 1000;
  uplink_mbps = 0;
  downlink_mbps = 0;
  metered = false;
  enabled = true;
  link_id = 1;
  state = unknown;
  health = record {
    rtt_ms = 0;
    jitter_ms = 0;
    loss_pct = 0;
    rx_mbps = 0;
    tx_mbps = 0;
    consecutive_failures = 0;
    consecutive_successes = 0;
    last_ok_ts = 0;
    last_check_ts = 0;
    error = [];
  };
  tunnel_ready = true;
}

abbrev good : Probe ℕ
good = record {
  now = 1;
  result = record { reachable = true; rtt_ms = 20000; jitter_ms = 1000; loss_pct = 0; error = [] };
  rx = 5;
  tx = 7;
}

abbrev bad : Probe ℕ
bad = record {
  now = 2;
  result = record { reachable = false; rtt_ms = 0; jitter_ms = 0; loss_pct = 0; error = [] };
  rx = 0;
  tx = 0;
}

first_good : (probes milli link (good ∷ [])).state ≡ degraded
unfolding probes probe probe_link transition measured evaluate record_success poor_quality is_state
    state_code ewma
first_good = refl

-- Two good probes bring an unknown link up.
second_good : (probes milli link (good ∷ good ∷ [])).state ≡ up
unfolding probes probe probe_link transition measured evaluate record_success poor_quality is_state
    state_code ewma
second_good = refl

two_bad : (probes milli link (bad ∷ bad ∷ good ∷ [])).state ≡ down
unfolding probes probe probe_link transition measured evaluate record_success record_failure
    poor_quality is_state state_code ewma fmin
two_bad = refl

usable-probes_example :
    usable (probes milli link (bad ∷ bad ∷ good ∷ [])) ≡ ltb (failing_run (bad ∷ bad ∷ good ∷ [])) 2
usable-probes_example = usable-probes milli link bad (bad ∷ good ∷ []) refl refl refl

healthy-probes_example : healthy (probes milli link (good ∷ good ∷ [])) ≡ (
    (failing_run (good ∷ good ∷ []) == 0)
    && (not (poor_quality milli ((probes milli link (good ∷ good ∷ [])).health))
        && not (
            (is_state ((probes milli link (good ∷ [])).state) down
              || is_state ((probes milli link (good ∷ [])).state) unknown)
            && ltb (passing_run (good ∷ good ∷ [])) 3)))
healthy-probes_example = healthy-probes milli link good (good ∷ []) refl refl refl

second_success_example :
    healthy (probes milli link (good ∷ good ∷ []))
    ≡ not (poor_quality milli ((probes milli link (good ∷ good ∷ [])).health))
second_success_example = second_success milli link good good refl refl refl refl refl refl
