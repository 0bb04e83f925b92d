-- ===== src/Scheduler/Example.antt =====
-- A scheduler over three links, one of them down, for the tests.
use turbobond.Base.{ℕ, true, false, [], ◌∷◌}
use turbobond.Base.Milli.{milli}
use turbobond.Links.{Link, LinkState, up, down}
use turbobond.Scheduler.{BondScheduler, weighted, new_scheduler}

abbrev pub uplink : ℕ → LinkState → Link ℕ
uplink i state = record {
  name = [];
  weight = 1000;
  uplink_mbps = 0;
  downlink_mbps = 0;
  metered = false;
  enabled = true;
  link_id = i;
  state = state;
  health = record {
    rtt_ms = 20000;
    jitter_ms = 0;
    loss_pct = 0;
    rx_mbps = 0;
    tx_mbps = 0;
    consecutive_failures = 0;
    consecutive_successes = 3;
    last_ok_ts = 0;
    last_check_ts = 0;
    error = [];
  };
  tunnel_ready = true;
}

abbrev pub three_links : BondScheduler ℕ
three_links = new_scheduler milli (uplink 1 up ∷ uplink 2 up ∷ uplink 3 down ∷ []) weighted 1500
