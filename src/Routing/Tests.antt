-- ===== src/Routing/Tests.antt =====
-- Two uplinks, a host that accepts every command, and the theorems on them.
use turbobond.Base.{ℕ, ◌+◌, ◌≡◌, refl, true, false, List, [], ◌∷◌}
use turbobond.Command.{CommandResult, World, run}
use turbobond.Links.{unknown, up, usable, is_state, state_code}
use turbobond.Links
use turbobond.Base.Text.{decimal, decimal_on, hex, hex_on}
use Prim.Native.String.{String}
use turbobond.Routing.{Link, via, ip, flush_cache}
use turbobond.Routing.Tables.{program_link_tables, program_each, source_rule, on_link, mark_rule}
use turbobond.Routing.Steering.{teardown}
use turbobond.Routing.Undone.{Undone, teardown-program_link_tables}

abbrev exec : List String → String → ℕ → CommandResult × ℕ
exec argv input n = (record { ok = true; skipped = false; stderr = "" }, n + 1)

abbrev idle : World ℕ
idle = record { host = 0; commands = [] }

abbrev link : turbobond.Links.Link ℕ
link = record {
  name = [];
  weight = 1000;
  uplink_mbps = 0;
  downlink_mbps = 0;
  metered = false;
  enabled = true;
  link_id = 1;
  state = up;
  health = record {
    rtt_ms = 0;
    jitter_ms = 0;
    loss_pct = 0;
    rx_mbps = 0;
    tx_mbps = 0;
    consecutive_failures = 0;
    consecutive_successes = 0;
    last_ok_ts = 0;
    last_check_ts = 0;
    error = [];
  };
  tunnel_ready = true;
}

abbrev lte : Link ℕ
lte = record {
  link = link;
  name = "lte";
  interface = "wwan0";
  gateway = "";
  source_ip = "10.1.0.2";
  table_id = 201;
}

abbrev dsl : Link ℕ
dsl = record lte {
  name = "dsl";
  interface = "eth1";
  gateway = "192.168.8.1";
  source_ip = "192.168.8.7";
  table_id = 202;
}

-- The last command but one programs the mark of the link.
marked :
    (program_link_tables exec (λ a. "") true (lte ∷ []) idle).1.commands
    ≡ ("ip" ∷ "route" ∷ "flush" ∷ "cache" ∷ [])
      ∷ ("ip" ∷ "rule" ∷ "add" ∷ "fwmark" ∷ "0x1c9" ∷ "table" ∷ "201" ∷ "priority" ∷ "1001" ∷ [])
      ∷ ("ip" ∷ "rule" ∷ "del" ∷ "fwmark" ∷ "0x1c9" ∷ "table" ∷ "201" ∷ "priority" ∷ "1001" ∷ [])
      ∷ ("ip" ∷ "rule" ∷ "add" ∷ "from" ∷ "10.1.0.2" ∷ "table" ∷ "201" ∷ "priority" ∷ "1000" ∷ [])
      ∷ ("ip" ∷ "rule" ∷ "del" ∷ "from" ∷ "10.1.0.2" ∷ "table" ∷ "201" ∷ "priority" ∷ "1000" ∷ [])
      ∷ ("ip" ∷ "route" ∷ "add" ∷ "default" ∷ "dev" ∷ "wwan0" ∷ "table" ∷ "201" ∷ [])
      ∷ ("ip" ∷ "route" ∷ "flush" ∷ "table" ∷ "201" ∷ [])
      ∷ []
unfolding program_link_tables program_each source_rule on_link mark_rule via ip run flush_cache hex
    hex_on decimal decimal_on
marked = refl

teardown-program_link_tables_example :
    Undone
      ((teardown exec true (lte ∷ dsl ∷ []) idle).commands)
      ((program_link_tables exec (λ a. "10.1.0.0/24") true (lte ∷ dsl ∷ []) idle).1.commands)
teardown-program_link_tables_example =
    teardown-program_link_tables exec (λ a. "10.1.0.0/24") (lte ∷ dsl ∷ []) idle idle refl
