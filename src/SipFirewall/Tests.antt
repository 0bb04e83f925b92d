-- ===== src/SipFirewall/Tests.antt =====
-- The rules of the default configuration, a host that accepts every command, and the theorems on them.
use turbobond.Base.{ℕ, ◌+◌, ◌≡◌, ◌↔◌, refl, true, false, ◌||◌, List, [], ◌∷◌, elem}
use turbobond.Base.Text.{decimal, decimal_on, join}
use Prim.Native.String.{String}
use turbobond.SipFirewall.{SipConfig, all_ports, sorted_set, place, port_set}
use turbobond.SipFirewall.Iptables.{build_iptables_rules}
use turbobond.SipFirewall.Apply.{iptables, flush_iptables, with_alg, apply, report_ok, new_report}
use turbobond.Command.{World, CommandResult}
use turbobond.SipFirewall.Ports.{Ascending, all_ports-elem}
use turbobond.SipFirewall.Accounting.{Accepted, report_ok-apply}

abbrev config : SipConfig
config = record {
  enabled = true;
  wide_open = true;
  signalling_ports = 5060 ∷ 5061 ∷ 5062 ∷ 5080 ∷ 5090 ∷ [];
  tls_ports = 5061 ∷ [];
  rtp_port_start = 10000;
  rtp_port_end = 65535;
  disable_alg = true;
  disable_conntrack_helper = true;
  dscp_media = 46;
  dscp_signalling = 24;
}

abbrev exec : List String → String → ℕ → CommandResult × ℕ
exec argv input n = (record { ok = true; skipped = false; stderr = "" }, n + 1)

abbrev idle : World ℕ
idle = record { host = 0; commands = [] }

default_port_set : port_set config ≡ "{ 5060, 5061, 5062, 5080, 5090 }"
unfolding port_set all_ports sorted_set place join decimal decimal_on
default_port_set = refl

all_ports-elem_example :
    Ascending (all_ports config)
    × (elem 5061 (all_ports config)
        ≡ (elem 5061 (config.signalling_ports) || elem 5061 (config.tls_ports)))
all_ports-elem_example = all_ports-elem config 5061

report_ok-apply_example :
    (report_ok ((apply exec iptables config idle).0) ≡ true)
    ↔ Accepted exec
        (build_iptables_rules config)
        (flush_iptables exec ((with_alg exec config (new_report iptables config) idle).1))
report_ok-apply_example = report_ok-apply exec config idle refl
