-- ===== src/SipFirewall.antt =====
-- turbobond/sip/firewall.py: the firewall rules for SIP and RTP, as the texts and command lines that the
-- source builds. Commands are run by a host that is a parameter, in SipFirewall/Apply.
pub mod Iptables
pub mod Apply
pub mod Ports
pub mod Accounting
pub mod Tables
mod Tests
use turbobond.Base.{ℕ, Bool, true, false, ◌&&◌, List, [], ◌∷◌, ◌++◌, map, ltb, ◌==◌, if◌then◌else◌}
use turbobond.Base.Text.{◌<>◌, decimal, join}
use Prim.Native.String.{String}

abbrev pub nft_table : String
nft_table = "turbobond"

abbrev pub ipt_chain : String
ipt_chain = "TURBOBOND_SIP"

-- The fields of SipConfig that the firewall reads.
pub record SipConfig : Type 0 where
  pub enabled : Bool
  pub wide_open : Bool
  pub signalling_ports : List ℕ
  pub tls_ports : List ℕ
  pub rtp_port_start : ℕ
  pub rtp_port_end : ℕ
  pub disable_alg : Bool
  pub disable_conntrack_helper : Bool
  pub dscp_media : ℕ
  pub dscp_signalling : ℕ

-- `sorted(set(..))`: insertion, where a port that is there is not put in again.
unfoldable pub place : ℕ → List ℕ → List ℕ
place p [] = p ∷ []
place p (q ∷ qs) =
    let rest = place p qs in if p == q then q ∷ qs else if ltb p q then p ∷ q ∷ qs else q ∷ rest

unfoldable pub sorted_set : List ℕ → List ℕ
sorted_set [] = []
sorted_set (p ∷ ps) = place p (sorted_set ps)

unfoldable pub all_ports : SipConfig → List ℕ
all_ports cfg = sorted_set (cfg.signalling_ports ++ cfg.tls_ports)

unfoldable pub rtp_range : SipConfig → String
rtp_range cfg = decimal (cfg.rtp_port_start) <> "-" <> decimal (cfg.rtp_port_end)

unfoldable pub port_set : SipConfig → String
port_set cfg = "{ " <> join ", " (map decimal (all_ports cfg)) <> " }"

-- `_nft_accept_rules`
unfoldable pub nft_accept_rules : SipConfig → List String
nft_accept_rules cfg =
    if cfg.wide_open
    then "    udp dport @sip_ports accept" ∷ "    udp sport @sip_ports accept"
      ∷ "    tcp dport @sip_ports accept" ∷ "    tcp sport @sip_ports accept"
      ∷ "    udp dport @rtp_ports accept" ∷ "    udp sport @rtp_ports accept"
      ∷ "    sctp dport @sip_ports accept" ∷ "    sctp sport @sip_ports accept"
      ∷ "    meta l4proto icmp icmp type { destination-unreachable, time-exceeded } accept" ∷ []
    else "    ct state established,related accept" ∷ "    udp dport @sip_ports ct state new accept"
      ∷ "    tcp dport @sip_ports ct state new accept" ∷ []

-- The named sets at the head of the table.
unfoldable pub nft_sets : SipConfig → List String
nft_sets cfg =
    ("table inet " <> nft_table <> " {")
    ∷ ""
    ∷ "  # SIP signalling ports, kept in a named set so they can be updated"
    ∷ "  # without reloading the whole ruleset."
    ∷ "  set sip_ports {"
    ∷ "    type inet_service"
    ∷ "    flags interval"
    ∷ ("    elements = " <> port_set cfg)
    ∷ "  }"
    ∷ ""
    ∷ "  set rtp_ports {"
    ∷ "    type inet_service"
    ∷ "    flags interval"
    ∷ ("    elements = { " <> rtp_range cfg <> " }")
    ∷ "  }"
    ∷ ""
    ∷ []

-- The chains that exempt voice from connection tracking.
unfoldable pub nft_raw_chains : SipConfig → List String
nft_raw_chains cfg =
    if cfg.wide_open && cfg.disable_conntrack_helper
    then "  # Exempt voice traffic from connection tracking entirely. Without"
      ∷ "  # this, inbound INVITEs with no matching outbound flow are dropped"
      ∷ "  # and long-lived registrations expire out of the conntrack table."
      ∷ "  chain raw_prerouting {" ∷ "    type filter hook prerouting priority raw; policy accept;"
      ∷ "    udp dport @sip_ports notrack" ∷ "    udp sport @sip_ports notrack"
      ∷ "    tcp dport @sip_ports notrack" ∷ "    tcp sport @sip_ports notrack"
      ∷ "    udp dport @rtp_ports notrack" ∷ "    udp sport @rtp_ports notrack" ∷ "  }" ∷ ""
      ∷ "  chain raw_output {" ∷ "    type filter hook output priority raw; policy accept;"
      ∷ "    udp dport @sip_ports notrack" ∷ "    udp sport @sip_ports notrack"
      ∷ "    tcp dport @sip_ports notrack" ∷ "    tcp sport @sip_ports notrack"
      ∷ "    udp dport @rtp_ports notrack" ∷ "    udp sport @rtp_ports notrack" ∷ "  }" ∷ "" ∷ []
    else []

abbrev accept_priority : String
accept_priority = "filter - 10"

-- The filter chains, and the chains that mark.
unfoldable pub nft_chains : SipConfig → List String
nft_chains cfg =
    ("  # Priority below the standard filter hook so these accepts are"
      ∷ "  # evaluated before any pre-existing DROP policy on the host."
      ∷ "  chain input {"
      ∷ ("    type filter hook input priority " <> accept_priority <> "; policy accept;")
      ∷ [])
    ++ (nft_accept_rules cfg
        ++ (("  }"
              ∷ ""
              ∷ "  chain output {"
              ∷ ("    type filter hook output priority " <> accept_priority <> "; policy accept;")
              ∷ [])
            ++ (nft_accept_rules cfg
                ++ (("  }"
                      ∷ ""
                      ∷ "  chain forward {"
                      ∷ ("    type filter hook forward priority " <> accept_priority
                          <> "; policy accept;")
                      ∷ [])
                    ++ (nft_accept_rules cfg
                        ++ ("  }"
                            ∷ ""
                            ∷ "  # Mark and prioritise voice so it wins every queue on the box."
                            ∷ "  chain mangle_output {"
                            ∷ "    type route hook output priority mangle; policy accept;"
                            ∷ ("    udp dport @rtp_ports ip dscp set " <> decimal (cfg.dscp_media))
                            ∷ ("    udp sport @rtp_ports ip dscp set " <> decimal (cfg.dscp_media))
                            ∷ ("    udp dport @sip_ports ip dscp set "
                                <> decimal (cfg.dscp_signalling))
                            ∷ ("    tcp dport @sip_ports ip dscp set "
                                <> decimal (cfg.dscp_signalling))
                            ∷ "  }"
                            ∷ ""
                            ∷ "  chain mangle_prerouting {"
                            ∷ "    type filter hook prerouting priority mangle; policy accept;"
                            ∷ ("    udp dport @rtp_ports ip dscp set " <> decimal (cfg.dscp_media))
                            ∷ ("    udp dport @sip_ports ip dscp set "
                                <> decimal (cfg.dscp_signalling))
                            ∷ ("    tcp dport @sip_ports ip dscp set "
                                <> decimal (cfg.dscp_signalling))
                            ∷ "  }"
                            ∷ "}"
                            ∷ ""
                            ∷ []))))))

unfoldable pub build_nft_ruleset : SipConfig → String
build_nft_ruleset cfg = join "\n" (nft_sets cfg ++ (nft_raw_chains cfg ++ nft_chains cfg))
