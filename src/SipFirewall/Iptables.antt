-- ===== src/SipFirewall/Iptables.antt =====
-- turbobond/sip/firewall.py: the same policy as command lines for iptables.
use turbobond.Base.{◌&&◌, List, [], ◌∷◌, ◌++◌, map, if◌then◌else◌}
use turbobond.Base.Text.{◌<>◌, decimal, join}
use turbobond.SipFirewall.{SipConfig, all_ports, ipt_chain}
use Prim.Native.String.{String}

unfoldable pub ports_csv : SipConfig → String
ports_csv cfg = join "," (map decimal (all_ports cfg))

-- The range as iptables writes it.
unfoldable pub rtp_colon : SipConfig → String
rtp_colon cfg = decimal (cfg.rtp_port_start) <> ":" <> decimal (cfg.rtp_port_end)

-- The words that every rule appended to the chain begins with.
abbrev pub appended : List String → List String
appended words = "iptables" ∷ "-A" ∷ ipt_chain ∷ words

-- The rules of the chain for one protocol when SIP is wide open.
unfoldable pub accept_proto : SipConfig → String → List (List String)
accept_proto cfg proto =
    appended ("-p" ∷ proto ∷ "-m" ∷ "multiport" ∷ "--dports" ∷ ports_csv cfg ∷ "-j" ∷ "ACCEPT" ∷ [])
    ∷ appended
        ("-p" ∷ proto ∷ "-m" ∷ "multiport" ∷ "--sports" ∷ ports_csv cfg ∷ "-j" ∷ "ACCEPT" ∷ [])
    ∷ []

unfoldable pub chain_rules : SipConfig → List (List String)
chain_rules cfg =
    if cfg.wide_open
    then accept_proto cfg "udp"
      ++ (accept_proto cfg "tcp"
          ++ (appended ("-p" ∷ "udp" ∷ "--dport" ∷ rtp_colon cfg ∷ "-j" ∷ "ACCEPT" ∷ [])
              ∷ appended ("-p" ∷ "udp" ∷ "--sport" ∷ rtp_colon cfg ∷ "-j" ∷ "ACCEPT" ∷ [])
              ∷ appended
                  ("-p" ∷ "icmp" ∷ "--icmp-type" ∷ "destination-unreachable" ∷ "-j" ∷ "ACCEPT" ∷ [])
              ∷ []))
    else appended ("-m" ∷ "conntrack" ∷ "--ctstate" ∷ "ESTABLISHED,RELATED" ∷ "-j" ∷ "ACCEPT" ∷ [])
      ∷ appended
          ("-p" ∷ "udp" ∷ "-m" ∷ "multiport" ∷ "--dports" ∷ ports_csv cfg ∷ "-j" ∷ "ACCEPT" ∷ [])
      ∷ []

-- The hook of the chain at the top of a built-in chain.
abbrev pub hook : String → List String
hook builtin = "iptables" ∷ "-I" ∷ builtin ∷ "1" ∷ "-j" ∷ ipt_chain ∷ []

abbrev pub builtins : List String
builtins = "INPUT" ∷ "OUTPUT" ∷ "FORWARD" ∷ []

-- The rules of the raw table, which exempt from connection tracking.
abbrev pub raw_rule : String → List String → List String
raw_rule chain words = "iptables" ∷ "-t" ∷ "raw" ∷ "-I" ∷ chain ∷ "1" ∷ "-p" ∷ words

unfoldable pub raw_proto : SipConfig → String → List (List String)
raw_proto cfg proto =
    raw_rule "PREROUTING"
      (proto ∷ "-m" ∷ "multiport" ∷ "--dports" ∷ ports_csv cfg ∷ "-j" ∷ "NOTRACK" ∷ [])
    ∷ raw_rule "OUTPUT"
        (proto ∷ "-m" ∷ "multiport" ∷ "--dports" ∷ ports_csv cfg ∷ "-j" ∷ "NOTRACK" ∷ [])
    ∷ []

unfoldable pub raw_rules : SipConfig → List (List String)
raw_rules cfg =
    if cfg.wide_open && cfg.disable_conntrack_helper
    then raw_proto cfg "udp"
      ++ (raw_proto cfg "tcp"
          ++ (raw_rule "PREROUTING" ("udp" ∷ "--dport" ∷ rtp_colon cfg ∷ "-j" ∷ "NOTRACK" ∷ [])
              ∷ raw_rule "OUTPUT" ("udp" ∷ "--dport" ∷ rtp_colon cfg ∷ "-j" ∷ "NOTRACK" ∷ [])
              ∷ []))
    else []

unfoldable pub mangle_rules : SipConfig → List (List String)
mangle_rules cfg =
    ("iptables"
      ∷ "-t"
      ∷ "mangle"
      ∷ "-A"
      ∷ "OUTPUT"
      ∷ "-p"
      ∷ "udp"
      ∷ "--dport"
      ∷ rtp_colon cfg
      ∷ "-j"
      ∷ "DSCP"
      ∷ "--set-dscp"
      ∷ decimal (cfg.dscp_media)
      ∷ [])
    ∷ ("iptables"
        ∷ "-t"
        ∷ "mangle"
        ∷ "-A"
        ∷ "OUTPUT"
        ∷ "-p"
        ∷ "udp"
        ∷ "-m"
        ∷ "multiport"
        ∷ "--dports"
        ∷ ports_csv cfg
        ∷ "-j"
        ∷ "DSCP"
        ∷ "--set-dscp"
        ∷ decimal (cfg.dscp_signalling)
        ∷ [])
    ∷ []

unfoldable pub build_iptables_rules : SipConfig → List (List String)
build_iptables_rules cfg =
    ("iptables" ∷ "-N" ∷ ipt_chain ∷ [])
    ∷ ("iptables" ∷ "-F" ∷ ipt_chain ∷ [])
    ∷ (chain_rules cfg
        ++ (appended ("-j" ∷ "RETURN" ∷ [])
            ∷ (map hook builtins ++ (raw_rules cfg ++ mangle_rules cfg))))
