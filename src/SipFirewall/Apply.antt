-- ===== src/SipFirewall/Apply.antt =====
-- turbobond/sip/firewall.py: installing the policy and taking it back. A host is a state that running a
-- command changes; What is written to
-- /etc/modprobe.d is not part of the state.
use turbobond.Base.{
  ℕ, zero, suc, ◌+◌, Bool, true, false, not, ◌&&◌, ◌||◌, List, [], ◌∷◌, ◌++◌, ltb, if◌then◌else◌,
}
use turbobond.Base.Text.{text_eq, count_text}
use turbobond.SipFirewall.{SipConfig, nft_table, ipt_chain, all_ports, rtp_range, build_nft_ruleset}
use turbobond.SipFirewall.Iptables.{build_iptables_rules, builtins}
use Prim.Native.String.{String}
use turbobond.Command.{CommandResult, World, run, went_well}

pub data Backend : Type 0 where
  nftables iptables no_backend : Backend

-- The errors of a report.
pub data ReportError : Type 0 where
  sip_disabled : ReportError
  nft_rejected : String → ReportError
  rules_rejected : ℕ → ReportError
  not_installed : ReportError

pub record FirewallReport : Type 0 where
  pub backend : Backend
  pub applied : Bool
  pub wide_open : Bool
  pub signalling_ports : List ℕ
  pub rtp_range : String
  pub alg_disabled : Bool
  pub helpers_unloaded : List String
  pub rules_installed : ℕ
  pub errors : List ReportError
  pub ruleset_text : String

-- `FirewallReport.ok`
unfoldable pub report_ok : FirewallReport → Bool
report_ok r = r.applied && elim (r.errors) [ [] ↦ true | e ∷ es ↦ false ]

abbrev pub sip_helper_modules : List String
sip_helper_modules = "nf_nat_sip" ∷ "nf_conntrack_sip" ∷ []

-- `words in rule`
unfoldable pub contains : String → List String → Bool
contains w [] = false
contains w (v ∷ vs) = text_eq v w || contains w vs

abbrev pub new_report : Backend → SipConfig → FirewallReport
new_report backend cfg = record {
  backend = backend;
  applied = false;
  wide_open = cfg.wide_open;
  signalling_ports = all_ports cfg;
  rtp_range = rtp_range cfg;
  alg_disabled = false;
  helpers_unloaded = [];
  rules_installed = 0;
  errors = [];
  ruleset_text = "";
}

module _ {S : Type 0} (exec : List String → String → S → CommandResult × S) where
  -- The modules that could be unloaded.
  unfoldable pub unload : List String → World S → List String × World S
  unload [] w = ([], w)
  unload (name ∷ names) w =
      let (result, w1) = run exec ("modprobe" ∷ "-r" ∷ name ∷ []) "" w in
      let (others, w2) = unload names w1 in (if went_well result then name ∷ others else others, w2)

  unfoldable pub disable_kernel_alg : World S → (Bool × List String) × World S
  disable_kernel_alg w =
      let (result, w1) =
        run exec ("sysctl" ∷ "-w" ∷ "net.netfilter.nf_conntrack_helper=0" ∷ []) "" w in
      let (unloaded, w2) = unload sip_helper_modules w1 in ((went_well result, unloaded), w2)

  unfoldable pub flush_nft : World S → World S
  flush_nft w = (run exec ("nft" ∷ "delete" ∷ "table" ∷ "inet" ∷ nft_table ∷ []) "" w).1

  -- At most `n` times, until there is no such rule.
  unfoldable pub unhook : ℕ → String → World S → World S
  unhook zero builtin w = w
  unhook (suc n) builtin w =
      let (result, w1) = run exec ("iptables" ∷ "-D" ∷ builtin ∷ "-j" ∷ ipt_chain ∷ []) "" w in
      let again = unhook n builtin w1 in if result.ok then again else w1

  unfoldable pub unhook_all : List String → World S → World S
  unhook_all [] w = w
  unhook_all (builtin ∷ rest) w = unhook_all rest (unhook 4 builtin w)

  unfoldable pub flush_iptables : World S → World S
  flush_iptables w =
      let w1 = unhook_all builtins w in
      let w2 = (run exec ("iptables" ∷ "-F" ∷ ipt_chain ∷ []) "" w1).1 in
      (run exec ("iptables" ∷ "-X" ∷ ipt_chain ∷ []) "" w2).1

  -- The loop over the rules: how many were installed, and how many failed, a chain that exists aside.
  unfoldable pub install : List (List String) → ℕ → ℕ → World S → (ℕ × ℕ) × World S
  install [] installed failures w = ((installed, failures), w)
  install (rule ∷ rules) installed failures w =
      let (result, w1) = run exec rule "" w in
      install rules (if went_well result then installed + 1 else installed)
        (if went_well result || contains "-N" rule then failures else failures + 1) w1

  unfoldable pub apply_nft : SipConfig → FirewallReport → World S → FirewallReport × World S
  apply_nft cfg report w =
      let ruleset_text = build_nft_ruleset cfg in
      let (result, w1) = run exec ("nft" ∷ "-f" ∷ "-" ∷ []) ruleset_text (flush_nft w) in
      (
        if went_well result
            then record report {
              ruleset_text = ruleset_text;
              applied = true;
              rules_installed =
                  count_text "accept" ruleset_text + count_text "notrack" ruleset_text;
            }
            else record report {
              ruleset_text = ruleset_text;
              errors = report.errors ++ (nft_rejected (result.stderr) ∷ []);
            },
        w1,
      )

  unfoldable pub apply_iptables : SipConfig → FirewallReport → World S → FirewallReport × World S
  apply_iptables cfg report w =
      let ((installed, failures), w1) =
        install (build_iptables_rules cfg) (report.rules_installed) 0 (flush_iptables w) in
      let counted = record report { rules_installed = installed; applied = ltb 0 installed } in
      (
        if ltb 0 failures
            then record counted { errors = report.errors ++ (rules_rejected failures ∷ []) }
            else counted,
        w1,
      )

  unfoldable pub apply_backend :
      Backend → SipConfig → FirewallReport → World S → FirewallReport × World S
  apply_backend nftables cfg report w = apply_nft cfg report w
  apply_backend iptables cfg report w = apply_iptables cfg report w
  apply_backend no_backend cfg report w =
      (record report { errors = report.errors ++ (not_installed ∷ []) }, w)

  unfoldable pub with_alg : SipConfig → FirewallReport → World S → FirewallReport × World S
  with_alg cfg report w =
      let ((disabled, unloaded), w1) = disable_kernel_alg w in
      if cfg.disable_alg
      then (record report { alg_disabled = disabled; helpers_unloaded = unloaded }, w1)
      else (report, w)

  -- `apply`, with the report that it returns and keeps as `last_report`.
  unfoldable pub apply : Backend → SipConfig → World S → FirewallReport × World S
  apply backend cfg w =
      if not (cfg.enabled)
      then (record (new_report backend cfg) { errors = sip_disabled ∷ [] }, w)
      else (let (report, w1) = with_alg cfg (new_report backend cfg) w in
          apply_backend backend cfg report w1)

  unfoldable pub teardown : Backend → World S → World S
  teardown nftables w = flush_nft w
  teardown iptables w = flush_iptables w
  teardown no_backend w = w
