-- ===== src/SipFirewall/Accounting.antt =====
-- turbobond/sip/firewall.py: what a report of `apply` stands for on iptables.
use turbobond.Base.{
  ℕ, ◌+◌, ◌<◌, ◌≤◌, ◌≡◌, ◌↔◌, inl, inr, refl, ap, sym, ◌∙◌, Bool, true, false, not, ◌||◌, List, [],
  ◌∷◌, ◌++◌, map, ltb, if◌then◌else◌, if_split, if_keeps, Bool-cases, arith,
}
use Prim.Native.String.{String}
use turbobond.SipFirewall.{SipConfig, ipt_chain}
use turbobond.SipFirewall.Iptables.{
  build_iptables_rules, chain_rules, appended, hook, builtins, raw_rules, mangle_rules,
}
use turbobond.SipFirewall.Apply.{
  FirewallReport, Backend, iptables, install, flush_iptables, apply_iptables, apply_backend,
  with_alg, apply, contains, report_ok, new_report, disable_kernel_alg, rules_rejected,
}
use turbobond.Command.{World, CommandResult, run, went_well}

keeps_low : (b : Bool) (f n : ℕ) → (if b then f else f + 1) ≤ n → f ≤ n
keeps_low b f n h = ground arith

keeps_high : (b : Bool) (i n : ℕ) → (if b then i + 1 else i) ≤ n → i ≤ n
keeps_high b i n h = ground arith

one_installed : (b : Bool) (i n : ℕ) → (b || false) ≡ true → (if b then i + 1 else i) ≤ n → 0 < n
one_installed b i n h l = ground arith

-- The end of `apply_iptables`.
abbrev concluded : FirewallReport → ℕ → ℕ → FirewallReport
concluded r n k =
    let counted = record r { rules_installed = n; applied = ltb 0 n } in
    if ltb 0 k then record counted { errors = r.errors ++ (rules_rejected k ∷ []) } else counted

report_ok-concluded :
    (r : FirewallReport) (n k : ℕ)
    → r.errors ≡ []
    → ((report_ok (concluded r n k) ≡ true) ↔ ((k ≡ 0) × (0 < n)))
unfolding report_ok
report_ok-concluded r n k e = rw (e) (ground arith)

module _ {S : Type 0} (exec : List String → String → S → CommandResult × S) where
  pub apply-enabled :
      (backend : Backend) (cfg : SipConfig) (w : World S)
      → cfg.enabled ≡ true
      → apply exec backend cfg w
        ≡ apply_backend exec backend cfg
            ((with_alg exec cfg (new_report backend cfg) w).0)
            ((with_alg exec cfg (new_report backend cfg) w).1)
  unfolding apply
  apply-enabled backend cfg w e =
      if_split
        (λ r.
          r
          ≡ apply_backend exec backend cfg ((with_alg exec cfg (new_report backend cfg) w).0)
              ((with_alg exec cfg (new_report backend cfg) w).1))
        (not (cfg.enabled)) _ _ (λ t. absurd (ground (arith, e, t))) (λ t. refl)

  -- Run one after the other from a world, all rules are accepted, but for those with "-N".
  abbrev pub Accepted : List (List String) → World S → Type 0
  Accepted [] w = Unit
  Accepted (rule ∷ rules) w =
      ((went_well ((run exec rule "" w).0) || contains "-N" rule) ≡ true)
      × Accepted rules ((run exec rule "" w).1)

  -- The count of failures never falls.
  failures_grow :
      (rules : List (List String)) (i f : ℕ) (w : World S) → f ≤ (install exec rules i f w).0.1
  unfolding install
  failures_grow [] i f w = omega arith
  failures_grow (rule ∷ rules) i f w =
      let more =
        failures_grow rules (if went_well ((run exec rule "" w).0) then i + 1 else i)
          (if went_well ((run exec rule "" w).0) || contains "-N" rule then f else f + 1)
          ((run exec rule "" w).1) in
      keeps_low (went_well ((run exec rule "" w).0) || contains "-N" rule) f _ more

  installs_grow :
      (rules : List (List String)) (i f : ℕ) (w : World S) → i ≤ (install exec rules i f w).0.0
  unfolding install
  installs_grow [] i f w = omega arith
  installs_grow (rule ∷ rules) i f w =
      keeps_high (went_well ((run exec rule "" w).0)) i _
        (installs_grow rules _ _ ((run exec rule "" w).1))

  no_failures-Accepted :
      (rules : List (List String)) (i f : ℕ) (w : World S)
      → (((install exec rules i f w).0.1 ≡ f) ↔ Accepted rules w)
  unfolding install
  no_failures-Accepted [] i f w = (λ h. tt, λ h. refl)
  no_failures-Accepted (rule ∷ rules) i f w =
      let b = went_well ((run exec rule "" w).0) || contains "-N" rule in
      let w1 = (run exec rule "" w).1 in
      let i1 = if went_well ((run exec rule "" w).0) then i + 1 else i in
      let next : Bool → ℕ = λ x. if x then f else f + 1 in
      let (to, back) = no_failures-Accepted rules i1 (next b) w1 in
      let more = failures_grow rules i1 (next b) w1 in
      (
        λ h. elim (Bool-cases b) [
          | inl e ↦ (e, to (h ∙ sym (ap next e)))
          | inr e ↦ absurd (omega (arith, more, ap next e, h))
        ],
        λ h. back (h.1) ∙ ap next (h.0),
      )

  with_alg_errors :
      (cfg : SipConfig) (w : World S)
      → (with_alg exec cfg (new_report iptables cfg) w).0.errors ≡ []
  unfolding with_alg
  with_alg_errors cfg w =
      let ((disabled, unloaded), w1) = disable_kernel_alg exec w in
      let r = new_report iptables cfg in
      if_keeps (λ (x : FirewallReport × World S). x.0.errors ≡ []) (cfg.disable_alg)
        (record r { alg_disabled = disabled; helpers_unloaded = unloaded }, w1) (r, w) refl refl

  -- The rule that empties the chain does not name it as new, so it was installed.
  Accepted-build :
      (cfg : SipConfig) (i f : ℕ) (w : World S)
      → Accepted (build_iptables_rules cfg) w
      → 0 < (install exec (build_iptables_rules cfg) i f w).0.0
  unfolding install build_iptables_rules contains
  Accepted-build cfg i f w (a, (b, rest)) =
      let first = "iptables" ∷ "-N" ∷ ipt_chain ∷ [] in
      let second = "iptables" ∷ "-F" ∷ ipt_chain ∷ [] in
      let later =
        chain_rules cfg
        ++ (appended ("-j" ∷ "RETURN" ∷ [])
            ∷ (map hook builtins ++ (raw_rules cfg ++ mangle_rules cfg))) in
      one_installed (went_well ((run exec second "" ((run exec first "" w).1)).0)) _ _ b
        (installs_grow later _ _ ((run exec second "" ((run exec first "" w).1)).1))

  -- On iptables the report of an enabled policy is good exactly when every command of the policy was
  -- accepted, but for the one that makes the chain, which may exist.
  pub report_ok-apply :
      (cfg : SipConfig) (w : World S)
      → cfg.enabled ≡ true
      → ((report_ok ((apply exec iptables cfg w).0) ≡ true)
          ↔ Accepted
              (build_iptables_rules cfg)
              (flush_iptables exec ((with_alg exec cfg (new_report iptables cfg) w).1)))
  unfolding apply_backend apply_iptables
  report_ok-apply cfg w e =
      let (report, w1) = with_alg exec cfg (new_report iptables cfg) w in
      let rules = build_iptables_rules cfg in
      let w2 = flush_iptables exec w1 in
      let counts = (install exec rules (report.rules_installed) 0 w2).0 in
      let q = ap (λ x. report_ok (x.0)) (apply-enabled iptables cfg w e) in
      let (to, back) = report_ok-concluded report (counts.0) (counts.1) (with_alg_errors cfg w) in
      let (all, none_failed) = no_failures-Accepted rules (report.rules_installed) 0 w2 in
      (
        λ h. all ((to (sym q ∙ h)).0),
        λ h. q ∙ back (none_failed h, Accepted-build cfg (report.rules_installed) 0 w2 h),
      )
