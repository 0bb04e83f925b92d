-- ===== src/Routing/Undone.antt =====
-- turbobond/bond/routing.py: the teardown takes back the rules of `program_link_tables`.
use turbobond.Base.{
  ◌+◌, ◌≡◌, ◌⊎◌, inl, inr, refl, subst, Bool, true, false, not, ◌&&◌, ◌||◌, List, [], ◌∷◌, ◌++◌,
  All, All-map, ◌==◌, if◌then◌else◌, if_keeps, if_split, arith,
}
use turbobond.Base.Text.{text_eq, decimal, is_empty}
use turbobond.Command.{CommandResult, World, run}
use Prim.Native.String.{String}
use turbobond.Routing.{
  Link, RoutingReport, no_report, mark_words, source_words, ip, ip_, flush_cache, prio_link_source,
  via,
}
use turbobond.Routing.Tables.{on_link, source_rule, mark_rule, program_each, program_link_tables}
use turbobond.Routing.Steering.{teardown, teardown_links, teardown_link, teardown_table}

abbrev pub In : List String → List (List String) → Type 0
In c [] = ⊥
In c (d ∷ ds) = (c ≡ d) ⊎ In c ds

-- Whether a command adds a rule, and the command that deletes this rule.
abbrev pub adds_rule : List String → Bool
adds_rule [] = false
adds_rule (program ∷ []) = false
adds_rule (program ∷ object ∷ []) = false
adds_rule (program ∷ object ∷ action ∷ words) = text_eq object "rule" && text_eq action "add"

abbrev pub undo : List String → List String
undo [] = []
undo (program ∷ []) = program ∷ []
undo (program ∷ object ∷ []) = program ∷ object ∷ []
undo (program ∷ object ∷ action ∷ words) = program ∷ object ∷ "del" ∷ words

-- All the rules that the commands add are deleted by commands of the log.
abbrev pub Undone : List (List String) → List (List String) → Type 0
Undone log commands = All (λ c. adds_rule c ≡ true → In (undo c) log) commands

-- What a log has to hold of a link that has a table.
abbrev Held : List (List String) → {F : Type 0} → Link F → Type 0
Held log l =
    (l.table_id == 0) ≡ false
    → In ("ip" ∷ "rule" ∷ "del" ∷ mark_words (256 + l.table_id) (l.table_id) (prio_link_source + 1))
        log
      × (is_empty (l.source_ip) ≡ false
          → In ("ip" ∷ "rule" ∷ "del" ∷ source_words (l.source_ip) (l.table_id)) log)

or_false : (a b : Bool) → (a || b) ≡ false → b ≡ false
or_false a b e = ground (arith, e)

-- A command of which the object is a route adds no rule.
route-Undone :
    {S : Type 0} (exec : List String → String → S → CommandResult × S) (log : List (List String))
    (words : List String) (action : String) (w : World S)
    → Undone log (w.commands)
    → Undone log ((ip_ exec ("route" ∷ action ∷ words) w).commands)
unfolding ip run
route-Undone exec log words action w o = (λ q. absurd (ground (arith, q)), o)

module _ {S : Type 0} (exec : List String → String → S → CommandResult × S) {F : Type 0} where
  -- What is in the log stays there.
  grows_link :
      (c : List String) (l : Link F) (w : World S)
      → In c (w.commands)
      → In c ((teardown_link exec l w).commands)
  unfolding teardown_link ip run
  grows_link c l w o = inr (
      inr (
        if_keeps (λ (v : World S). In c (v.commands)) (is_empty (l.source_ip)) w
          (ip_ exec ("rule" ∷ "del" ∷ source_words (l.source_ip) (l.table_id)) w) o (inr o)))

  grows_links :
      (c : List String) (ls : List (Link F)) (w : World S)
      → In c (w.commands)
      → In c ((teardown_links exec ls w).commands)
  unfolding teardown_links
  grows_links c [] w o = o
  grows_links c (l ∷ ls) w o =
      grows_links c ls (if l.table_id == 0 then w else teardown_link exec l w) (
        if_keeps (λ (v : World S). In c (v.commands)) (l.table_id == 0) w (teardown_link exec l w) o
          (grows_link c l w o))

  link-Held : (l : Link F) (w : World S) → Held ((teardown_link exec l w).commands) l
  unfolding teardown_link ip run
  link-Held l w e = (inr (inl refl), λ n. inr (inr (rw (n) (inl refl))))

  links-Held :
      (ls : List (Link F)) (w : World S) → All (Held ((teardown_links exec ls w).commands)) ls
  unfolding teardown_links
  links-Held [] w = tt
  links-Held (l ∷ ls) w =
      let v = if l.table_id == 0 then w else teardown_link exec l w in
      let marked =
        "ip" ∷ "rule" ∷ "del" ∷ mark_words (256 + l.table_id) (l.table_id) (prio_link_source + 1) in
      let sourced = "ip" ∷ "rule" ∷ "del" ∷ source_words (l.source_ip) (l.table_id) in
      (
        λ e.
            let (m, s) = link-Held l w e in
            let same : teardown_link exec l w ≡ v = rw (e) refl in
            (
              grows_links marked ls v (subst (λ (x : World S). In marked (x.commands)) same m),
              λ n.
                  grows_links sourced ls v
                    (subst (λ (x : World S). In sourced (x.commands)) same (s n)),
            ),
        links-Held ls v,
      )

  module _ (log : List (List String)) (subnet_of : String → String) where
    on_link-Undone :
        (l : Link F) (w : World S)
        → Undone log (w.commands)
        → Undone log ((on_link exec subnet_of l w).commands)
    unfolding on_link ip run
    on_link-Undone l w o =
        if_split (λ (v : World S). Undone log (v.commands)) (is_empty (subnet_of (l.source_ip))) _ _
          (λ e. o) (λ e. (λ h. absurd (ground (arith, h)), o))

    source_rule-Undone :
        (l : Link F) (r : RoutingReport) (w : World S)
        → Held log l
        → (l.table_id == 0) ≡ false
        → Undone log (w.commands)
        → Undone log ((source_rule exec subnet_of l (r, w)).1.commands)
    unfolding source_rule ip run
    source_rule-Undone l r w h t o =
        if_split (λ (x : RoutingReport × World S). Undone log (x.1.commands))
          (is_empty (l.source_ip)) _ _ (λ e. o)
          (λ e. (λ q. (h t).1 e, (λ q. absurd (ground (arith, q)), on_link-Undone l w o)))

    mark_rule-Undone :
        (l : Link F) (w : World S)
        → Held log l
        → (l.table_id == 0) ≡ false
        → Undone log (w.commands)
        → Undone log ((mark_rule exec subnet_of l w).commands)
    unfolding mark_rule ip run
    mark_rule-Undone l w h t o = (λ q. (h t).0, (λ q. absurd (ground (arith, q)), o))

    program_each-Undone :
        (ls : List (Link F)) (r : RoutingReport) (w : World S)
        → All (Held log) ls
        → Undone log (w.commands)
        → Undone log ((program_each exec subnet_of ls (r, w)).1.commands)
    unfolding program_each
    program_each-Undone [] r w h o = o
    program_each-Undone (l ∷ ls) r w (h, hs) o =
        let P : RoutingReport × World S → Type 0 = λ x. Undone log (x.1.commands) in
        let table = decimal (l.table_id) in
        let flushed = ip_ exec ("route" ∷ "flush" ∷ "table" ∷ table ∷ []) w in
        let words = "default" ∷ (via l ++ ("dev" ∷ l.interface ∷ "table" ∷ table ∷ [])) in
        let routed = ip_ exec ("route" ∷ "add" ∷ words) flushed in
        let (r1, w1) = source_rule exec subnet_of l (r, routed) in
        let done : RoutingReport × World S = (r1, mark_rule exec subnet_of l w1) in
        let skip = not (l.link.enabled) || (l.table_id == 0) in
        let next : RoutingReport × World S = if skip then (r, w) else done in
        let kept : P next =
          if_split P skip (r, w) done (λ e. o)
            (λ e.
              let t : (l.table_id == 0) ≡ false =
                or_false (not (l.link.enabled)) (l.table_id == 0) e in
              mark_rule-Undone l w1 h t (
                source_rule-Undone l r routed h t (
                  route-Undone exec log words "add" flushed
                    (route-Undone exec log ("table" ∷ table ∷ []) "flush" w o)))) in
        program_each-Undone ls (next.0) (next.1) hs kept

  -- Where iproute2 is installed, a teardown deletes every rule that programming the tables of the same
  -- links adds, whatever the host answers.
  pub teardown-program_link_tables :
      (subnet_of : String → String) (links : List (Link F)) (w v : World S)
      → w.commands ≡ []
      → Undone
          ((teardown exec true links v).commands)
          ((program_link_tables exec subnet_of true links w).1.commands)
  unfolding teardown program_link_tables flush_cache teardown_table ip run
  teardown-program_link_tables subnet_of links w v e =
      let log = (teardown exec true links v).commands in
      let held : All (Held log) links =
        All-map
          (λ l h t.
            (inr (inr (inr (inr (inr ((h t).0))))), λ n. inr (inr (inr (inr (inr ((h t).1 n)))))))
          links (links-Held links v) in
      route-Undone exec log ("cache" ∷ []) "flush"
        ((program_each exec subnet_of links (no_report, w)).1)
        (program_each-Undone log subnet_of links no_report w held (rw (e) tt))
