-- ===== src/Routing/Tables.antt =====
-- turbobond/bond/routing.py: `program_link_tables`, a routing table and its rules for each uplink.
use turbobond.Base.{◌+◌, Bool, false, not, ◌||◌, List, [], ◌∷◌, ◌++◌, ◌==◌, if◌then◌else◌}
use turbobond.Base.Text.{◌<>◌, decimal, is_empty}
use turbobond.Base.TextDict.{text_insert}
use turbobond.Command.{CommandResult, World, went_well}
use Prim.Native.String.{String}
use turbobond.Routing.{
  Link, not_installed, source_rule_failed, no_source_address, RoutingReport, no_report, with_error,
  via, source_words, mark_words, ip, ip_, flush_cache, prio_link_source,
}

module _ {S : Type 0} (exec : List String → String → S → CommandResult × S)
    (subnet_of : String → String) {F : Type 0} where
  -- The route to the link's own network.
  unfoldable pub on_link : Link F → World S → World S
  on_link l w =
      let subnet = subnet_of (l.source_ip) in
      if is_empty subnet
      then w
      else ip_ exec
          ("route"
            ∷ "add"
            ∷ subnet
            ∷ "dev"
            ∷ l.interface
            ∷ "scope"
            ∷ "link"
            ∷ "src"
            ∷ l.source_ip
            ∷ "table"
            ∷ decimal (l.table_id)
            ∷ [])
          w

  -- The rule for the source address of a link, with what the report says of it.
  unfoldable pub source_rule : Link F → RoutingReport × World S → RoutingReport × World S
  source_rule l (r, w) =
      if is_empty (l.source_ip)
      then (
        with_error (no_source_address (l.name))
            (record r { tables = text_insert (l.name) false (r.tables) }),
        w,
      )
      else (let words = source_words (l.source_ip) (l.table_id) in
          let w1 = ip_ exec ("rule" ∷ "del" ∷ words) (on_link l w) in
          let (result, w2) = ip exec ("rule" ∷ "add" ∷ words) w1 in
          let told = record r { tables = text_insert (l.name) (went_well result) (r.tables) } in
          (
            if went_well result
                then record told {
                  rules =
                      r.rules
                      ++ (("from " <> l.source_ip <> " lookup " <> decimal (l.table_id)) ∷ []);
                }
                else with_error (source_rule_failed (l.name) (result.stderr)) told,
            w2,
          ))

  -- The rule for the mark of a link.
  unfoldable pub mark_rule : Link F → World S → World S
  mark_rule l w =
      let words = mark_words (256 + l.table_id) (l.table_id) (prio_link_source + 1) in
      ip_ exec ("rule" ∷ "add" ∷ words) (ip_ exec ("rule" ∷ "del" ∷ words) w)

  -- The loop of `program_link_tables`.
  unfoldable pub program_each : List (Link F) → RoutingReport × World S → RoutingReport × World S
  program_each [] rw1 = rw1
  program_each (l ∷ ls) (r, w) =
      let table = decimal (l.table_id) in
      let flushed = ip_ exec ("route" ∷ "flush" ∷ "table" ∷ table ∷ []) w in
      let routed =
        ip_ exec
          ("route" ∷ "add" ∷ "default" ∷ (via l ++ ("dev" ∷ l.interface ∷ "table" ∷ table ∷ [])))
          flushed in
      let (r1, w1) = source_rule l (r, routed) in
      program_each ls
        (if not (l.link.enabled) || (l.table_id == 0) then (r, w) else (r1, mark_rule l w1))

  unfoldable pub program_link_tables : Bool → List (Link F) → World S → RoutingReport × World S
  program_link_tables available links w =
      if not available
      then (with_error not_installed no_report, w)
      else (let (r, w1) = program_each links (no_report, w) in (r, flush_cache exec w1))
