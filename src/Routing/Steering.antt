-- ===== src/Routing/Steering.antt =====
-- turbobond/bond/routing.py: traffic that is pinned to a link or kept off the tunnel, and the teardown.
use turbobond.Base.{ℕ, ◌+◌, Bool, false, not, List, [], ◌∷◌, ◌++◌, ◌==◌, if◌then◌else◌}
use turbobond.Base.Floats.{Floats}
use turbobond.Base.Text.{decimal, is_empty}
use turbobond.Command.{CommandResult, World, went_well}
use Prim.Native.String.{String}
use turbobond.Routing.{
  Link, via, usable_links, source_words, mark_words, table_words, ip, ip_, flush_cache,
  prio_link_source, table_bond, table_sip,
}
use turbobond.Routing.Defaults.{best_of}

module _ {S : Type 0} (exec : List String → String → S → CommandResult × S) {F : Type 0} where
  unfoldable pub pin_traffic_to_link : Link F → ℕ → ℕ → World S → Bool × World S
  pin_traffic_to_link l mark priority w =
      let words = mark_words mark (l.table_id) priority in
      let (result, w2) = ip exec ("rule" ∷ "add" ∷ words) (ip_ exec ("rule" ∷ "del" ∷ words) w) in
      if l.table_id == 0 then (false, w) else (went_well result, w2)

  unfoldable pub bypass_via : Link F → List String → World S → List String × World S
  bypass_via best [] w = ([], w)
  bypass_via best (cidr ∷ cidrs) w =
      let (result, w1) =
        ip exec ("route" ∷ "replace" ∷ cidr ∷ (via best ++ ("dev" ∷ best.interface ∷ []))) w in
      let (others, w2) = bypass_via best cidrs w1 in
      (if went_well result then cidr ∷ others else others, w2)

module _ {S : Type 0} (exec : List String → String → S → CommandResult × S) {F : Type 0}
    (fl : Floats F) (round : F → ℕ) where
  unfoldable pub bypass_on : List String → List (Link F) → World S → List String × World S
  bypass_on cidrs [] w = ([], w)
  bypass_on cidrs (l ∷ ls) w = bypass_via exec (best_of fl round l ls) cidrs w

  unfoldable pub add_bypass_routes : List String → List (Link F) → World S → List String × World S
  add_bypass_routes cidrs links w = bypass_on cidrs (usable_links links) w

module _ {S : Type 0} (exec : List String → String → S → CommandResult × S) where
  unfoldable pub teardown_table : ℕ → World S → World S
  teardown_table table w =
      ip_ exec ("route" ∷ "flush" ∷ "table" ∷ decimal table ∷ [])
        (ip_ exec ("rule" ∷ "del" ∷ table_words table) w)

module _ {S : Type 0} (exec : List String → String → S → CommandResult × S) {F : Type 0} where
  -- What `teardown` takes back of one link.
  unfoldable pub teardown_link : Link F → World S → World S
  teardown_link l w =
      let unsourced = ip_ exec ("rule" ∷ "del" ∷ source_words (l.source_ip) (l.table_id)) w in
      let w1 = if is_empty (l.source_ip) then w else unsourced in
      ip_ exec ("route" ∷ "flush" ∷ "table" ∷ decimal (l.table_id) ∷ []) (
        ip_ exec
          ("rule" ∷ "del" ∷ mark_words (256 + l.table_id) (l.table_id) (prio_link_source + 1)) w1)

  unfoldable pub teardown_links : List (Link F) → World S → World S
  teardown_links [] w = w
  teardown_links (l ∷ ls) w = teardown_links ls (if l.table_id == 0 then w else teardown_link l w)

  unfoldable pub teardown : Bool → List (Link F) → World S → World S
  teardown available links w =
      if not available
      then w
      else flush_cache exec
          (teardown_table exec table_sip (teardown_table exec table_bond (teardown_links links w)))
