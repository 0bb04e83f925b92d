-- ===== src/Routing.antt =====
-- turbobond/bond/routing.py: the commands that program policy routing. The file of table names, which
-- the source calls cosmetic, is left out; `round` and the network of an address, which `_subnet_of`
-- takes from `ipaddress`, are parameters.
pub mod Tables
pub mod Defaults
pub mod Steering
pub mod Undone
pub mod Pins
mod Tests
use turbobond.Base.{
  ℕ, zero, suc, ◌+◌, min, max, Bool, true, false, not, ◌&&◌, ◌||◌, Option, none, some, List, [],
  ◌∷◌, ◌++◌, map, keep, ◌==◌, if◌then◌else◌,
}
use turbobond.Base.Floats.{Floats, fsum, max_by}
use turbobond.Base.Text.{◌<>◌, decimal, hex, is_empty, join}
use turbobond.Base.TextDict.{TextDict, text_insert}
use turbobond.Command.{CommandResult, World, run, went_well}
use turbobond.Links.{usable, effective_weight}
use turbobond.Links
use Prim.Native.String.{String}

abbrev pub prio_link_source : ℕ
prio_link_source = 1000

abbrev pub prio_sip_pin : ℕ
prio_sip_pin = 900

abbrev pub table_bond : ℕ
table_bond = 100

abbrev pub table_sip : ℕ
table_sip = 101

-- A Link with the fields that only routing reads; `table_id` 0 is none.
pub record Link (F : Type 0) : Type 0 where
  pub link : turbobond.Links.Link F
  pub name : String
  pub interface : String
  pub gateway : String
  pub source_ip : String
  pub table_id : ℕ

-- The errors of a report.
pub data RoutingError : Type 0 where
  not_installed : RoutingError
  source_rule_failed : String → String → RoutingError
  no_source_address : String → RoutingError
  no_usable_uplink : RoutingError
  default_failed : String → RoutingError
  pin_failed : String → RoutingError
  tunnel_default_failed : String → RoutingError

pub record RoutingReport : Type 0 where
  pub tables : TextDict Bool
  pub rules : List String
  pub default_route : String
  pub ecmp_members : List String
  pub errors : List RoutingError

abbrev pub no_report : RoutingReport
no_report = record { tables = []; rules = []; default_route = ""; ecmp_members = []; errors = [] }

unfoldable pub with_error : RoutingError → RoutingReport → RoutingReport
with_error e r = record r { errors = r.errors ++ (e ∷ []) }

-- `RoutingReport.ok`
unfoldable pub report_ok : RoutingReport → Bool
report_ok r = elim (r.errors) [ [] ↦ true | e ∷ es ↦ false ]

module _ {F : Type 0} where
  -- The words that name the next hop of a link, if it has one, and its interface.
  unfoldable pub via : Link F → List String
  via l = if is_empty (l.gateway) then [] else "via" ∷ l.gateway ∷ []

  unfoldable pub usable_links : List (Link F) → List (Link F)
  usable_links links = keep (λ l. usable (l.link)) links

-- The words of a rule from an address, and of one by a mark.
abbrev pub source_words : String → ℕ → List String
source_words ip table =
    "from" ∷ ip ∷ "table" ∷ decimal table ∷ "priority" ∷ decimal prio_link_source ∷ []

abbrev pub mark_words : ℕ → ℕ → ℕ → List String
mark_words mark table priority =
    "fwmark" ∷ hex mark ∷ "table" ∷ decimal table ∷ "priority" ∷ decimal priority ∷ []

abbrev pub table_words : ℕ → List String
table_words table = "table" ∷ decimal table ∷ "priority" ∷ "32000" ∷ []

module _ {S : Type 0} (exec : List String → String → S → CommandResult × S) where
  -- `_ip`
  unfoldable pub ip : List String → World S → CommandResult × World S
  ip words w = run exec ("ip" ∷ words) "" w

  -- `_ip` where the answer is not read.
  abbrev pub ip_ : List String → World S → World S
  ip_ words w = (ip words w).1

  unfoldable pub flush_cache : World S → World S
  flush_cache w = ip_ ("route" ∷ "flush" ∷ "cache" ∷ []) w

module _ {S : Type 0} (exec : List String → String → S → CommandResult × S) where
  -- The rule that sends all traffic through the table of the bond.
  unfoldable pub bond_rule : ℕ → World S → World S
  bond_rule table w = flush_cache exec (
      ip_ exec ("rule" ∷ "add" ∷ table_words table)
        (ip_ exec ("rule" ∷ "del" ∷ table_words table) w))
