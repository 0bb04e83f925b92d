-- ===== src/Scheduler.antt =====
-- turbobond/bond/scheduler.py: which uplinks carry a packet. The links are those of `Links`, with the
-- state that the caller has given them.
pub mod Select
pub mod Tally
pub mod Keeps
pub mod Runs
pub mod Totals
pub mod Packet
pub mod Critical
pub mod Example
mod Tests
use turbobond.Base.{
  ℕ, zero, suc, ◌+◌, ◌*◌, ◌/◌, ◌%◌, Bool, true, false, not, ◌&&◌, ◌||◌, Option, none, some, List,
  [], ◌∷◌, ltb, leb, ◌==◌, if◌then◌else◌, length, get_elem?, keep, elem, take, drop, map,
}
use turbobond.Base.Dict.{Dict, lookup, insert}
use turbobond.Base.Words.{from_bytes}
use turbobond.Base.Floats.{Floats, fmax, fsum, max_by, min_by}
use turbobond.Links.{Link, usable, effective_weight}

pub data SchedulerMode : Type 0 where
  weighted lowest_latency redundant : SchedulerMode

-- A call on the scheduler: a packet's length and whether it is critical, or a new list of links.
pub data Call (F : Type 0) : Type 0 where
  pick : ℕ → Bool → Call F
  relink : List (Link F) → Call F

pub record LinkCounters (F : Type 0) : Type 0 where
  pub packets : ℕ
  pub bytes : ℕ
  pub deficit : F
  pub drops : ℕ

pub record SchedulerStats (F : Type 0) : Type 0 where
  pub total_packets : ℕ
  pub total_bytes : ℕ
  pub duplicated_packets : ℕ
  pub dropped_packets : ℕ
  pub per_link : Dict (LinkCounters F)

pub record BondScheduler (F : Type 0) : Type 0 where
  pub links : List (Link F)
  pub mode : SchedulerMode
  pub quantum : ℕ
  pub stats : SchedulerStats F
  pub cursor : ℕ

module _ {F : Type 0} where
  unfoldable pub ready : Link F → Bool
  ready l = usable l && l.tunnel_ready

  -- `_candidates`: the ready links, if there are any.
  unfoldable pub prefer : List (Link F) → List (Link F) → List (Link F)
  prefer [] fallback = fallback
  prefer (l ∷ ls) fallback = l ∷ ls

  unfoldable pub candidates : BondScheduler F → List (Link F)
  candidates s = prefer (keep ready (s.links)) (keep usable (s.links))

module _ {F : Type 0} (fl : Floats F) where
  abbrev pub no_counters : LinkCounters F
  no_counters = record { packets = 0; bytes = 0; deficit = fl.of_ratio 0 1; drops = 0 }

  -- `per_link.setdefault(link_id, LinkCounters())`
  unfoldable pub counters_of : ℕ → Dict (LinkCounters F) → LinkCounters F
  counters_of i d = elim (lookup i d) [ none ↦ no_counters | some c ↦ c ]

  -- The same, for its effect on the dict.
  unfoldable pub setdefault : ℕ → Dict (LinkCounters F) → Dict (LinkCounters F)
  setdefault i d = elim (lookup i d) [ none ↦ insert i no_counters d | some c ↦ d ]

  unfoldable pub sync_counters : List (Link F) → Dict (LinkCounters F) → Dict (LinkCounters F)
  sync_counters [] d = d
  sync_counters (l ∷ ls) d = sync_counters ls (setdefault (l.link_id) d)

  unfoldable pub with_per_link : Dict (LinkCounters F) → BondScheduler F → BondScheduler F
  with_per_link d s = record s { stats = record (s.stats) { per_link = d } }

  unfoldable pub new_scheduler : List (Link F) → SchedulerMode → ℕ → BondScheduler F
  new_scheduler links mode quantum = record {
    links = links;
    mode = mode;
    quantum = quantum;
    stats = record {
      total_packets = 0;
      total_bytes = 0;
      duplicated_packets = 0;
      dropped_packets = 0;
      per_link = sync_counters links [];
    };
    cursor = 0;
  }

  unfoldable pub set_links : List (Link F) → BondScheduler F → BondScheduler F
  set_links links s = record (with_per_link (sync_counters links (s.stats.per_link)) s) {
    links = links;
    cursor = 0;
  }

  -- The scheduler with counters for a link.
  unfoldable pub with_counters : Link F → BondScheduler F → BondScheduler F
  with_counters link s = with_per_link (setdefault (link.link_id) (s.stats.per_link)) s

  -- `counters.deficit -= packet_len`, and the cursor behind the link.
  unfoldable pub paying : Link F → ℕ → ℕ → F → BondScheduler F → BondScheduler F
  paying link index n packet_len s =
      let counters = counters_of (link.link_id) (s.stats.per_link) in
      let paid = record counters { deficit = fl.sub (counters.deficit) packet_len } in
      record (with_per_link (insert (link.link_id) paid (s.stats.per_link)) s) {
        cursor = (index + 1) % n;
      }

  -- A round of the inner loop of `_weighted_pick`: the link pays for the packet if it can, and else
  -- the loop goes on as `rest`.
  unfoldable pub try_link :
      Link F
      → ℕ
      → ℕ
      → F
      → BondScheduler F
      → Option (Option (Link F) × BondScheduler F)
      → Option (Option (Link F) × BondScheduler F)
  try_link link index n packet_len s rest =
      if fl.le packet_len ((counters_of (link.link_id) (s.stats.per_link)).deficit)
      then some (some link, paying link index n packet_len s)
      else rest

  -- The inner loop from `offset` on, `left` rounds of it: the link that can pay, if there is one. The
  -- outer `none` is an IndexError.
  unfoldable pub scan :
      List (Link F) → F → ℕ → ℕ → BondScheduler F → Option (Option (Link F) × BondScheduler F)
  scan cs packet_len offset zero s = some (none, s)
  scan cs packet_len offset (suc left) s =
      let index = (s.cursor + offset) % length cs in
      elim (get_elem? cs index) [
        | none ↦ none
        | some link ↦
            let rest = scan cs packet_len (suc offset) left (with_counters link s) in
            try_link link index (length cs) packet_len (with_counters link s) rest
      ]

  -- One more share of the quantum for a candidate.
  unfoldable pub credit_one : Link F → ℕ → F → ℕ → Dict (LinkCounters F) → Dict (LinkCounters F)
  credit_one l n total_weight quantum d =
      let per_link = setdefault (l.link_id) d in
      let counters = counters_of (l.link_id) per_link in
      let share = fl.div (effective_weight fl l) total_weight in
      let amount = fl.mul (fl.mul (fl.of_ratio quantum 1) share) (fl.of_ratio n 1) in
      insert (l.link_id) (record counters { deficit = fl.add (counters.deficit) amount }) per_link

  unfoldable pub credit : List (Link F) → ℕ → F → ℕ → Dict (LinkCounters F) → Dict (LinkCounters F)
  credit [] n total_weight quantum d = d
  credit (l ∷ ls) n total_weight quantum d =
      credit ls n total_weight quantum (credit_one l n total_weight quantum d)

  -- The outer loop of `_weighted_pick`, `passes` rounds of it.
  unfoldable pub pick_loop :
      List (Link F) → F → F → ℕ → BondScheduler F → Option (Option (Link F) × BondScheduler F)
  pick_loop cs packet_len total_weight zero s = some (none, s)
  pick_loop cs packet_len total_weight (suc passes) s = elim (scan cs packet_len 0 (length cs) s) [
    | none ↦ none
    | some r ↦ elim (r.0) [
      | some link ↦ some (some link, r.1)
      | none ↦ pick_loop cs packet_len total_weight passes (
          with_per_link (credit cs (length cs) total_weight (r.1.quantum) (r.1.stats.per_link))
            (r.1))
    ]
  ]

  -- The end of `_weighted_pick`: what the loop found, or else the candidate of the highest weight.
  unfoldable pub picked :
      Link F
      → List (Link F)
      → Option (Option (Link F) × BondScheduler F)
      → Option (Link F × BondScheduler F)
  picked first rest none = none
  picked first rest (some (some link, s)) = some (link, s)
  picked first rest (some (none, s)) = some (max_by fl (effective_weight fl) first rest, s)

  -- `_weighted_pick` on the candidates `first ∷ rest`.
  unfoldable pub weighted_pick :
      Link F → List (Link F) → ℕ → BondScheduler F → Option (Link F × BondScheduler F)
  weighted_pick first rest packet_len s =
      let cs = first ∷ rest in
      let total_weight = fsum fl (map (effective_weight fl) cs) (fl.of_ratio 0 1) in
      if fl.le total_weight (fl.of_ratio 0 1)
      then some (first, s)
      else picked first rest
          (pick_loop cs (fl.of_ratio packet_len 1) total_weight (length cs * 2 + 2) s)

  -- A pick, as the list of one link that `select` makes of it.
  unfoldable pub one_link :
      Option (Link F × BondScheduler F) → Option (List (Link F) × BondScheduler F)
  one_link none = none
  one_link (some (link, s)) = some (link ∷ [], s)

  unfoldable pub choose_by :
      SchedulerMode
      → Link F
      → List (Link F)
      → ℕ
      → BondScheduler F
      → Option (List (Link F) × BondScheduler F)
  choose_by redundant first rest packet_len s = some (first ∷ rest, s)
  choose_by lowest_latency first rest packet_len s =
      some (min_by fl (λ l. fmax fl (l.health.rtt_ms) (fl.of_ratio 1 100)) first rest ∷ [], s)
  choose_by weighted first rest packet_len s = one_link (weighted_pick first rest packet_len s)

  -- The links that `select` chooses from two or more candidates.
  unfoldable pub choose :
      Link F → List (Link F) → ℕ → Bool → BondScheduler F → Option (List (Link F) × BondScheduler F)
  choose first rest packet_len critical s =
      if critical then some (first ∷ rest, s) else choose_by (s.mode) first rest packet_len s

  -- The counters of the chosen links.
  unfoldable pub count_one : Link F → ℕ → Dict (LinkCounters F) → Dict (LinkCounters F)
  count_one l packet_len d =
      let per_link = setdefault (l.link_id) d in
      let counters = counters_of (l.link_id) per_link in
      insert (l.link_id)
        (record counters { packets = counters.packets + 1; bytes = counters.bytes + packet_len })
        per_link

  unfoldable pub count_all : List (Link F) → ℕ → Dict (LinkCounters F) → Dict (LinkCounters F)
  count_all [] packet_len d = d
  count_all (l ∷ ls) packet_len d = count_all ls packet_len (count_one l packet_len d)

  unfoldable pub account : List (Link F) → ℕ → BondScheduler F → BondScheduler F
  account chosen packet_len s = record s {
    stats = record (s.stats) {
      total_packets = s.stats.total_packets + 1;
      total_bytes = s.stats.total_bytes + packet_len;
      duplicated_packets =
          if ltb 1 (length chosen)
          then s.stats.duplicated_packets + 1
          else s.stats.duplicated_packets;
      per_link = count_all chosen packet_len (s.stats.per_link);
    };
  }

  unfoldable pub accounted :
      ℕ → Option (List (Link F) × BondScheduler F) → Option (List (Link F) × BondScheduler F)
  accounted packet_len none = none
  accounted packet_len (some (chosen, s)) = some (chosen, account chosen packet_len s)

  -- `select` on its candidates.
  unfoldable pub select_from :
      List (Link F) → ℕ → Bool → BondScheduler F → Option (List (Link F) × BondScheduler F)
  select_from [] packet_len critical s =
      some (
        [],
        record s { stats = record (s.stats) { dropped_packets = s.stats.dropped_packets + 1 } },
      )
  select_from (first ∷ []) packet_len critical s =
      some (first ∷ [], account (first ∷ []) packet_len s)
  select_from (first ∷ second ∷ rest) packet_len critical s =
      accounted packet_len (choose first (second ∷ rest) packet_len critical s)

  unfoldable pub select : ℕ → Bool → BondScheduler F → Option (List (Link F) × BondScheduler F)
  select packet_len critical s = select_from (candidates s) packet_len critical s

  -- The calls in their order, with the links that carried each packet.
  unfoldable pub calls :
      List (Call F) → BondScheduler F → Option (List (ℕ × List (Link F)) × BondScheduler F)
  calls [] s = some ([], s)
  calls (relink links ∷ cs) s = calls cs (set_links links s)
  calls (pick n critical ∷ cs) s = elim (select n critical s) [
    | none ↦ none
    | some r ↦ elim (calls cs (r.1)) [ none ↦ none | some rs ↦ some ((n, r.0) ∷ rs.0, rs.1) ]
  ]
