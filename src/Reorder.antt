-- ===== src/Reorder.antt =====
-- turbobond/bond/reorder.py: the receive-side reorder buffer. Times are natural numbers of one unit,
-- and the caller gives `now`. The heap is the ascending list of what it holds, which is all that
-- `heap[0]`, `heappush` and `heappop` show of it. `none` stands for a KeyError of the pending map.
pub mod Order
pub mod Invariant
pub mod Loops
pub mod Flush
pub mod Step
pub mod Push
pub mod Stream
pub mod Timely
pub mod Liveness
mod Tests
use turbobond.Base.{
  ℕ, zero, suc, ◌+◌, ◌-◌, ◌*◌, ◌/◌, max, ◌≡◌, Bool, true, false, not, ◌&&◌, ◌||◌, Option, none,
  some, List, [], ◌∷◌, ◌++◌, ltb, leb, ◌==◌, if◌then◌else◌, length, elem, keep,
}
use turbobond.Base.Dict.{Dict, lookup, insert, erase, has}

pub record ReorderStats : Type 0 where
  pub delivered : ℕ
  pub reordered : ℕ
  pub duplicates : ℕ
  pub late_drops : ℕ
  pub gap_skips : ℕ
  pub overflow_flushes : ℕ
  pub max_held : ℕ

-- `pending` holds each payload with its deadline.
pub record ReorderBuffer (A : Type 0) : Type 0 where
  pub timeout : ℕ
  pub capacity : ℕ
  pub stats : ReorderStats
  pub heap : List ℕ
  pub pending : Dict (A × ℕ)
  pub seen : List ℕ
  pub next_seq : ℕ
  pub started : Bool
  pub priming : Bool
  pub prime_deadline : ℕ

abbrev pub no_stats : ReorderStats
no_stats = record {
  delivered = 0;
  reordered = 0;
  duplicates = 0;
  late_drops = 0;
  gap_skips = 0;
  overflow_flushes = 0;
  max_held = 0;
}

-- heapq.heappush
unfoldable pub heappush : ℕ → List ℕ → List ℕ
heappush s [] = s ∷ []
heappush s (x ∷ h) = if ltb s x then s ∷ x ∷ h else x ∷ heappush s h

-- set.add
unfoldable pub set_add : ℕ → List ℕ → List ℕ
set_add s xs = if elem s xs then xs else s ∷ xs

module _ {A : Type 0} where
  -- `__init__`
  unfoldable pub init : ℕ → ℕ → ReorderBuffer A
  init timeout capacity = record {
    timeout = timeout;
    capacity = max 8 capacity;
    stats = no_stats;
    heap = [];
    pending = [];
    seen = [];
    next_seq = 0;
    started = false;
    priming = false;
    prime_deadline = 0;
  }

  -- `_advance`. The cutoff is at least 0, which keeps all of `seen` just as a negative one does.
  unfoldable pub advance : ReorderBuffer A → ℕ → ReorderBuffer A
  advance b delivered_seq =
      let next = delivered_seq + 1 in
      let seen' = set_add delivered_seq b.seen in
      let cutoff = next - b.capacity * 2 in
      record b {
        stats = record (b.stats) { delivered = b.stats.delivered + 1 };
        next_seq = next;
        seen = if ltb (b.capacity * 4) (length seen') then keep (leb cutoff) seen' else seen';
      }

  -- `heappop` of the head, with `pending.pop(head, None)`.
  abbrev pub pop_head : ReorderBuffer A → ℕ → List ℕ → ReorderBuffer A
  pop_head b head rest = record b { heap = rest; pending = erase head b.pending }

  abbrev pub skip_gap : ReorderBuffer A → ℕ → ReorderBuffer A
  skip_gap b head = record b {
    stats = record (b.stats) { gap_skips = b.stats.gap_skips + (head - b.next_seq) };
  }

  -- A payload in front of what the rest of a loop releases.
  abbrev pub emit : A → Option (ReorderBuffer A × List A) → Option (ReorderBuffer A × List A)
  emit p none = none
  emit p (some (b, out)) = some (b, p ∷ out)

  -- The loop of `_drain`; the list is `self._heap`.
  unfoldable pub drain_loop : ℕ → List ℕ → ReorderBuffer A → Option (ReorderBuffer A × List A)
  drain_loop now [] b = some (b, [])
  drain_loop now (head ∷ rest) b =
      let stale = drain_loop now rest (pop_head b head rest) in
      if ltb head b.next_seq then stale else elim (lookup head b.pending) [
        | none ↦ none
        | some (payload, deadline) ↦
            let in_order = drain_loop now rest (advance (pop_head b head rest) head) in
            let late = drain_loop now rest (advance (pop_head (skip_gap b head) head rest) head) in
            if head == b.next_seq
            then emit payload in_order
            else if leb deadline now
            then emit payload late
            else some (b, [])
      ]

  -- `_drain`, and `tick` with its time.
  unfoldable pub drain : ReorderBuffer A → ℕ → Option (ReorderBuffer A × List A)
  drain b now =
      if b.priming && ltb now b.prime_deadline
      then some (b, [])
      else drain_loop now b.heap (record b { priming = false })

  unfoldable pub tick : ReorderBuffer A → ℕ → Option (ReorderBuffer A × List A)
  tick b now = drain b now

  abbrev pub emit_all : A → ReorderBuffer A × List A → ReorderBuffer A × List A
  emit_all p (b, out) = (b, p ∷ out)

  -- The loop of `_force_flush`, with `target` packets still to go.
  unfoldable pub force_loop : ℕ → List ℕ → ReorderBuffer A → ReorderBuffer A × List A
  force_loop target [] b = (b, [])
  force_loop zero (head ∷ rest) b = (b, [])
  force_loop (suc target) (head ∷ rest) b = elim (lookup head b.pending) [
    | none ↦ force_loop target rest (pop_head b head rest)
    | some (payload, deadline) ↦
        let stale = force_loop target rest (pop_head b head rest) in
        let more = force_loop target rest (advance (pop_head b head rest) head) in
        if ltb head b.next_seq then stale else emit_all payload more
  ]

  -- `_force_flush`, called when more is pending than the capacity.
  unfoldable pub force_flush : ReorderBuffer A → ReorderBuffer A × List A
  force_flush b =
      let flushed = b.stats.overflow_flushes + 1 in
      force_loop (length b.pending - b.capacity / 2) b.heap
        (record b { priming = false; stats = record (b.stats) { overflow_flushes = flushed } })

  unfoldable pub flush_loop : List ℕ → ReorderBuffer A → ReorderBuffer A × List A
  flush_loop [] b = (b, [])
  flush_loop (head ∷ rest) b = elim (lookup head b.pending) [
    | none ↦ flush_loop rest (pop_head b head rest)
    | some (payload, deadline) ↦
        let stale = flush_loop rest (pop_head b head rest) in
        let more = flush_loop rest (advance (pop_head b head rest) head) in
        if leb b.next_seq head then emit_all payload more else stale
  ]

  unfoldable pub flush : ReorderBuffer A → ReorderBuffer A × List A
  flush b = flush_loop b.heap (record b { priming = false })

  -- The first packet, or one that moves the start of the stream back while it is being learnt.
  unfoldable pub open_stream : ReorderBuffer A → ℕ → ℕ → ReorderBuffer A
  open_stream b seq now =
      if not b.started
      then record b {
        started = true;
        next_seq = seq;
        priming = true;
        prime_deadline = now + b.timeout;
      }
      else if b.priming && ltb seq b.next_seq
      then record b { next_seq = seq }
      else b

  unfoldable pub hold : ReorderBuffer A → ℕ → A → ℕ → ReorderBuffer A
  hold b seq payload now =
      let pending' = insert seq (payload, now + b.timeout) b.pending in
      record b {
        pending = pending';
        heap = heappush seq b.heap;
        stats = record (b.stats) {
          max_held = max b.stats.max_held (length pending');
          reordered = b.stats.reordered + (if seq == b.next_seq then 0 else 1);
        };
      }

  -- The end of `push`: over capacity, the oldest half goes too.
  abbrev pub shed : ReorderBuffer A × List A → ReorderBuffer A × List A
  shed (b, released) =
      if ltb b.capacity (length b.pending)
      then (let (b', more) = force_flush b in (b', released ++ more))
      else (b, released)

  abbrev pub shed_after : Option (ReorderBuffer A × List A) → Option (ReorderBuffer A × List A)
  shed_after none = none
  shed_after (some r) = some (shed r)

  unfoldable pub push : ReorderBuffer A → ℕ → A → ℕ → Option (ReorderBuffer A × List A)
  push b₀ seq payload now =
      let b = open_stream b₀ seq now in
      if has seq b.pending || elem seq b.seen
      then some (record b { stats = record (b.stats) { duplicates = b.stats.duplicates + 1 } }, [])
      else if ltb seq b.next_seq
      then some (record b { stats = record (b.stats) { late_drops = b.stats.late_drops + 1 } }, [])
      else shed_after (drain (hold b seq payload now) now)

  unfoldable pub reset : ReorderBuffer A → ReorderBuffer A
  reset b = record b {
    heap = [];
    pending = [];
    seen = [];
    next_seq = 0;
    started = false;
    priming = false;
    prime_deadline = 0;
  }
