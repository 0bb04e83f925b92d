-- ===== src/Reorder/Flush.antt =====
-- `flush` and `_force_flush`: what they deliver.
use turbobond.Base.{
  ℕ, zero, suc, ◌+◌, ◌-◌, ◌/◌, ◌≤◌, ◌<◌, ◌≡◌, refl, ◌∙◌, false, some, List, [], ◌∷◌, length, arith,
  min,
}
use turbobond.Base.Dict.{lookup}
use turbobond.Reorder.{
  ReorderBuffer, advance, pop_head, emit_all, force_loop, force_flush, flush_loop, flush,
}
use turbobond.Reorder.Invariant
use turbobond.Reorder.Loops

module _ {A : Type 0} (tag : A → ℕ) where
  abbrev Inv : ReorderBuffer A → Type 0
  Inv = Invariant.Inv tag

  abbrev Delivers : ReorderBuffer A → ReorderBuffer A → List A → Type 0
  Delivers = Invariant.Delivers tag

  force_head :
      (n x : ℕ) (rest : List ℕ) (b : ReorderBuffer A) (p : A) (deadline : ℕ)
      → lookup x b.pending ≡ some (p, deadline)
      → b.next_seq ≤ x
      → force_loop (suc n) (x ∷ rest) b
        ≡ emit_all p (force_loop n rest (advance (pop_head b x rest) x))
  unfolding force_loop
  force_head n x rest b p deadline found h = ground (arith, found)

  flush_head :
      (x : ℕ) (rest : List ℕ) (b : ReorderBuffer A) (p : A) (deadline : ℕ)
      → lookup x b.pending ≡ some (p, deadline)
      → b.next_seq ≤ x
      → flush_loop (x ∷ rest) b ≡ emit_all p (flush_loop rest (advance (pop_head b x rest) x))
  unfolding flush_loop
  flush_head x rest b p deadline found h = ground (arith, found)

  force_loop-Delivers :
      (n : ℕ) (h : List ℕ) (b : ReorderBuffer A)
      → b.heap ≡ h
      → b.priming ≡ false
      → Inv b
      → Delivers b (force_loop n h b).0 (force_loop n h b).1
        × (length (force_loop n h b).1 ≡ min n (length h))
  force_loop-Delivers n [] b at un v =
      unfold force_loop in (Invariant.Delivers-refl tag v, omega arith)
  force_loop-Delivers zero (x ∷ rest) b at un v =
      unfold force_loop in (Invariant.Delivers-refl tag v, omega arith)
  force_loop-Delivers (suc n) (x ∷ rest) b at un v =
      let ((p, deadline), found) = Loops.head_pending tag b x rest v at in
      let popped = pop_head b x rest in
      let order = Invariant.head_order tag b x rest v at p deadline found un in
      let (d, k) =
        force_loop-Delivers n rest (advance popped x) (Loops.advance_heap tag popped x)
          (Loops.advance_priming tag popped x ∙ un)
          (Invariant.deliver-Inv tag b x rest v at p deadline found un) in
      rw (force_head n x rest b p deadline found order.0)
        (Invariant.Delivers-cons tag b x rest v at p deadline found un d, omega (arith, k))

  flush_loop-Delivers :
      (h : List ℕ) (b : ReorderBuffer A)
      → b.heap ≡ h
      → b.priming ≡ false
      → Inv b
      → Delivers b (flush_loop h b).0 (flush_loop h b).1 × ((flush_loop h b).0.heap ≡ [])
  flush_loop-Delivers [] b at un v = unfold flush_loop in (Invariant.Delivers-refl tag v, at)
  flush_loop-Delivers (x ∷ rest) b at un v =
      let ((p, deadline), found) = Loops.head_pending tag b x rest v at in
      let popped = pop_head b x rest in
      let order = Invariant.head_order tag b x rest v at p deadline found un in
      let (d, k) =
        flush_loop-Delivers rest (advance popped x) (Loops.advance_heap tag popped x)
          (Loops.advance_priming tag popped x ∙ un)
          (Invariant.deliver-Inv tag b x rest v at p deadline found un) in
      rw (flush_head x rest b p deadline found order.0)
        (Invariant.Delivers-cons tag b x rest v at p deadline found un d, k)

  -- `flush` empties the buffer.
  pub flush-Delivers :
      (b : ReorderBuffer A)
      → Inv b
      → Delivers (Loops.unprimed tag b) (flush b).0 (flush b).1 × ((flush b).0.heap ≡ [])
  unfolding flush
  flush-Delivers b v =
      flush_loop-Delivers b.heap (Loops.unprimed tag b) refl refl (Invariant.unprime-Inv tag b v)

  abbrev pub overflowed : ReorderBuffer A → ReorderBuffer A
  overflowed b = record b {
    priming = false;
    stats = record (b.stats) { overflow_flushes = b.stats.overflow_flushes + 1 };
  }

  overflowed-Inv : (b : ReorderBuffer A) → Inv b → Inv (overflowed b)
  overflowed-Inv b v =
      let u = Invariant.unprime-Inv tag b v in
      record {
        ordered = u.ordered;
        keyed = u.keyed;
        tagged = u.tagged;
        recent = u.recent;
        small = u.small;
        quiet = u.quiet;
        fresh = u.fresh;
      }

  -- `_force_flush` leaves half the capacity, when more than the capacity is pending.
  pub force_flush-Delivers :
      (b : ReorderBuffer A)
      → Inv b
      → b.capacity < length b.pending
      → Delivers (overflowed b) (force_flush b).0 (force_flush b).1
        × (length (force_flush b).0.pending ≡ b.capacity / 2)
  unfolding force_flush
  force_flush-Delivers b v over =
      let (d, k) =
        force_loop-Delivers (length b.pending - b.capacity / 2) b.heap (overflowed b) refl refl
          (overflowed-Inv b v) in
      (d, omega (arith, k, d.conserved, v.keyed.size))
