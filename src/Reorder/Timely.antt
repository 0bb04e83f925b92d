-- ===== src/Reorder/Timely.antt =====
-- Deadlines: a timer that fires after the last of them leaves nothing in the buffer.
use turbobond.Base.{
  ℕ, zero, suc, ◌+◌, ◌-◌, ◌/◌, ◌≤◌, ◌≡◌, refl, subst, sym, true, false, Option, none, some, List,
  [], ◌∷◌, length, arith, ltb, leb, ◌==◌, inl, inr, Bool-cases, Option-cases, ◌&&◌, ◌||◌, elem,
}
use turbobond.Base.Dict.{Dict, lookup, has, Each, erase-Each, insert-Each}
use turbobond.Reorder.{
  ReorderBuffer, drain, drain_loop, force_loop, force_flush, flush_loop, hold, shed, shed_after,
  open_stream, push, pop_head, skip_gap, advance, emit, emit_all,
}

module _ {A : Type 0} (t k : ℕ) where
  -- Every deadline is `t` at the latest, and the timeout is `k`.
  pub record IsTimely (b : ReorderBuffer A) : Type 0 where
    pub due : Each (λ s e. e.1 ≤ t) b.pending
    pub primed : b.priming ≡ true → b.prime_deadline ≤ t
    pub wait : b.timeout ≡ k

  abbrev pub Due : Dict (A × ℕ) → Type 0
  Due = Each (λ s e. e.1 ≤ t)

  abbrev Keeps : Option (ReorderBuffer A × List A) → Type 0
  Keeps none = Unit {0}
  Keeps (some (b, out)) = Due b.pending × (b.priming ≡ false) × (b.timeout ≡ k)

  emit-Keeps : (p : A) (r : Option (ReorderBuffer A × List A)) → Keeps r → Keeps (emit p r)
  emit-Keeps p none k = tt
  emit-Keeps p (some (b, out)) k = k

  abbrev pub IsDue : ReorderBuffer A → Type 0
  IsDue b = Due b.pending × (b.priming ≡ false) × (b.timeout ≡ k)

  popped-IsDue : (b : ReorderBuffer A) (x : ℕ) (rest : List ℕ) → IsDue b → IsDue (pop_head b x rest)
  popped-IsDue b x rest (d, u, w) = (erase-Each (λ s e. e.1 ≤ t) x b.pending d, u, w)

  advanced-IsDue : (b : ReorderBuffer A) (x : ℕ) → IsDue b → IsDue (advance b x)
  unfolding advance
  advanced-IsDue b x d = d

  drain_loop-Keeps :
      (now : ℕ) (h : List ℕ) (b : ReorderBuffer A) → IsDue b → Keeps (drain_loop now h b)
  unfolding drain_loop
  drain_loop-Keeps now [] b d = d
  drain_loop-Keeps now (x ∷ rest) b d =
      let popped = pop_head b x rest in
      let late = pop_head (skip_gap b x) x rest in
      let stale = drain_loop-Keeps now rest popped (popped-IsDue b x rest d) in
      let in_order =
        drain_loop-Keeps now rest (advance popped x)
          (advanced-IsDue popped x (popped-IsDue b x rest d)) in
      let over =
        drain_loop-Keeps now rest (advance late x)
          (advanced-IsDue late x (popped-IsDue (skip_gap b x) x rest d)) in
      elim (Bool-cases (ltb x b.next_seq)) [
        | inl h ↦ rw h stale
        | inr h ↦ elim (Option-cases (lookup x b.pending)) [
          | inl n ↦ rw (h, n) tt
          | inr ((p, deadline), f) ↦ elim (Bool-cases (x == b.next_seq)) [
            | inl same ↦ rw (h, f, same) (emit-Keeps p _ in_order)
            | inr gap ↦ elim (Bool-cases (leb deadline now)) [
              | inl over_due ↦ rw (h, f, gap, over_due) (emit-Keeps p _ over)
              | inr wait ↦ rw (h, f, gap, wait) d
            ]
          ]
        ]
      ]

  emit_all-IsDue : (p : A) (r : ReorderBuffer A × List A) → IsDue r.0 → IsDue (emit_all p r).0
  emit_all-IsDue p (b, out) d = d

  force_loop-IsDue :
      (n : ℕ) (h : List ℕ) (b : ReorderBuffer A) → IsDue b → IsDue (force_loop n h b).0
  unfolding force_loop
  force_loop-IsDue n [] b d = d
  force_loop-IsDue zero (x ∷ rest) b d = d
  force_loop-IsDue (suc n) (x ∷ rest) b d =
      let popped = pop_head b x rest in
      let pd = popped-IsDue b x rest d in
      let stale = force_loop-IsDue n rest popped pd in
      let more = force_loop-IsDue n rest (advance popped x) (advanced-IsDue popped x pd) in
      elim (Option-cases (lookup x b.pending)) [
        | inl n ↦ rw (n, force_loop) stale
        | inr ((p, deadline), f) ↦ elim (Bool-cases (ltb x b.next_seq)) [
          | inl h ↦ rw (f, force_loop, h) stale
          | inr h ↦ rw (f, force_loop, h) more
        ]
      ]

  pub flush_loop-IsDue : (h : List ℕ) (b : ReorderBuffer A) → IsDue b → IsDue (flush_loop h b).0
  unfolding flush_loop
  flush_loop-IsDue [] b d = d
  flush_loop-IsDue (x ∷ rest) b d =
      let popped = pop_head b x rest in
      let pd = popped-IsDue b x rest d in
      let stale = flush_loop-IsDue rest popped pd in
      let more = flush_loop-IsDue rest (advance popped x) (advanced-IsDue popped x pd) in
      elim (Option-cases (lookup x b.pending)) [
        | inl n ↦ rw (n, flush_loop) stale
        | inr ((p, deadline), f) ↦ elim (Bool-cases (leb b.next_seq x)) [
          | inl h ↦ rw (f, flush_loop, h) more
          | inr h ↦ rw (f, flush_loop, h) stale
        ]
      ]

  pub IsTimely-of_due : {b : ReorderBuffer A} → IsDue b → IsTimely b
  IsTimely-of_due d = record { due = d.0; primed = λ e. absurd (cc (e, d.1)); wait = d.2 }

  abbrev pub Leaves : Option (ReorderBuffer A × List A) → Type 0
  Leaves none = Unit {0}
  Leaves (some (b, out)) = IsTimely b

  Leaves-of_Keeps : (r : Option (ReorderBuffer A × List A)) → Keeps r → Leaves r
  Leaves-of_Keeps none k = tt
  Leaves-of_Keeps (some (b, out)) k = IsTimely-of_due k

  pub drain-Leaves : (b : ReorderBuffer A) (now : ℕ) → IsTimely b → Leaves (drain b now)
  unfolding drain
  drain-Leaves b now v = elim (Bool-cases (b.priming && ltb now b.prime_deadline)) [
    | inl h ↦ rw h v
    | inr h ↦ rw h (Leaves-of_Keeps _ (drain_loop-Keeps now b.heap _ (v.due, refl, v.wait)))
  ]

  pub shed-IsTimely : (r : ReorderBuffer A × List A) → IsTimely r.0 → IsTimely (shed r).0
  unfolding force_flush
  shed-IsTimely (b, out) v = elim (Bool-cases (ltb b.capacity (length b.pending))) [
    | inl h ↦ rw h (
        IsTimely-of_due
          (force_loop-IsDue (length b.pending - b.capacity / 2) b.heap _ (v.due, refl, v.wait)))
    | inr h ↦ rw h v
  ]

  shed_after-Leaves : (r : Option (ReorderBuffer A × List A)) → Leaves r → Leaves (shed_after r)
  shed_after-Leaves none v = tt
  shed_after-Leaves (some r) v = shed-IsTimely r v

  open_stream-IsTimely :
      (b : ReorderBuffer A) (seq now : ℕ)
      → IsTimely b
      → now + k ≤ t
      → IsTimely (open_stream b seq now)
  unfolding open_stream
  open_stream-IsTimely b seq now v h = elim (Bool-cases b.started) [
    | inr s ↦
        let opened : ReorderBuffer A = record b {
          started = true;
          next_seq = seq;
          priming = true;
          prime_deadline = now + b.timeout;
        } in
        let e : open_stream b seq now ≡ opened = ground (arith, s) in
        let w : IsTimely opened = record {
          due = v.due;
          primed = λ _. omega (arith, v.wait);
          wait = v.wait;
        } in
        subst IsTimely (sym e) w
    | inl s ↦ elim (Bool-cases (b.priming && ltb seq b.next_seq)) [
      | inl back ↦
          let e : open_stream b seq now ≡ record b { next_seq = seq } = ground (arith, s, back) in
          let w : IsTimely (record b { next_seq = seq }) = record {
            due = v.due;
            primed = v.primed;
            wait = v.wait;
          } in
          subst IsTimely (sym e) w
      | inr on ↦
          let e : open_stream b seq now ≡ b = ground (arith, s, on) in subst IsTimely (sym e) v
    ]
  ]

  recount-IsTimely :
      (b : ReorderBuffer A) (d l : ℕ)
      → IsTimely b
      → IsTimely (record b { stats = record (b.stats) { duplicates = d; late_drops = l } })
  recount-IsTimely b d l v = record { due = v.due; primed = v.primed; wait = v.wait }

  hold-IsTimely :
      (b : ReorderBuffer A) (seq : ℕ) (p : A) (now : ℕ)
      → IsTimely b
      → now + k ≤ t
      → IsTimely (hold b seq p now)
  unfolding hold
  hold-IsTimely b seq p now v h = record {
    due =
        insert-Each (λ s e. e.1 ≤ t) seq (p, now + b.timeout) b.pending (omega (arith, v.wait))
          v.due;
    primed = v.primed;
    wait = v.wait;
  }

  pub push-Leaves :
      (b : ReorderBuffer A) (seq : ℕ) (p : A) (now : ℕ)
      → IsTimely b
      → now + k ≤ t
      → Leaves (push b seq p now)
  push-Leaves b₀ seq p now v₀ h =
      let b = open_stream b₀ seq now in
      let v = open_stream-IsTimely b₀ seq now v₀ h in
      elim (Bool-cases (has seq b.pending || elem seq b.seen)) [
        | inl known ↦
            unfold push in
            rw known (recount-IsTimely b (b.stats.duplicates + 1) b.stats.late_drops v)
        | inr fresh ↦ elim (Bool-cases (ltb seq b.next_seq)) [
          | inl late ↦
              unfold push in
              rw (fresh, late) (recount-IsTimely b b.stats.duplicates (b.stats.late_drops + 1) v)
          | inr due ↦
              unfold push in
              rw (fresh, due)
                (shed_after-Leaves _
                  (drain-Leaves (hold b seq p now) now (hold-IsTimely b seq p now v h)))
        ]
      ]
