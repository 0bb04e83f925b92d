-- ===== src/Reorder/Push.antt =====
-- `push` on a buffer that is in order.
use turbobond.Base.{
  ℕ, suc, ◌+◌, ◌≤◌, ◌≡◌, refl, ap, subst, ◌∙◌, sym, true, false, ◌&&◌, ◌||◌, some, List, [], length,
  arith, ltb, inl, inr, Bool-cases, elem,
}
use turbobond.Base.Dict.{has, insert-Each, length-insert_new}
use turbobond.Reorder.{ReorderBuffer, drain, open_stream, hold, shed, shed_after, push}
use turbobond.Reorder.Order.{Above, Above-mono, Falling, heappush-Above, Keyed-push}
use turbobond.Reorder.Invariant
use turbobond.Reorder.Step

module _ {A : Type 0} (tag : A → ℕ) where
  abbrev Inv : ReorderBuffer A → Type 0
  Inv = Invariant.Inv tag

  open_stream-Inv : (b : ReorderBuffer A) (seq now : ℕ) → Inv b → Inv (open_stream b seq now)
  unfolding open_stream
  open_stream-Inv b seq now v = elim (Bool-cases b.started) [
    | inl s ↦ elim (Bool-cases (b.priming && ltb seq b.next_seq)) [
      | inl back ↦
          let empty = v.quiet (ground arith) in
          rw (s, open_stream, back)
            (record {
              ordered = Above-mono seq b.next_seq b.heap (ground arith) v.ordered;
              keyed = v.keyed;
              tagged = v.tagged;
              recent = subst (Falling seq) (sym empty) tt;
              small = v.small;
              quiet = v.quiet;
              fresh = λ e. absurd (cc e);
            })
      | inr on ↦
          let same : open_stream b seq now ≡ b = ground (arith, s, on) in subst Inv (sym same) v
    ]
    | inr s ↦
        let (no_heap, no_seen, idle) = v.fresh s in
        rw (s, open_stream)
          (record {
            ordered = subst (Above seq) (sym no_heap) tt;
            keyed = v.keyed;
            tagged = v.tagged;
            recent = subst (Falling seq) (sym no_seen) tt;
            small = v.small;
            quiet = λ e. no_seen;
            fresh = λ e. absurd (cc e);
          })
  ]

  open_stream_started : (b : ReorderBuffer A) (seq now : ℕ) → (open_stream b seq now).started ≡ true
  unfolding open_stream
  open_stream_started b seq now = ground arith

  hold-Inv :
      (b : ReorderBuffer A) (seq : ℕ) (payload : A) (now : ℕ)
      → Inv b
      → tag payload ≡ seq
      → has seq b.pending ≡ false
      → b.next_seq ≤ seq
      → b.started ≡ true
      → Inv (hold b seq payload now)
  unfolding hold
  hold-Inv b seq payload now v named new h st = record {
    ordered = heappush-Above seq b.next_seq b.heap h (sym (v.keyed.same seq) ∙ new) v.ordered;
    keyed = Keyed-push seq (payload, now + b.timeout) b.heap b.pending new v.keyed;
    tagged =
        insert-Each (λ s e. tag e.0 ≡ s) seq (payload, now + b.timeout) b.pending named v.tagged;
    recent = v.recent;
    small = v.small;
    quiet = v.quiet;
    fresh = λ e. absurd (cc (e, st));
  }

  -- What `push` makes of the buffer `b` in which the stream is open.
  pub record Pushed (b b' : ReorderBuffer A) (out : List A) : Type 0 where
    pub inv : Inv b'
    pub rising : Invariant.Rising tag b.next_seq out b'.next_seq
    pub counted : b'.stats.delivered ≡ b.stats.delivered + length out
    pub accounted :
        b'.stats.duplicates + b'.stats.late_drops + length b'.pending + length out
        ≡ suc (b.stats.duplicates + b.stats.late_drops + length b.pending)
    pub bounded : length b.pending ≤ b.capacity → length b'.pending ≤ b'.capacity
    pub started : b'.started ≡ true
    pub primed : b'.priming ≡ true → (out ≡ []) × (b.priming ≡ true)

  push_held :
      (b : ReorderBuffer A) (seq : ℕ) (payload : A) (now : ℕ)
      → Inv (hold b seq payload now)
      → has seq b.pending ≡ false
      → b.started ≡ true
      → (b' : ReorderBuffer A) × (out : List A) × (shed_after (drain (hold b seq payload now) now)
          ≡ some (b', out))
        × Pushed b b' out
  push_held b seq payload now v new st =
      let (c, ps, e, s) = Step.drain-Step tag (hold b seq payload now) now v in
      let (t, k) = Step.shed-Step tag (hold b seq payload now) c ps s in
      let size = length-insert_new seq (payload, now + b.timeout) b.pending new in
      (
        (shed (c, ps)).0,
        (shed (c, ps)).1,
        ap shed_after e,
        unfold hold in
            record {
              inv = t.inv;
              rising = t.rising;
              counted = t.counted;
              accounted = omega (arith, t.conserved, t.duplicates, t.late_drops, size);
              bounded = λ h. omega (arith, k, t.capacity);
              started = t.started ∙ st;
              primed = t.primed;
            },
      )

  -- What was counted or dropped leaves the buffer as it is.
  Pushed-same :
      (b b' : ReorderBuffer A)
      → Inv b
      → Inv b'
      → b.started ≡ true
      → b'.started ≡ true
      → b'.next_seq ≡ b.next_seq
      → b'.stats.delivered ≡ b.stats.delivered
      → b'.stats.duplicates + b'.stats.late_drops ≡ suc (b.stats.duplicates + b.stats.late_drops)
      → b'.pending ≡ b.pending
      → b'.capacity ≡ b.capacity
      → b'.priming ≡ b.priming
      → Pushed b b' []
  Pushed-same b b' v v' st st' n d k p c q = record {
    inv = v';
    rising = omega (arith, n);
    counted = omega (arith, d);
    accounted = omega (arith, k, ap length p);
    bounded = λ h. omega (arith, ap length p, c);
    started = st';
    primed = λ e. (refl, sym q ∙ e);
  }

  recount-Inv :
      (b : ReorderBuffer A) (d l : ℕ)
      → Inv b
      → Inv (record b { stats = record (b.stats) { duplicates = d; late_drops = l } })
  recount-Inv b d l v = record {
    ordered = v.ordered;
    keyed = v.keyed;
    tagged = v.tagged;
    recent = v.recent;
    small = v.small;
    quiet = v.quiet;
    fresh = v.fresh;
  }

  pub push-Pushed :
      (b : ReorderBuffer A) (seq : ℕ) (payload : A) (now : ℕ)
      → Inv b
      → tag payload ≡ seq
      → (b' : ReorderBuffer A) × (out : List A) × (push b seq payload now ≡ some (b', out))
        × Pushed (open_stream b seq now) b' out
  push-Pushed b₀ seq payload now v₀ named =
      let b = open_stream b₀ seq now in
      let v : Inv b = open_stream-Inv b₀ seq now v₀ in
      let st = open_stream_started b₀ seq now in
      elim (Bool-cases (has seq b.pending || elem seq b.seen)) [
        | inl known ↦ (
          record b { stats = record (b.stats) { duplicates = b.stats.duplicates + 1 } },
          [],
          (unfold push in rw known),
          Pushed-same b _ v (recount-Inv b (b.stats.duplicates + 1) b.stats.late_drops v) st st refl
              refl (omega arith) refl refl refl,
        )
        | inr fresh ↦ elim (Bool-cases (ltb seq b.next_seq)) [
          | inl late ↦ (
            record b { stats = record (b.stats) { late_drops = b.stats.late_drops + 1 } },
            [],
            (unfold push in rw (fresh, late)),
            Pushed-same b _ v (recount-Inv b b.stats.duplicates (b.stats.late_drops + 1) v) st st
                refl refl (omega arith) refl refl refl,
          )
          | inr due ↦
              let new : has seq b.pending ≡ false = ground arith in
              let held = hold-Inv b seq payload now v named new (ground arith) st in
              let (b', out, e, p) = push_held b seq payload now held new st in
              (b', out, (unfold push in rw (fresh, due) e), p)
        ]
      ]
