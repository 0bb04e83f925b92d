-- ===== src/Reorder/Invariant.antt =====
-- What holds of a reorder buffer between two calls, and what one delivery keeps. `tag` reads the
-- sequence number off a payload.
use turbobond.Base.{
  ℕ, suc, ◌+◌, ◌-◌, ◌*◌, ◌≤◌, ◌≡◌, refl, true, false, some, List, [], ◌∷◌, ◌++◌, leb, length, elem,
  arith, subst, ap,
}
use turbobond.Base.Dict.{lookup, erase, has, Each, erase-Each, lookup-Each}
use turbobond.Reorder.{ReorderBuffer, advance, pop_head, skip_gap, set_add, init, reset}
use turbobond.Reorder.Order.{
  Above, Above-mono, Falling, Falling-mono, Falling-not_elem, keep-Falling, length-keep-Falling,
  Keyed, Keyed-pop,
}

module _ {A : Type 0} (tag : A → ℕ) where
  -- The heap holds the keys of the pending map, ascending from `next_seq` on; `seen` lies below
  -- `next_seq` and is bounded; nothing was delivered while the buffer learns where the stream starts.
  pub record Inv (b : ReorderBuffer A) : Type 0 where
    pub ordered : Above b.next_seq b.heap
    pub keyed : Keyed b.heap b.pending
    pub tagged : Each (λ s e. tag e.0 ≡ s) b.pending
    pub recent : Falling b.next_seq b.seen
    pub small : length b.seen ≤ b.capacity * 4
    pub quiet : b.priming ≡ true → b.seen ≡ []
    pub fresh : b.started ≡ false → (b.heap ≡ []) × (b.seen ≡ []) × (b.priming ≡ false)

  -- The payloads have ascending tags, from `n` on and below `m`.
  abbrev pub Rising : ℕ → List A → ℕ → Type 0
  Rising n [] m = n ≤ m
  Rising n (p ∷ ps) m = (n ≤ tag p) × Rising (suc (tag p)) ps m

  pub Rising-append :
      (n m k : ℕ) (ps qs : List A) → Rising n ps m → Rising m qs k → Rising n (ps ++ qs) k
  Rising-append n m k [] [] r s = omega arith
  Rising-append n m k [] (q ∷ qs) r s = (omega arith, s.1)
  Rising-append n m k (p ∷ ps) qs r s = (r.0, Rising-append (suc (tag p)) m k ps qs r.1 s)

  -- A loop has taken buffer `b` to `b'` and released `out`.
  pub record Delivers (b b' : ReorderBuffer A) (out : List A) : Type 0 where
    pub inv : Inv b'
    pub rising : Rising b.next_seq out b'.next_seq
    pub counted : b'.stats.delivered ≡ b.stats.delivered + length out
    pub conserved : length b'.pending + length out ≡ length b.pending
    pub capacity : b'.capacity ≡ b.capacity
    pub priming : b'.priming ≡ b.priming
    pub started : b'.started ≡ b.started
    pub duplicates : b'.stats.duplicates ≡ b.stats.duplicates
    pub late_drops : b'.stats.late_drops ≡ b.stats.late_drops

  pub Delivers-refl : {b : ReorderBuffer A} → Inv b → Delivers b b []
  Delivers-refl v = record {
    inv = v;
    rising = omega arith;
    counted = omega arith;
    conserved = omega arith;
    capacity = refl;
    priming = refl;
    started = refl;
    duplicates = refl;
    late_drops = refl;
  }

  advance_seen :
      (b : ReorderBuffer A) (x : ℕ)
      → Falling b.next_seq b.seen
      → b.next_seq ≤ x
      → Falling (x + 1) (advance b x).seen × (length (advance b x).seen ≤ b.capacity * 4)
  unfolding advance set_add
  advance_seen b x f h =
      let cutoff = x + 1 - b.capacity * 2 in
      ground (
        arith,
        Falling-not_elem x b.next_seq b.seen,
        Falling-mono b.next_seq x b.seen,
        keep-Falling (x + 1) (leb cutoff) (x ∷ b.seen),
        length-keep-Falling (x + 1) cutoff (x ∷ b.seen),
      )

  -- The head of the heap is taken out and delivered.
  module _ (b : ReorderBuffer A) (x : ℕ) (rest : List ℕ) (v : Inv b) (at : b.heap ≡ x ∷ rest)
      (p : A) (deadline : ℕ) (found : lookup x b.pending ≡ some (p, deadline))
      (unprimed : b.priming ≡ false) where
    pub head_order : (b.next_seq ≤ x) × Above (suc x) rest
    head_order = subst (Above b.next_seq) at v.ordered

    popped-Keyed : Keyed rest (erase x b.pending)
    popped-Keyed =
        Keyed-pop b.next_seq x rest b.pending head_order (subst (λ h. Keyed h b.pending) at v.keyed)

    popped_size : length b.pending ≡ suc (length (erase x b.pending))
    popped_size = omega (arith, ap length at, v.keyed.size, popped-Keyed.size)

    tag_of_head : tag p ≡ x
    tag_of_head = lookup-Each (λ s e. tag e.0 ≡ s) x (p, deadline) b.pending v.tagged found

    pub deliver-Inv : Inv (advance (pop_head b x rest) x)
    deliver-Inv =
        let seen_after = advance_seen (pop_head b x rest) x v.recent head_order.0 in
        record {
          ordered = unfold advance in Above-mono (x + 1) (suc x) rest (omega arith) head_order.1;
          keyed = unfold advance in popped-Keyed;
          tagged = unfold advance in erase-Each (λ s e. tag e.0 ≡ s) x b.pending v.tagged;
          recent = unfold advance in seen_after.0;
          small = unfold advance in seen_after.1;
          quiet = unfold advance in λ e. absurd (cc (unprimed, e));
          fresh = unfold advance in λ e. absurd (cc (at, (v.fresh e).0));
        }

    -- What the rest of the loop releases, with the head's payload in front.
    pub Delivers-cons :
        {b' : ReorderBuffer A} {out : List A}
        → Delivers (advance (pop_head b x rest) x) b' out
        → Delivers b b' (p ∷ out)
    unfolding advance
    Delivers-cons {b'} {out} d = record {
      inv = d.inv;
      rising = (
        omega (arith, tag_of_head, head_order.0),
        subst (λ n. Rising n out b'.next_seq) (omega (arith, tag_of_head)) d.rising,
      );
      counted = omega (arith, d.counted);
      conserved = omega (arith, d.conserved, popped_size);
      capacity = d.capacity;
      priming = d.priming;
      started = d.started;
      duplicates = d.duplicates;
      late_drops = d.late_drops;
    }

  pub skip_gap-Inv : (b : ReorderBuffer A) (x : ℕ) → Inv b → Inv (skip_gap b x)
  skip_gap-Inv b x v = record {
    ordered = v.ordered;
    keyed = v.keyed;
    tagged = v.tagged;
    recent = v.recent;
    small = v.small;
    quiet = v.quiet;
    fresh = v.fresh;
  }

  pub skip_gap-Delivers :
      (b : ReorderBuffer A) (x : ℕ) {b' : ReorderBuffer A} {out : List A}
      → Delivers (skip_gap b x) b' out
      → Delivers b b' out
  skip_gap-Delivers b x d = record {
    inv = d.inv;
    rising = d.rising;
    counted = d.counted;
    conserved = d.conserved;
    capacity = d.capacity;
    priming = d.priming;
    started = d.started;
    duplicates = d.duplicates;
    late_drops = d.late_drops;
  }

  -- Once it is known where the stream starts, or that there is no stream yet.
  pub unprime-Inv : (b : ReorderBuffer A) → Inv b → Inv (record b { priming = false })
  unprime-Inv b v = record {
    ordered = v.ordered;
    keyed = v.keyed;
    tagged = v.tagged;
    recent = v.recent;
    small = v.small;
    quiet = λ e. cc;
    fresh = λ e. ((v.fresh e).0, (v.fresh e).1, refl);
  }

  pub init-Inv : (timeout capacity : ℕ) → Inv (init timeout capacity)
  unfolding init has elem
  init-Inv timeout capacity = record {
    ordered = tt;
    keyed = record { distinct = tt; size = refl; same = λ s. refl };
    tagged = tt;
    recent = tt;
    small = omega arith;
    quiet = λ e. refl;
    fresh = λ e. (refl, refl, refl);
  }

  pub reset-Inv : (b : ReorderBuffer A) → Inv (reset b)
  unfolding reset has elem
  reset-Inv b = record {
    ordered = tt;
    keyed = record { distinct = tt; size = refl; same = λ s. refl };
    tagged = tt;
    recent = tt;
    small = omega arith;
    quiet = λ e. refl;
    fresh = λ e. (refl, refl, refl);
  }
