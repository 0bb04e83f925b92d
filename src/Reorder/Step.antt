-- ===== src/Reorder/Step.antt =====
-- One call of `_drain`, `flush` or `_force_flush` as a step of the buffer, and steps in a row.
use turbobond.Base.{
  ℕ, ◌+◌, ◌≤◌, ◌≡◌, refl, ap, ◌∙◌, true, false, some, List, [], ◌++◌, length, length-append, arith,
  ltb, inl, inr, lt→ltb, dec_lt,
}
use turbobond.Reorder.{ReorderBuffer, drain, shed}
use turbobond.Reorder.Invariant
use turbobond.Reorder.Loops
use turbobond.Reorder.Flush

module _ {A : Type 0} (tag : A → ℕ) where
  abbrev Inv : ReorderBuffer A → Type 0
  Inv = Invariant.Inv tag

  -- A call has taken `b` to `b'` and released `out`.
  pub record Step (b b' : ReorderBuffer A) (out : List A) : Type 0 where
    pub inv : Inv b'
    pub rising : Invariant.Rising tag b.next_seq out b'.next_seq
    pub counted : b'.stats.delivered ≡ b.stats.delivered + length out
    pub conserved : length b'.pending + length out ≡ length b.pending
    pub capacity : b'.capacity ≡ b.capacity
    pub started : b'.started ≡ b.started
    pub duplicates : b'.stats.duplicates ≡ b.stats.duplicates
    pub late_drops : b'.stats.late_drops ≡ b.stats.late_drops
    pub primed : b'.priming ≡ true → (out ≡ []) × (b.priming ≡ true)

  pub Step-of_Delivers :
      {b b' : ReorderBuffer A} {out : List A}
      → Invariant.Delivers tag (Loops.unprimed tag b) b' out
      → Step b b' out
  Step-of_Delivers d = record {
    inv = d.inv;
    rising = d.rising;
    counted = d.counted;
    conserved = d.conserved;
    capacity = d.capacity;
    started = d.started;
    duplicates = d.duplicates;
    late_drops = d.late_drops;
    primed = λ e. absurd (cc (e, d.priming));
  }

  pub Step-refl : {b : ReorderBuffer A} → Inv b → Step b b []
  Step-refl v = record {
    inv = v;
    rising = omega arith;
    counted = omega arith;
    conserved = omega arith;
    capacity = refl;
    started = refl;
    duplicates = refl;
    late_drops = refl;
    primed = λ e. (refl, e);
  }

  pub Step-trans :
      {b c d : ReorderBuffer A} {ps qs : List A} → Step b c ps → Step c d qs → Step b d (ps ++ qs)
  Step-trans {b} {c} {d} {ps} {qs} s t = record {
    inv = t.inv;
    rising = Invariant.Rising-append tag b.next_seq c.next_seq d.next_seq ps qs s.rising t.rising;
    counted = omega (arith, s.counted, t.counted, length-append ps qs);
    conserved = omega (arith, s.conserved, t.conserved, length-append ps qs);
    capacity = t.capacity ∙ s.capacity;
    started = t.started ∙ s.started;
    duplicates = t.duplicates ∙ s.duplicates;
    late_drops = t.late_drops ∙ s.late_drops;
    primed =
        λ e. let (q, p) = t.primed e in let (r, o) = s.primed p in (ap (λ x. x ++ qs) r ∙ q, o);
  }

  -- `_drain` never raises.
  pub drain-Step :
      (b : ReorderBuffer A) (now : ℕ)
      → Inv b
      → (b' : ReorderBuffer A) × (out : List A) × (drain b now ≡ some (b', out)) × Step b b' out
  drain-Step b now v = elim (Loops.drain_cases tag b now v) [
    | inl (p, h, e) ↦ (b, [], e, Step-refl v)
    | inr (b', out, e, d, w) ↦ (b', out, e, Step-of_Delivers d)
  ]

  Step-of_overflow :
      {b b' : ReorderBuffer A} {out : List A}
      → Invariant.Delivers tag (Flush.overflowed tag b) b' out
      → Step b b' out
  Step-of_overflow d = record {
    inv = d.inv;
    rising = d.rising;
    counted = d.counted;
    conserved = d.conserved;
    capacity = d.capacity;
    started = d.started;
    duplicates = d.duplicates;
    late_drops = d.late_drops;
    primed = λ e. absurd (cc (e, d.priming));
  }

  pub shed-Step :
      (b c : ReorderBuffer A) (ps : List A)
      → Step b c ps
      → Step b (shed (c, ps)).0 (shed (c, ps)).1 × (length (shed (c, ps)).0.pending ≤ b.capacity)
  shed-Step b c ps s = elim (dec_lt c.capacity (length c.pending)) [
    | yes over ↦
        let (d, k) = Flush.force_flush-Delivers tag c s.inv over in
        rw (lt→ltb c.capacity (length c.pending) over)
          (Step-trans s (Step-of_overflow d), omega (arith, k, s.capacity))
    | no fits ↦
        let same : ltb c.capacity (length c.pending) ≡ false = ground arith in
        rw same (s, omega (arith, s.capacity))
  ]
