-- ===== src/Reorder/Loops.antt =====
-- `_drain`: what it delivers, that it raises no KeyError, and where it stops.
use turbobond.Base.{
  ℕ, ◌≤◌, ◌<◌, ◌≡◌, refl, ap, ◌∙◌, true, false, Option, some, List, [], ◌∷◌, ltb, elem, arith, ◌⊎◌,
  inl, inr, Bool-cases, dec_lt, ◌&&◌,
}
use turbobond.Base.Dict.{lookup, lookup-has}
use turbobond.Reorder.{ReorderBuffer, advance, pop_head, skip_gap, drain_loop, drain}
use turbobond.Reorder.Invariant

module _ {A : Type 0} (tag : A → ℕ) where
  abbrev pub Inv : ReorderBuffer A → Type 0
  Inv = Invariant.Inv tag

  abbrev pub Delivers : ReorderBuffer A → ReorderBuffer A → List A → Type 0
  Delivers = Invariant.Delivers tag

  pub advance_heap : (b : ReorderBuffer A) (x : ℕ) → (advance b x).heap ≡ b.heap
  unfolding advance
  advance_heap b x = refl

  pub advance_priming : (b : ReorderBuffer A) (x : ℕ) → (advance b x).priming ≡ b.priming
  unfolding advance
  advance_priming b x = refl

  -- The head of the heap is pending.
  pub head_pending :
      (b : ReorderBuffer A) (x : ℕ) (rest : List ℕ)
      → Inv b
      → b.heap ≡ x ∷ rest
      → (e : A × ℕ) × (lookup x b.pending ≡ some e)
  unfolding elem
  head_pending b x rest v at =
      lookup-has x b.pending (v.keyed.same x ∙ ap (elem x) at ∙ ground arith)

  -- A drained buffer is empty, or waits at a gap for a deadline that has not come.
  abbrev pub Waits : ReorderBuffer A → ℕ → Type 0
  Waits b now =
      (b.heap ≡ [])
      ⊎ ((x : ℕ) × (rest : List ℕ) × (p : A) × (deadline : ℕ) × (b.heap ≡ x ∷ rest)
          × (b.next_seq < x)
          × (lookup x b.pending ≡ some (p, deadline))
          × (now < deadline))

  abbrev pub Drained : ℕ → ReorderBuffer A → Option (ReorderBuffer A × List A) → Type 0
  Drained now b r =
      (b' : ReorderBuffer A) × (out : List A) × (r ≡ some (b', out))
      × Delivers b b' out
      × Waits b' now

  -- One round, by the case that it takes.
  module _ (now x : ℕ) (rest : List ℕ) (b : ReorderBuffer A) (p : A) (deadline : ℕ)
      (found : lookup x b.pending ≡ some (p, deadline)) where
    drain_in_order :
        {b' : ReorderBuffer A} {out : List A}
        → x ≡ b.next_seq
        → drain_loop now rest (advance (pop_head b x rest) x) ≡ some (b', out)
        → drain_loop now (x ∷ rest) b ≡ some (b', p ∷ out)
    unfolding drain_loop
    drain_in_order e r = ground (arith, found, r)

    drain_late :
        {b' : ReorderBuffer A} {out : List A}
        → b.next_seq < x
        → deadline ≤ now
        → drain_loop now rest (advance (pop_head (skip_gap b x) x rest) x) ≡ some (b', out)
        → drain_loop now (x ∷ rest) b ≡ some (b', p ∷ out)
    unfolding drain_loop
    drain_late h l r = ground (arith, found, r)

    drain_waits : b.next_seq < x → now < deadline → drain_loop now (x ∷ rest) b ≡ some (b, [])
    unfolding drain_loop
    drain_waits h l = ground (arith, found)

  drain_loop-Drained :
      (now : ℕ) (h : List ℕ) (b : ReorderBuffer A)
      → b.heap ≡ h
      → b.priming ≡ false
      → Inv b
      → Drained now b (drain_loop now h b)
  drain_loop-Drained now [] b at un v =
      (b, [], unfold drain_loop in refl, Invariant.Delivers-refl tag v, inl at)
  drain_loop-Drained now (x ∷ rest) b at un v =
      let ((p, deadline), found) = head_pending b x rest v at in
      let popped = pop_head b x rest in
      let late = pop_head (skip_gap b x) x rest in
      let order = Invariant.head_order tag b x rest v at p deadline found un in
      elim (dec_lt b.next_seq x) [
        | no now_due ↦
            let (b', out, r, d, w) =
              drain_loop-Drained now rest (advance popped x) (advance_heap popped x)
                (advance_priming popped x ∙ un)
                (Invariant.deliver-Inv tag b x rest v at p deadline found un) in
            (
              b',
              p ∷ out,
              drain_in_order now x rest b p deadline found (omega arith) r,
              Invariant.Delivers-cons tag b x rest v at p deadline found un d,
              w,
            )
        | yes gap ↦ elim (dec_lt now deadline) [
          | yes wait ↦ (
            b,
            [],
            drain_waits now x rest b p deadline found gap wait,
            Invariant.Delivers-refl tag v,
            inr (x, rest, p, deadline, at, gap, found, wait),
          )
          | no over ↦
              let sv = Invariant.skip_gap-Inv tag b x v in
              let (b', out, r, d, w) =
                drain_loop-Drained now rest (advance late x) (advance_heap late x)
                  (advance_priming late x ∙ un)
                  (Invariant.deliver-Inv tag (skip_gap b x) x rest sv at p deadline found un) in
              (
                b',
                p ∷ out,
                drain_late now x rest b p deadline found gap (omega arith) r,
                Invariant.skip_gap-Delivers tag b x
                    (Invariant.Delivers-cons tag (skip_gap b x) x rest sv at p deadline found un d),
                w,
              )
        ]
      ]

  abbrev pub unprimed : ReorderBuffer A → ReorderBuffer A
  unprimed b = record b { priming = false }

  -- `_drain` either does nothing, while the start of the stream is being learnt, or drains.
  pub drain_cases :
      (b : ReorderBuffer A) (now : ℕ)
      → Inv b
      → ((b.priming ≡ true) × (now < b.prime_deadline) × (drain b now ≡ some (b, [])))
        ⊎ Drained now (unprimed b) (drain b now)
  drain_cases b now v = elim (Bool-cases (b.priming && ltb now b.prime_deadline)) [
    | inl learning ↦ inl (ground arith, ground arith, unfold drain in rw learning)
    | inr known ↦
        let (b', out, r, d, w) =
          drain_loop-Drained now b.heap (unprimed b) refl refl (Invariant.unprime-Inv tag b v) in
        inr (b', out, (unfold drain in rw known r), d, w)
  ]
