-- ===== src/Reorder/Stream.antt =====
-- A stream of calls on one reorder buffer: the order of what is released, and that all of it is.
use turbobond.Base.{
  ℕ, suc, ◌+◌, ◌≤◌, ◌≡◌, refl, ap, ap₂, subst, ◌∙◌, sym, true, false, Option, none, some, List, [],
  ◌∷◌, ◌++◌, length, arith, ltb, ◌⊎◌, inl, inr, Bool-cases, length-append, ◌&&◌, append-nil,
  append_assoc, ◌*◌,
}
use turbobond.Reorder.{ReorderBuffer, init, tick, flush, open_stream, push}
use turbobond.Reorder.Invariant
use turbobond.Reorder.Step
use turbobond.Reorder.Push
use turbobond.Reorder.Flush

pub data Call (A : Type 0) : Type 0 where
  pushes : ℕ → A → ℕ → Call A
  ticks : ℕ → Call A
  flushes : Call A

module _ {A : Type 0} where
  unfoldable pub call : ReorderBuffer A → Call A → Option (ReorderBuffer A × List A)
  call b (pushes seq payload now) = push b seq payload now
  call b (ticks now) = tick b now
  call b flushes = some (flush b)

  abbrev pub prepend :
      List A → Option (ReorderBuffer A × List A) → Option (ReorderBuffer A × List A)
  prepend out none = none
  prepend out (some (b, more)) = some (b, out ++ more)

  abbrev pub after_call :
      (ReorderBuffer A → Option (ReorderBuffer A × List A))
      → Option (ReorderBuffer A × List A)
      → Option (ReorderBuffer A × List A)
  after_call rest none = none
  after_call rest (some (b, out)) = prepend out (rest b)

  -- All that a row of calls releases; `none` if one of them raised.
  unfoldable pub calls : ReorderBuffer A → List (Call A) → Option (ReorderBuffer A × List A)
  calls b [] = some (b, [])
  calls b (c ∷ cs) = after_call (λ b'. calls b' cs) (call b c)

  pub calls_cons :
      (b : ReorderBuffer A) (c : Call A) (cs : List (Call A)) {b₁ b₂ : ReorderBuffer A}
      {out₁ out₂ : List A}
      → call b c ≡ some (b₁, out₁)
      → calls b₁ cs ≡ some (b₂, out₂)
      → calls b (c ∷ cs) ≡ some (b₂, out₁ ++ out₂)
  unfolding calls
  calls_cons b c cs e₁ e₂ = rw (e₁, after_call, e₂)

  module _ (tag : A → ℕ) where
    -- Each pushed payload carries the sequence number that it is pushed with.
    abbrev pub Tagged : List (Call A) → Type 0
    Tagged [] = Unit {0}
    Tagged (pushes seq payload now ∷ cs) = (tag payload ≡ seq) × Tagged cs
    Tagged (ticks now ∷ cs) = Tagged cs
    Tagged (flushes ∷ cs) = Tagged cs

    abbrev pub Ascending : ℕ → List A → Type 0
    Ascending n [] = Unit {0}
    Ascending n (p ∷ ps) = (n ≤ tag p) × Ascending (suc (tag p)) ps

    -- The buffer after `n` packets were pushed and `log` was released.
    pub record Log (b : ReorderBuffer A) (log : List A) (n : ℕ) : Type 0 where
      pub inv : Invariant.Inv tag b
      pub rising : Invariant.Rising tag 0 log b.next_seq
      pub silent : b.priming ≡ true → log ≡ []
      pub unopened : b.started ≡ false → log ≡ []
      pub counted : b.stats.delivered ≡ length log
      pub accounted : b.stats.duplicates + b.stats.late_drops + length b.pending + length log ≡ n
      pub bounded : length b.pending ≤ b.capacity

    nil_of_length : (xs : List A) → length xs ≡ 0 → xs ≡ []
    nil_of_length [] h = refl
    nil_of_length (x ∷ xs) h = absurd (omega arith)

    Step-Log :
        {b b' : ReorderBuffer A} {log out : List A} {n : ℕ}
        → Log b log n
        → Step.Step tag b b' out
        → Log b' (log ++ out) n
    Step-Log {b} {b'} {log} {out} {n} l s = record {
      inv = s.inv;
      rising = Invariant.Rising-append tag 0 b.next_seq b'.next_seq log out l.rising s.rising;
      silent = λ e. let (o, q) = s.primed e in ap₂ ◌++◌ (l.silent q) o;
      unopened = λ e.
          let closed = sym s.started ∙ e in
          let none_held = ap length (l.inv.fresh closed).0 in
          ap₂ ◌++◌ (l.unopened closed)
            (nil_of_length out (omega (arith, s.conserved, l.inv.keyed.size, none_held)));
      counted = omega (arith, s.counted, l.counted, length-append log out);
      accounted =
          omega
            (arith, l.accounted, s.conserved, s.duplicates, s.late_drops, length-append log out);
      bounded = omega (arith, l.bounded, s.conserved, s.capacity);
    }

    -- Opening the stream moves `next_seq` only if nothing was released.
    open_cases :
        (b : ReorderBuffer A) (log : List A) (n seq now : ℕ)
        → Log b log n
        → (open_stream b seq now ≡ b) ⊎ (log ≡ [])
    open_cases b log n seq now l = elim (Bool-cases b.started) [
      | inr s ↦ inr (l.unopened s)
      | inl s ↦ elim (Bool-cases (b.priming && ltb seq b.next_seq)) [
        | inl back ↦ inr (l.silent (ground arith))
        | inr on ↦ inl (unfold open_stream in ground (arith, s, on))
      ]
    ]

    open_fields :
        (b : ReorderBuffer A) (seq now : ℕ)
        → ((open_stream b seq now).stats ≡ b.stats)
          × ((open_stream b seq now).pending ≡ b.pending)
          × ((open_stream b seq now).capacity ≡ b.capacity)
    unfolding open_stream
    open_fields b seq now = ground arith

    push_Log :
        (b : ReorderBuffer A) (log : List A) (n seq now : ℕ)
        → Log b log n
        → {b' : ReorderBuffer A} {out : List A} → Push.Pushed tag (open_stream b seq now) b' out
        → Log b' (log ++ out) (suc n)
    push_Log b log n seq now l {b'} {out} p =
        let (stats, pending, capacity) = open_fields b seq now in
        record {
          inv = p.inv;
          rising = elim (open_cases b log n seq now l) [
            | inl same ↦
                Invariant.Rising-append tag 0 b.next_seq b'.next_seq log out l.rising
                  (subst (λ c. Invariant.Rising tag c.next_seq out b'.next_seq) same p.rising)
            | inr empty ↦
                subst (λ x. Invariant.Rising tag 0 (x ++ out) b'.next_seq) (sym empty)
                  (Invariant.Rising-append tag 0 _ b'.next_seq [] out (omega arith) p.rising)
          ];
          silent = λ e.
              let (o, q) = p.primed e in
              let before : log ≡ [] = elim (open_cases b log n seq now l) [
                | inl same ↦ l.silent (sym (ap (λ c. c.priming) same) ∙ q)
                | inr empty ↦ empty
              ] in
              ap₂ ◌++◌ before o;
          unopened = λ e. absurd (cc (e, p.started));
          counted =
              omega
                (arith, p.counted, l.counted, length-append log out, ap (λ x. x.delivered) stats);
          accounted = omega (
            arith,
            p.accounted,
            l.accounted,
            length-append log out,
            ap (λ x. x.duplicates) stats,
            ap (λ x. x.late_drops) stats,
            ap length pending,
          );
          bounded = p.bounded (omega (arith, l.bounded, capacity, ap length pending));
        }

    -- The number of packets that a row of calls pushes.
    abbrev pub pushed : List (Call A) → ℕ
    pushed [] = 0
    pushed (pushes seq payload now ∷ cs) = suc (pushed cs)
    pushed (ticks now ∷ cs) = pushed cs
    pushed (flushes ∷ cs) = pushed cs

    pub call-Log :
        (b : ReorderBuffer A) (log : List A) (n : ℕ) (c : Call A)
        → Tagged (c ∷ [])
        → Log b log n
        → (b' : ReorderBuffer A) × (out : List A) × (call b c ≡ some (b', out))
          × Log b' (log ++ out) (n + pushed (c ∷ []))
    unfolding call tick
    call-Log b log n (pushes seq payload now) t l =
        let (b', out, e, p) = Push.push-Pushed tag b seq payload now l.inv t.0 in
        let k : suc n ≡ n + 1 = omega arith in
        (b', out, e, subst (Log b' (log ++ out)) k (push_Log b log n seq now l p))
    call-Log b log n (ticks now) t l =
        let (b', out, e, s) = Step.drain-Step tag b now l.inv in
        let k : n ≡ n + 0 = omega arith in
        (b', out, e, subst (Log b' (log ++ out)) k (Step-Log l s))
    call-Log b log n flushes t l =
        let (d, k) = Flush.flush-Delivers tag b l.inv in
        let k : n ≡ n + 0 = omega arith in
        (
          (flush b).0,
          (flush b).1,
          refl,
          subst (Log (flush b).0 (log ++ (flush b).1)) k (Step-Log l (Step.Step-of_Delivers tag d)),
        )

    Tagged-head : (c : Call A) (cs : List (Call A)) → Tagged (c ∷ cs) → Tagged (c ∷ [])
    Tagged-head (pushes seq payload now) cs t = (t.0, tt)
    Tagged-head (ticks now) cs t = tt
    Tagged-head flushes cs t = tt

    Tagged-tail : (c : Call A) (cs : List (Call A)) → Tagged (c ∷ cs) → Tagged cs
    Tagged-tail (pushes seq payload now) cs t = t.1
    Tagged-tail (ticks now) cs t = t
    Tagged-tail flushes cs t = t

    pushed_cons : (c : Call A) (cs : List (Call A)) → pushed (c ∷ cs) ≡ pushed (c ∷ []) + pushed cs
    pushed_cons (pushes seq payload now) cs = omega arith
    pushed_cons (ticks now) cs = omega arith
    pushed_cons flushes cs = omega arith

    pub calls-Log :
        (b : ReorderBuffer A) (log : List A) (n : ℕ) (cs : List (Call A))
        → Tagged cs
        → Log b log n
        → (b' : ReorderBuffer A) × (out : List A) × (calls b cs ≡ some (b', out))
          × Log b' (log ++ out) (n + pushed cs)
    calls-Log b log n [] t l =
        let e : n ≡ n + 0 = omega arith in
        (
          b,
          [],
          unfold calls in refl,
          subst (Log b (log ++ [])) e (subst (λ x. Log b x n) (sym (append-nil log)) l),
        )
    calls-Log b log n (c ∷ cs) t l =
        let (b₁, out₁, e₁, l₁) = call-Log b log n c (Tagged-head c cs t) l in
        let (b₂, out₂, e₂, l₂) =
          calls-Log b₁ (log ++ out₁) (n + pushed (c ∷ [])) cs (Tagged-tail c cs t) l₁ in
        let k : n + pushed (c ∷ []) + pushed cs ≡ n + pushed (c ∷ cs) =
          omega (arith, pushed_cons c cs) in
        (
          b₂,
          out₁ ++ out₂,
          calls_cons b c cs e₁ e₂,
          subst (λ m. Log b₂ (log ++ (out₁ ++ out₂)) m) k
              (subst (λ x. Log b₂ x (n + pushed (c ∷ []) + pushed cs)) (append_assoc log out₁ out₂)
                l₂),
        )

    Rising→Ascending : (n m : ℕ) (ps : List A) → Invariant.Rising tag n ps m → Ascending n ps
    Rising→Ascending n m [] r = tt
    Rising→Ascending n m (p ∷ ps) r = (r.0, Rising→Ascending (suc (tag p)) m ps r.1)

    pub init-Log : (timeout capacity : ℕ) → Log (init timeout capacity) [] 0
    init-Log timeout capacity = record {
      inv = Invariant.init-Inv tag timeout capacity;
      rising = omega arith;
      silent = λ e. refl;
      unopened = λ e. refl;
      counted = unfold init in refl;
      accounted = unfold init in refl;
      bounded = unfold init in omega arith;
    }

    -- Any row of pushes, ticks and flushes on a new buffer, each payload carrying its sequence number,
    -- raises nothing. What it releases has strictly ascending sequence numbers, so nothing is released
    -- twice or out of order; each pushed packet was counted as a duplicate or a late drop, is still
    -- pending, or was released; `delivered` counts the released ones; and no more is pending than the
    -- capacity, nor remembered in `seen` than four times the capacity.
    pub calls-init :
        (timeout capacity : ℕ) (cs : List (Call A))
        → Tagged cs
        → (b : ReorderBuffer A) × (out : List A) × (calls (init timeout capacity) cs
            ≡ some (b, out))
          × Ascending 0 out
          × (b.stats.duplicates + b.stats.late_drops + length b.pending + length out ≡ pushed cs)
          × (b.stats.delivered ≡ length out)
          × (length b.pending ≤ b.capacity)
          × (length b.seen ≤ b.capacity * 4)
    calls-init timeout capacity cs t =
        let (b, out, e, l) =
          calls-Log (init timeout capacity) [] 0 cs t (init-Log timeout capacity) in
        (
          b,
          out,
          e,
          Rising→Ascending 0 b.next_seq out l.rising,
          omega (arith, l.accounted),
          l.counted,
          l.bounded,
          l.inv.small,
        )
