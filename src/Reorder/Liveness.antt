-- ===== src/Reorder/Liveness.antt =====
-- No packet is stranded: a timer that fires one timeout after the last packet empties the buffer.
use turbobond.Base.{
  ℕ, ◌+◌, ◌≤◌, ◌≡◌, refl, ap, subst, Option, none, some, List, [], ◌∷◌, length, arith, inl, inr,
}
use turbobond.Base.Dict.{lookup-Each}
use turbobond.Reorder.{ReorderBuffer, init, tick, drain, flush}
use turbobond.Reorder.Invariant
use turbobond.Reorder.Loops
use turbobond.Reorder.Timely
use turbobond.Reorder.Stream.{
  Call, pushes, ticks, flushes, call, calls, after_call, prepend, Tagged, calls-Log, init-Log,
}

module _ {A : Type 0} (tag : A → ℕ) where
  -- Each packet is pushed at least `k` before `t`.
  abbrev pub Before : ℕ → ℕ → List (Call A) → Type 0
  Before t k [] = Unit {0}
  Before t k (pushes seq payload now ∷ cs) = (now + k ≤ t) × Before t k cs
  Before t k (ticks now ∷ cs) = Before t k cs
  Before t k (flushes ∷ cs) = Before t k cs

  drained-empty :
      (b : ReorderBuffer A) (now k : ℕ)
      → Invariant.Inv tag b
      → Timely.IsTimely now k b
      → (b' : ReorderBuffer A) × (out : List A) × (drain b now ≡ some (b', out))
        × (length b'.pending ≡ 0)
        × (length out ≡ length b.pending)
  drained-empty b now k v w = elim (Loops.drain_cases tag b now v) [
    | inl (p, h, e) ↦ absurd (omega (arith, w.primed p))
    | inr (b', out, e, d, inl empty) ↦
        let none_left : length b'.pending ≡ 0 = omega (arith, d.inv.keyed.size, ap length empty) in
        (b', out, e, none_left, omega (arith, none_left, d.conserved))
    | inr (b', out, e, d, inr (x, rest, p, deadline, at, gap, found, wait)) ↦
        let keeps : Timely.Leaves now k (some (b', out)) =
          subst (Timely.Leaves now k) e (Timely.drain-Leaves now k b now w) in
        absurd
          (omega (arith, lookup-Each (λ s c. c.1 ≤ now) x (p, deadline) b'.pending keeps.due found))
  ]

  call-Timely :
      (b : ReorderBuffer A) (t k : ℕ) (c : Call A)
      → Before t k (c ∷ [])
      → Timely.IsTimely t k b
      → Timely.Leaves t k (call b c)
  unfolding call tick flush
  call-Timely b t k (pushes seq payload now) h v = Timely.push-Leaves t k b seq payload now v h.0
  call-Timely b t k (ticks now) h v = Timely.drain-Leaves t k b now v
  call-Timely b t k flushes h v =
      Timely.IsTimely-of_due t k (Timely.flush_loop-IsDue t k b.heap _ (v.due, refl, v.wait))

  Before-head :
      (t k : ℕ) (c : Call A) (cs : List (Call A)) → Before t k (c ∷ cs) → Before t k (c ∷ [])
  Before-head t k (pushes seq payload now) cs h = (h.0, tt)
  Before-head t k (ticks now) cs h = tt
  Before-head t k flushes cs h = tt

  Before-tail : (t k : ℕ) (c : Call A) (cs : List (Call A)) → Before t k (c ∷ cs) → Before t k cs
  Before-tail t k (pushes seq payload now) cs h = h.1
  Before-tail t k (ticks now) cs h = h
  Before-tail t k flushes cs h = h

  prepend-Leaves :
      (t k : ℕ) (out : List A) (r : Option (ReorderBuffer A × List A))
      → Timely.Leaves t k r
      → Timely.Leaves t k (prepend out r)
  prepend-Leaves t k out none v = tt
  prepend-Leaves t k out (some (b, more)) v = v

  after_call-Leaves :
      (t k : ℕ) (cs : List (Call A)) (r : Option (ReorderBuffer A × List A))
      → ((b : ReorderBuffer A) → Timely.IsTimely t k b → Timely.Leaves t k (calls b cs))
      → Timely.Leaves t k r
      → Timely.Leaves t k (after_call (λ b. calls b cs) r)
  after_call-Leaves t k cs none ih v = tt
  after_call-Leaves t k cs (some (b, out)) ih v = prepend-Leaves t k out (calls b cs) (ih b v)

  calls-Timely :
      (t k : ℕ) (cs : List (Call A)) (b : ReorderBuffer A)
      → Before t k cs
      → Timely.IsTimely t k b
      → Timely.Leaves t k (calls b cs)
  unfolding calls
  calls-Timely t k [] b h v = v
  calls-Timely t k (c ∷ cs) b h v =
      let ih = λ (b' : ReorderBuffer A) (w : Timely.IsTimely t k b').
        calls-Timely t k cs b' (Before-tail t k c cs h) w in
      after_call-Leaves t k cs (call b c) ih (call-Timely b t k c (Before-head t k c cs h) v)

  init-IsTimely : (t k capacity : ℕ) → Timely.IsTimely t k (init {A = A} k capacity)
  unfolding init
  init-IsTimely t k capacity = record { due = tt; primed = λ e. absurd (cc e); wait = refl }

  -- After any row of calls on a new buffer, a tick at a time that is one timeout or more after every
  -- push raises nothing, releases every packet that is still pending and leaves none.
  pub tick_empties :
      (timeout capacity now : ℕ) (cs : List (Call A))
      → Tagged tag cs
      → Before now timeout cs
      → (b : ReorderBuffer A) × (out : List A) × (calls (init timeout capacity) cs ≡ some (b, out))
        × (b' : ReorderBuffer A) × (more : List A) × (tick b now ≡ some (b', more))
        × (length b'.pending ≡ 0)
        × (length more ≡ length b.pending)
  unfolding tick
  tick_empties timeout capacity now cs tagged before =
      let (b, out, e, l) =
        calls-Log tag (init timeout capacity) [] 0 cs tagged (init-Log tag timeout capacity) in
      let all =
        calls-Timely now timeout cs (init timeout capacity) before
          (init-IsTimely now timeout capacity) in
      let v : Timely.IsTimely now timeout b = subst (Timely.Leaves now timeout) e all in
      let (b', more, r, empty, whole) = drained-empty b now timeout l.inv v in
      (b, out, e, b', more, r, empty, whole)
