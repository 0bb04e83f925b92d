-- ===== src/Reorder/Tests.antt =====
-- A short stream whose payloads are their own sequence numbers: 7 opens it, 5 moves its start back,
-- 6 is lost.
use turbobond.Base.{
  ℕ, ◌+◌, ◌*◌, ◌≤◌, ◌≡◌, refl, List, [], ◌∷◌, Option, none, some, length, arith, elem,
}
use turbobond.Base.Dict.{lookup, insert, erase, has}
use turbobond.Reorder.{
  ReorderBuffer, init, push, tick, drain, drain_loop, open_stream, hold, advance, heappush, set_add,
}
use turbobond.Reorder.Stream.{Call, pushes, ticks, call, calls, calls-init, Ascending}
use turbobond.Reorder.Liveness.{tick_empties}

abbrev itself : ℕ → ℕ
itself n = n

abbrev stream : List (Call ℕ)
stream =
    pushes 7 7 0 ∷ pushes 5 5 10 ∷ pushes 7 7 20 ∷ ticks 90 ∷ pushes 9 9 95 ∷ pushes 4 4 96 ∷ []

abbrev released : Option (ReorderBuffer ℕ × List ℕ) → List ℕ
released none = []
released (some (b, out)) = out

-- 7 has waited out its deadline by the first tick; 9 still waits for 8; 4 comes too late.
stream-released : released (calls (init 90 16) stream) ≡ 5 ∷ 7 ∷ []
unfolding calls call init push tick drain drain_loop open_stream hold advance heappush set_add
    lookup insert erase has elem
stream-released = refl

calls-init_example :
    (b : ReorderBuffer ℕ) × (out : List ℕ) × (calls (init 90 16) stream ≡ some (b, out))
    × Ascending itself 0 out
    × (b.stats.duplicates + b.stats.late_drops + length b.pending + length out ≡ 5)
    × (b.stats.delivered ≡ length out)
    × (length b.pending ≤ b.capacity)
    × (length b.seen ≤ b.capacity * 4)
calls-init_example = calls-init itself 90 16 stream (refl, (refl, (refl, (refl, (refl, tt)))))

tick_empties_example :
    (b : ReorderBuffer ℕ) × (out : List ℕ) × (calls (init 90 16) stream ≡ some (b, out))
    × (b' : ReorderBuffer ℕ) × (more : List ℕ) × (tick b 200 ≡ some (b', more))
    × (length b'.pending ≡ 0)
    × (length more ≡ length b.pending)
tick_empties_example =
    tick_empties itself 90 16 200 stream (refl, (refl, (refl, (refl, (refl, tt))))) (omega arith)
