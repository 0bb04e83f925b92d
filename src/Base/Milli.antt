-- ===== src/Base/Milli.antt =====
-- Thousandths as an instance of `Floats`, for the tests.
use turbobond.Base.Tests.{ltb, leb, ◌==◌}
use Prim.Native.Nat.{ℕ, ◌+◌, ◌-◌, ◌*◌, ◌/◌}
use turbobond.Base.Floats.{Floats}

abbrev pub milli : Floats ℕ
milli = record {
  of_ratio = λ n d. n * 1000 / d;
  add = λ a b. a + b;
  sub = λ a b. a - b;
  mul = λ a b. a * b / 1000;
  div = λ a b. a * 1000 / b;
  sqrt = λ a. a;
  eq = λ a b. a == b;
  lt = λ a b. ltb a b;
  le = λ a b. leb a b;
}
