-- ===== src/Prelude/Samples.antt =====
-- Whole numbers with the operations of `f64`, for the tests.
use Prim.Native.Nat.{ℕ, ◌+◌, ◌-◌, ◌*◌, ◌/◌, ◌^◌, min, max}
use mathlib.Core.Bool.{true}
use scg_seshat.Prelude.Tests.{ltb, leb}
use scg_seshat.Prelude.Float.{FloatOps, FloatMath}

abbrev pub whole : FloatOps ℕ
whole = record {
  of_nat = λ n. n;
  to_u64 = λ n. min n (2 ^ 64 - 1);
  add = λ a b. a + b;
  sub = λ a b. a - b;
  mul = λ a b. a * b;
  div = λ a b. a / b;
  fmax = λ a b. max a b;
  lt = λ a b. ltb a b;
  le = λ a b. leb a b;
  is_finite = λ a. true;
}

abbrev pub whole_math : FloatMath ℕ
whole_math = record {
  ops = whole;
  sqrt = λ a. a;
  abs = λ a. a;
  floor = λ a. a;
  ceil = λ a. a;
  clamp = λ a lo hi. min (max a lo) hi;
  total_le = λ a b. leb a b;
  nan = 0;
  infinity = 2 ^ 64;
  epsilon = 1;
  literal = λ n k. n / 10 ^ k;
}
