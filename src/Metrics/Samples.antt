-- ===== src/Metrics/Samples.antt =====
-- Whole numbers keep what the statistics rely on of `f64`: an instance for the tests.
use Prim.Native.Nat.{◌*◌, ◌/◌}
use native.Mathlib.Nat.{div-le_of_le-mul}
use scg_seshat.Prelude.{ℕ, zero, suc, ◌^◌, ◌≤◌, ◌<◌, ◌≡◌, refl, true, leb, le→leb, arith}
use scg_seshat.Prelude.Samples.{whole_math}
use scg_seshat.Metrics.Stats.Sorting.{TotalOrder}
use scg_seshat.Metrics.Stats.Ranks.{RankLaws}

pub whole_math-TotalOrder : TotalOrder whole_math
whole_math-TotalOrder = record {
  total = λ a b h. ground arith;
  transitive = λ a b c h k. ground arith;
  reflexive = λ a. ground arith;
}

leb→le : (a b : ℕ) → leb a b ≡ true → a ≤ b
leb→le a b h = ground arith

scaled_lem : (x n : ℕ) → x ≤ 1 → x * n ≤ n
scaled_lem zero n h = omega arith
scaled_lem (suc zero) n h = omega arith
scaled_lem (suc (suc x)) n h = absurd (omega arith)

fraction_lem : (x d : ℕ) → x ≤ d → 0 < d → x / d ≤ 1
fraction_lem x d h k = div-le_of_le-mul d (omega arith)

pub whole_math-RankLaws : RankLaws whole_math
whole_math-RankLaws = record {
  whole_number = λ n. ground arith;
  literal_number = λ n k. le→leb (n / 10 ^ k) (n / 10 ^ k) (omega arith);
  clamped = λ p lo hi h k. ground arith;
  fraction = λ x d h k small. le→leb (x / d) 1 (fraction_lem x d (leb→le x d h) k);
  scaled = λ x n h k small. le→leb (x * n) n (scaled_lem x n (leb→le x 1 h));
  less_one = λ n h k. refl;
  floor_le = λ x n h k. ground arith;
  ceil_le = λ x n h k. ground arith;
}
