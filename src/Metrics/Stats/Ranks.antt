-- ===== src/Metrics/Stats/Ranks.antt =====
-- No percentile of src/metrics/stats.rs indexes out of range.
use scg_seshat.Prelude.{
  ℕ, ◌-◌, ◌^◌, ◌≤◌, ◌<◌, ◌≡◌, refl, true, some, List, [], ◌∷◌, length, has_elem, ◌==◌, inl, inr,
  Bool-cases, arith,
}
use scg_seshat.Prelude.Float.{FloatMath}
use scg_seshat.Metrics.Stats.{interpolate, rank_of, percentile}

-- What is relied on of `f64`: numbers below 2 ^ 53 are exact, and rounding is monotone.
pub record RankLaws {F : Type 0} (fm : FloatMath F) : Type 0 where
  pub whole_number : (n : ℕ) → fm.ops.le (fm.ops.of_nat n) (fm.ops.of_nat n) ≡ true
  pub literal_number : (n k : ℕ) → fm.ops.le (fm.literal n k) (fm.literal n k) ≡ true
  -- for whatever is a number
  pub clamped :
      (p : F) (lo hi : ℕ)
      → fm.ops.le p p ≡ true
      → lo ≤ hi
      → fm.ops.le (fm.clamp p (fm.ops.of_nat lo) (fm.ops.of_nat hi)) (fm.ops.of_nat hi) ≡ true
  pub fraction :
      (x : F) (d : ℕ)
      → fm.ops.le x (fm.ops.of_nat d) ≡ true
      → 0 < d
      → d < 2 ^ 53
      → fm.ops.le (fm.ops.div x (fm.ops.of_nat d)) (fm.ops.of_nat 1) ≡ true
  pub scaled :
      (x : F) (n : ℕ)
      → fm.ops.le x (fm.ops.of_nat 1) ≡ true
      → 0 < n
      → n < 2 ^ 53
      → fm.ops.le (fm.ops.mul x (fm.ops.of_nat n)) (fm.ops.of_nat n) ≡ true
  pub less_one :
      (n : ℕ)
      → 0 < n
      → n < 2 ^ 53
      → fm.ops.sub (fm.ops.of_nat n) (fm.ops.of_nat 1) ≡ fm.ops.of_nat (n - 1)
  pub floor_le :
      (x : F) (n : ℕ)
      → fm.ops.le x (fm.ops.of_nat n) ≡ true
      → n < 2 ^ 53
      → fm.ops.to_u64 (fm.floor x) ≤ n
  pub ceil_le :
      (x : F) (n : ℕ)
      → fm.ops.le x (fm.ops.of_nat n) ≡ true
      → n < 2 ^ 53
      → fm.ops.to_u64 (fm.ceil x) ≤ n

module _ {F : Type 0} (fm : FloatMath F) (laws : RankLaws fm) where
  open fm use {floor, ceil}
  open fm.ops use {of_nat, to_u64, le}

  interpolate_inside :
      (sorted : List F) (rank : F)
      → to_u64 (floor rank) < length sorted
      → to_u64 (ceil rank) < length sorted
      → (v : F) × (interpolate fm sorted rank ≡ some v)
  unfolding interpolate
  interpolate_inside sorted rank low high =
      let (a, is_a) = has_elem sorted (to_u64 (floor rank)) low in
      let (b, is_b) = has_elem sorted (to_u64 (ceil rank)) high in
      elim (Bool-cases (to_u64 (floor rank) == to_u64 (ceil rank))) [
        | inl same ↦ rw same (a, is_a)
        | inr apart ↦ rw (apart, is_a, is_b) (_, refl)
      ]

  rank_inside :
      (n : ℕ) (p : F)
      → 1 < n
      → n < 2 ^ 53
      → le p p ≡ true
      → le (rank_of fm n p) (of_nat (n - 1)) ≡ true
  unfolding rank_of
  rank_inside n p some_n small number =
      rw (rank_of, laws.less_one n (omega arith) small)
        (laws.scaled _ (n - 1)
          (laws.fraction _ 100 (laws.clamped p 0 100 number (omega arith)) (omega arith)
            (omega arith))
          (omega arith) (omega arith))

  pub percentile_returns :
      (sorted : List F) (p : F)
      → length sorted < 2 ^ 53
      → le p p ≡ true
      → (v : F) × (percentile fm sorted p ≡ some v)
  unfolding percentile
  percentile_returns [] p small number = (_, refl)
  percentile_returns (x ∷ []) p small number = (x, refl)
  percentile_returns (x ∷ y ∷ xs) p small number =
      let n = length (x ∷ y ∷ xs) in
      let inside = rank_inside n p (omega arith) small number in
      interpolate_inside (x ∷ y ∷ xs) (rank_of fm n p)
        (omega (arith, laws.floor_le _ (n - 1) inside (omega arith)))
        (omega (arith, laws.ceil_le _ (n - 1) inside (omega arith)))
