-- ===== src/Metrics/Stats/Extremes.antt =====
-- The summary of samples in src/metrics/stats.rs: that there is one, and its extremes.
use mathlib.Core.Path.{subst}
use mathlib.Core.Option.{some-injective}
use scg_seshat.Prelude.{
  ℕ, zero, suc, ◌-◌, ◌^◌, ◌<◌, ◌≡◌, refl, some, List, [], ◌∷◌, length, get_elem?, has_elem, All,
  arith,
}
use scg_seshat.Prelude.Float.{FloatMath}
use scg_seshat.Metrics.Stats.{Summary, sort, summary_of, summarize}
use scg_seshat.Metrics.Stats.Sorting.{
  TotalOrder, Below, IsSorted, sort-IsSorted, sort-All, length-sort,
}
use scg_seshat.Metrics.Stats.Ranks.{RankLaws, percentile_returns}

module _ {F : Type 0} (fm : FloatMath F) (order : TotalOrder fm) where
  -- Nothing is below the first of sorted samples, and nothing above the last.
  first_least :
      (xs : List F) (a : F) → IsSorted fm xs → get_elem? xs 0 ≡ some a → All (Below fm a) xs
  unfolding IsSorted
  first_least [] a h e = tt
  first_least (x ∷ xs) a h e =
      subst (λ b. All (Below fm b) (x ∷ xs)) (some-injective x a e) (order.reflexive x, h.0)

  last_greatest :
      (xs : List F) (n : ℕ) (a : F)
      → length xs ≡ suc n
      → IsSorted fm xs
      → get_elem? xs n ≡ some a
      → All (λ b. Below fm b a) xs
  unfolding IsSorted
  last_greatest [] n a size h e = absurd (omega arith)
  last_greatest (x ∷ []) zero a size h e =
      (subst (λ b. Below fm x b) (some-injective x a e) (order.reflexive x), tt)
  last_greatest (x ∷ y ∷ ys) zero a size h e = absurd (omega arith)
  last_greatest (x ∷ []) (suc n) a size h e = absurd (omega arith)
  last_greatest (x ∷ y ∷ ys) (suc n) a size h e =
      let rest = last_greatest (y ∷ ys) n a (omega arith) h.1 e in
      (order.transitive x y a h.0.0 rest.0, rest)

  pub record Describes (xs : List F) (s : Summary F) : Type 0 where
    pub counted : s.n ≡ length xs
    pub least : All (Below fm s.min) xs
    pub greatest : All (λ x. Below fm x s.max) xs

  -- Where numbers below 2 ^ 53 are exact, rounding is monotone and `total_cmp` orders totally: of
  -- at least one and fewer than 2 ^ 53 samples there is a summary, as no percentile indexes out of
  -- range. It counts the samples, and no sample is below its minimum or above its maximum.
  pub summarize-Describes :
      (x : F) (xs : List F)
      → RankLaws fm
      → length (x ∷ xs) < 2 ^ 53
      → (s : Summary F) × (summarize fm (x ∷ xs) ≡ some s) × Describes (x ∷ xs) s
  unfolding summarize summary_of
  summarize-Describes x xs laws small =
      let sorted = sort fm (x ∷ xs) in
      let size = length-sort fm (x ∷ xs) in
      let few : length sorted < 2 ^ 53 = omega (arith, size) in
      let (p50, e50) =
        percentile_returns fm laws sorted (fm.ops.of_nat 50) few (laws.whole_number 50) in
      let (p90, e90) =
        percentile_returns fm laws sorted (fm.ops.of_nat 90) few (laws.whole_number 90) in
      let (p95, e95) =
        percentile_returns fm laws sorted (fm.ops.of_nat 95) few (laws.whole_number 95) in
      let (p99, e99) =
        percentile_returns fm laws sorted (fm.ops.of_nat 99) few (laws.whole_number 99) in
      let (p999, e999) =
        percentile_returns fm laws sorted (fm.literal 999 1) few (laws.literal_number 999 1) in
      let (min, e0) = has_elem sorted 0 (omega (arith, size)) in
      let (max, e1) = has_elem sorted (length sorted - 1) (omega (arith, size)) in
      (
        summary_of fm (x ∷ xs) p50 min max p90 p95 p99 p999,
        rw (e50, e0, e1, e90, e95, e99, e999) refl,
        record {
          counted = refl;
          least =
              sort-All fm (Below fm min) (x ∷ xs)
                (first_least sorted min (sort-IsSorted fm order (x ∷ xs)) e0);
          greatest =
              sort-All fm (λ b. Below fm b max) (x ∷ xs)
                (last_greatest sorted (length sorted - 1) max (omega (arith, size))
                  (sort-IsSorted fm order (x ∷ xs)) e1);
        },
      )
