-- ===== src/Metrics/Stats.antt =====
-- Descriptive statistics: src/metrics/stats.rs. `none` is the panic of an index out of range.
pub mod Sorting
pub mod Extremes
pub mod Ranks
pub mod Outliers
use mathlib.Core.List.{foldl, filter}
use scg_seshat.Prelude.{
  ℕ, zero, suc, ◌+◌, ◌-◌, Bool, true, false, ◌&&◌, Option, none, some, List, [], ◌∷◌, map, length,
  get_elem?, leb, ltb, ◌==◌, if◌then◌else◌,
}
use scg_seshat.Prelude.Partial.{◌>>=◌}
use scg_seshat.Prelude.Float.{FloatOps, FloatMath}

pub record Summary (F : Type 0) : Type 0 where
  pub n : ℕ
  pub mean : F
  pub median : F
  pub stddev : F
  pub min : F
  pub max : F
  pub p50 : F
  pub p90 : F
  pub p95 : F
  pub p99 : F
  pub p999 : F
  pub ci95 : F
  pub cov : F

module _ {F : Type 0} (fm : FloatMath F) where
  open fm use {sqrt, abs, floor, ceil, clamp, total_le, nan, epsilon, literal}
  open fm.ops use {of_nat, to_u64, add, sub, mul, div, lt, le}

  -- `Summary::empty`
  unfoldable pub empty : Summary F
  empty =
      let z = of_nat 0 in
      record {
        n = 0;
        mean = z;
        median = z;
        stddev = z;
        min = z;
        max = z;
        p50 = z;
        p90 = z;
        p95 = z;
        p99 = z;
        p999 = z;
        ci95 = z;
        cov = z;
      }

  unfoldable pub sum : List F → F
  sum = foldl add (of_nat 0)

  unfoldable pub mean : List F → F
  mean [] = of_nat 0
  mean (x ∷ xs) = div (sum (x ∷ xs)) (of_nat (length (x ∷ xs)))

  unfoldable pub stddev : List F → F
  stddev xs =
      let m = mean xs in
      let squares = map (λ x. mul (sub x m) (sub x m)) xs in
      if ltb (length xs) 2
      then of_nat 0
      else sqrt (div (sum squares) (sub (of_nat (length xs)) (of_nat 1)))

  -- Linear interpolation between the closest ranks of at least two sorted samples.
  unfoldable pub interpolate : List F → F → Option F
  interpolate sorted rank =
      let lo = to_u64 (floor rank) in
      let hi = to_u64 (ceil rank) in
      let frac = sub rank (of_nat lo) in
      if lo == hi then get_elem? sorted lo else (do
        a ← get_elem? sorted lo
        b ← get_elem? sorted hi
        some (add (mul a (sub (of_nat 1) frac)) (mul b frac)))

  unfoldable pub rank_of : ℕ → F → F
  rank_of n p = mul (div (clamp p (of_nat 0) (of_nat 100)) (of_nat 100)) (sub (of_nat n) (of_nat 1))

  unfoldable pub percentile : List F → F → Option F
  percentile [] p = some nan
  percentile (x ∷ []) p = some x
  percentile (x ∷ y ∷ xs) p = interpolate (x ∷ y ∷ xs) (rank_of (length (x ∷ y ∷ xs)) p)

  abbrev pub table : List (ℕ × F)
  table =
      (1, literal 12706 3)
      ∷ (2, literal 4303 3)
      ∷ (3, literal 3182 3)
      ∷ (4, literal 2776 3)
      ∷ (5, literal 2571 3)
      ∷ (6, literal 2447 3)
      ∷ (7, literal 2365 3)
      ∷ (8, literal 2306 3)
      ∷ (9, literal 2262 3)
      ∷ (10, literal 2228 3)
      ∷ (12, literal 2179 3)
      ∷ (15, literal 2131 3)
      ∷ (20, literal 2086 3)
      ∷ (24, literal 2064 3)
      ∷ (30, literal 2042 3)
      ∷ (40, literal 2021 3)
      ∷ (60, literal 2000 3)
      ∷ (120, literal 1980 3)
      ∷ []

  -- The first entry at or above `df`.
  unfoldable pub look_up : ℕ → List (ℕ × F) → F
  look_up df [] = literal 1960 3
  look_up df ((d, t) ∷ rest) = let later = look_up df rest in if leb df d then t else later

  unfoldable pub t_value_95 : ℕ → F
  t_value_95 df =
      if df == 0 then of_nat 0 else if leb 120 df then literal 1960 3 else look_up df table

  unfoldable pub ci95_halfwidth : List F → F
  ci95_halfwidth xs =
      let n = length xs in
      if ltb n 2 then of_nat 0 else div (mul (t_value_95 (n - 1)) (stddev xs)) (sqrt (of_nat n))

  unfoldable pub coefficient_of_variation : List F → F
  coefficient_of_variation xs =
      let m = mean xs in if lt (abs m) epsilon then of_nat 0 else div (stddev xs) m

  -- `sort_by(f64::total_cmp)`, which keeps equal elements in order.
  unfoldable pub insert : F → List F → List F
  insert x [] = x ∷ []
  insert x (y ∷ ys) = let rest = insert x ys in if total_le x y then x ∷ y ∷ ys else y ∷ rest

  unfoldable pub sort : List F → List F
  sort [] = []
  sort (x ∷ xs) = insert x (sort xs)

  -- `filter(|&x| x >= lo && x <= hi)`
  unfoldable pub keep : F → F → List F → List F
  keep lo hi [] = []
  keep lo hi (x ∷ xs) = let rest = keep lo hi xs in if le lo x && le x hi then x ∷ rest else rest

  unfoldable pub remove_outliers_iqr : List F → Option (List F × ℕ)
  remove_outliers_iqr xs = if ltb (length xs) 4 then some (xs, 0) else (do
    q1 ← percentile (sort xs) (of_nat 25)
    q3 ← percentile (sort xs) (of_nat 75)
    let iqr = sub q3 q1
    let kept = keep (sub q1 (mul (literal 15 1) iqr)) (add q3 (mul (literal 15 1) iqr)) xs
    some (kept, length xs - length kept))

  -- The summary with these order statistics.
  unfoldable pub summary_of : List F → F → F → F → F → F → F → F → Summary F
  summary_of xs p50 min max p90 p95 p99 p999 = record {
    n = length xs;
    mean = mean xs;
    median = p50;
    stddev = stddev xs;
    min = min;
    max = max;
    p50 = p50;
    p90 = p90;
    p95 = p95;
    p99 = p99;
    p999 = p999;
    ci95 = ci95_halfwidth xs;
    cov = coefficient_of_variation xs;
  }

  unfoldable pub summarize : List F → Option (Summary F)
  summarize [] = some empty
  summarize (x ∷ xs) =
      let sorted = sort (x ∷ xs) in
      do
        p50 ← percentile sorted (of_nat 50)
        min ← get_elem? sorted 0
        max ← get_elem? sorted (length sorted - 1)
        p90 ← percentile sorted (of_nat 90)
        p95 ← percentile sorted (of_nat 95)
        p99 ← percentile sorted (of_nat 99)
        p999 ← percentile sorted (literal 999 1)
        some (summary_of (x ∷ xs) p50 min max p90 p95 p99 p999)
