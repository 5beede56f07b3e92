-- ===== src/Metrics/Stats/Outliers.antt =====
-- The removal of outliers in src/metrics/stats.rs.
use mathlib.Core.List.{Sublistᴰ}
use scg_seshat.Prelude.{
  ℕ, ◌+◌, ◌-◌, ◌^◌, ◌≤◌, ◌<◌, ◌≡◌, refl, Bool, true, false, ◌&&◌, some, List, [], ◌∷◌, length, All,
  ltb, ltb→lt, ◌⊎◌, inl, inr, Bool-cases, if◌then◌else◌, arith,
}
use scg_seshat.Prelude.Float.{FloatMath}
use scg_seshat.Metrics.Stats.{percentile, sort, keep, remove_outliers_iqr}
use scg_seshat.Metrics.Stats.Sorting.{length-sort}
use scg_seshat.Metrics.Stats.Ranks.{RankLaws, percentile_returns}

Sublist-refl {ℓ} : {A : Type ℓ} (xs : List A) → Sublistᴰ xs xs
Sublist-refl [] = Sublistᴰ.slnil
Sublist-refl (x ∷ xs) = Sublistᴰ.cons-cons refl (Sublist-refl xs)

pub length-Sublist {ℓ} : {A : Type ℓ} {xs ys : List A} → Sublistᴰ xs ys → length xs ≤ length ys
length-Sublist Sublistᴰ.slnil = omega arith
length-Sublist (Sublistᴰ.cons d) = omega (arith, length-Sublist d)
length-Sublist (Sublistᴰ.cons-cons e d) = omega (arith, length-Sublist d)

module _ {F : Type 0} (fm : FloatMath F) where
  open fm.ops use {of_nat, add, sub, mul, le}

  keep-Sublist : (lo hi : F) (xs : List F) → Sublistᴰ (keep fm lo hi xs) xs
  unfolding keep
  keep-Sublist lo hi [] = Sublistᴰ.slnil
  keep-Sublist lo hi (x ∷ xs) = elim (Bool-cases (le lo x && le x hi)) [
    | inl inside ↦ rw inside (Sublistᴰ.cons-cons refl (keep-Sublist lo hi xs))
    | inr outside ↦ rw outside (Sublistᴰ.cons (keep-Sublist lo hi xs))
  ]

  -- Between the fences, in the order of `f64`.
  abbrev pub Within : F → F → F → Type 0
  Within lo hi x = (le lo x ≡ true) × (le x hi ≡ true)

  -- The samples that are not between the fences.
  unfoldable pub outside : F → F → List F → ℕ
  outside lo hi [] = 0
  outside lo hi (x ∷ xs) = (if le lo x && le x hi then 0 else 1) + outside lo hi xs

  -- What is kept, and how many are not.
  unfoldable pub Parts : List F → List F × ℕ → Type 0
  Parts xs (kept, removed) = Sublistᴰ kept xs × (length kept + removed ≡ length xs)

  -- Tukey's fences at the quartiles: what is kept is between them, and what is removed is not.
  unfoldable pub Fenced : List F → List F × ℕ → Type 0
  Fenced xs (kept, removed) =
      (q1 : F) × (q3 : F) × (percentile fm (sort fm xs) (of_nat 25) ≡ some q1)
      × (percentile fm (sort fm xs) (of_nat 75) ≡ some q3)
      × (let fence = mul (fm.literal 15 1) (sub q3 q1) in
          All (Within (sub q1 fence) (add q3 fence)) kept
          × (removed ≡ outside (sub q1 fence) (add q3 fence) xs))

  both : (a b : Bool) → (a && b) ≡ true → (a ≡ true) × (b ≡ true)
  both true true h = (refl, refl)
  both true false h = cc h
  both false b h = cc h

  keep-Within : (lo hi : F) (xs : List F) → All (Within lo hi) (keep fm lo hi xs)
  unfolding keep
  keep-Within lo hi [] = tt
  keep-Within lo hi (x ∷ xs) = elim (Bool-cases (le lo x && le x hi)) [
    | inl within ↦ rw within (both (le lo x) (le x hi) within, keep-Within lo hi xs)
    | inr beyond ↦ rw beyond (keep-Within lo hi xs)
  ]

  length-keep : (lo hi : F) (xs : List F) → length (keep fm lo hi xs) + outside lo hi xs ≡ length xs
  unfolding keep outside
  length-keep lo hi [] = refl
  length-keep lo hi (x ∷ xs) = elim (Bool-cases (le lo x && le x hi)) [
    | inl within ↦ rw within (omega (arith, length-keep lo hi xs))
    | inr beyond ↦ rw beyond (omega (arith, length-keep lo hi xs))
  ]

  -- Where numbers below 2 ^ 53 are exact and rounding is monotone: of fewer than 2 ^ 53 samples
  -- the removal of outliers returns, without a panic, a sublist in the original order, and how
  -- many samples are not in it. Fewer than four samples are all kept. Of four or more, every
  -- sample kept lies between the fences at 1.5 times the interquartile range beyond the 25th and
  -- the 75th percentile of the sorted samples, and the number removed is that of the samples which
  -- do not.
  pub remove_outliers_iqr-Parts :
      (xs : List F)
      → RankLaws fm
      → length xs < 2 ^ 53
      → (r : List F × ℕ) × (remove_outliers_iqr fm xs ≡ some r)
        × Parts xs r
        × (((length xs < 4) × (r ≡ (xs, 0))) ⊎ ((4 ≤ length xs) × Fenced xs r))
  unfolding remove_outliers_iqr Parts Fenced
  remove_outliers_iqr-Parts xs laws small = elim (Bool-cases (ltb (length xs) 4)) [
    | inl few ↦
        ((xs, 0), rw few refl, (Sublist-refl xs, omega arith), inl (ltb→lt (length xs) 4 few, refl))
    | inr many ↦
        let sorted = sort fm xs in
        let size : length sorted < 2 ^ 53 = omega (arith, length-sort fm xs) in
        let (q1, e1) = percentile_returns fm laws sorted (of_nat 25) size (laws.whole_number 25) in
        let (q3, e3) = percentile_returns fm laws sorted (of_nat 75) size (laws.whole_number 75) in
        let fence = mul (fm.literal 15 1) (sub q3 q1) in
        let lo = sub q1 fence in
        let hi = add q3 fence in
        (
          (keep fm lo hi xs, length xs - length (keep fm lo hi xs)),
          rw (many, e1, e3) refl,
          (keep-Sublist lo hi xs, omega (arith, length-keep lo hi xs)),
          inr (
            ground arith,
            (q1, q3, e1, e3, (keep-Within lo hi xs, omega (arith, length-keep lo hi xs))),
          ),
        )
  ]
