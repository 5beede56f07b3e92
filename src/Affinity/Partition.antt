-- ===== src/Affinity/Partition.antt =====
-- What `partition_cores` (src/run/affinity.rs) promises: disjoint core sets that share out all the cores.
use scg_seshat.Prelude.{
  ℕ, zero, suc, ◌+◌, ◌*◌, ◌/◌, ◌%◌, ◌^◌, ◌≤◌, ◌<◌, ◌≡◌, refl, sym, ap, ap₂, ◌∙◌, max, Bool, true,
  false, some, List, [], ◌∷◌, ◌++◌, map, length, ltb, ◌==◌, if◌then◌else◌, All, arith, le→ltb-false,
}
use scg_seshat.Affinity.{
  total, cores_from, core_sets, reserve_for, usable_of, weight_sum, first_counts, reconcile,
  partition_cores,
}
use scg_seshat.Affinity.Counts.{ArePositive, reconcile-total}

abbrev pub flatten : List (List ℕ) → List ℕ
flatten [] = []
flatten (s ∷ ss) = s ++ flatten ss

cores_from-add : (a m n : ℕ) → cores_from a (m + n) ≡ cores_from a m ++ cores_from (a + m) n
unfolding cores_from
cores_from-add a zero n = ap₂ cores_from (omega arith) (omega arith)
cores_from-add a (suc m) n =
    ap (cores_from a) (let h : suc m + n ≡ suc (m + n) = omega arith in h)
    ∙ ap (λ r. a ∷ r)
        (cores_from-add (a + 1) m n
          ∙ ap (λ k. cores_from (a + 1) m ++ cores_from k n)
              (let h : a + 1 + m ≡ a + suc m = omega arith in h))

flatten-core_sets : (a : ℕ) (cs : List ℕ) → flatten (core_sets a cs) ≡ cores_from a (total cs)
unfolding core_sets total cores_from
flatten-core_sets a [] = refl
flatten-core_sets a (c ∷ cs) =
    ap (λ r. cores_from a c ++ r) (flatten-core_sets (a + c) cs)
    ∙ sym (cores_from-add a c (total cs))

length-core_sets : (a : ℕ) (cs : List ℕ) → length (core_sets a cs) ≡ length cs
unfolding core_sets
length-core_sets a [] = refl
length-core_sets a (c ∷ cs) = ap suc (length-core_sets (a + c) cs)

length-cores_from : (a n : ℕ) → length (cores_from a n) ≡ n
unfolding cores_from
length-cores_from a zero = refl
length-cores_from a (suc n) = ap suc (length-cores_from (a + 1) n)

core_sets-nonempty :
    (a : ℕ) (cs : List ℕ) → ArePositive cs → All (λ set. 1 ≤ length set) (core_sets a cs)
unfolding core_sets
core_sets-nonempty a [] hp = tt
core_sets-nonempty a (c ∷ cs) (h, hp) =
    (omega (arith, length-cores_from a c), core_sets-nonempty (a + c) cs hp)

length-map : (f : ℕ → ℕ) (xs : List ℕ) → length (map f xs) ≡ length xs
length-map f [] = refl
length-map f (x ∷ xs) = ap suc (length-map f xs)

max_one-ArePositive : (f : ℕ → ℕ) (xs : List ℕ) → ArePositive (map (λ w. max (f w) 1) xs)
max_one-ArePositive f [] = tt
max_one-ArePositive f (x ∷ xs) = (omega arith, max_one-ArePositive f xs)

if-false {ℓ} : {A : Type ℓ} (b : Bool) (x y : A) → b ≡ false → (if b then x else y) ≡ y
if-false true x y h = absurd cc
if-false false x y h = refl

-- Each of the weights counts as one at least.
length-le-weights : (ws : List ℕ) → length ws ≤ total (map (λ w. max w 1) ws)
unfolding total
length-le-weights [] = omega arith
length-le-weights (w ∷ ws) = omega (arith, length-le-weights ws)

weight_sum-ne-zero :
    (ws : List ℕ)
    → 1 ≤ length ws
    → total (map (λ w. max w 1) ws) < 2 ^ 64
    → (weight_sum ws == 0) ≡ false
weight_sum-ne-zero ws hn hw = ground (arith, length-le-weights ws)

-- The sets are disjoint runs of consecutive cores: one after the other they list all the usable cores
-- in order, once each, there is one for each weight and none is empty.
abbrev pub IsPartition : ℕ → List ℕ → List (List ℕ) → Type 0
IsPartition total_cores weights sets =
    (flatten sets ≡ cores_from (reserve_for total_cores) (usable_of total_cores))
    × (length sets ≡ length weights)
    × All (λ set. 1 ≤ length set) sets

-- With at least one group, a usable core for each, and weights whose sum, each counted as 1 at
-- least, does not reach 2 ^ 64, `partition_cores` returns one set for each weight, none of them
-- empty, which one after the other list all the usable cores in order, each once.
pub partition_cores-IsPartition :
    (total_cores : ℕ) (weights : List ℕ)
    → 1 ≤ length weights
    → length weights ≤ usable_of total_cores
    → total (map (λ w. max w 1) weights) < 2 ^ 64
    → (sets : List (List ℕ)) × (partition_cores total_cores weights ≡ some sets)
      × IsPartition total_cores weights sets
unfolding partition_cores
partition_cores-IsPartition t ws hn hu hw =
    let u : ℕ = usable_of t in
    let cs = first_counts u ws in
    let hc = max_one-ArePositive (λ w. u * max w 1 % 2 ^ 64 / weight_sum ws) ws in
    let hl = length-map (λ w. max (u * max w 1 % 2 ^ 64 / weight_sum ws) 1) ws in
    let (h1, h2, h3) = reconcile-total u ws cs hc (sym hl) (omega arith) (omega arith) in
    let rs = reconcile u ws cs in
    let r : ℕ = reserve_for t in
    (
      core_sets r rs,
      if-false (length ws == 0) _ _ (ground arith)
          ∙ if-false (ltb u (length ws)) _ _ (le→ltb-false u (length ws) hu)
          ∙ if-false (weight_sum ws == 0) _ _ (weight_sum-ne-zero ws hn hw),
      (
        flatten-core_sets r rs ∙ ap (cores_from r) h1,
        length-core_sets r rs ∙ h2 ∙ hl,
        core_sets-nonempty r rs h3,
      ),
    )
