-- ===== src/Affinity.antt =====
-- Core sets for sender, receiver and gateway: `partition_cores` of src/run/affinity.rs.
pub mod Counts
pub mod Partition
mod Tests
use scg_seshat.Prelude.{
  ℕ, zero, suc, ◌+◌, ◌-◌, ◌*◌, ◌/◌, ◌%◌, ◌^◌, max, Bool, true, ◌&&◌, Option, none, some, List, [],
  ◌∷◌, map, length, replicate, leb, ltb, ◌==◌, if◌then◌else◌,
}

unfoldable pub total : List ℕ → ℕ
total [] = 0
total (x ∷ xs) = x + total xs

-- The index of the last of the largest elements that pass the test: `enumerate`, `filter` and
-- `max_by_key`. The second argument is the best so far, with its index.
unfoldable pub pick : (ℕ → Bool) → ℕ → Option (ℕ × ℕ) → List ℕ → Option ℕ
pick test i none [] = none
pick test i (some (j, best)) [] = some j
pick test i none (c ∷ cs) = pick test (i + 1) (if test c then some (i, c) else none) cs
pick test i (some (j, best)) (c ∷ cs) =
    pick test (i + 1) (if test c && leb best c then some (i, c) else some (j, best)) cs

-- `counts[idx] = f(counts[idx])`
unfoldable pub adjust : (ℕ → ℕ) → ℕ → List ℕ → List ℕ
adjust f i [] = []
adjust f zero (c ∷ cs) = f c ∷ cs
adjust f (suc i) (c ∷ cs) = c ∷ adjust f i cs

-- `while assigned > usable`. The first number is the surplus, and each round takes one off it.
unfoldable pub shrink : ℕ → List ℕ → List ℕ
shrink zero counts = counts
shrink (suc surplus) counts = elim (pick (λ c. ltb 1 c) 0 none counts) [
  | none ↦ counts
  | some idx ↦ shrink surplus (adjust (λ c. c - 1) idx counts)
]

-- `while assigned < usable`, by what is lacking; the index depends on the weights alone.
unfoldable pub grow : ℕ → List ℕ → List ℕ → List ℕ
grow zero weights counts = counts
grow (suc lacking) weights counts =
    let idx : ℕ = elim (pick (λ c. true) 0 none weights) [ none ↦ 0 | some i ↦ i ] in
    grow lacking weights (adjust (λ c. c + 1) idx counts)

-- `next`, `next + 1`, …
unfoldable pub cores_from : ℕ → ℕ → List ℕ
cores_from next zero = []
cores_from next (suc n) = next ∷ cores_from (next + 1) n

unfoldable pub core_sets : ℕ → List ℕ → List (List ℕ)
core_sets next [] = []
core_sets next (c ∷ cs) = cores_from next c ∷ core_sets (next + c) cs

abbrev pub reserve_for : ℕ → ℕ
reserve_for total_cores = if leb 4 total_cores then 1 else 0

-- `total_cores.saturating_sub(reserve)`
abbrev pub usable_of : ℕ → ℕ
usable_of total_cores = total_cores - reserve_for total_cores

-- The sum and the products are `usize`, and wrap as in a release build.
abbrev pub weight_sum : List ℕ → ℕ
weight_sum weights = total (map (λ w. max w 1) weights) % 2 ^ 64

abbrev pub first_counts : ℕ → List ℕ → List ℕ
first_counts usable weights =
    map (λ w. max (usable * max w 1 % 2 ^ 64 / weight_sum weights) 1) weights

-- Both loops; at most one of them runs.
unfoldable pub reconcile : ℕ → List ℕ → List ℕ → List ℕ
reconcile usable weights counts =
    let counts' = shrink (total counts - usable) counts in
    grow (usable - total counts') weights counts'

-- `none` is the panic of a division by zero, when the sum of the weights wraps to 0.
unfoldable pub partition_cores : ℕ → List ℕ → Option (List (List ℕ))
partition_cores total_cores weights =
    let usable = usable_of total_cores in
    if length weights == 0
    then some []
    else if ltb usable (length weights)
    then some (replicate (length weights) [])
    else if weight_sum weights == 0
    then none
    else some (
        core_sets (reserve_for total_cores)
          (reconcile usable weights (first_counts usable weights)))
