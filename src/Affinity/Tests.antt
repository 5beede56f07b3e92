-- ===== src/Affinity/Tests.antt =====
-- The theorem on `partition_cores` (src/run/affinity.rs) at a machine of eight cores.
use scg_seshat.Prelude.{ℕ, ◌≡◌, some, List, [], ◌∷◌, arith}
use scg_seshat.Affinity.{total, partition_cores}
use scg_seshat.Affinity.Partition.{IsPartition, partition_cores-IsPartition}

partition_cores_example :
    (sets : List (List ℕ)) × (partition_cores 8 (1 ∷ 1 ∷ 3 ∷ []) ≡ some sets)
    × IsPartition 8 (1 ∷ 1 ∷ 3 ∷ []) sets
unfolding total
partition_cores_example =
    partition_cores-IsPartition 8 (1 ∷ 1 ∷ 3 ∷ []) (omega arith) (omega arith) (omega arith)
