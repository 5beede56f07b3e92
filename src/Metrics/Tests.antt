-- ===== src/Metrics/Tests.antt =====
-- The theorems on the integrity counts (src/metrics/app.rs) at concrete arrivals.
use scg_seshat.Prelude.{
  ℕ, ◌+◌, ◌-◌, ◌^◌, ◌<◌, ◌≤◌, ◌≡◌, ◌↔◌, ◌⊎◌, refl, true, some, List, [], ◌∷◌, length, arith,
}
use scg_seshat.Prelude.Samples.{whole_math}
use scg_seshat.Metrics.Samples.{whole_math-TotalOrder, whole_math-RankLaws}
use scg_seshat.Metrics.Stats.{Summary, remove_outliers_iqr, summarize}
use scg_seshat.Metrics.Stats.Extremes.{Describes, summarize-Describes}
use scg_seshat.Metrics.Stats.Outliers.{Parts, Fenced, remove_outliers_iqr-Parts}
use scg_seshat.Metrics.Flow.{FlowMetrics}
use scg_seshat.Metrics.Summary.{FlowSummary, aggregate_run}
use scg_seshat.Metrics.Summary.Conserved.{total, Conserves, aggregate_run-Conserves}
use scg_seshat.Metrics.Integrity.{integrity}
use scg_seshat.Metrics.Integrity.Counts.{present, missing, lowest, highest, width, integrity-counts}
use scg_seshat.Metrics.Integrity.Order.{descents, late, IsInOrder, reordered-IsInOrder}

-- 12 is lost, and 13 arrives twice.
abbrev arrivals : List ℕ
arrivals = 13 ∷ 10 ∷ 11 ∷ 13 ∷ []

arrivals-width : width arrivals < 2 ^ 64
unfolding lowest highest
arrivals-width = omega arith

integrity_example :
    let r = integrity arrivals in
    (r.received ≡ length arrivals)
    × (r.distinct ≡ present (lowest arrivals) (width arrivals) arrivals)
    × (r.lost ≡ missing (lowest arrivals) (width arrivals) arrivals)
    × (r.distinct + r.lost ≡ width arrivals)
    × (r.duplicate ≡ r.received - r.distinct)
integrity_example =
    integrity-counts 13 (10 ∷ 11 ∷ 13 ∷ [])
      (omega arith, (omega arith, (omega arith, (omega arith, tt)))) arrivals-width

reordered-IsInOrder_example :
    let r = integrity (13 ∷ 10 ∷ 11 ∷ 13 ∷ []) in
    ((r.reordered ≡ 0) ↔ IsInOrder (13 ∷ 10 ∷ 11 ∷ 13 ∷ []))
    × (r.reordered ≡ descents 13 (10 ∷ 11 ∷ 13 ∷ []))
    × (r.reordered ≤ late 13 (10 ∷ 11 ∷ 13 ∷ []))
reordered-IsInOrder_example = reordered-IsInOrder 13 (10 ∷ 11 ∷ 13 ∷ [])

-- Both 10 and 11 are late, and one of them is counted.
two_late : ((integrity arrivals).reordered ≡ 1) × (late 13 (10 ∷ 11 ∷ 13 ∷ []) ≡ 2)
unfolding late integrity scg_seshat.Metrics.Integrity.integrity_of
    scg_seshat.Metrics.Integrity.scan_seqs scg_seshat.Metrics.Integrity.scan_seq
two_late = (refl, refl)

abbrev samples : List ℕ
samples = 7 ∷ 900 ∷ 5 ∷ 6 ∷ 8 ∷ []

summarize-Describes_example :
    (s : Summary ℕ) × (summarize whole_math samples ≡ some s)
    × Describes whole_math whole_math-TotalOrder samples s
summarize-Describes_example =
    summarize-Describes whole_math whole_math-TotalOrder 7 (900 ∷ 5 ∷ 6 ∷ 8 ∷ [])
      whole_math-RankLaws (omega arith)

-- 900 is removed.
remove_outliers_iqr-Parts_example :
    (r : List ℕ × ℕ) × (remove_outliers_iqr whole_math samples ≡ some r)
    × Parts whole_math samples r
    × (((length samples < 4) × (r ≡ (samples, 0)))
        ⊎ ((4 ≤ length samples) × Fenced whole_math samples r))
remove_outliers_iqr-Parts_example =
    remove_outliers_iqr-Parts whole_math samples whole_math-RankLaws (omega arith)

abbrev flow : List ℕ → FlowMetrics ℕ
flow seqs = record {
  latencies_us = samples;
  seqs = seqs;
  bytes = 500;
  integrity_failures = 1;
  boundary_violations = 0;
  duration_s = 2;
}

abbrev flows : List (FlowMetrics ℕ)
flows = flow (0 ∷ 1 ∷ 2 ∷ 4 ∷ 4 ∷ []) ∷ flow (9 ∷ 8 ∷ 7 ∷ 6 ∷ 5 ∷ []) ∷ []

few_samples : total (λ (m : FlowMetrics ℕ). length m.latencies_us) flows < 2 ^ 53
unfolding total
few_samples = omega arith

aggregate_run-Conserves_example :
    (s : FlowSummary ℕ) × (aggregate_run whole_math flows 2 true ≡ some s)
    × Conserves whole_math flows s
aggregate_run-Conserves_example =
    aggregate_run-Conserves whole_math flows 2 true whole_math-TotalOrder whole_math-RankLaws
      few_samples
