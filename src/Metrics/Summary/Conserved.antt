-- ===== src/Metrics/Summary/Conserved.antt =====
-- What `aggregate_run` of src/metrics/app.rs keeps of the flows that it combines.
use mathlib.Core.List.{foldl}
use scg_seshat.Prelude.{
  ℕ, suc, ◌+◌, ◌%◌, ◌^◌, ◌≤◌, ◌<◌, ◌≡◌, refl, Bool, true, false, some, List, [], ◌∷◌, length,
  length-append, inl, inr, Bool-cases, arith,
}
use scg_seshat.Prelude.Float.{FloatMath}
use scg_seshat.Metrics.Flow.{FlowMetrics}
use scg_seshat.Metrics.Integrity.{
  SeqScan, contains, insert, scan_seq, scan_seqs, first_scan, integrity_of, integrity,
}
use scg_seshat.Metrics.Stats.{Summary, empty, summarize}
use scg_seshat.Metrics.Stats.Sorting.{TotalOrder}
use scg_seshat.Metrics.Stats.Extremes.{summarize-Describes}
use scg_seshat.Metrics.Stats.Outliers.{remove_outliers_iqr-Parts, Parts, length-Sublist}
use scg_seshat.Metrics.Stats.Ranks.{RankLaws}
use scg_seshat.Metrics.Summary.{
  FlowSummary, Pool, add_integrity, samples, no_flows, pool_flow, pool, summary_of_pool,
  aggregate_run,
}

length-insert : (k : ℕ) (seen : List ℕ) → length (insert k seen) ≤ suc (length seen)
unfolding insert
length-insert k seen = elim (Bool-cases (contains k seen)) [
  | inl old ↦ rw old (omega arith)
  | inr new ↦ rw new (omega arith)
]

length-scan_seqs :
    (i : ℕ) (st : SeqScan) (xs : List ℕ)
    → length (scan_seqs i st xs).seen ≤ length st.seen + length xs
unfolding scan_seqs scan_seq
length-scan_seqs i st [] = omega arith
length-scan_seqs i st (x ∷ xs) =
    omega (arith, length-scan_seqs (i + 1) (scan_seq i st x) xs, length-insert x st.seen)

-- A flow's arrivals are distinct or duplicate.
integrity-adds :
    (seqs : List ℕ)
    → let r = integrity seqs in
      (r.received ≡ length seqs) × (r.distinct + r.duplicate ≡ length seqs)
unfolding integrity integrity_of
integrity-adds [] = (refl, omega arith)
integrity-adds (s ∷ seqs) = (refl, omega (arith, length-scan_seqs 0 (first_scan s) (s ∷ seqs)))

module _ {F : Type 0} where
  -- The sum over the flows.
  unfoldable pub total : (FlowMetrics F → ℕ) → List (FlowMetrics F) → ℕ
  total f [] = 0
  total f (m ∷ ms) = f m + total f ms

  module _ (fm : FloatMath F) where
    -- A counter of the pool that a flow adds to is the sum, wrapping.
    pooled :
        (get : Pool F → ℕ) (f : FlowMetrics F → ℕ)
        → ((p : Pool F) (m : FlowMetrics F) → get (pool_flow fm p m) ≡ (get p + f m) % 2 ^ 64)
        → (p : Pool F) (ms : List (FlowMetrics F)) → get p < 2 ^ 64
        → get (foldl (pool_flow fm) p ms) ≡ (get p + total f ms) % 2 ^ 64
    unfolding total
    pooled get f adds p [] small = omega arith
    pooled get f adds p (m ∷ ms) small =
        omega (arith, pooled get f adds (pool_flow fm p m) ms (omega (arith, adds p m)), adds p m)

    latencies :
        (p : Pool F) (ms : List (FlowMetrics F))
        → length (foldl (pool_flow fm) p ms).all_lat
          ≡ length p.all_lat + total (λ m. length m.latencies_us) ms
    unfolding total pool_flow
    latencies p [] = omega arith
    latencies p (m ∷ ms) =
        omega (arith, latencies (pool_flow fm p m) ms, length-append p.all_lat m.latencies_us)

    pub summarize_counts :
        (xs : List F)
        → TotalOrder fm
        → RankLaws fm
        → length xs < 2 ^ 53
        → (s : Summary F) × (summarize fm xs ≡ some s) × (s.n ≡ length xs)
    unfolding summarize empty
    summarize_counts [] order laws small = (empty fm, refl, refl)
    summarize_counts (x ∷ xs) order laws small =
        let (s, e, d) = summarize-Describes fm order x xs laws small in (s, e, d.counted)

    -- The samples that are kept and those removed are all there are, and are summarised.
    summarised :
        (remove_outliers : Bool) (xs : List F)
        → TotalOrder fm
        → RankLaws fm
        → length xs < 2 ^ 53
        → (kept : List F × ℕ) × (s : Summary F) × (samples fm remove_outliers xs ≡ some kept)
          × (summarize fm kept.0 ≡ some s)
          × (s.n + kept.1 ≡ length xs)
    unfolding samples Parts
    summarised false xs order laws small =
        let (s, e, n) = summarize_counts xs order laws small in
        ((xs, 0), s, refl, e, omega (arith, n))
    summarised true xs order laws small =
        let (kept, is, (part, parts), _) = remove_outliers_iqr-Parts fm xs laws small in
        let (s, e, n) = summarize_counts kept.0 order laws (omega (arith, length-Sublist part)) in
        (kept, s, is, e, omega (arith, n, parts))

    -- What the run's figures are in terms of the flows'.
    pub record Conserves (ms : List (FlowMetrics F)) (s : FlowSummary F) : Type 0 where
      pub messages : s.messages ≡ total (λ m. length m.seqs) ms % 2 ^ 64
      pub arrivals :
          (s.integrity.distinct + s.integrity.duplicate) % 2 ^ 64
          ≡ total (λ m. length m.seqs) ms % 2 ^ 64
      pub bytes : s.bytes ≡ total (λ m. m.bytes) ms % 2 ^ 64
      pub failures : s.integrity_failures ≡ total (λ m. m.integrity_failures) ms % 2 ^ 64
      pub violations : s.boundary_violations ≡ total (λ m. m.boundary_violations) ms % 2 ^ 64
      pub sampled : s.latency_us.n + s.outliers_removed ≡ total (λ m. length m.latencies_us) ms

    from_none :
        (get : Pool F → ℕ) (f : FlowMetrics F → ℕ)
        → ((p : Pool F) (m : FlowMetrics F) → get (pool_flow fm p m) ≡ (get p + f m) % 2 ^ 64)
        → get (no_flows fm) ≡ 0
        → (ms : List (FlowMetrics F)) → get (pool fm ms) ≡ total f ms % 2 ^ 64
    unfolding pool
    from_none get f adds empty_pool ms =
        omega (arith, pooled get f adds (no_flows fm) ms (omega (arith, empty_pool)), empty_pool)

    -- Where numbers below 2 ^ 53 are exact, rounding is monotone and `total_cmp` orders totally,
    -- and there are fewer than 2 ^ 53 latencies: `aggregate_run` does not panic. Its messages,
    -- bytes, integrity failures and boundary violations are the sums over the flows, wrapping; its
    -- distinct and duplicate arrivals are together the sum of the flows' messages, wrapping; the
    -- latencies summarised and those removed as outliers are together all the latencies of the
    -- flows.
    pub aggregate_run-Conserves :
        (ms : List (FlowMetrics F)) (duration_s : F) (remove_outliers : Bool)
        → TotalOrder fm
        → RankLaws fm
        → total (λ m. length m.latencies_us) ms < 2 ^ 53
        → (s : FlowSummary F) × (aggregate_run fm ms duration_s remove_outliers ≡ some s)
          × Conserves ms s
    unfolding aggregate_run summary_of_pool pool no_flows pool_flow add_integrity
    aggregate_run-Conserves ms duration_s remove_outliers order laws small =
        let p = pool fm ms in
        let size : length p.all_lat ≡ total (λ m. length m.latencies_us) ms =
          omega (arith, latencies (no_flows fm) ms) in
        let (kept, s, e, e', n) =
          summarised remove_outliers p.all_lat order laws (omega (arith, size)) in
        (
          summary_of_pool fm p duration_s kept s,
          rw (e, e') refl,
          record {
            messages =
                from_none (λ q. q.integ.received) (λ m. length m.seqs)
                  (λ q m. omega (arith, (integrity-adds m.seqs).0)) refl ms;
            arrivals =
                from_none (λ q. (q.integ.distinct + q.integ.duplicate) % 2 ^ 64)
                  (λ m. length m.seqs) (λ q m. omega (arith, (integrity-adds m.seqs).1))
                  (omega arith) ms;
            bytes = from_none (λ q. q.bytes) (λ m. m.bytes) (λ q m. refl) refl ms;
            failures =
                from_none (λ q. q.integrity_failures) (λ m. m.integrity_failures) (λ q m. refl) refl
                  ms;
            violations =
                from_none (λ q. q.boundary_violations) (λ m. m.boundary_violations) (λ q m. refl)
                  refl ms;
            sampled = omega (arith, n, size);
          },
        )
