-- ===== src/Metrics/Summary.antt =====
-- The figures of a run: `FlowMetrics::finish`, `aggregate_run` and what they use of
-- src/metrics/app.rs. Counters are `u64` and wrap as in a release build; `none` is a panic.
pub mod Conserved
use mathlib.Core.List.{foldl}
use scg_seshat.Prelude.{
  ℕ, zero, suc, ◌+◌, ◌-◌, ◌%◌, ◌^◌, Bool, true, false, Option, none, some, List, [], ◌∷◌, ◌++◌,
  length, ltb, if◌then◌else◌,
}
use scg_seshat.Prelude.Partial.{◌>>=◌}
use scg_seshat.Prelude.Float.{FloatOps, FloatMath}
use scg_seshat.Metrics.Flow.{FlowMetrics}
use scg_seshat.Metrics.Integrity.{Integrity, integrity}
use scg_seshat.Metrics.Stats.{Summary, remove_outliers_iqr, summarize}

pub record FlowSummary (F : Type 0) : Type 0 where
  pub messages : ℕ
  pub bytes : ℕ
  pub duration_s : F
  pub throughput_gbps : F
  pub message_rate : F
  pub latency_us : Summary F
  pub jitter_us : F
  pub integrity : Integrity
  pub integrity_failures : ℕ
  pub boundary_violations : ℕ
  pub loss_pct : F
  pub outliers_removed : ℕ

-- What `aggregate_run` collects of the flows.
pub record Pool (F : Type 0) : Type 0 where
  pub all_lat : List F
  pub bytes : ℕ
  pub integ : Integrity
  pub jitter_weighted : F
  pub jitter_weight : ℕ
  pub integrity_failures : ℕ
  pub boundary_violations : ℕ

-- `Integrity::default()`
abbrev pub no_integrity : Integrity
no_integrity = record { received = 0; distinct = 0; lost = 0; duplicate = 0; reordered = 0 }

unfoldable pub add_integrity : Integrity → Integrity → Integrity
add_integrity a b = record {
  received = (a.received + b.received) % 2 ^ 64;
  distinct = (a.distinct + b.distinct) % 2 ^ 64;
  lost = (a.lost + b.lost) % 2 ^ 64;
  duplicate = (a.duplicate + b.duplicate) % 2 ^ 64;
  reordered = (a.reordered + b.reordered) % 2 ^ 64;
}

module _ {F : Type 0} (fm : FloatMath F) where
  open fm use {abs}
  open fm.ops use {of_nat, add, sub, mul, div, le}

  unfoldable pub throughput_gbps : ℕ → F → F
  throughput_gbps bytes secs =
      if le secs (of_nat 0)
      then of_nat 0
      else div (div (mul (of_nat bytes) (of_nat 8)) (of_nat 1000000000)) secs

  unfoldable pub message_rate : ℕ → F → F
  message_rate messages secs = if le secs (of_nat 0) then of_nat 0 else div (of_nat messages) secs

  -- The loop over the pairs of neighbours.
  unfoldable pub differences : F → List F → F
  differences acc [] = acc
  differences acc (a ∷ []) = acc
  differences acc (a ∷ b ∷ rest) = differences (add acc (abs (sub b a))) (b ∷ rest)

  unfoldable pub jitter : List F → F
  jitter latencies =
      if ltb (length latencies) 2
      then of_nat 0
      else div (differences (of_nat 0) latencies) (of_nat (length latencies - 1))

  -- The share of `lost` in `of`, in percent.
  unfoldable pub loss_pct : ℕ → ℕ → F
  loss_pct lost total = mul (div (of_nat lost) (of_nat total)) (of_nat 100)

  unfoldable pub samples : Bool → List F → Option (List F × ℕ)
  samples true xs = remove_outliers_iqr fm xs
  samples false xs = some (xs, 0)

  unfoldable pub finish : FlowMetrics F → Bool → Option (FlowSummary F)
  finish m remove_outliers =
      let integ = integrity m.seqs in
      do
        kept ← samples remove_outliers m.latencies_us
        latency_us ← summarize fm kept.0
        some (record {
          messages = length m.seqs;
          bytes = m.bytes;
          duration_s = m.duration_s;
          throughput_gbps = throughput_gbps m.bytes m.duration_s;
          message_rate = message_rate (length m.seqs) m.duration_s;
          latency_us = latency_us;
          jitter_us = jitter m.latencies_us;
          integrity = integ;
          integrity_failures = m.integrity_failures;
          boundary_violations = m.boundary_violations;
          loss_pct =
              if ltb 0 ((integ.received + integ.lost) % 2 ^ 64)
              then loss_pct integ.lost ((integ.distinct + integ.lost) % 2 ^ 64)
              else of_nat 0;
          outliers_removed = kept.1;
        })

  unfoldable pub no_flows : Pool F
  no_flows = record {
    all_lat = [];
    bytes = 0;
    integ = no_integrity;
    jitter_weighted = of_nat 0;
    jitter_weight = 0;
    integrity_failures = 0;
    boundary_violations = 0;
  }

  -- The body of the loop over the flows.
  unfoldable pub pool_flow : Pool F → FlowMetrics F → Pool F
  pool_flow p m =
      let mi = integrity m.seqs in
      record {
        all_lat = p.all_lat ++ m.latencies_us;
        bytes = (p.bytes + m.bytes) % 2 ^ 64;
        integ = add_integrity p.integ mi;
        jitter_weighted = add p.jitter_weighted (mul (jitter m.latencies_us) (of_nat mi.received));
        jitter_weight = (p.jitter_weight + mi.received) % 2 ^ 64;
        integrity_failures = (p.integrity_failures + m.integrity_failures) % 2 ^ 64;
        boundary_violations = (p.boundary_violations + m.boundary_violations) % 2 ^ 64;
      }

  unfoldable pub pool : List (FlowMetrics F) → Pool F
  pool = foldl pool_flow no_flows

  -- The summary behind the loop.
  unfoldable pub summary_of_pool : Pool F → F → List F × ℕ → Summary F → FlowSummary F
  summary_of_pool p duration_s kept latency_us =
      let total = (p.integ.distinct + p.integ.lost) % 2 ^ 64 in
      record {
        messages = p.integ.received;
        bytes = p.bytes;
        duration_s = duration_s;
        throughput_gbps = throughput_gbps p.bytes duration_s;
        message_rate = message_rate p.integ.received duration_s;
        latency_us = latency_us;
        jitter_us =
            if ltb 0 p.jitter_weight
            then div p.jitter_weighted (of_nat p.jitter_weight)
            else of_nat 0;
        integrity = p.integ;
        integrity_failures = p.integrity_failures;
        boundary_violations = p.boundary_violations;
        loss_pct = if ltb 0 total then loss_pct p.integ.lost total else of_nat 0;
        outliers_removed = kept.1;
      }

  unfoldable pub aggregate_run : List (FlowMetrics F) → F → Bool → Option (FlowSummary F)
  aggregate_run metrics duration_s remove_outliers =
      let p = pool metrics in
      do
        kept ← samples remove_outliers p.all_lat
        latency_us ← summarize fm kept.0
        some (summary_of_pool p duration_s kept latency_us)
