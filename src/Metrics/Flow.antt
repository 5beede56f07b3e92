-- ===== src/Metrics/Flow.antt =====
-- The receiver's accumulator: `FlowMetrics` of src/metrics/app.rs. Counters are `u64` and wrap as
-- in a release build.
use scg_seshat.Prelude.{ℕ, ◌+◌, ◌%◌, ◌^◌, List, [], ◌∷◌, ◌++◌}
use scg_seshat.Prelude.Float.{FloatOps}

pub record FlowMetrics (F : Type 0) : Type 0 where
  pub latencies_us : List F
  pub seqs : List ℕ
  pub bytes : ℕ
  pub integrity_failures : ℕ
  pub boundary_violations : ℕ
  pub duration_s : F

module _ {F : Type 0} (fl : FloatOps F) where
  open fl use {of_nat, div}

  -- `FlowMetrics::new` and `with_capacity`, which differ in the memory reserved.
  unfoldable pub new : FlowMetrics F
  new = record {
    latencies_us = [];
    seqs = [];
    bytes = 0;
    integrity_failures = 0;
    boundary_violations = 0;
    duration_s = of_nat 0;
  }

  unfoldable pub record_message : FlowMetrics F → ℕ → ℕ → ℕ → FlowMetrics F
  record_message m seq latency_ns wire_bytes = record m {
    seqs = m.seqs ++ (seq ∷ []);
    latencies_us = m.latencies_us ++ (div (of_nat latency_ns) (of_nat 1000) ∷ []);
    bytes = (m.bytes + wire_bytes) % 2 ^ 64;
  }

unfoldable pub record_integrity_failure : {F : Type 0} → FlowMetrics F → FlowMetrics F
record_integrity_failure m = record m { integrity_failures = (m.integrity_failures + 1) % 2 ^ 64 }

unfoldable pub record_boundary_violation : {F : Type 0} → FlowMetrics F → FlowMetrics F
record_boundary_violation m = record m {
  boundary_violations = (m.boundary_violations + 1) % 2 ^ 64;
}

unfoldable pub set_duration : {F : Type 0} → FlowMetrics F → F → FlowMetrics F
set_duration m secs = record m { duration_s = secs }
