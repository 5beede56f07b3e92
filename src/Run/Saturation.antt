-- ===== src/Run/Saturation.antt =====
-- The sweep of offered loads in src/run/saturation.rs. A measured run is a parameter, with the state
-- `W` of the world.
pub mod Knee
use mathlib.Core.List.{foldl}
use scg_seshat.Prelude.{
  ℕ, zero, suc, ◌+◌, ◌%◌, ◌^◌, min, Bool, true, false, Option, none, some, List, [], ◌∷◌, map,
  if◌then◌else◌,
}
use scg_seshat.Prelude.Float.{FloatOps, FloatMath}
use scg_seshat.Prelude.Result.{Result, ok, err, ◌>>=◌}
use scg_seshat.Config.Schema.{Pattern, Sender}
use scg_seshat.Metrics.Summary.{FlowSummary}
use scg_seshat.Run.Scenario.{RunParams}

pub record SweepPoint (F : Type 0) : Type 0 where
  pub offered_mbps : F
  pub throughput_gbps : F
  pub loss_pct : F
  pub latency_p99_us : F

pub record SweepPlan (F : Type 0) : Type 0 where
  pub start_mbps : F
  pub step_mbps : F
  pub max_mbps : F
  pub loss_threshold_pct : F

pub record SweepResult (F : Type 0) : Type 0 where
  pub points : List (SweepPoint F)
  pub saturation_gbps : F
  pub max_lossfree_gbps : F
  pub knee_offered_mbps : F

unfoldable pub sustained_at : {F : Type 0} → Sender F → F → Sender F
sustained_at base rate_mbps = record base {
  pattern = Pattern.sustained;
  rate_limit_mbps = some rate_mbps;
}

-- The parameters of one point.
unfoldable pub point_params : {F : Type 0} → RunParams F → F → RunParams F
point_params base rate = record base { runs = 1; sender = sustained_at base.sender rate }

module _ {F : Type 0} (fm : FloatMath F) where
  open fm use {floor, total_le}
  open fm.ops use {of_nat, to_u64, add, sub, mul, div, fmax, lt, le}

  -- `step > 0` is false of what is no number.
  unfoldable pub point_count : SweepPlan F → ℕ
  point_count plan =
      let start = fmax plan.start_mbps (of_nat 0) in
      min
        (if lt (of_nat 0) plan.step_mbps
          then (to_u64 (floor (div (fmax (sub plan.max_mbps start) (of_nat 0)) plan.step_mbps)) + 1)
            % 2 ^ 64
          else 1)
        10000

  unfoldable pub rate_at : SweepPlan F → ℕ → F
  rate_at plan i = add (fmax plan.start_mbps (of_nat 0)) (mul (of_nat i) plan.step_mbps)

  unfoldable pub point_of : F → FlowSummary F → SweepPoint F
  point_of rate summary = record {
    offered_mbps = rate;
    throughput_gbps = summary.throughput_gbps;
    loss_pct = summary.loss_pct;
    latency_p99_us = summary.latency_us.p99;
  }

  -- The later of two points wins where they are equal, as with `max_by`.
  unfoldable pub better : SweepPoint F → SweepPoint F → SweepPoint F
  better a b = if total_le a.throughput_gbps b.throughput_gbps then b else a

  unfoldable pub best : Option (SweepPoint F) → SweepPoint F → Option (SweepPoint F)
  best none p = some p
  best (some a) p = some (better a p)

  -- The filter for the points within the budget, and `max_by` behind it.
  unfoldable pub knee_from :
      SweepPlan F → Option (SweepPoint F) → List (SweepPoint F) → Option (SweepPoint F)
  knee_from plan so_far [] = so_far
  knee_from plan so_far (p ∷ ps) =
      knee_from plan (if le p.loss_pct plan.loss_threshold_pct then best so_far p else so_far) ps

  unfoldable pub knee : SweepPlan F → List (SweepPoint F) → Option (SweepPoint F)
  knee plan points = knee_from plan none points

  unfoldable pub knee_values : Option (SweepPoint F) → F × F
  knee_values none = (of_nat 0, of_nat 0)
  knee_values (some p) = (p.throughput_gbps, p.offered_mbps)

  unfoldable pub saturation : List (SweepPoint F) → F
  saturation points = foldl (λ m p. fmax m p.throughput_gbps) (of_nat 0) points

  unfoldable pub derive : SweepPlan F → List (SweepPoint F) → SweepResult F
  derive plan points =
      let k = knee_values (knee plan points) in
      record {
        points = points;
        saturation_gbps = saturation points;
        max_lossfree_gbps = k.0;
        knee_offered_mbps = k.1;
      }

  module _ {E W : Type 0} (run_once : RunParams F → W → Result E (FlowSummary F × W)) where
    -- `count` points from number `i` on.
    unfoldable pub measure_points :
        RunParams F → SweepPlan F → ℕ → ℕ → W → Result E (List (SweepPoint F) × W)
    measure_points base plan zero i w = ok ([], w)
    measure_points base plan (suc count) i w = do
      r ← run_once (point_params base (rate_at plan i)) w
      rest ← measure_points base plan count (i + 1) r.1
      ok (point_of (rate_at plan i) r.0 ∷ rest.0, rest.1)

    unfoldable pub sweep_saturation : RunParams F → SweepPlan F → W → Result E (SweepResult F × W)
    sweep_saturation base plan w = do
      measured ← measure_points base plan (point_count plan) 0 w
      ok (derive plan measured.0, measured.1)
