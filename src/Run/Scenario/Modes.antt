-- ===== src/Run/Scenario/Modes.antt =====
-- The loops over the runs in src/run/engine.rs, one for each mode. A single run and the callback are
-- parameters, with the state `W` of the world.
use mathlib.Core.List.{foldl}
use scg_seshat.Prelude.{ℕ, zero, suc, ◌+◌, max, not, Option, List, [], ◌∷◌, map}
use scg_seshat.Prelude.Float.{FloatMath}
use scg_seshat.Prelude.Result.{Result, ok, ◌>>=◌}
use scg_seshat.Workload.Pacer.{from_sender, is_blast}
use scg_seshat.Workload.SendLag.{SendLag, no_lag, merge}
use scg_seshat.Metrics.Summary.{FlowSummary}
use scg_seshat.Run.Scenario.{
  RunMode, RunParams, RunStats, throughput_stats, ping_pong_stats, connrate_stats,
}

-- `run_once`, `run_once_pingpong` and `run_once_connrate` at the parameters, and the callback.
pub record Runner (F E W : Type 0) : Type 0 where
  pub run_once : W → Result E ((FlowSummary F × F × SendLag) × W)
  pub run_once_pingpong : W → Result E ((FlowSummary F × F) × W)
  pub run_once_connrate : W → Result E ((FlowSummary F × F × F) × W)
  pub on_run : ℕ → FlowSummary F → W → W

module _ {F E W : Type 0} (on_run : ℕ → FlowSummary F → W → W) where
  -- `count` runs from number `i` on, in order, with what each hands back.
  unfoldable pub repeat :
      {A : Type 0}
      → (A → FlowSummary F)
      → (W → Result E (A × W))
      → ℕ
      → ℕ
      → W
      → Result E (List A × W)
  repeat summary run zero i w = ok ([], w)
  repeat summary run (suc count) i w = do
    r ← run w
    rest ← repeat summary run count (i + 1) (on_run i (summary r.0) r.1)
    ok (r.0 ∷ rest.0, rest.1)

module _ {F E W : Type 0} (fm : FloatMath F) (ops : Runner F E W) (params : RunParams F) where
  unfoldable pub run_scenario_throughput : W → Result E (Option (RunStats F) × W)
  run_scenario_throughput w = do
    r ← repeat ops.on_run (λ a. a.0) ops.run_once (max params.runs 1) 0 w
    ok (
      throughput_stats fm (not (is_blast (from_sender fm.ops params.sender params.message_bytes)))
          (map (λ a. a.0) r.0) (map (λ a. a.1) r.0) (foldl (λ lag a. merge lag a.2) no_lag r.0),
      r.1,
    )

  unfoldable pub run_scenario_pingpong : W → Result E (Option (RunStats F) × W)
  run_scenario_pingpong w = do
    r ← repeat ops.on_run (λ a. a.0) ops.run_once_pingpong (max params.runs 1) 0 w
    ok (ping_pong_stats fm (map (λ a. a.0) r.0) (map (λ a. a.1) r.0), r.1)

  unfoldable pub run_scenario_connrate : W → Result E (Option (RunStats F) × W)
  run_scenario_connrate w = do
    r ← repeat ops.on_run (λ a. a.0) ops.run_once_connrate (max params.runs 1) 0 w
    ok (connrate_stats fm (map (λ a. a.0) r.0) (map (λ a. a.1) r.0) (map (λ a. a.2) r.0), r.1)

  unfoldable pub run_in : RunMode → W → Result E (Option (RunStats F) × W)
  run_in RunMode.throughput w = run_scenario_throughput w
  run_in RunMode.ping_pong w = run_scenario_pingpong w
  run_in RunMode.connrate w = run_scenario_connrate w

  unfoldable pub run_scenario : W → Result E (Option (RunStats F) × W)
  run_scenario w = run_in params.mode w
