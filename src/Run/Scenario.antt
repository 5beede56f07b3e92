-- ===== src/Run/Scenario.antt =====
-- The runs of a scenario and their aggregation: `run_scenario` of src/run/engine.rs, its three modes,
-- and what it reads of `SendLag` in src/workload/sender.rs. `none` is a panic. Sums of `u64` wrap as in
-- a release build.
pub mod Modes
pub mod Aggregates
use mathlib.Core.List.{foldl}
use scg_seshat.Prelude.{
  ℕ, zero, suc, ◌+◌, ◌%◌, ◌^◌, max, Bool, true, false, not, Option, none, some, List, [], ◌∷◌, map,
  length, ◌==◌, ltb, if◌then◌else◌,
}
use scg_seshat.Prelude.Partial.{◌>>=◌}
use scg_seshat.Prelude.Float.{FloatOps, FloatMath}
use scg_seshat.Config.Schema.{Sender}
use scg_seshat.Workload.Pacer.{from_sender, is_blast}
use scg_seshat.Workload.SendLag.{SendLag, no_lag, merge}
use scg_seshat.Metrics.Stats.{Summary, sum, mean, summarize}
use scg_seshat.Metrics.Summary.{FlowSummary, loss_pct}

pub data RunMode : Type 0 where
  throughput ping_pong connrate : RunMode

-- Durations are nanoseconds.
pub record RunParams (F : Type 0) : Type 0 where
  pub message_bytes : ℕ
  pub connections : ℕ
  pub runs : ℕ
  pub warmup : ℕ
  pub measure : ℕ
  pub cooldown : ℕ
  pub remove_outliers : Bool
  pub sender_cores : List ℕ
  pub receiver_cores : List ℕ
  pub sender : Sender F
  pub mode : RunMode

pub record RttSummary (F : Type 0) : Type 0 where
  pub mean_us : F
  pub mean_ci95 : F
  pub p50_us : F
  pub p99_us : F
  pub samples : ℕ

pub record ConnSummary (F : Type 0) : Type 0 where
  pub conns_per_sec : F
  pub conns_per_sec_ci95 : F
  pub handshake_p50_us : F
  pub handshake_p99_us : F
  pub total_conns : ℕ
  pub first_handshake_us : F
  pub resumed_handshake_us : F

pub record RunStats (F : Type 0) : Type 0 where
  pub runs : List (FlowSummary F)
  pub throughput_gbps : Summary F
  pub latency_mean_us : Summary F
  pub latency_p99_us : Summary F
  pub handshake_us : Summary F
  pub total_lost : ℕ
  pub loss_pct : F
  pub mode : RunMode
  pub rtt : Option (RttSummary F)
  pub conn : Option (ConnSummary F)
  pub co_corrected : Bool
  pub send_lag_mean_us : F
  pub send_lag_max_us : F

-- The sum of a `u64` over the runs.
unfoldable pub sum_of : {F : Type 0} → (FlowSummary F → ℕ) → List (FlowSummary F) → ℕ
sum_of f runs = foldl (λ n r. (n + f r) % 2 ^ 64) 0 runs

module _ {F : Type 0} (fm : FloatMath F) where
  open fm.ops use {of_nat, div}

  -- `SendLag::mean_us`
  unfoldable pub mean_us : SendLag → F
  mean_us l =
      if l.count == 0 then of_nat 0 else div (div (of_nat l.sum_ns) (of_nat l.count)) (of_nat 1000)

  -- `SendLag::max_us`
  unfoldable pub max_us : SendLag → F
  max_us l = div (of_nat l.max_ns) (of_nat 1000)

  -- The three figures that every mode has.
  unfoldable pub throughputs : List (FlowSummary F) → List F
  throughputs runs = map (λ r. r.throughput_gbps) runs

  unfoldable pub means : List (FlowSummary F) → List F
  means runs = map (λ r. r.latency_us.mean) runs

  unfoldable pub medians : List (FlowSummary F) → List F
  medians runs = map (λ r. r.latency_us.p50) runs

  unfoldable pub p99s : List (FlowSummary F) → List F
  p99s runs = map (λ r. r.latency_us.p99) runs

  -- What an aggregation reports with these summaries.
  unfoldable pub throughput_of :
      Bool
      → List (FlowSummary F)
      → SendLag
      → Summary F
      → Summary F
      → Summary F
      → Summary F
      → RunStats F
  throughput_of co_corrected runs lag thr lat p99 hs =
      let lost = sum_of (λ r. r.integrity.lost) runs in
      let all = (sum_of (λ r. r.integrity.distinct) runs + lost) % 2 ^ 64 in
      record {
        runs = runs;
        throughput_gbps = thr;
        latency_mean_us = lat;
        latency_p99_us = p99;
        handshake_us = hs;
        total_lost = lost;
        loss_pct = if ltb 0 all then loss_pct fm lost all else of_nat 0;
        mode = RunMode.throughput;
        rtt = none;
        conn = none;
        co_corrected = co_corrected;
        send_lag_mean_us = mean_us lag;
        send_lag_max_us = max_us lag;
      }

  unfoldable pub throughput_stats :
      Bool → List (FlowSummary F) → List F → SendLag → Option (RunStats F)
  throughput_stats co_corrected runs handshakes lag = do
    t ← summarize fm (throughputs runs)
    l ← summarize fm (means runs)
    p ← summarize fm (p99s runs)
    h ← summarize fm handshakes
    some (throughput_of co_corrected runs lag t l p h)

  unfoldable pub ping_pong_of :
      List (FlowSummary F) → Summary F → Summary F → Summary F → Summary F → Summary F → RunStats F
  ping_pong_of runs m p50 p99 t h = record {
    runs = runs;
    throughput_gbps = t;
    latency_mean_us = m;
    latency_p99_us = p99;
    handshake_us = h;
    total_lost = 0;
    loss_pct = of_nat 0;
    mode = RunMode.ping_pong;
    rtt = some (record {
      mean_us = m.mean;
      mean_ci95 = m.ci95;
      p50_us = p50.mean;
      p99_us = p99.mean;
      samples = sum_of (λ r. r.messages) runs;
    });
    conn = none;
    co_corrected = true;
    send_lag_mean_us = of_nat 0;
    send_lag_max_us = of_nat 0;
  }

  unfoldable pub ping_pong_stats : List (FlowSummary F) → List F → Option (RunStats F)
  ping_pong_stats runs handshakes = do
    m ← summarize fm (means runs)
    p50 ← summarize fm (medians runs)
    p99 ← summarize fm (p99s runs)
    t ← summarize fm (throughputs runs)
    h ← summarize fm handshakes
    some (ping_pong_of runs m p50 p99 t h)

  unfoldable pub connrate_of :
      List (FlowSummary F)
      → List F
      → List F
      → Summary F
      → Summary F
      → Summary F
      → Summary F
      → Summary F
      → RunStats F
  connrate_of runs first_hs_all resumed_hs_all r m p50 p99 t = record {
    runs = runs;
    throughput_gbps = t;
    latency_mean_us = m;
    latency_p99_us = p99;
    handshake_us = m;
    total_lost = 0;
    loss_pct = of_nat 0;
    mode = RunMode.connrate;
    rtt = none;
    conn = some (record {
      conns_per_sec = r.mean;
      conns_per_sec_ci95 = r.ci95;
      handshake_p50_us = p50.mean;
      handshake_p99_us = p99.mean;
      total_conns = sum_of (λ s. s.messages) runs;
      first_handshake_us = mean fm first_hs_all;
      resumed_handshake_us = mean fm resumed_hs_all;
    });
    co_corrected = true;
    send_lag_mean_us = of_nat 0;
    send_lag_max_us = of_nat 0;
  }

  -- The first and the later handshakes' times of the runs.
  unfoldable pub connrate_stats : List (FlowSummary F) → List F → List F → Option (RunStats F)
  connrate_stats runs first_hs_all resumed_hs_all = do
    r ← summarize fm (map (λ s. s.message_rate) runs)
    m ← summarize fm (means runs)
    p50 ← summarize fm (medians runs)
    p99 ← summarize fm (p99s runs)
    t ← summarize fm (throughputs runs)
    some (connrate_of runs first_hs_all resumed_hs_all r m p50 p99 t)
