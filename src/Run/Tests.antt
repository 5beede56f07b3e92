-- ===== src/Run/Tests.antt =====
-- The theorems on the workers of src/run/engine.rs over the ring of the samples.
use Prim.Native.Nat.{◌*◌}
use scg_seshat.Prelude.{
  Option, ℕ, ◌+◌, ◌≡◌, ◌↔◌, ◌⊎◌, true, not, ◌&&◌, refl, none, some, List, [], ◌∷◌, ◌++◌, length,
  ltb, le→ltb-false, if◌then◌else◌, arith,
}
use scg_seshat.Prelude.Samples.{whole}
use scg_seshat.Prelude.Loop.{Returns, returned}
use scg_seshat.Config.Schema.{Interface, Pattern, Sender}
use scg_seshat.Workload.SendLag.{SendLag}
use scg_seshat.Wire.Header.{stamp_at}
use scg_seshat.Wire.Message.RoundTrip.{message_bytes}
use scg_seshat.Transport.{DuplexEnd, Received, message, sent, nothing}
use scg_seshat.Transport.Contract.{SinkContract, SourceContract}
use scg_seshat.Transport.Shm.{ShmSink, shm_sink}
use scg_seshat.Transport.Shm.Keeps.{shm_sink-SinkContract}
use scg_seshat.Transport.Shm.Source.{ShmSource, shm_source}
use scg_seshat.Transport.Shm.Delivers.{shm_source-SourceContract}
use scg_seshat.Transport.Samples.{
  Ring, ring, ring-ClientContract, receiving_ring, receiving_ring-ReceiverContract,
}
use scg_seshat.Prelude.Result.{Result, ok, WhenOk}
use scg_seshat.Prelude.Samples.{whole_math}
use scg_seshat.Metrics.Samples.{whole_math-TotalOrder, whole_math-RankLaws}
use scg_seshat.Metrics.Stats.{empty}
use scg_seshat.Metrics.Summary.{FlowSummary, no_integrity}
use scg_seshat.Run.Scenario.{RunMode, RunParams, RunStats}
use scg_seshat.Run.Scenario.Modes.{Runner, repeat, run_scenario_connrate, run_in, run_scenario}
use scg_seshat.Run.Scenario.Aggregates.{Reports, run_scenario-Reports}
use scg_seshat.Run.Connrate.{ConnFactory, connrate_client_loop}
use scg_seshat.Run.Connrate.Counts.{
  counted_one, handshakes, CountsAll, connrate_client_loop-CountsAll,
}
use scg_seshat.Run.Calibrate.{CpuSignals, host_saturated, harness_io, for_signals}
use scg_seshat.Run.Calibrate.Verdicts.{gateway_busy, has_margin, for_signals-harness_limited}
use scg_seshat.Run.Saturation.{
  SweepPlan, SweepResult, sustained_at, point_params, point_count, rate_at, point_of,
  measure_points, better, best, knee_from, knee, knee_values, derive, sweep_saturation,
}
use scg_seshat.Run.Saturation.Knee.{IsSweep, sweep_saturation-IsSweep}
use scg_seshat.Run.{Phase, World, EndsBy, Readable}
use scg_seshat.Run.Sender.{sender_loop}
use scg_seshat.Run.Sender.Whole.{Gapless, sender_loop_returns}
use scg_seshat.Run.Receiver.{receiver_loop}
use scg_seshat.Run.Receiver.Carries.{numbers, Carries}
use scg_seshat.Run.Receiver.Clean.{Accounted}
use scg_seshat.Run.Receiver.Returns.{receiver_loop_returns}
use scg_seshat.Run.EndToEnd.{channel-Accounted}
use scg_seshat.Run.PingPong.{pingpong_client_loop}
use scg_seshat.Run.PingPong.Halts.{Bounded, Fits, Trips, pingpong_client_loop_halts}

-- The run is measured up to reading 40, and the clock stands.
abbrev world : World
world = record { phase = λ t. if ltb t 40 then Phase.measure else Phase.done; clock = λ t. 1000 }

world-EndsBy : EndsBy world 40
world-EndsBy t h = rw (le→ltb-false t 40 h) refl

world-Readable : Readable world
world-Readable t = omega arith

abbrev blast : Sender ℕ
blast = record {
  interface = Interface.shm;
  pattern = Pattern.sustained;
  interval_us = none;
  rate_limit_mbps = none;
  burst_count = none;
  burst_pause_us = none;
  ramp_start_mbps = none;
  ramp_step_mbps = none;
  ramp_step_interval_secs = none;
  target_addr = "";
}

abbrev sink : ShmSink Ring
sink = record { client = ([], []); traffic_id = 7; pending_len = none }

abbrev log : ShmSink Ring → List (List ℕ)
log s = s.client.0

sink_contract : SinkContract (shm_sink ring) log
sink_contract = shm_sink-SinkContract ring (λ c. c.0) ring-ClientContract

abbrev left : ShmSource (List (List ℕ)) → List (List ℕ)
left s = s.client

source_contract : SourceContract (shm_source receiving_ring) left
source_contract = shm_source-SourceContract receiving_ring (λ q. q) receiving_ring-ReceiverContract

sender_loop_returns_example :
    Returns (Gapless log 64) (sender_loop (shm_sink ring) world whole 41 blast 64 sink)
sender_loop_returns_example =
    sender_loop_returns whole (shm_sink ring) world log sink_contract world-Readable 40 41 blast 64
      sink world-EndsBy (omega arith) refl (omega arith)

-- What the sender ends with.
end_state :
    (r : SendLag × ShmSink Ring) × (sender_loop (shm_sink ring) world whole 41 blast 64 sink
      ≡ returned r)
end_state =
    let (r, is, gapless) =
      sender_loop_returns whole (shm_sink ring) world log sink_contract world-Readable 40 41 blast
        64 sink world-EndsBy (omega arith) refl (omega arith) in
    (r, is)

abbrev source : ShmSource (List (List ℕ))
source = record { client = log end_state.0.1; timeout_ms = 100 }

channel-Accounted_example :
    Returns
      (Accounted left 40 (numbers 0 (length (log end_state.0.1))))
      (receiver_loop whole (shm_source receiving_ring) world (length (left source) + 41) 64 source)
channel-Accounted_example =
    channel-Accounted whole (shm_sink ring) (shm_source receiving_ring) log left sink_contract
      source_contract world world 40 41 (length (left source) + 41) blast 64 sink end_state.0 source
      world-EndsBy world-EndsBy world-Readable (omega arith) (omega arith) refl (omega arith)
      end_state.1 refl (omega arith)

-- One message, number 5.
abbrev one_left : ShmSource (List (List ℕ))
one_left = record { client = message_bytes (stamp_at 5 40 1000) ∷ []; timeout_ms = 100 }

receiver_loop_returns_example :
    Returns
      (Accounted left 40 (5 ∷ []))
      (receiver_loop whole (shm_source receiving_ring) world 42 64 one_left)
unfolding Carries
receiver_loop_returns_example =
    receiver_loop_returns whole (shm_source receiving_ring) world left source_contract 40
      (omega arith) (5 ∷ []) 40 42 one_left world-EndsBy
      (omega arith, (1000, omega arith, refl), tt) (omega arith)

-- A peer that answers each message with its echo, and the messages on their way.
unfoldable echo_back : List (List ℕ) → List ℕ → Received × List ℕ × List (List ℕ)
echo_back [] buf = (nothing, buf, [])
echo_back (m ∷ ms) buf = (message (length m), m, ms)

abbrev echoing : DuplexEnd (List (List ℕ))
echoing = record {
  send_msg = λ s m. (sent, s ++ m ∷ []);
  recv_msg = λ s buf. echo_back s buf;
  close = λ s. s;
}

echo_back-Fits :
    (s : List (List ℕ)) (buf : List ℕ) → let r = echo_back s buf in Fits (length r.1) r.0
unfolding Fits echo_back
echo_back-Fits [] buf = tt
echo_back-Fits (m ∷ ms) buf = omega arith

echoing-Bounded : Bounded echoing
echoing-Bounded = record { fits = λ s buf. echo_back-Fits s buf }

pingpong_client_loop_halts_example :
    Returns Trips (pingpong_client_loop whole echoing world 41 64 [])
pingpong_client_loop_halts_example =
    pingpong_client_loop_halts whole echoing world echoing-Bounded 40 world-EndsBy 41 64 []
      (omega arith) (omega arith)

-- The first attempts fail, and then a handshake takes the longer the more there were.
abbrev connector : ConnFactory ℕ
connector = record { connect_once = λ n. (if ltb n 6 then none else some (1000 * n), n + 1) }

seven_made :
    handshakes connector world 10 3 0 ≡ 6000 ∷ 7000 ∷ 8000 ∷ 9000 ∷ 10000 ∷ 11000 ∷ 12000 ∷ []
unfolding handshakes counted_one
seven_made = refl

connrate_client_loop-CountsAll_example :
    Returns (CountsAll whole connector world 3) (connrate_client_loop whole connector world 41 3)
connrate_client_loop-CountsAll_example =
    connrate_client_loop-CountsAll whole connector world 3 40 world-EndsBy 41 (omega arith)

abbrev run_params : RunParams ℕ
run_params = record {
  message_bytes = 64;
  connections = 1;
  runs = 3;
  warmup = 40000000;
  measure = 120000000;
  cooldown = 20000000;
  remove_outliers = true;
  sender_cores = [];
  receiver_cores = [];
  sender = blast;
  mode = RunMode.connrate;
}

-- Above 300 the channel loses a tenth.
abbrev summary : ℕ → ℕ → FlowSummary ℕ
summary rate goodput = record {
  messages = 9;
  bytes = 900;
  duration_s = 1;
  throughput_gbps = goodput;
  message_rate = 9;
  latency_us = empty whole_math;
  jitter_us = 0;
  integrity = no_integrity;
  integrity_failures = 0;
  boundary_violations = 0;
  loss_pct = if ltb 300 rate then 10 else 0;
  outliers_removed = 0;
}

abbrev rate_of : Sender ℕ → ℕ
rate_of s = elim s.rate_limit_mbps [ none ↦ 0 | some r ↦ r ]

abbrev run_at : RunParams ℕ → ℕ → Result ℕ (FlowSummary ℕ × ℕ)
run_at params w = ok (summary (rate_of params.sender) w, w + 1)

abbrev plan : SweepPlan ℕ
plan = record { start_mbps = 100; step_mbps = 100; max_mbps = 450; loss_threshold_pct = 1 }

sweep_saturation-IsSweep_example :
    WhenOk
      (λ r. IsSweep whole_math whole_math-TotalOrder plan r.0)
      (sweep_saturation whole_math run_at run_params plan 5)
sweep_saturation-IsSweep_example =
    sweep_saturation-IsSweep whole_math whole_math-TotalOrder plan run_at run_params 5

-- The curve has four points, and the knee is the third.
sweep_ok :
    (r : SweepResult ℕ × ℕ) × (sweep_saturation whole_math run_at run_params plan 5 ≡ ok r)
    × (length r.0.points ≡ 4)
    × (r.0.knee_offered_mbps ≡ 300)
unfolding sweep_saturation measure_points point_count rate_at point_of sustained_at point_params
    derive knee knee_from best better knee_values
sweep_ok = (_, refl, refl, refl)

abbrev signals : CpuSignals ℕ
signals = record {
  gw_pool_pct_p95 = 40;
  gw_pool_cores = 4;
  gw_hot_thread_pct_p95 = 20;
  host_busy_frac_p95 = 95;
}

for_signals-harness_limited_example :
    let c = for_signals whole_math 5 4 (some signals) in
    (c.harness_limited
      ≡ (not (gateway_busy whole_math (some signals)) && not (has_margin whole_math 5 4)))
    × ((c.harness_limited ≡ true) ↔ ((c.bottleneck ≡ host_saturated) ⊎ (c.bottleneck ≡ harness_io)))
for_signals-harness_limited_example = for_signals-harness_limited whole_math 5 4 (some signals)

-- Each run takes the world on by two, of which one is the callback's.
abbrev runner : Runner ℕ ℕ ℕ
runner = record {
  run_once = λ w. ok ((summary 1 w, 3, record { count = 1; sum_ns = 5; max_ns = 5 }), w + 1);
  run_once_pingpong = λ w. ok ((summary 1 w, 3), w + 1);
  run_once_connrate = λ w. ok ((summary 1 w, 4, 2), w + 1);
  on_run = λ i r w. w + 1;
}

run_scenario-Reports_example :
    WhenOk
      (λ r. Reports whole_math 3 RunMode.connrate r.0)
      (run_scenario whole_math runner run_params 10)
run_scenario-Reports_example =
    run_scenario-Reports whole_math whole_math-TotalOrder whole_math-RankLaws runner run_params
      (omega arith) 10

-- The world goes on by two for each of the three runs.
scenario_ok :
    (o : Option (RunStats ℕ)) × (run_scenario whole_math runner run_params 10 ≡ ok (o, 16))
unfolding run_scenario run_in run_scenario_connrate repeat
scenario_ok = (_, refl)
