-- ===== src/Run/Scenario/Aggregates.antt =====
-- What `run_scenario` of src/run/engine.rs reports of its runs.
use mathlib.Core.List.{foldl}
use scg_seshat.Prelude.{
  ℕ, zero, suc, ◌+◌, ◌%◌, ◌^◌, ◌<◌, ◌≡◌, refl, ap, ◌∙◌, max, Bool, Option, none, some, List, [],
  ◌∷◌, map, length, arith,
}
use scg_seshat.Prelude.Float.{FloatMath}
use scg_seshat.Prelude.Result.{Result, ok, err, WhenOk, WhenOk-bind}
use scg_seshat.Workload.SendLag.{SendLag}
use scg_seshat.Metrics.Stats.{Summary, summarize}
use scg_seshat.Metrics.Stats.Sorting.{TotalOrder}
use scg_seshat.Metrics.Stats.Ranks.{RankLaws}
use scg_seshat.Metrics.Summary.{FlowSummary}
use scg_seshat.Metrics.Summary.Conserved.{summarize_counts}
use scg_seshat.Run.Scenario.{
  RunMode, RunParams, RunStats, RttSummary, ConnSummary, sum_of, throughputs, means, medians, p99s,
  throughput_of, ping_pong_of, connrate_of, throughput_stats, ping_pong_stats, connrate_stats,
}
use scg_seshat.Run.Scenario.Modes.{
  Runner, repeat, run_scenario_throughput, run_scenario_pingpong, run_scenario_connrate, run_in,
  run_scenario,
}

length-map : {A B : Type 0} (f : A → B) (xs : List A) → length (map f xs) ≡ length xs
length-map f [] = refl
length-map f (x ∷ xs) = ap suc (length-map f xs)

anything : {E A : Type 0} (r : Result E A) → WhenOk (λ a. Unit) r
unfolding WhenOk
anything (ok a) = tt
anything (err e) = tt

module _ {F : Type 0} (fm : FloatMath F) where
  pub sum_runs : (FlowSummary F → ℕ) → List (FlowSummary F) → ℕ
  sum_runs f [] = 0
  sum_runs f (r ∷ rs) = f r + sum_runs f rs

  -- What is common to the modes, and what each has of its own.
  unfoldable pub OfMode : RunMode → RunStats F → Type 0
  OfMode RunMode.throughput s =
      (s.rtt ≡ none)
      × (s.conn ≡ none)
      × (s.total_lost ≡ sum_runs (λ r. r.integrity.lost) s.runs % 2 ^ 64)
  OfMode RunMode.ping_pong s =
      (s.conn ≡ none)
      × (s.total_lost ≡ 0)
      × (t : RttSummary F) × (s.rtt ≡ some t)
      × (t.samples ≡ sum_runs (λ r. r.messages) s.runs % 2 ^ 64)
  OfMode RunMode.connrate s =
      (s.rtt ≡ none)
      × (s.total_lost ≡ 0)
      × (c : ConnSummary F) × (s.conn ≡ some c)
      × (c.total_conns ≡ sum_runs (λ r. r.messages) s.runs % 2 ^ 64)

  pub record Aggregates (count : ℕ) (mode : RunMode) (s : RunStats F) : Type 0 where
    pub in_mode : s.mode ≡ mode
    pub all_runs : length s.runs ≡ count
    pub throughput_n : s.throughput_gbps.n ≡ count
    pub latency_n : s.latency_mean_us.n ≡ count
    pub p99_n : s.latency_p99_us.n ≡ count
    pub handshake_n : s.handshake_us.n ≡ count
    pub of_mode : OfMode mode s

  -- There is a report of all the runs.
  abbrev pub Reports : ℕ → RunMode → Option (RunStats F) → Type 0
  Reports count mode o = (s : RunStats F) × (o ≡ some s) × Aggregates count mode s

  sum_of_from :
      (f : FlowSummary F → ℕ) (n : ℕ) (rs : List (FlowSummary F))
      → n < 2 ^ 64
      → foldl (λ m r. (m + f r) % 2 ^ 64) n rs ≡ (n + sum_runs f rs) % 2 ^ 64
  unfolding sum_runs
  sum_of_from f n [] small = omega arith
  sum_of_from f n (r ∷ rs) small =
      omega (arith, sum_of_from f ((n + f r) % 2 ^ 64) rs (omega arith))

  sum_of_lem :
      (f : FlowSummary F → ℕ) (rs : List (FlowSummary F)) → sum_of f rs ≡ sum_runs f rs % 2 ^ 64
  unfolding sum_of
  sum_of_lem f rs = omega (arith, sum_of_from f 0 rs (omega arith))

  module _ (order : TotalOrder fm) (laws : RankLaws fm) where
    -- A figure of each run has a summary.
    figure :
        (f : FlowSummary F → F) (rs : List (FlowSummary F)) (count : ℕ)
        → length rs ≡ count
        → count < 2 ^ 53
        → (s : Summary F) × (summarize fm (map f rs) ≡ some s) × (s.n ≡ count)
    figure f rs count size small =
        let (s, e, n) =
          summarize_counts fm (map f rs) order laws (omega (arith, length-map f rs, size)) in
        (s, e, omega (arith, n, length-map f rs, size))

    throughput_stats-Aggregates :
        (b : Bool) (rs : List (FlowSummary F)) (hs : List F) (lag : SendLag) (count : ℕ)
        → length rs ≡ count
        → length hs ≡ count
        → count < 2 ^ 53
        → (s : RunStats F) × (throughput_stats fm b rs hs lag ≡ some s)
          × Aggregates count RunMode.throughput s
    unfolding throughput_stats throughput_of throughputs means p99s OfMode
    throughput_stats-Aggregates b rs hs lag count size size' small =
        let (t, et, nt) = figure (λ r. r.throughput_gbps) rs count size small in
        let (l, el, nl) = figure (λ r. r.latency_us.mean) rs count size small in
        let (p, ep, np) = figure (λ r. r.latency_us.p99) rs count size small in
        let (h, eh, nh) = summarize_counts fm hs order laws (omega (arith, size')) in
        (
          throughput_of fm b rs lag t l p h,
          rw (et, el, ep, eh) refl,
          record {
            in_mode = refl;
            all_runs = size;
            throughput_n = nt;
            latency_n = nl;
            p99_n = np;
            handshake_n = nh ∙ size';
            of_mode = (refl, refl, sum_of_lem (λ r. r.integrity.lost) rs);
          },
        )

    ping_pong_stats-Aggregates :
        (rs : List (FlowSummary F)) (hs : List F) (count : ℕ)
        → length rs ≡ count
        → length hs ≡ count
        → count < 2 ^ 53
        → (s : RunStats F) × (ping_pong_stats fm rs hs ≡ some s)
          × Aggregates count RunMode.ping_pong s
    unfolding ping_pong_stats ping_pong_of throughputs means medians p99s OfMode
    ping_pong_stats-Aggregates rs hs count size size' small =
        let (t, et, nt) = figure (λ r. r.throughput_gbps) rs count size small in
        let (l, el, nl) = figure (λ r. r.latency_us.mean) rs count size small in
        let (m, em, nm) = figure (λ r. r.latency_us.p50) rs count size small in
        let (p, ep, np) = figure (λ r. r.latency_us.p99) rs count size small in
        let (h, eh, nh) = summarize_counts fm hs order laws (omega (arith, size')) in
        (
          ping_pong_of fm rs l m p t h,
          rw (el, em, ep, et, eh) refl,
          record {
            in_mode = refl;
            all_runs = size;
            throughput_n = nt;
            latency_n = nl;
            p99_n = np;
            handshake_n = nh ∙ size';
            of_mode = (refl, refl, _, refl, sum_of_lem (λ r. r.messages) rs);
          },
        )

    connrate_stats-Aggregates :
        (rs : List (FlowSummary F)) (first later : List F) (count : ℕ)
        → length rs ≡ count
        → count < 2 ^ 53
        → (s : RunStats F) × (connrate_stats fm rs first later ≡ some s)
          × Aggregates count RunMode.connrate s
    unfolding connrate_stats connrate_of throughputs means medians p99s OfMode
    connrate_stats-Aggregates rs first later count size small =
        let (r, er, nr) = figure (λ a. a.message_rate) rs count size small in
        let (t, et, nt) = figure (λ a. a.throughput_gbps) rs count size small in
        let (l, el, nl) = figure (λ a. a.latency_us.mean) rs count size small in
        let (m, em, nm) = figure (λ a. a.latency_us.p50) rs count size small in
        let (p, ep, np) = figure (λ a. a.latency_us.p99) rs count size small in
        (
          connrate_of fm rs first later r l m p t,
          rw (er, el, em, ep, et) refl,
          record {
            in_mode = refl;
            all_runs = size;
            throughput_n = nt;
            latency_n = nl;
            p99_n = np;
            handshake_n = nl;
            of_mode = (refl, refl, _, refl, sum_of_lem (λ a. a.messages) rs);
          },
        )

    module _ {E W : Type 0} where
      length-repeat :
          {A : Type 0} (on_run : ℕ → FlowSummary F → W → W) (summary : A → FlowSummary F)
          (run : W → Result E (A × W)) (count i : ℕ) (w : W)
          → WhenOk (λ r. length r.0 ≡ count) (repeat on_run summary run count i w)
      unfolding repeat WhenOk
      length-repeat on_run summary run zero i w = refl
      length-repeat on_run summary run (suc count) i w =
          WhenOk-bind (λ r. Unit) _ (run w) _ (anything _)
            (λ r u.
              WhenOk-bind (λ t. length t.0 ≡ count) _
                (repeat on_run summary run count (i + 1) (on_run i (summary r.0) r.1)) _
                (length-repeat on_run summary run count (i + 1) (on_run i (summary r.0) r.1))
                (λ t e. ap suc e))

      module _ (ops : Runner F E W) (params : RunParams F)
          (small : max params.runs 1 < 2 ^ 53) where
        run_in-Reports :
            (mode : RunMode) (w : W)
            → WhenOk (λ r. Reports (max params.runs 1) mode r.0) (run_in fm ops params mode w)
        unfolding run_in run_scenario_throughput run_scenario_pingpong run_scenario_connrate WhenOk
        run_in-Reports RunMode.throughput w =
            WhenOk-bind (λ t. length t.0 ≡ max params.runs 1) _ _ _
              (length-repeat ops.on_run (λ a. a.0) ops.run_once (max params.runs 1) 0 w)
              (λ t e.
                throughput_stats-Aggregates _ _ _ _ (max params.runs 1) (length-map _ t.0 ∙ e)
                  (length-map _ t.0 ∙ e) small)
        run_in-Reports RunMode.ping_pong w =
            WhenOk-bind (λ t. length t.0 ≡ max params.runs 1) _ _ _
              (length-repeat ops.on_run (λ a. a.0) ops.run_once_pingpong (max params.runs 1) 0 w)
              (λ t e.
                ping_pong_stats-Aggregates _ _ (max params.runs 1) (length-map _ t.0 ∙ e)
                  (length-map _ t.0 ∙ e) small)
        run_in-Reports RunMode.connrate w =
            WhenOk-bind (λ t. length t.0 ≡ max params.runs 1) _ _ _
              (length-repeat ops.on_run (λ a. a.0) ops.run_once_connrate (max params.runs 1) 0 w)
              (λ t e.
                connrate_stats-Aggregates _ _ _ (max params.runs 1) (length-map _ t.0 ∙ e) small)

        -- Where numbers below 2 ^ 53 are exact, rounding is monotone, `total_cmp` orders totally
        -- and fewer than 2 ^ 53 runs are asked for: a scenario none of whose runs fails is
        -- reported without a panic. The report is of the mode asked for and has one run for each
        -- asked for, and at least one; throughput, latency, its 99th percentile and the handshake
        -- are summaries of that many figures. In the throughput mode the lost messages are the sum
        -- over the runs, wrapping, and there is neither a round-trip nor a connection summary; in
        -- the other two no message is lost, and only the summary of the mode is there, with the
        -- sum of the runs' messages, wrapping.
        pub run_scenario-Reports :
            (w : W)
            → WhenOk
                (λ r. Reports (max params.runs 1) params.mode r.0)
                (run_scenario fm ops params w)
        unfolding run_scenario
        run_scenario-Reports w = run_in-Reports params.mode w
