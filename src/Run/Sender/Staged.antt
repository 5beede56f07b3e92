-- ===== src/Run/Sender/Staged.antt =====
-- The batched blast of `sender_loop` (src/run/engine.rs).
use mathlib.Core.Path.{subst}
use scg_seshat.Prelude.{
  ℕ, ◌+◌, ◌-◌, ◌%◌, ◌^◌, ◌≤◌, ◌<◌, ◌≡◌, ◌∙◌, true, List, [], length, leb, min, inl, inr, Bool-cases,
  le→leb, arith,
}
use scg_seshat.Prelude.Loop.{Round, Keeps, Returns, loop, loop_returns}
use scg_seshat.Workload.Builder.{BatchBuilder}
use scg_seshat.Workload.Builder.Messages.{
  BatchIsValid, batch_messages, length-batch_messages, build_batch_lem,
}
use scg_seshat.Workload.Builder.Numbered.{Numbered, Numbered-batch_messages}
use scg_seshat.Transport.{BatchOutcome, accepted, refused, DataSink, batch_abs_max}
use scg_seshat.Transport.Contract.{SendsBatch, SinkContract}
use scg_seshat.Run.{World, is_done, EndsBy, Readable}
use scg_seshat.Run.Sender.{Batched, send_built, batched_round}
use scg_seshat.Run.Sender.Progress.{Progress, Progress-HandsOver, Progress-start, before_end}

module _ {S : Type 0} (sink_ops : DataSink S) (w : World) (log : S → List (List ℕ))
    (contract : SinkContract sink_ops log) (readable : Readable w) (limit : ℕ)
    (ends : EndsBy w limit) (payload_len batch_size : ℕ) (room : batch_size ≤ batch_abs_max) where
  Staging : Batched S → Type 0
  Staging s =
      Progress log payload_len s.seq s.sink
      × BatchIsValid s.batch
      × (s.batch.payload_len ≡ payload_len)

  abbrev Sent : S → Type 0
  Sent s = (seq : ℕ) × Progress log payload_len seq s

  Sound : Batched S → Round (Batched S) S → Type 0
  Sound s = Keeps (λ s'. Staging s' × (limit - s'.at < limit - s.at)) Sent

  after_batch :
      (s : Batched S) (built : List (List ℕ)) (batch : BatchBuilder) (o : BatchOutcome) (sink : S)
      → Staging s
      → s.at < limit
      → Numbered payload_len (length (log s.sink)) built
      → BatchIsValid batch
      → batch.payload_len ≡ payload_len
      → SendsBatch log s.sink built o sink
      → Sound s (elim o [
        | accepted n ↦ Round.again (record {
          sink = sink;
          seq = (s.seq + n) % 2 ^ 64;
          at = s.at + 1 + length built;
          batch = batch;
        })
        | refused e ↦ Round.leave sink
      ])
  unfolding Staging Sound Keeps SendsBatch
  after_batch s built batch (accepted n) sink st early due valid same h = (
    (Progress-HandsOver log payload_len s.seq n s.sink sink built st.0 due h, valid, same),
    omega arith,
  )
  after_batch s built batch (refused e) sink st early due valid same (k, h) = (
    (s.seq + k) % 2 ^ 64,
    Progress-HandsOver log payload_len s.seq k s.sink sink built st.0 due h,
  )

  from_zero : (p n : ℕ) (ms : List (List ℕ)) → Numbered p (n + 0) ms → Numbered p n ms
  from_zero p n ms h = subst (λ k. Numbered p k ms) (omega arith) h

  staged_keeps : (s : Batched S) → Staging s → Sound s (batched_round sink_ops w batch_size s)
  unfolding batched_round Sound Keeps Staging send_built
  staged_keeps s st = elim (Bool-cases (is_done (w.phase s.at))) [
    | inl over ↦ rw over (s.seq, st.0)
    | inr on ↦
        let now : ℕ → ℕ = λ i. w.clock (s.at + 1 + i) in
        let n = min batch_size (length s.batch.bufs) in
        let built = batch_messages s.seq s.batch.payload_len now 0 n in
        let (batch, made, _, valid, same) = build_batch_lem s.batch s.seq batch_size now st.1 in
        let o = sink_ops.send_batch s.sink built in
        let few : leb (length built) batch_abs_max ≡ true =
          le→leb (length built) batch_abs_max
            (omega (arith, length-batch_messages s.seq s.batch.payload_len now 0 n)) in
        let due : Numbered payload_len (length (log s.sink)) built =
          subst (λ p. Numbered p (length (log s.sink)) built) st.2
            (from_zero s.batch.payload_len (length (log s.sink)) built (
              Numbered-batch_messages s.batch.payload_len (length (log s.sink)) s.seq now 0 n
                st.0.counted (λ j. readable (s.at + 1 + j)))) in
        rw (on, made, few)
          (unfold Sound in
            after_batch s built batch o.0 o.1 st (before_end w limit s.at ends on) due valid
              (same ∙ st.2) (contract.sends_batch s.sink built))
  ]

  -- The blast returns, and what it has sent is numbered without a gap.
  pub staged_returns :
      (fuel : ℕ) (s : S) (batch : BatchBuilder)
      → log s ≡ []
      → BatchIsValid batch
      → batch.payload_len ≡ payload_len
      → limit < fuel
      → Returns Sent (
          loop
            (batched_round sink_ops w batch_size)
            fuel
            (record { sink = s; seq = 0; at = 0; batch = batch }))
  unfolding Sound Staging
  staged_returns fuel s batch fresh valid same enough =
      loop_returns (batched_round sink_ops w batch_size) Staging Sent (λ t. limit - t.at)
        staged_keeps fuel (record { sink = s; seq = 0; at = 0; batch = batch })
        (Progress-start log payload_len s fresh, valid, same) (omega arith)
