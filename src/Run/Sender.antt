-- ===== src/Run/Sender.antt =====
-- `sender_loop` of src/run/engine.rs: the zero-copy blast, the batched blast and the paced sender.
-- A reading of the flag or the clock takes place at the state's `at`; yielding, sleeping and pinning
-- the thread leave no trace.
pub mod Progress
pub mod Slots
pub mod Whole
pub mod Scheduled
pub mod Staged
use scg_seshat.Prelude.{
  ℕ, zero, suc, ◌+◌, ◌-◌, ◌%◌, ◌^◌, Bool, true, false, Option, none, some, List, length, ltb, leb,
  if◌then◌else◌,
}
use scg_seshat.Prelude.Float.{FloatOps}
use scg_seshat.Prelude.Loop.{Round, again, leave, panic, Exit, returned, panicked, unfinished, loop}
use scg_seshat.Config.Schema as Schema
use scg_seshat.Workload.Builder.{
  MessageBuilder, new, build_at, build_into, message_len_of, BatchBuilder, new_batch, build_batch,
}
use scg_seshat.Workload.Pacer.{Pacer, from_sender, next_deadline_ns, is_blast}
use scg_seshat.Workload.SendLag.{SendLag, no_lag, record_lag}
use scg_seshat.Transport.{
  SendOutcome, sent, would_block, failed, BatchOutcome, accepted, refused, DataSink, batch_abs_max,
  clamp,
}
use scg_seshat.Run.{World, is_done, is_measuring}

-- A blast: what is left to send is numbered from `seq` on.
pub record Blast (S : Type 0) : Type 0 where
  pub sink : S
  pub seq : ℕ
  pub at : ℕ

pub record Batched (S : Type 0) : Type 0 where
  pub sink : S
  pub seq : ℕ
  pub at : ℕ
  pub batch : BatchBuilder

pub record Paced (F S : Type 0) : Type 0 where
  pub sink : S
  pub seq : ℕ
  pub at : ℕ
  pub builder : MessageBuilder
  pub pacer : Pacer F
  pub lag : SendLag

module _ {S : Type 0} (sink_ops : DataSink S) (w : World) where
  -- The commit of a slot that was written, and whether the message counts as sent.
  unfoldable pub commit_built : S → ℕ → Option (ℕ × List ℕ) → Option (Bool × S × ℕ)
  commit_built sink at none = none
  commit_built sink at (some (n, slot)) =
      let (o, sink') = sink_ops.commit_batched (sink_ops.write_slot sink slot) in
      some (elim o [ sent ↦ true | _ ↦ false ], sink', at + 1)

  -- One round of the `for` loop, on what `reserve` lends.
  unfoldable pub fill_slot : MessageBuilder → ℕ → ℕ → Option (List ℕ) × S → Option (Bool × S × ℕ)
  fill_slot b seq at (none, sink) = some (false, sink, at)
  fill_slot b seq at (some slot, sink) = commit_built sink at (build_into b seq (w.clock at) slot)

  -- The `for` loop of the zero-copy blast, `count` slots of it, with `i` messages sent.
  unfoldable pub fill_slots : MessageBuilder → ℕ → ℕ → ℕ → S → ℕ → Option (ℕ × S × ℕ)
  fill_slots b seq zero i sink at = some (i, sink, at)
  fill_slots b seq (suc count) i sink at =
      elim (fill_slot b ((seq + i) % 2 ^ 64) at (sink_ops.reserve sink (message_len_of b))) [
        | none ↦ none
        | some (filled, sink', at') ↦ elim filled [
          | true ↦ fill_slots b seq count (i + 1) sink' at'
          | false ↦ some (i, sink', at')
        ]
      ]

  -- Behind the `for` loop: the gateway is woken if anything was sent.
  unfoldable pub after_slots : ℕ → Option (ℕ × S × ℕ) → Round (Blast S) S
  after_slots seq none = panic
  after_slots seq (some (n, sink, at)) =
      if ltb 0 n
      then (let (flushed, sink') = sink_ops.flush_batch sink in
          if flushed
          then again (record { sink = sink'; seq = (seq + n) % 2 ^ 64; at = at })
          else leave sink')
      else again (record { sink = sink; seq = seq; at = at })

  unfoldable pub blast_round : MessageBuilder → ℕ → Blast S → Round (Blast S) S
  blast_round b batch_size s =
      if is_done (w.phase s.at)
      then leave s.sink
      else after_slots s.seq (fill_slots b s.seq batch_size 0 s.sink (s.at + 1))

  -- The slices of a batch fill an array of `BATCH_ABS_MAX`.
  unfoldable pub send_built :
      Batched S → Option (List (List ℕ) × BatchBuilder) → Round (Batched S) S
  send_built s none = panic
  send_built s (some (built, batch)) =
      let (o, sink) = sink_ops.send_batch s.sink built in
      let at = s.at + 1 + length built in
      if leb (length built) batch_abs_max
      then elim o [
        | accepted n ↦
            again (record { sink = sink; seq = (s.seq + n) % 2 ^ 64; at = at; batch = batch })
        | refused e ↦ leave sink
      ]
      else panic

  unfoldable pub batched_round : ℕ → Batched S → Round (Batched S) S
  batched_round batch_size s =
      if is_done (w.phase s.at)
      then leave s.sink
      else send_built s (build_batch s.batch s.seq batch_size (λ i. w.clock (s.at + 1 + i)))

  -- The message is built and sent: straight in a slot that the sink lends, or else through the
  -- builder's buffer.
  unfoldable pub commit_paced :
      MessageBuilder → S → Option (ℕ × List ℕ) → Option (SendOutcome × MessageBuilder × S)
  commit_paced b sink none = none
  commit_paced b sink (some (n, slot)) =
      let (o, sink') = sink_ops.commit_reserved (sink_ops.write_slot sink slot) in
      some (o, b, sink')

  unfoldable pub send_copy :
      S → Option (List ℕ × MessageBuilder) → Option (SendOutcome × MessageBuilder × S)
  send_copy sink none = none
  send_copy sink (some (msg, b)) = let (o, sink') = sink_ops.send_msg sink msg in some (o, b, sink')

  unfoldable pub send_one :
      MessageBuilder → ℕ → ℕ → Option (List ℕ) × S → Option (SendOutcome × MessageBuilder × S)
  send_one b seq deadline (some slot, sink) = commit_paced b sink (build_into b seq deadline slot)
  send_one b seq deadline (none, sink) = send_copy sink (build_at b seq deadline)

  module _ {F : Type 0} (fl : FloatOps F) where
    -- What the outcome does to the state, whose pacer is the one after the deadline.
    unfoldable pub after_one :
        Paced F S
        → Bool
        → ℕ
        → Option (SendOutcome × MessageBuilder × S)
        → Round (Paced F S) (SendLag × S)
    after_one s measuring late none = panic
    after_one s measuring late (some (sent, b, sink)) = again (record s {
      sink = sink;
      builder = b;
      seq = (s.seq + 1) % 2 ^ 64;
      lag = if measuring then record_lag s.lag late else s.lag;
    })
    after_one s measuring late (some (would_block, b, sink)) =
        again (record s { sink = sink; builder = b })
    after_one s measuring late (some (failed, b, sink)) = leave (s.lag, sink)

    unfoldable pub paced_round : ℕ → Paced F S → Round (Paced F S) (SendLag × S)
    paced_round start s =
        let (due, pacer) = next_deadline_ns fl s.pacer in
        let deadline = (start + due) % 2 ^ 64 in
        let woke = w.clock (s.at + 1) in
        if is_done (w.phase s.at)
        then leave (s.lag, s.sink)
        else if is_done (w.phase (s.at + 2))
        then leave (s.lag, s.sink)
        else after_one (record s { at = s.at + 4; pacer = pacer })
            (is_measuring (w.phase (s.at + 3))) (woke - deadline)
            (send_one s.builder s.seq deadline (sink_ops.reserve s.sink (message_len_of s.builder)))

    -- `sink.close()` at the end of the worker.
    unfoldable pub close_sink : Exit S → Exit (SendLag × S)
    close_sink (returned sink) = returned (no_lag, sink_ops.close sink)
    close_sink panicked = panicked
    close_sink unfinished = unfinished

    unfoldable pub close_paced : Exit (SendLag × S) → Exit (SendLag × S)
    close_paced (returned (lag, sink)) = returned (lag, sink_ops.close sink)
    close_paced panicked = panicked
    close_paced unfinished = unfinished

    -- The sink and the lag that the worker ends with; `fuel` bounds the rounds.
    unfoldable pub sender_loop : ℕ → Schema.Sender F → ℕ → S → Exit (SendLag × S)
    sender_loop fuel spec message_bytes sink =
        let pacer = from_sender fl spec message_bytes in
        let batch_size = clamp (sink_ops.preferred_batch sink message_bytes) 1 batch_abs_max in
        if is_blast pacer
        then (if sink_ops.supports_inplace sink
            then close_sink (
                loop (blast_round (new message_bytes) batch_size) fuel
                  (record { sink = sink; seq = 0; at = 0 }))
            else close_sink (
                loop (batched_round batch_size) fuel (record {
                  sink = sink;
                  seq = 0;
                  at = 0;
                  batch = new_batch message_bytes batch_size;
                })))
        else close_paced (
            loop (paced_round (w.clock 0)) fuel (record {
              sink = sink;
              seq = 0;
              at = 1;
              builder = new message_bytes;
              pacer = pacer;
              lag = no_lag;
            }))
