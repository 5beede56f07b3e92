-- ===== src/Run/Receiver.antt =====
-- `receiver_loop` of src/run/engine.rs. The list's capacity, the pinning of the thread and the
-- check of the messages outside the measured time leave no trace.
pub mod Carries
pub mod Clean
pub mod Returns
use scg_seshat.Prelude.{
  ℕ, zero, suc, ◌+◌, ◌*◌, Bool, ◌&&◌, Option, none, some, List, [], ◌∷◌, replicate, get_elem?,
  get_range, leb, if◌then◌else◌,
}
use scg_seshat.Prelude.Partial.{◌>>=◌}
use scg_seshat.Prelude.Float.{FloatOps}
use scg_seshat.Prelude.Loop.{Round, again, leave, panic, Exit, returned, panicked, unfinished, loop}
use scg_seshat.Metrics.Flow as Flow
use scg_seshat.Metrics.Flow.{FlowMetrics}
use scg_seshat.Workload.Receiver.{receive_measured}
use scg_seshat.Transport.{
  BatchReceived, messages, timeout, closed, broken, DataSource, batch_abs_max, clamp,
}
use scg_seshat.Run.{World, is_done, is_measuring}

abbrev pub zc_recv_min : ℕ
zc_recv_min = 512 * 1024

pub record Receiving (F S : Type 0) : Type 0 where
  pub source : S
  pub metrics : FlowMetrics F
  pub buf : List ℕ
  pub lens : List ℕ
  pub at : ℕ

module _ {F S : Type 0} (fl : FloatOps F) (source_ops : DataSource S) (w : World) (stride : ℕ) where
  -- One message: recorded while the run is measuring.
  unfoldable pub take_in : Bool → ℕ → FlowMetrics F → List ℕ → FlowMetrics F
  take_in measuring recv_ns m msg =
      if measuring then receive_measured fl stride m msg recv_ns else m

  -- The closure `ingest_one`, on the payloads one after the other.
  unfoldable pub ingest_each : ℕ → FlowMetrics F → List (List ℕ) → ℕ × FlowMetrics F
  ingest_each at m [] = (at, m)
  ingest_each at m (msg ∷ msgs) =
      ingest_each (at + 2) (take_in (is_measuring (w.phase (at + 1))) (w.clock at) m msg) msgs

  -- The `for` loop over the slots, `count` of them from number `i` on.
  unfoldable pub ingest_slots :
      Bool → ℕ → List ℕ → List ℕ → ℕ → ℕ → FlowMetrics F → Option (FlowMetrics F)
  ingest_slots measuring recv_ns buf lens zero i m = some m
  ingest_slots measuring recv_ns buf lens (suc count) i m = do
    len ← get_elem? lens i
    msg ← get_range (i * stride) (i * stride + len) buf
    ingest_slots measuring recv_ns buf lens count (i + 1) (take_in measuring recv_ns m msg)

  -- What the loops do when no message came.
  unfoldable pub when_idle :
      Receiving F S → BatchReceived → Round (Receiving F S) (FlowMetrics F × S)
  when_idle s timeout =
      if is_done (w.phase s.at)
      then leave (s.metrics, s.source)
      else again (record s { at = s.at + 1 })
  when_idle s _ = leave (s.metrics, s.source)

  unfoldable pub after_outcome :
      Receiving F S → BatchReceived → Round (Receiving F S) (FlowMetrics F × S)
  after_outcome s (messages n) = again s
  after_outcome s o = when_idle s o

  unfoldable pub after_inplace :
      Receiving F S → BatchReceived × List (List ℕ) × S → Round (Receiving F S) (FlowMetrics F × S)
  after_inplace s (o, msgs, source) =
      let (at, metrics) = ingest_each s.at s.metrics msgs in
      after_outcome (record s { source = source; metrics = metrics; at = at }) o

  unfoldable pub inplace_round : ℕ → Receiving F S → Round (Receiving F S) (FlowMetrics F × S)
  inplace_round batch s = after_inplace s (source_ops.recv_inplace s.source batch)

  -- The loop goes on with the metrics, unless an index was out of range.
  unfoldable pub go_on :
      Receiving F S → Option (FlowMetrics F) → Round (Receiving F S) (FlowMetrics F × S)
  go_on s none = panic
  go_on s (some metrics) = again (record s { metrics = metrics; at = s.at + 2 })

  unfoldable pub after_batch :
      Receiving F S → BatchReceived → Round (Receiving F S) (FlowMetrics F × S)
  after_batch s (messages count) = go_on s (
      ingest_slots (is_measuring (w.phase (s.at + 1))) (w.clock s.at) s.buf s.lens count 0
        s.metrics)
  after_batch s o = when_idle s o

  unfoldable pub batch_round : ℕ → Receiving F S → Round (Receiving F S) (FlowMetrics F × S)
  batch_round batch s =
      let (o, buf, lens, source) = source_ops.recv_batch s.source s.buf stride batch s.lens in
      after_batch (record s { source = source; buf = buf; lens = lens }) o

  -- `source.close()` at the end.
  unfoldable pub close_source : Exit (FlowMetrics F × S) → Exit (FlowMetrics F × S)
  close_source (returned (m, source)) = returned (m, source_ops.close source)
  close_source panicked = panicked
  close_source unfinished = unfinished

-- The metrics that the worker ends with, and the source; `fuel` bounds the rounds.
unfoldable pub receiver_loop :
    {F S : Type 0} → FloatOps F → DataSource S → World → ℕ → ℕ → S → Exit (FlowMetrics F × S)
receiver_loop fl source_ops w fuel message_bytes source =
    let batch = clamp (source_ops.preferred_batch source message_bytes) 1 batch_abs_max in
    let zero_copy = source_ops.supports_inplace_recv source && leb zc_recv_min message_bytes in
    if zero_copy
    then close_source fl source_ops w message_bytes (
        loop (inplace_round fl source_ops w message_bytes batch) fuel
          (record { source = source; metrics = Flow.new fl; buf = []; lens = []; at = 0 }))
    else close_source fl source_ops w message_bytes (
        loop (batch_round fl source_ops w message_bytes batch) fuel (record {
          source = source;
          metrics = Flow.new fl;
          buf = replicate (message_bytes * batch) 0;
          lens = replicate batch 0;
          at = 0;
        }))
