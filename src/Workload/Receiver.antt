-- ===== src/Workload/Receiver.antt =====
-- Reception: `ingest` of src/workload/receiver.rs, and the receive loop's step that calls it in
-- src/workload/streams.rs.
pub mod Pipeline
pub mod Tally
use scg_seshat.Prelude.{ℕ, ◌-◌, ◌+◌, Bool, List, length, take, not, ◌==◌, if◌then◌else◌}
use scg_seshat.Prelude.Float.{FloatOps}
use scg_seshat.Prelude.Result.{Result, ok, err}
use scg_seshat.Wire.Header.{WireError, WireHeader}
use scg_seshat.Wire.Message.{message_len, decode_message}
use scg_seshat.Metrics.Flow.{
  FlowMetrics, record_message, record_integrity_failure, record_boundary_violation,
}

module _ {F : Type 0} (fl : FloatOps F) where
  -- Records the message that was decoded; `recv_ns.saturating_sub(hdr.ts_ns)` is the latency.
  unfoldable pub ingest_decoded :
      Result WireError WireHeader → FlowMetrics F → ℕ → Result WireError WireHeader × FlowMetrics F
  ingest_decoded (err e) m recv_ns = (err e, m)
  ingest_decoded (ok hdr) m recv_ns =
      (ok hdr, record_message fl m hdr.seq (recv_ns - hdr.ts_ns) (message_len hdr.payload_len))

  unfoldable pub ingest : FlowMetrics F → List ℕ → ℕ → Result WireError WireHeader × FlowMetrics F
  ingest m buf recv_ns = ingest_decoded (decode_message buf) m recv_ns

  -- `now` is the reading of the monotonic clock.
  unfoldable pub ingest_now :
      FlowMetrics F → List ℕ → ℕ → Result WireError WireHeader × FlowMetrics F
  ingest_now m buf now = ingest m buf now

  -- `if receiver::ingest(..).is_err() { metrics.record_integrity_failure() }`
  unfoldable pub count_failure : Result WireError WireHeader × FlowMetrics F → FlowMetrics F
  count_failure (ok hdr, m) = m
  count_failure (err e, m) = record_integrity_failure m

  unfoldable pub count_boundary : ℕ → FlowMetrics F → List ℕ → FlowMetrics F
  count_boundary message_bytes m msg =
      if length msg == message_bytes then m else record_boundary_violation m

  -- What the receive loop does with the received bytes while it is measuring.
  unfoldable pub receive_measured : ℕ → FlowMetrics F → List ℕ → ℕ → FlowMetrics F
  receive_measured message_bytes m msg recv_ns =
      count_failure (ingest (count_boundary message_bytes m msg) msg recv_ns)
