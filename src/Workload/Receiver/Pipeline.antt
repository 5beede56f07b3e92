-- ===== src/Workload/Receiver/Pipeline.antt =====
-- From the builder to the accumulator (src/workload/sender.rs, receiver.rs, streams.rs).
use scg_seshat.Prelude.{
  ℕ, ◌-◌, ◌^◌, ◌<◌, ◌≡◌, refl, sym, ap, ◌∙◌, some, List, [], ==_refl, append-nil, arith,
}
use scg_seshat.Prelude.Float.{FloatOps}
use scg_seshat.Prelude.Result.{ok}
use scg_seshat.Wire.Header.{WireHeader, InRange, stamp_at}
use scg_seshat.Wire.Message.{message_len, decode_message}
use scg_seshat.Wire.Message.RoundTrip.{
  message_bytes, length-message_bytes, decode_message-message_bytes,
}
use scg_seshat.Metrics.Flow.{FlowMetrics, record_message}
use scg_seshat.Workload.Builder.{MessageBuilder, build_at}
use scg_seshat.Workload.Builder.Messages.{IsValid, build_at_lem}
use scg_seshat.Workload.Receiver.{
  ingest, ingest_decoded, count_failure, count_boundary, receive_measured,
}

module _ {F : Type 0} (fl : FloatOps F) where
  ingest-ok :
      (m : FlowMetrics F) (msg : List ℕ) (recv_ns : ℕ) (h : WireHeader)
      → decode_message msg ≡ ok h
      → ingest fl m msg recv_ns
        ≡ (ok h, record_message fl m h.seq (recv_ns - h.ts_ns) (message_len h.payload_len))
  unfolding ingest ingest_decoded
  ingest-ok m msg recv_ns h decoded = ap (λ r. ingest_decoded fl r m recv_ns) decoded

  -- A whole message of the expected size is recorded, and nothing else is counted.
  pub receive_measured-message_bytes :
      (h : WireHeader) (m : FlowMetrics F) (recv_ns : ℕ)
      → InRange h
      → receive_measured fl (message_len h.payload_len) m (message_bytes h) recv_ns
        ≡ record_message fl m h.seq (recv_ns - h.ts_ns) (message_len h.payload_len)
  unfolding receive_measured count_failure count_boundary
  receive_measured-message_bytes h m recv_ns range =
      let msg = message_bytes h in
      let size = length-message_bytes h in
      let decoded : decode_message msg ≡ ok h =
        ap decode_message (sym (append-nil msg)) ∙ decode_message-message_bytes h [] range in
      rw
        (
          ingest-ok (count_boundary fl (message_len h.payload_len) m msg) msg recv_ns h decoded,
          size,
          ==_refl (message_len h.payload_len),
        )
        refl

  -- A message that a valid builder makes, with number and send time in the range of `u64`, is
  -- recorded with its number, its latency (0 if it is received before it was sent) and its size,
  -- and nothing else is counted.
  pub receive_measured-build_at :
      (b : MessageBuilder) (m : FlowMetrics F) (seq ts_ns recv_ns : ℕ)
      → IsValid b
      → seq < 2 ^ 64
      → ts_ns < 2 ^ 64
      → (msg : List ℕ) × (b' : MessageBuilder) × (build_at b seq ts_ns ≡ some (msg, b'))
        × (receive_measured fl b.message_bytes m msg recv_ns
            ≡ record_message fl m seq (recv_ns - ts_ns) b.message_bytes)
  unfolding receive_measured count_failure count_boundary
  receive_measured-build_at b m seq ts_ns recv_ns v seq_fits ts_fits =
      let h : WireHeader = stamp_at seq b.payload_len ts_ns in
      let msg = message_bytes h in
      let range : InRange h =
        unfold stamp_at in
        record {
          seq_fits = seq_fits;
          ts_ns_fits = ts_fits;
          payload_len_fits = omega (arith, v.total, v.fits);
        } in
      let (b', built, size, _, _) = build_at_lem b seq ts_ns v in
      let decoded : decode_message msg ≡ ok h =
        ap decode_message (sym (append-nil msg)) ∙ decode_message-message_bytes h [] range in
      (
        msg,
        b',
        built,
        rw
            (
              ingest-ok (count_boundary fl b.message_bytes m msg) msg recv_ns h decoded,
              receive_measured,
              size,
              ==_refl b.message_bytes,
            )
            (unfold stamp_at in rw v.total),
      )
