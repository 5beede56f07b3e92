-- ===== src/Run/Sender/Whole.antt =====
-- `sender_loop` of src/run/engine.rs in all its modes, over a sink that keeps its contract.
use scg_seshat.Prelude.{ℕ, ◌-◌, ◌^◌, ◌<◌, ◌≡◌, refl, max, List, [], inl, inr, Bool-cases, arith}
use scg_seshat.Prelude.Float.{FloatOps}
use scg_seshat.Prelude.Loop.{Exit, Returns}
use scg_seshat.Config.Schema as Schema
use scg_seshat.Wire.Header.{header_len}
use scg_seshat.Workload.Builder.{new, new_batch}
use scg_seshat.Workload.Builder.Messages.{new-IsValid, new_batch-BatchIsValid}
use scg_seshat.Workload.Builder.Numbered.{Numbered}
use scg_seshat.Workload.Pacer.{from_sender, is_blast}
use scg_seshat.Workload.SendLag.{SendLag, no_lag}
use scg_seshat.Transport.{DataSink, batch_abs_max, clamp}
use scg_seshat.Transport.Contract.{SinkContract}
use scg_seshat.Run.{World, EndsBy, Readable}
use scg_seshat.Run.Sender.{close_sink, close_paced, sender_loop}
use scg_seshat.Run.Sender.Progress.{Progress}
use scg_seshat.Run.Sender.Slots.{blast_returns}
use scg_seshat.Run.Sender.Staged.{staged_returns}
use scg_seshat.Run.Sender.Scheduled.{paced_returns}

-- The bytes of payload in a message of the configured size.
abbrev pub payload_of : ℕ → ℕ
payload_of message_bytes = max message_bytes header_len - header_len

-- The log holds the messages from number 0 on.
abbrev pub Gapless : {S : Type 0} → (S → List (List ℕ)) → ℕ → SendLag × S → Type 0
Gapless log message_bytes r = Numbered (payload_of message_bytes) 0 (log r.1)

module _ {F S : Type 0} (fl : FloatOps F) (sink_ops : DataSink S) (w : World)
    (log : S → List (List ℕ)) (contract : SinkContract sink_ops log) (readable : Readable w) where
  closed :
      (message_bytes : ℕ) (e : Exit S)
      → Returns (λ s. (seq : ℕ) × Progress log (payload_of message_bytes) seq s) e
      → Returns (Gapless log message_bytes) (close_sink sink_ops w fl e)
  unfolding close_sink
  closed message_bytes e (s, is, (seq, p)) =
      ((no_lag, sink_ops.close s), rw is refl, rw (contract.closes s) p.numbered)

  closed_paced :
      (message_bytes : ℕ) (e : Exit (SendLag × S))
      → Returns (λ r. (seq : ℕ) × Progress log (payload_of message_bytes) seq r.1) e
      → Returns (Gapless log message_bytes) (close_paced sink_ops w fl e)
  unfolding close_paced
  closed_paced message_bytes e (r, is, (seq, p)) =
      ((r.0, sink_ops.close r.1), rw is refl, rw (contract.closes r.1) p.numbered)

  -- Over a sink that keeps its contract, and a clock in `u64`: where the phase flag reads done
  -- from some reading on, the sender returns, with more rounds of fuel than readings before it,
  -- and does not panic; what it has handed over are the messages of the configured size numbered
  -- from 0 without a gap, wrapping at 2 ^ 64, in order, each stamped with a time in `u64`. This
  -- holds zero-copy, batched or paced, whatever the sink accepts of a batch, is full or fails.
  pub sender_loop_returns :
      (limit fuel : ℕ) (spec : Schema.Sender F) (message_bytes : ℕ) (s : S)
      → EndsBy w limit
      → message_bytes < 2 ^ 32
      → log s ≡ []
      → limit < fuel
      → Returns (Gapless log message_bytes) (sender_loop sink_ops w fl fuel spec message_bytes s)
  unfolding sender_loop new new_batch
  sender_loop_returns limit fuel spec message_bytes s ends fits fresh enough =
      let batch_size = clamp (sink_ops.preferred_batch s message_bytes) 1 batch_abs_max in
      let v = new-IsValid message_bytes fits in
      elim (Bool-cases (is_blast (from_sender fl spec message_bytes))) [
        | inl blast ↦ elim (Bool-cases (sink_ops.supports_inplace s)) [
          | inl inplace ↦
              rw (blast, inplace)
                (closed message_bytes _ (
                  blast_returns sink_ops w log contract readable (new message_bytes) v limit ends
                    batch_size fuel s fresh enough))
          | inr copy ↦
              rw (blast, copy)
                (closed message_bytes _ (
                  staged_returns sink_ops w log contract readable limit ends
                    (payload_of message_bytes) batch_size (omega arith) fuel s
                    (new_batch message_bytes batch_size) fresh
                    (new_batch-BatchIsValid message_bytes batch_size) refl enough))
        ]
        | inr paced ↦ rw paced (
            closed_paced message_bytes _ (
              paced_returns fl sink_ops w log contract (payload_of message_bytes) limit ends
                (w.clock 0) fuel _ fresh refl v refl enough))
      ]
