-- ===== src/Run/EndToEnd.antt =====
-- A sender and a receiver of src/run/engine.rs with a channel between them.
use mathlib.Core.Path.{subst}
use scg_seshat.Prelude.{ℕ, ◌+◌, ◌-◌, ◌^◌, ◌≤◌, ◌<◌, ◌≡◌, sym, ◌∙◌, List, [], length, arith}
use scg_seshat.Prelude.Float.{FloatOps}
use scg_seshat.Prelude.Loop.{returned, Returns, returned-injective}
use scg_seshat.Config.Schema as Schema
use scg_seshat.Wire.Header.{header_len}
use scg_seshat.Wire.Message.{message_len}
use scg_seshat.Workload.Builder.Numbered.{Numbered}
use scg_seshat.Workload.SendLag.{SendLag}
use scg_seshat.Transport.{DataSink, DataSource}
use scg_seshat.Transport.Contract.{SinkContract, SourceContract}
use scg_seshat.Run.{World, EndsBy, Readable}
use scg_seshat.Run.Sender.{sender_loop}
use scg_seshat.Run.Sender.Whole.{payload_of, sender_loop_returns}
use scg_seshat.Run.Receiver.{receiver_loop}
use scg_seshat.Run.Receiver.Carries.{Carries, numbers, Numbered-Carries}
use scg_seshat.Run.Receiver.Clean.{Accounted}
use scg_seshat.Run.Receiver.Returns.{receiver_loop_returns}

module _ {F S T : Type 0} (fl : FloatOps F) (sink_ops : DataSink S) (source_ops : DataSource T)
    (log : S → List (List ℕ)) (left : T → List (List ℕ)) (sink_contract : SinkContract sink_ops log)
    (source_contract : SourceContract source_ops left) (w v : World) (limit : ℕ) where
  -- Over a sink and a source that keep their contracts, with clocks in `u64` and messages of at
  -- least a header: where the phase flag reads done from some reading on, and the source is left
  -- to deliver exactly what the sender has handed over by its end, the receiver returns, with one
  -- round of fuel more than those messages and readings together. Of the messages with consecutive
  -- numbers, wrapping, a front part is accounted and the others are still to be delivered; of the
  -- front part it has recorded some, in order, with a latency each and their bytes, and counted no
  -- integrity failure and no boundary violation.
  pub channel-Accounted :
      (fuel fuel' : ℕ) (spec : Schema.Sender F) (message_bytes : ℕ) (s : S) (r : SendLag × S)
      (t : T)
      → EndsBy w limit
      → EndsBy v limit
      → Readable w
      → header_len ≤ message_bytes
      → message_bytes < 2 ^ 32
      → log s ≡ []
      → limit < fuel
      → sender_loop sink_ops w fl fuel spec message_bytes s ≡ returned r
      → left t ≡ log r.1
      → length (left t) + limit < fuel'
      → Returns
          (Accounted left (message_bytes - header_len) (numbers 0 (length (log r.1))))
          (receiver_loop fl source_ops v fuel' message_bytes t)
  channel-Accounted fuel fuel' spec message_bytes s r t ends ends' readable whole fits fresh enough
        sent received enough' =
      let (r', is, gapless) =
        sender_loop_returns fl sink_ops w log sink_contract readable limit fuel spec message_bytes s
          ends fits fresh enough in
      let same = returned-injective r' r (sym is ∙ sent) in
      let payload : payload_of message_bytes ≡ message_bytes - header_len = omega arith in
      let size : message_len (message_bytes - header_len) ≡ message_bytes = omega arith in
      let carried : Carries (message_bytes - header_len) (numbers 0 (length (log r.1))) (left t) =
        subst (λ l. Carries (message_bytes - header_len) (numbers 0 (length (log r.1))) l)
          (sym received)
          (Numbered-Carries (message_bytes - header_len) 0 (log r.1) (
            subst (λ x. Numbered (message_bytes - header_len) 0 (log x.1)) same
              (subst (λ p. Numbered p 0 (log r'.1)) payload gapless))) in
      subst
        (λ n.
          Returns (Accounted left (message_bytes - header_len) (numbers 0 (length (log r.1))))
            (receiver_loop fl source_ops v fuel' n t))
        size
        (receiver_loop_returns fl source_ops v left source_contract (message_bytes - header_len)
          (omega arith) (numbers 0 (length (log r.1))) limit fuel' t ends' carried enough')
