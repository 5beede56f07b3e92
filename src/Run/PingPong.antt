-- ===== src/Run/PingPong.antt =====
-- The closed-loop client of src/run/engine.rs: `pingpong_client_loop`. A reading of
-- the flag or the clock takes place at the state's `at`; yielding and pinning the thread leave no
-- trace.
pub mod Halts
use scg_seshat.Prelude.{
  ℕ, ◌+◌, ◌-◌, ◌%◌, ◌^◌, Bool, true, false, Option, none, some, List, replicate, length, get_range,
  if◌then◌else◌,
}
use scg_seshat.Prelude.Float.{FloatOps}
use scg_seshat.Prelude.Loop.{Round, again, leave, panic, Exit, returned, panicked, unfinished, loop}
use scg_seshat.Prelude.Result.{Result, ok, err}
use scg_seshat.Wire.Header.{WireError, WireHeader}
use scg_seshat.Wire.Message.{decode_message}
use scg_seshat.Metrics.Flow as Flow
use scg_seshat.Metrics.Flow.{FlowMetrics, record_message}
use scg_seshat.Workload.Builder.{MessageBuilder, new, build}
use scg_seshat.Transport.{
  SendOutcome, sent, would_block, failed, Received, message, nothing, shut, lost, DuplexEnd,
}
use scg_seshat.Run.{World, is_done, is_measuring}

pub record Client (F S : Type 0) : Type 0 where
  pub client : S
  pub metrics : FlowMetrics F
  pub builder : MessageBuilder
  pub recv : List ℕ
  pub seq : ℕ
  pub at : ℕ

module _ {F S : Type 0} (fl : FloatOps F) (ops : DuplexEnd S) (w : World) where
  -- The echo that was decoded is recorded by its own number.
  unfoldable pub record_echo : FlowMetrics F → ℕ → ℕ → Result WireError WireHeader → FlowMetrics F
  record_echo m rtt_ns n (ok hdr) = record_message fl m hdr.seq rtt_ns n
  record_echo m rtt_ns n (err e) = m

  -- An echo of `n` bytes came; `rtt_ns` is the time since the message was sent.
  unfoldable pub take_echo :
      Client F S → Bool → ℕ → ℕ → Option (List ℕ) → Round (Client F S) (FlowMetrics F × S)
  take_echo s false rtt_ns n echo = again (record s { seq = (s.seq + 1) % 2 ^ 64; at = s.at + 1 })
  take_echo s true rtt_ns n none = panic
  take_echo s true rtt_ns n (some echo) = again (record s {
    metrics = record_echo s.metrics rtt_ns n (decode_message echo);
    seq = (s.seq + 1) % 2 ^ 64;
    at = s.at + 1;
  })

  unfoldable pub after_recv :
      Client F S → Bool → ℕ → Received → Round (Client F S) (FlowMetrics F × S)
  after_recv s measuring t0 (message n) =
      take_echo s measuring (w.clock s.at - t0) n (get_range 0 n s.recv)
  after_recv s measuring t0 nothing =
      if is_done (w.phase s.at)
      then leave (s.metrics, s.client)
      else again (record s { at = s.at + 1 })
  after_recv s measuring t0 _ = leave (s.metrics, s.client)

  -- The state is the one behind the call of `send_msg`.
  unfoldable pub after_send :
      Client F S → Bool → ℕ → SendOutcome → Round (Client F S) (FlowMetrics F × S)
  after_send s measuring t0 sent =
      let (o, recv, client) = ops.recv_msg s.client s.recv in
      after_recv (record s { client = client; recv = recv }) measuring t0 o
  after_send s measuring t0 would_block =
      if is_done (w.phase s.at)
      then leave (s.metrics, s.client)
      else again (record s { at = s.at + 1 })
  after_send s measuring t0 failed = leave (s.metrics, s.client)

  -- The message was built at reading `at` of the clock.
  unfoldable pub after_build :
      Client F S → Bool → Option (List ℕ × MessageBuilder) → Round (Client F S) (FlowMetrics F × S)
  after_build s measuring none = panic
  after_build s measuring (some (msg, builder)) =
      let (o, client) = ops.send_msg s.client msg in
      after_send (record s { client = client; builder = builder; at = s.at + 4 }) measuring
        (w.clock (s.at + 3)) o

  unfoldable pub client_round : Client F S → Round (Client F S) (FlowMetrics F × S)
  client_round s =
      if is_done (w.phase s.at)
      then leave (s.metrics, s.client)
      else after_build s (is_measuring (w.phase (s.at + 1)))
          (build s.builder s.seq (w.clock (s.at + 2)))

  unfoldable pub close_client : Exit (FlowMetrics F × S) → Exit (FlowMetrics F × S)
  close_client (returned (m, client)) = returned (m, ops.close client)
  close_client panicked = panicked
  close_client unfinished = unfinished

  unfoldable pub pingpong_client_loop : ℕ → ℕ → S → Exit (FlowMetrics F × S)
  pingpong_client_loop fuel message_bytes client = close_client (
      loop client_round fuel (record {
        client = client;
        metrics = Flow.new fl;
        builder = new message_bytes;
        recv = replicate message_bytes 0;
        seq = 0;
        at = 0;
      }))
