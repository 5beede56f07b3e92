-- ===== src/Run/PingPong/Halts.antt =====
-- The ping-pong client of src/run/engine.rs ends with the run, whatever its peer does.
use scg_seshat.Prelude.{
  ℕ, ◌+◌, ◌-◌, ◌^◌, ◌≤◌, ◌<◌, ◌≡◌, refl, ◌∙◌, Bool, true, false, List, [], ◌∷◌, length,
  length-append, get_range_lem, inl, inr, Bool-cases, arith,
}
use scg_seshat.Prelude.Float.{FloatOps}
use scg_seshat.Prelude.Loop.{Round, Exit, Keeps, Returns, loop_returns}
use scg_seshat.Prelude.Result.{Result, ok, err}
use scg_seshat.Wire.Header.{WireError, WireHeader, stamp_at}
use scg_seshat.Wire.Message.RoundTrip.{message_bytes}
use scg_seshat.Metrics.Flow as Flow
use scg_seshat.Metrics.Flow.{FlowMetrics, record_message}
use scg_seshat.Workload.Builder.Messages.{IsValid, new-IsValid, build_at_lem, build_now}
use scg_seshat.Transport.{
  SendOutcome, sent, would_block, failed, Received, message, nothing, shut, lost, DuplexEnd,
}
use scg_seshat.Run.{World, is_done, is_measuring, EndsBy}
use scg_seshat.Run.Sender.Progress.{before_end}
use scg_seshat.Run.PingPong.{
  Client, record_echo, take_echo, after_recv, after_send, after_build, client_round, close_client,
  pingpong_client_loop,
}

-- A message that was received is in the buffer.
unfoldable pub Fits : ℕ → Received → Type 0
Fits size (message n) = n ≤ size
Fits size _ = Unit

-- What is relied on of the transport's end.
pub record Bounded {S : Type 0} (ops : DuplexEnd S) : Type 0 where
  pub fits : (s : S) (buf : List ℕ) → let r = ops.recv_msg s buf in Fits (length r.1) r.0

-- An account of round trips: a sample for each number, and no failure counted.
pub record IsTrips {F : Type 0} (m : FlowMetrics F) : Type 0 where
  pub paired : length m.latencies_us ≡ length m.seqs
  pub sound : m.integrity_failures ≡ 0
  pub bounded : m.boundary_violations ≡ 0

abbrev pub Trips : {F S : Type 0} → FlowMetrics F × S → Type 0
Trips r = IsTrips r.0

module _ {F S : Type 0} (fl : FloatOps F) (ops : DuplexEnd S) (w : World) (bounded : Bounded ops)
    (limit : ℕ) (ends : EndsBy w limit) where
  Going : Client F S → Type 0
  Going s = IsTrips s.metrics × IsValid s.builder

  Sound : ℕ → Round (Client F S) (FlowMetrics F × S) → Type 0
  Sound at = Keeps (λ s'. Going s' × (limit - s'.at < limit - at)) Trips

  record_echo-IsTrips :
      (m : FlowMetrics F) (rtt_ns n : ℕ) (r : Result WireError WireHeader)
      → IsTrips m
      → IsTrips (record_echo fl ops w m rtt_ns n r)
  unfolding record_echo record_message
  record_echo-IsTrips m rtt_ns n (ok hdr) t = record {
    paired = omega (
      arith,
      length-append m.seqs (hdr.seq ∷ []),
      length-append m.latencies_us (_ ∷ []),
      t.paired,
    );
    sound = t.sound;
    bounded = t.bounded;
  }
  record_echo-IsTrips m rtt_ns n (err e) t = t

  after_recv-Sound :
      (s : Client F S) (at : ℕ) (measuring : Bool) (t0 : ℕ) (o : Received)
      → Going s
      → at < s.at
      → at < limit
      → Fits (length s.recv) o
      → Sound at (after_recv fl ops w s measuring t0 o)
  unfolding after_recv take_echo Sound Keeps Going Fits
  after_recv-Sound s at false t0 (message n) g later early fits = (g, omega arith)
  after_recv-Sound s at true t0 (message n) g later early fits =
      rw (get_range_lem 0 n s.recv (omega arith) fits)
        ((record_echo-IsTrips s.metrics _ n _ g.0, g.1), omega arith)
  after_recv-Sound s at measuring t0 nothing g later early fits =
      elim (Bool-cases (is_done (w.phase s.at))) [
        | inl over ↦ rw over g.0
        | inr on ↦ rw on (g, omega arith)
      ]
  after_recv-Sound s at measuring t0 shut g later early fits = g.0
  after_recv-Sound s at measuring t0 lost g later early fits = g.0

  after_send-Sound :
      (s : Client F S) (at : ℕ) (measuring : Bool) (t0 : ℕ) (o : SendOutcome)
      → Going s
      → at < s.at
      → at < limit
      → Sound at (after_send fl ops w s measuring t0 o)
  unfolding after_send Sound Keeps Going
  after_send-Sound s at measuring t0 sent g later early =
      let r = ops.recv_msg s.client s.recv in
      unfold Sound Going in
      after_recv-Sound (record s { client = r.2; recv = r.1 }) at measuring t0 r.0 g later early
        (bounded.fits s.client s.recv)
  after_send-Sound s at measuring t0 would_block g later early =
      elim (Bool-cases (is_done (w.phase s.at))) [
        | inl over ↦ rw over g.0
        | inr on ↦ rw on (g, omega arith)
      ]
  after_send-Sound s at measuring t0 failed g later early = g.0

  client_keeps : (s : Client F S) → Going s → Sound s.at (client_round fl ops w s)
  unfolding client_round after_build Sound Keeps Going
  client_keeps s g = elim (Bool-cases (is_done (w.phase s.at))) [
    | inl over ↦ rw over g.0
    | inr on ↦
        let (b, built, _, v, _) = build_at_lem s.builder s.seq (w.clock (s.at + 2)) g.1 in
        let msg = message_bytes (stamp_at s.seq s.builder.payload_len (w.clock (s.at + 2))) in
        let o = ops.send_msg s.client msg in
        rw (on, build_now s.builder s.seq (w.clock (s.at + 2)) ∙ built)
          (unfold Sound Going in
            after_send-Sound (record s { client = o.1; builder = b; at = s.at + 4 }) s.at
              (is_measuring (w.phase (s.at + 1))) (w.clock (s.at + 3)) o.0 (g.0, v) (omega arith)
              (before_end w limit s.at ends on))
  ]

  closed_client :
      (e : Exit (FlowMetrics F × S)) → Returns Trips e → Returns Trips (close_client fl ops w e)
  unfolding close_client
  closed_client e (r, is, t) = ((r.0, ops.close r.1), rw is refl, t)

  -- Whatever the peer and the transport do, as long as a message received fits the buffer: where
  -- the phase flag reads done from some reading on, the ping-pong client returns, with more rounds
  -- of fuel than readings before it, and does not panic. Its account has a round-trip time for
  -- each number recorded and no failure.
  pub pingpong_client_loop_halts :
      (fuel message_bytes : ℕ) (client : S)
      → message_bytes < 2 ^ 32
      → limit < fuel
      → Returns Trips (pingpong_client_loop fl ops w fuel message_bytes client)
  unfolding pingpong_client_loop Sound Going Flow.new
  pingpong_client_loop_halts fuel message_bytes client fits enough = closed_client _ (
      loop_returns (client_round fl ops w) Going Trips (λ s. limit - s.at) client_keeps fuel _
        (record { paired = refl; sound = refl; bounded = refl }, new-IsValid message_bytes fits)
        (omega arith))
