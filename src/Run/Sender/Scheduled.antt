-- ===== src/Run/Sender/Scheduled.antt =====
-- The paced sender of `sender_loop` (src/run/engine.rs).
use mathlib.Core.Path.{subst}
use scg_seshat.Prelude.{
  ℕ, ◌+◌, ◌-◌, ◌%◌, ◌^◌, ◌<◌, ◌≡◌, refl, ap, ◌∙◌, Bool, Option, none, some, List, [], ◌∷◌, ◌++◌,
  length, append-nil, inl, inr, Bool-cases, arith,
}
use scg_seshat.Prelude.Float.{FloatOps}
use scg_seshat.Prelude.Loop.{Round, Keeps, Returns, loop, loop_returns}
use scg_seshat.Wire.Header.{stamp_at}
use scg_seshat.Wire.Message.RoundTrip.{message_bytes, length-message_bytes}
use scg_seshat.Workload.Builder.{MessageBuilder, message_len_of}
use scg_seshat.Workload.Builder.Messages.{IsValid, build_into_lem, build_at_lem}
use scg_seshat.Workload.Builder.Numbered.{Numbered-one}
use scg_seshat.Workload.Pacer.{next_deadline_ns}
use scg_seshat.Workload.SendLag.{SendLag}
use scg_seshat.Transport.{SendOutcome, sent, would_block, failed, DataSink}
use scg_seshat.Transport.Contract.{Sends, SinkContract, reserved}
use scg_seshat.Run.{World, is_done, is_measuring, EndsBy}
use scg_seshat.Run.Sender.{Paced, commit_paced, send_copy, send_one, after_one, paced_round}
use scg_seshat.Run.Sender.Progress.{
  Progress, Progress-HandsOver, Progress-same, Progress-start, before_end,
}

module _ {F S : Type 0} (fl : FloatOps F) (sink_ops : DataSink S) (w : World)
    (log : S → List (List ℕ)) (contract : SinkContract sink_ops log) (payload_len : ℕ) where
  -- A message was tried, and the builder is the one for the next.
  IsTried : ℕ → S → Option (SendOutcome × MessageBuilder × S) → Type 0
  IsTried seq s none = ⊥
  IsTried seq s (some (o, b, s')) =
      IsValid b
      × (b.payload_len ≡ payload_len)
      × ((ts_ns : ℕ) × (ts_ns < 2 ^ 64)
          × Sends log s (message_bytes (stamp_at seq payload_len ts_ns)) o s')

  from_reserve :
      (s s' s'' : S) (m : List ℕ) (o : SendOutcome)
      → log s' ≡ log s
      → Sends log s' m o s''
      → Sends log s m o s''
  unfolding Sends
  from_reserve s s' s'' m sent e h = (h.0, h.1 ∙ ap (λ l. l ++ m ∷ []) e)
  from_reserve s s' s'' m would_block e h = (h.0, h.1 ∙ ap (λ l. l ++ []) e)
  from_reserve s s' s'' m failed e h = (h.0, h.1 ∙ ap (λ l. l ++ []) e)

  send_one-IsTried :
      (b : MessageBuilder) (seq deadline : ℕ) (s s' : S) (lent : Option (List ℕ))
      → IsValid b
      → b.payload_len ≡ payload_len
      → deadline < 2 ^ 64
      → sink_ops.reserve s (message_len_of b) ≡ (lent, s')
      → IsTried seq s (send_one sink_ops w b seq deadline (lent, s'))
  unfolding send_one commit_paced send_copy IsTried message_len_of stamp_at
  send_one-IsTried b seq deadline s s' none v same fits e =
      let msg = message_bytes (stamp_at seq b.payload_len deadline) in
      let (b', built, _, v', kept) = build_at_lem b seq deadline v in
      let o = sink_ops.send_msg s' msg in
      rw built (
        v',
        kept ∙ same,
        (
          deadline,
          fits,
          subst (λ p. Sends log s (message_bytes (stamp_at seq p deadline)) o.0 o.1) same
              (from_reserve s s' o.1 msg o.0
                (reserved sink_ops log contract s s' b.message_bytes none e)
                (contract.sends s' msg)),
        ),
      )
  send_one-IsTried b seq deadline s s' (some slot) v same fits e =
      let msg = message_bytes (stamp_at seq b.payload_len deadline) in
      let o = sink_ops.commit_reserved (sink_ops.write_slot s' msg) in
      let sized = contract.slot_sized s s' b.message_bytes slot e in
      rw (build_into_lem b seq deadline slot (omega (arith, sized, v.total))) (
        v,
        same,
        (
          deadline,
          fits,
          subst (λ p. Sends log s (message_bytes (stamp_at seq p deadline)) o.0 o.1) same
              (from_reserve s s' o.1 msg o.0
                (reserved sink_ops log contract s s' b.message_bytes (some slot) e)
                (contract.commits s s' b.message_bytes slot msg e (
                  omega
                    (arith, length-message_bytes (stamp_at seq b.payload_len deadline), v.total)))),
        ),
      )

  module _ (limit : ℕ) (ends : EndsBy w limit) where
    Pacing : Paced F S → Type 0
    Pacing s =
        Progress log payload_len s.seq s.sink
        × IsValid s.builder
        × (s.builder.payload_len ≡ payload_len)

    abbrev Sent : SendLag × S → Type 0
    Sent r = (seq : ℕ) × Progress log payload_len seq r.1

    Sound : Paced F S → Round (Paced F S) (SendLag × S) → Type 0
    Sound s = Keeps (λ s'. Pacing s' × (limit - s'.at < limit - s.at)) Sent

    unsent :
        (seq : ℕ) (s s' : S)
        → Progress log payload_len seq s
        → log s' ≡ log s ++ []
        → Progress log payload_len seq s'
    unsent seq s s' p e = Progress-same log payload_len seq s s' p (e ∙ append-nil (log s))

    after_one-Sound :
        (s t : Paced F S) (measuring : Bool) (late : ℕ)
        (r : Option (SendOutcome × MessageBuilder × S))
        → Pacing s
        → t.seq ≡ s.seq
        → s.at < t.at
        → s.at < limit
        → IsTried s.seq s.sink r
        → Sound s (after_one sink_ops w fl t measuring late r)
    unfolding after_one Sound Pacing IsTried Sends Keeps
    after_one-Sound s t measuring late none st e later early h = h
    after_one-Sound s t measuring late (some (sent, b, sink)) st e later early h =
        let due = Numbered-one payload_len (length (log s.sink)) s.seq h.2.0 st.0.counted h.2.1 in
        (
          (
            rw e (Progress-HandsOver log payload_len s.seq 1 s.sink sink _ st.0 due h.2.2),
            h.0,
            h.1,
          ),
          omega arith,
        )
    after_one-Sound s t measuring late (some (would_block, b, sink)) st e later early h =
        ((rw e (unsent s.seq s.sink sink st.0 h.2.2.1), h.0, h.1), omega arith)
    after_one-Sound s t measuring late (some (failed, b, sink)) st e later early h =
        (s.seq, unsent s.seq s.sink sink st.0 h.2.2.1)

    paced_keeps :
        (start : ℕ) (s : Paced F S) → Pacing s → Sound s (paced_round sink_ops w fl start s)
    unfolding paced_round Sound Keeps Pacing
    paced_keeps start s st = elim (Bool-cases (is_done (w.phase s.at))) [
      | inl over ↦ rw over (s.seq, st.0)
      | inr on ↦ elim (Bool-cases (is_done (w.phase (s.at + 2)))) [
        | inl over ↦ rw (on, over) (s.seq, st.0)
        | inr still ↦
            let due = next_deadline_ns fl s.pacer in
            let deadline = (start + due.0) % 2 ^ 64 in
            let lent = sink_ops.reserve s.sink (message_len_of s.builder) in
            rw (on, still)
              (after_one-Sound s (record s { at = s.at + 4; pacer = due.1 })
                (is_measuring (w.phase (s.at + 3))) (w.clock (s.at + 1) - deadline)
                (send_one sink_ops w s.builder s.seq deadline lent) st refl (omega arith)
                (before_end w limit s.at ends on)
                (send_one-IsTried s.builder s.seq deadline s.sink lent.1 lent.0 st.1 st.2
                  (omega arith) refl))
      ]
    ]

    -- The paced sender returns, and what it has sent is numbered without a gap.
    pub paced_returns :
        (start fuel : ℕ) (s : Paced F S)
        → log s.sink ≡ []
        → s.seq ≡ 0
        → IsValid s.builder
        → s.builder.payload_len ≡ payload_len
        → limit < fuel
        → Returns Sent (loop (paced_round sink_ops w fl start) fuel s)
    unfolding Sound Pacing
    paced_returns start fuel s fresh first v same enough =
        loop_returns (paced_round sink_ops w fl start) Pacing Sent (λ t. limit - t.at)
          (paced_keeps start) fuel s
          (rw first (Progress-start log payload_len s.sink fresh), v, same) (omega arith)
