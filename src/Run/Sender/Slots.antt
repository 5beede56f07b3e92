-- ===== src/Run/Sender/Slots.antt =====
-- The zero-copy blast of `sender_loop` (src/run/engine.rs).
use mathlib.Core.Bool.{Bool, true, false}
use mathlib.Core.Path.{subst}
use scg_seshat.Prelude.{
  ℕ, zero, suc, ◌+◌, ◌-◌, ◌%◌, ◌^◌, ◌≤◌, ◌<◌, ◌≡◌, refl, sym, ◌∙◌, Option, none, some, List, [],
  ◌∷◌, ◌++◌, append-nil, length, ltb, inl, inr, Bool-cases, arith,
}
use scg_seshat.Prelude.Loop.{Keeps, Returns, loop, loop_returns}
use scg_seshat.Wire.Header.{stamp_at}
use scg_seshat.Wire.Message.RoundTrip.{message_bytes, length-message_bytes}
use scg_seshat.Workload.Builder.{MessageBuilder, message_len_of}
use scg_seshat.Workload.Builder.Messages.{IsValid, build_into_lem}
use scg_seshat.Workload.Builder.Numbered.{Numbered-one}
use scg_seshat.Transport.{SendOutcome, sent, would_block, failed, DataSink}
use scg_seshat.Transport.Contract.{Sends, SinkContract, reserved}
use scg_seshat.Run.{World, is_done, EndsBy, Readable}
use scg_seshat.Run.Sender.{Blast, commit_built, fill_slot, fill_slots, after_slots, blast_round}
use scg_seshat.Run.Sender.Progress.{
  Progress, Progress-HandsOver, Progress-same, Progress-start, before_end,
}

module _ {S : Type 0} (sink_ops : DataSink S) (w : World) (log : S → List (List ℕ))
    (contract : SinkContract sink_ops log) (readable : Readable w) (b : MessageBuilder)
    (v : IsValid b) where
  n : ℕ
  n = message_len_of b

  -- Nothing was sent, or the message that was due.
  IsSlot : ℕ → ℕ → S → Option (Bool × S × ℕ) → Type 0
  IsSlot seq at s none = ⊥
  IsSlot seq at s (some (true, s', at')) =
      Progress log b.payload_len ((seq + 1) % 2 ^ 64) s' × (at ≤ at')
  IsSlot seq at s (some (false, s', at')) = Progress log b.payload_len seq s' × (at ≤ at')

  nothing : (s s' : S) → log s' ≡ log s ++ [] → log s' ≡ log s
  nothing s s' e = e ∙ append-nil (log s)

  committed :
      (seq at ts_ns : ℕ) (s s' : S) (o : SendOutcome)
      → ts_ns < 2 ^ 64
      → Progress log b.payload_len seq s
      → Sends log s (message_bytes (stamp_at seq b.payload_len ts_ns)) o s'
      → IsSlot seq at s (some (elim o [ sent ↦ true | _ ↦ false ], s', at + 1))
  unfolding IsSlot Sends
  committed seq at ts_ns s s' sent fits p h = (
    Progress-HandsOver log b.payload_len seq 1 s s'
        (message_bytes (stamp_at seq b.payload_len ts_ns) ∷ []) p
        (Numbered-one b.payload_len (length (log s)) seq ts_ns p.counted fits) h,
    omega arith,
  )
  committed seq at ts_ns s s' would_block fits p h =
      (Progress-same log b.payload_len seq s s' p (nothing s s' h.1), omega arith)
  committed seq at ts_ns s s' failed fits p h =
      (Progress-same log b.payload_len seq s s' p (nothing s s' h.1), omega arith)

  fill_slot-IsSlot :
      (seq at : ℕ) (s s' : S) (lent : Option (List ℕ))
      → sink_ops.reserve s n ≡ (lent, s')
      → Progress log b.payload_len seq s
      → IsSlot seq at s (fill_slot sink_ops w b seq at (lent, s'))
  unfolding fill_slot commit_built IsSlot n message_len_of stamp_at
  fill_slot-IsSlot seq at s s' none e p = (
    Progress-same log b.payload_len seq s s' p (reserved sink_ops log contract s s' n none e),
    omega arith,
  )
  fill_slot-IsSlot seq at s s' (some slot) e p =
      let msg = message_bytes (stamp_at seq b.payload_len (w.clock at)) in
      let c = sink_ops.commit_batched (sink_ops.write_slot s' msg) in
      rw
        (build_into_lem b seq (w.clock at) slot
          (omega (arith, contract.slot_sized s s' n slot e, v.total)))
        (committed seq at (w.clock at) s' c.1 c.0 (readable at)
          (Progress-same log b.payload_len seq s s' p
            (reserved sink_ops log contract s s' n (some slot) e))
          (contract.commits_batched s s' n slot msg e (
            omega
              (arith, length-message_bytes (stamp_at seq b.payload_len (w.clock at)), v.total))))

  -- What the `for` loop has sent.
  AreSlots : ℕ → ℕ → Option (ℕ × S × ℕ) → Type 0
  AreSlots seq at none = ⊥
  AreSlots seq at (some (k, s', at')) =
      Progress log b.payload_len ((seq + k) % 2 ^ 64) s' × (at ≤ at')

  weaken :
      (seq at at' : ℕ) (r : Option (ℕ × S × ℕ)) → at ≤ at' → AreSlots seq at' r → AreSlots seq at r
  unfolding AreSlots
  weaken seq at at' none h k = k
  weaken seq at at' (some (k, s', t)) h (p, later) = (p, omega arith)

  after_slot :
      (seq i at : ℕ) (s : S) (r : Option (Bool × S × ℕ)) (rest : S → ℕ → Option (ℕ × S × ℕ))
      → IsSlot ((seq + i) % 2 ^ 64) at s r
      → ((s' : S) (at' : ℕ)
          → Progress log b.payload_len ((seq + (i + 1)) % 2 ^ 64) s'
          → AreSlots seq at' (rest s' at'))
      → AreSlots seq at (elim r [
        | none ↦ none
        | some (filled, s', at') ↦ elim filled [ true ↦ rest s' at' | false ↦ some (i, s', at') ]
      ])
  unfolding IsSlot AreSlots
  after_slot seq i at s none rest h ih = h
  after_slot seq i at s (some (true, s', at')) rest (p, later) ih =
      let e : ((seq + i) % 2 ^ 64 + 1) % 2 ^ 64 ≡ (seq + (i + 1)) % 2 ^ 64 = omega arith in
      weaken seq at at' (rest s' at') later (ih s' at' (rw (← e) p))
  after_slot seq i at s (some (false, s', at')) rest h ih = h

  fill_slots-AreSlots :
      (count seq i at : ℕ) (s : S)
      → Progress log b.payload_len ((seq + i) % 2 ^ 64) s
      → AreSlots seq at (fill_slots sink_ops w b seq count i s at)
  unfolding fill_slots AreSlots
  fill_slots-AreSlots zero seq i at s p = (p, omega arith)
  fill_slots-AreSlots (suc count) seq i at s p =
      let r = sink_ops.reserve s (message_len_of b) in
      after_slot seq i at s (fill_slot sink_ops w b ((seq + i) % 2 ^ 64) at r)
        (λ s' at'. fill_slots sink_ops w b seq count (i + 1) s' at')
        (unfold n in fill_slot-IsSlot ((seq + i) % 2 ^ 64) at s r.1 r.0 refl p)
        (λ s' at' p'. fill_slots-AreSlots count seq (i + 1) at' s' p')

  module _ (limit : ℕ) (ends : EndsBy w limit) (batch_size : ℕ) where
    abbrev Sending : Blast S → Type 0
    Sending s = Progress log b.payload_len s.seq s.sink

    abbrev Sent : S → Type 0
    Sent s = (seq : ℕ) × Progress log b.payload_len seq s

    same_seq : (seq : ℕ) (s : S) → Progress log b.payload_len seq s → (seq + 0) % 2 ^ 64 ≡ seq
    same_seq seq s p = omega (arith, p.counted)

    blast_after :
        (s : Blast S) (r : Option (ℕ × S × ℕ))
        → s.at < limit
        → s.seq < 2 ^ 64
        → AreSlots s.seq (s.at + 1) r
        → Keeps
            (λ s'. Sending s' × (limit - s'.at < limit - s.at))
            Sent
            (after_slots sink_ops w s.seq r)
    unfolding AreSlots after_slots Keeps
    blast_after s none early fits h = h
    blast_after s (some (k, s', at')) early fits (p, later) = elim (Bool-cases (ltb 0 k)) [
      | inl some_sent ↦
          let flushed = sink_ops.flush_batch s' in
          let p' =
            Progress-same log b.payload_len ((s.seq + k) % 2 ^ 64) s' flushed.1 p
              (contract.flushes s') in
          elim (Bool-cases flushed.0) [
            | inl ok ↦ rw (some_sent, ok) (p', omega arith)
            | inr bad ↦ rw (some_sent, bad) ((s.seq + k) % 2 ^ 64, p')
          ]
      | inr none_sent ↦
          let e : (s.seq + k) % 2 ^ 64 ≡ s.seq = ground arith in
          rw none_sent (subst (λ q. Progress log b.payload_len q s') e p, omega arith)
    ]

    blast_round-Keeps :
        (s : Blast S)
        → Sending s
        → Keeps
            (λ s'. Sending s' × (limit - s'.at < limit - s.at))
            Sent
            (blast_round sink_ops w b batch_size s)
    unfolding blast_round Keeps
    blast_round-Keeps s p = elim (Bool-cases (is_done (w.phase s.at))) [
      | inl over ↦ rw over (s.seq, p)
      | inr on ↦ rw on (
          blast_after s (fill_slots sink_ops w b s.seq batch_size 0 s.sink (s.at + 1))
            (before_end w limit s.at ends on) (omega (arith, p.counted))
            (fill_slots-AreSlots batch_size s.seq 0 (s.at + 1) s.sink
              (subst (λ q. Progress log b.payload_len q s.sink) (sym (same_seq s.seq s.sink p)) p)))
    ]

    -- The blast returns, and what it has sent is numbered without a gap.
    pub blast_returns :
        (fuel : ℕ) (s : S)
        → log s ≡ []
        → limit < fuel
        → Returns Sent
            (loop (blast_round sink_ops w b batch_size) fuel (record { sink = s; seq = 0; at = 0 }))
    blast_returns fuel s fresh enough =
        loop_returns (blast_round sink_ops w b batch_size) Sending Sent (λ t. limit - t.at)
          blast_round-Keeps fuel (record { sink = s; seq = 0; at = 0 })
          (Progress-start log b.payload_len s fresh) (omega arith)
