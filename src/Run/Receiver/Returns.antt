-- ===== src/Run/Receiver/Returns.antt =====
-- `receiver_loop` of src/run/engine.rs over a source that keeps its contract.
use scg_seshat.Prelude.{
  ℕ, ◌+◌, ◌-◌, ◌*◌, ◌^◌, ◌≤◌, ◌<◌, ◌≡◌, refl, sym, ap, ◌∙◌, List, [], ◌++◌, length,
  length-replicate, length-append, append_assoc, ◌&&◌, leb, inl, inr, Bool-cases, arith,
}
use mathlib.Core.Path.{subst}
use scg_seshat.Prelude.Float.{FloatOps}
use scg_seshat.Prelude.Loop.{Round, Exit, Keeps, Returns, loop, loop_returns}
use scg_seshat.Wire.Message.{message_len}
use scg_seshat.Metrics.Flow as Flow
use scg_seshat.Metrics.Flow.{FlowMetrics}
use scg_seshat.Transport.{
  BatchReceived, messages, timeout, closed, broken, DataSource, batch_abs_max, clamp,
}
use scg_seshat.Transport.Contract.{Laid, Receives, SourceContract}
use scg_seshat.Run.{World, is_done, is_measuring, EndsBy}
use scg_seshat.Run.Sender.Progress.{before_end}
use scg_seshat.Run.Receiver.{
  Receiving, ingest_each, when_idle, after_outcome, after_inplace, inplace_round, go_on,
  after_batch, batch_round, close_source, zc_recv_min, receiver_loop,
}
use scg_seshat.Run.Receiver.Carries.{Carries, Carries-append, Carries-sized}
use scg_seshat.Run.Receiver.Clean.{
  Clean, Accounted, ingest_each-Clean, ingest_slots-Clean, new-Clean,
}

module _ {F S : Type 0} (fl : FloatOps F) (source_ops : DataSource S) (w : World)
    (left : S → List (List ℕ)) (contract : SourceContract source_ops left) (payload_len : ℕ)
    (fits : payload_len < 2 ^ 32) (ns : List ℕ) where
  abbrev stride : ℕ
  stride = message_len payload_len

  abbrev Reports : FlowMetrics F × S → Type 0
  Reports = Accounted left payload_len ns

  module _ (limit : ℕ) (ends : EndsBy w limit) (batch : ℕ) (some_room : 0 < batch)
      (size count : ℕ) where
    Going : Receiving F S → Type 0
    Going s = Reports (s.metrics, s.source) × (length s.buf ≡ size) × (length s.lens ≡ count)

    measure : Receiving F S → ℕ
    measure s = length (left s.source) + (limit - s.at)

    Sound : ℕ → Round (Receiving F S) (FlowMetrics F × S) → Type 0
    Sound size = Keeps (λ s'. Going s' × (measure s' < size)) Reports

    when_idle-Sound :
        (s : Receiving F S) (o : BatchReceived) (size : ℕ)
        → Going s
        → measure s ≤ size
        → Sound size (when_idle fl source_ops w stride s o)
    unfolding when_idle Sound Keeps Going measure
    when_idle-Sound s (messages n) size g le = g.0
    when_idle-Sound s timeout size g le = elim (Bool-cases (is_done (w.phase s.at))) [
      | inl over ↦ rw over g.0
      | inr on ↦ let early = before_end w limit s.at ends on in rw on (g, omega arith)
    ]
    when_idle-Sound s closed size g le = g.0
    when_idle-Sound s broken size g le = g.0

    -- Messages have been delivered, and what accounts for them goes on from there.
    deliver :
        (m : FlowMetrics F) (s s' : S) (msgs : List (List ℕ)) (acc : Reports (m, s))
        → left s ≡ msgs ++ left s'
        → (a : List ℕ) × Carries payload_len a msgs
          × ((m' : FlowMetrics F) → Clean stride (acc.done ++ a) m' → Reports (m', s'))
    deliver m s s' msgs acc e =
        let (a, b, parts, front, back) =
          Carries-append payload_len acc.rest msgs (left s')
            (subst (λ l. Carries payload_len acc.rest l) e acc.to_come) in
        (
          a,
          front,
          λ m' c. record {
            done = acc.done ++ a;
            rest = b;
            split = acc.split ∙ ap (λ t. acc.done ++ t) parts ∙ sym (append_assoc acc.done a b);
            to_come = back;
            clean = c;
          },
        )

    fewer :
        (s s' : S) (msgs : List (List ℕ)) (n : ℕ)
        → left s ≡ msgs ++ left s'
        → length msgs ≡ n
        → 0 < n
        → length (left s') < length (left s)
    fewer s s' msgs n e size some_more = omega (arith, ap length e, length-append msgs (left s'))

    -- Another source with the same messages to come, and other contents of the buffers.
    kept :
        (s : Receiving F S) (source : S) (buf lens : List ℕ)
        → Going s
        → left s.source ≡ left source
        → length buf ≡ length s.buf
        → length lens ≡ length s.lens
        → Going (record s { source = source; buf = buf; lens = lens })
    unfolding Going
    kept s source buf lens g e hb hl = (
      record {
        done = g.0.done;
        rest = g.0.rest;
        split = g.0.split;
        to_come = subst (λ l. Carries payload_len g.0.rest l) e g.0.to_come;
        clean = g.0.clean;
      },
      hb ∙ g.1,
      hl ∙ g.2,
    )

    room :
        (s : Receiving F S)
        → Going s
        → (length s.buf ≡ size) × (length s.lens ≡ count) × Reports (s.metrics, s.source)
    unfolding Going
    room s g = (g.1, g.2, g.0)

    inplace_Sound :
        (s : Receiving F S) (o : BatchReceived) (msgs : List (List ℕ)) (source : S)
        → Going s
        → Receives (left s.source) msgs (left source) o
        → Sound (measure s) (after_inplace fl source_ops w stride s (o, msgs, source))
    unfolding after_inplace after_outcome Sound Keeps Going measure Receives ingest_each
    inplace_Sound s (messages n) msgs source g (e, size, some_more) =
        let (a, carried, account) = deliver s.metrics s.source source msgs g.0 e in
        let (later, c) =
          ingest_each-Clean fl source_ops w payload_len fits s.at g.0.done a s.metrics msgs carried
            g.0.clean in
        let less = fewer s.source source msgs n e size some_more in
        ((account _ c, g.1, g.2), omega arith)
    inplace_Sound s timeout msgs source g (e, is) = rw is (
        when_idle-Sound (record s { source = source }) timeout (measure s)
          (kept s source s.buf s.lens g e refl refl) (omega (arith, ap length e)))
    inplace_Sound s closed msgs source g (e, is) = rw is (
        when_idle-Sound (record s { source = source }) closed (measure s)
          (kept s source s.buf s.lens g e refl refl) (omega (arith, ap length e)))
    inplace_Sound s broken msgs source g (e, is) = rw is (
        when_idle-Sound (record s { source = source }) broken (measure s)
          (kept s source s.buf s.lens g e refl refl) (omega (arith, ap length e)))

    batch_Sound :
        (s : Receiving F S) (o : BatchReceived) (buf lens : List ℕ) (msgs : List (List ℕ))
        (source : S)
        → Going s
        → Receives (left s.source) msgs (left source) o
        → length buf ≡ length s.buf
        → length lens ≡ length s.lens
        → Laid stride buf lens 0 msgs
        → Sound (measure s) (
            after_batch fl source_ops w stride
              (record s { source = source; buf = buf; lens = lens })
              o)
    unfolding after_batch go_on Sound Keeps Going measure Receives
    batch_Sound s (messages n) buf lens msgs source g (e, size, some_more) hb hl laid =
        let (a, carried, account) = deliver s.metrics s.source source msgs g.0 e in
        let (m', ran, c) =
          ingest_slots-Clean fl source_ops w payload_len fits (is_measuring (w.phase (s.at + 1)))
            (w.clock s.at) buf lens 0 g.0.done a s.metrics msgs laid carried g.0.clean in
        let less = fewer s.source source msgs n e size some_more in
        rw (← size, ran) ((account m' c, hb ∙ g.1, hl ∙ g.2), omega arith)
    batch_Sound s timeout buf lens msgs source g (e, is) hb hl laid =
        when_idle-Sound (record s { source = source; buf = buf; lens = lens }) timeout (measure s)
          (kept s source buf lens g e hb hl) (omega (arith, ap length e))
    batch_Sound s closed buf lens msgs source g (e, is) hb hl laid =
        when_idle-Sound (record s { source = source; buf = buf; lens = lens }) closed (measure s)
          (kept s source buf lens g e hb hl) (omega (arith, ap length e))
    batch_Sound s broken buf lens msgs source g (e, is) hb hl laid =
        when_idle-Sound (record s { source = source; buf = buf; lens = lens }) broken (measure s)
          (kept s source buf lens g e hb hl) (omega (arith, ap length e))

    inplace_keeps :
        (s : Receiving F S)
        → Going s
        → Sound (measure s) (inplace_round fl source_ops w stride batch s)
    unfolding inplace_round
    inplace_keeps s g =
        let r = source_ops.recv_inplace s.source batch in
        inplace_Sound s r.0 r.1 r.2 g (contract.receives_inplace s.source batch some_room)

    batch_keeps :
        size ≡ stride * batch
        → count ≡ batch
        → (s : Receiving F S) → Going s
        → Sound (measure s) (batch_round fl source_ops w stride batch s)
    unfolding batch_round
    batch_keeps es ec s g =
        let r = source_ops.recv_batch s.source s.buf stride batch s.lens in
        let (sized, many, acc) = room s g in
        let (msgs, got, hb, hl, laid) =
          contract.receives s.source s.buf s.lens stride batch (sized ∙ es) (many ∙ ec) some_room
            (omega arith) (Carries-sized payload_len acc.rest (left s.source) acc.to_come) in
        batch_Sound s r.0 r.1 r.2 msgs r.3 g got hb hl laid

    inplace_returns :
        (fuel : ℕ) (s : Receiving F S)
        → Reports (s.metrics, s.source)
        → s.at ≡ 0
        → length s.buf ≡ size
        → length s.lens ≡ count
        → length (left s.source) + limit < fuel
        → Returns Reports (loop (inplace_round fl source_ops w stride batch) fuel s)
    unfolding Sound Going measure
    inplace_returns fuel s acc start hb hl enough =
        loop_returns (inplace_round fl source_ops w stride batch) Going Reports measure
          inplace_keeps fuel s (acc, hb, hl) (omega arith)

    batch_returns :
        size ≡ stride * batch
        → count ≡ batch
        → (fuel : ℕ) (s : Receiving F S) → Reports (s.metrics, s.source)
        → s.at ≡ 0
        → length s.buf ≡ size
        → length s.lens ≡ count
        → length (left s.source) + limit < fuel
        → Returns Reports (loop (batch_round fl source_ops w stride batch) fuel s)
    unfolding Sound Going measure
    batch_returns es ec fuel s acc start hb hl enough =
        loop_returns (batch_round fl source_ops w stride batch) Going Reports measure
          (batch_keeps es ec) fuel s (acc, hb, hl) (omega arith)

  close_Accounted :
      (size : ℕ) (e : Exit (FlowMetrics F × S))
      → Returns Reports e
      → Returns Reports (close_source fl source_ops w size e)
  unfolding close_source
  close_Accounted size e (r, is, acc) = (
    (r.0, source_ops.close r.1),
    rw is refl,
    record {
      done = acc.done;
      rest = acc.rest;
      split = acc.split;
      to_come = subst (λ l. Carries payload_len acc.rest l) (sym (contract.ends r.1)) acc.to_come;
      clean = acc.clean;
    },
  )

  -- Over a source that keeps its contract and is left to deliver whole messages with given
  -- numbers: where the phase flag reads done from some reading on, the receiver returns, with more
  -- rounds of fuel than those messages and readings together, and does not panic. A front part of
  -- the messages is accounted and the others are still to be delivered; of the front part it has
  -- recorded some, in order, with a latency each and their bytes, and counted no integrity failure
  -- and no boundary violation.
  pub receiver_loop_returns :
      (limit fuel : ℕ) (s : S)
      → EndsBy w limit
      → Carries payload_len ns (left s)
      → length (left s) + limit < fuel
      → Returns
          (Accounted left payload_len ns)
          (receiver_loop fl source_ops w fuel (message_len payload_len) s)
  unfolding receiver_loop
  receiver_loop_returns limit fuel s ends to_come enough =
      let batch = clamp (source_ops.preferred_batch s stride) 1 batch_abs_max in
      let acc : Reports (Flow.new fl, s) = record {
        done = [];
        rest = ns;
        split = refl;
        to_come = to_come;
        clean = new-Clean fl source_ops w payload_len fits;
      } in
      let some_room : 0 < batch = omega arith in
      elim (Bool-cases (source_ops.supports_inplace_recv s && leb zc_recv_min stride)) [
        | inl inplace ↦ rw inplace (
            close_Accounted stride _
              (inplace_returns limit ends batch some_room 0 0 fuel _ acc refl refl refl enough))
        | inr copy ↦ rw copy (
            close_Accounted stride _ (
              batch_returns limit ends batch some_room (stride * batch) batch refl refl fuel _ acc
                refl (length-replicate {A = ℕ} (stride * batch) 0)
                (length-replicate {A = ℕ} batch 0) enough))
      ]
