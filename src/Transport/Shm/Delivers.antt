-- ===== src/Transport/Shm/Delivers.antt =====
-- The source of src/transport/shm.rs keeps the contract of the trait, if the ring's client delivers
-- the ring's messages.
use mathlib.Core.Path.{subst}
use scg_seshat.Prelude.{
  ℕ, zero, suc, ◌+◌, ◌-◌, ◌*◌, ◌/◌, ◌≤◌, ◌<◌, ◌≡◌, ◌≢◌, refl, sym, ap, ◌∙◌, min, Bool, true, false,
  Option, none, some, List, [], ◌∷◌, ◌++◌, length, take, drop, slice, All, ◌==◌, ◌||◌, ltb,
  if◌then◌else◌, length-take, length-drop, arith,
}
use native.Mathlib.Nat.{le-mul_of_pos_right, mul-div_cancel_left, mul-le-mul_right, div-mul-le_self}
use scg_seshat.Prelude.Result.{Result, ok, err}
use scg_seshat.Framing.{put_slot, put_len}
use scg_seshat.Framing.Batch.Slots.{next_slot}
use scg_seshat.Transport.{BatchReceived, messages, timeout, closed, broken}
use scg_seshat.Transport.Contract.{Laid, Receives, SourceContract}
use scg_seshat.Transport.Shm.Source.{
  ScgReceiver, ShmSource, error_outcome, after_first, recv_batch, peeked, peek_all, handed,
  after_wait, recv_inplace, shm_source,
}
use scg_seshat.Transport.Shm.Slot.{filled, length-filled, put_front, length-put_front}
use scg_seshat.Transport.Shm.Drain.{
  Pops, ReceiverContract, Pops-none, Pops-error, Drained, Fit, Drained-one, drain-Drained,
}

closed-≢-messages : (n : ℕ) → closed ≢ messages n
closed-≢-messages n e = cc

broken-≢-messages : (n : ℕ) → broken ≢ messages n
broken-≢-messages n e = cc

-- The branches of a test that both are not `messages n`.
neither : (b : Bool) (n : ℕ) → (if b then closed else broken) ≢ messages n
neither true n = closed-≢-messages n
neither false n = broken-≢-messages n

number : BatchReceived → ℕ
number (messages n) = n
number _ = 0

module _ {E C : Type 0} (ops : ScgReceiver E C) (queue : C → List (List ℕ))
    (contract : ReceiverContract ops queue) (stride : ℕ) where
  -- What `Receives` and the lengths of the buffers say of the whole call.
  Received : List ℕ → List ℕ → List (List ℕ) → BatchReceived × List ℕ × List ℕ × C → Type 0
  Received buf lens q (o, buf', lens', c) =
      (msgs : List (List ℕ)) × Receives q msgs (queue c) o
      × (length buf' ≡ length buf)
      × (length lens' ≡ length lens)
      × Laid stride buf' lens' 0 msgs

  drained_all :
      (out lrest : List ℕ) (m : List ℕ) (ms : List (List ℕ)) (l : ℕ)
      (r : BatchReceived × List ℕ × List ℕ × C)
      → Drained ops queue contract stride 0 [] out [] (l ∷ lrest) (m ∷ ms) r
      → ((n : ℕ) → r.0 ≡ messages n → 0 < n)
      → Received out (l ∷ lrest) (m ∷ ms) r
  unfolding Drained Received Receives
  drained_all out lrest m ms l (messages n, buf, lens, c)
        (msgs, out', l', e, is, eb, el, so, sl, laid) some_more =
      (
        msgs,
        (e, omega arith, some_more n refl),
        omega (arith, ap length eb),
        omega (arith, ap length el),
        laid,
      )
  drained_all out lrest m ms l (timeout, buf, lens, c) h some_more = elim h [ ]
  drained_all out lrest m ms l (closed, buf, lens, c) h some_more = elim h [ ]
  drained_all out lrest m ms l (broken, buf, lens, c) h some_more = elim h [ ]

  -- At least the messages that were there before.
  at_least :
      (count : ℕ) (done out ldone lrest : List ℕ) (q : List (List ℕ))
      (r : BatchReceived × List ℕ × List ℕ × C) (n : ℕ)
      → Drained ops queue contract stride (count + 1) done out ldone lrest q r
      → r.0 ≡ messages n
      → 0 < n
  unfolding Drained number
  at_least count done out ldone lrest q (messages k, buf, lens, c) n h e =
      let same : k ≡ n = ap number e in omega (arith, h.4)
  at_least count done out ldone lrest q (timeout, buf, lens, c) n h e = elim h [ ]
  at_least count done out ldone lrest q (closed, buf, lens, c) n h e = elim h [ ]
  at_least count done out ldone lrest q (broken, buf, lens, c) n h e = elim h [ ]

  none_received :
      (o : BatchReceived) (q : List (List ℕ)) (out lrest buf' : List ℕ) (c : C)
      → ((n : ℕ) → o ≢ messages n)
      → queue c ≡ q
      → length buf' ≡ length out
      → Received out lrest q (o, buf', lrest, c)
  unfolding Received Receives Laid
  none_received (messages n) q out lrest buf' c never e size = absurd (never n refl)
  none_received timeout q out lrest buf' c never e size = ([], (sym e, refl), size, refl, tt)
  none_received closed q out lrest buf' c never e size = ([], (sym e, refl), size, refl, tt)
  none_received broken q out lrest buf' c never e size = ([], (sym e, refl), size, refl, tt)

  no_messages : (e : E) (n : ℕ) → error_outcome ops e ≢ messages n
  unfolding error_outcome
  no_messages e n h = neither _ n h

  after_first-Received :
      (cap : ℕ) (out : List ℕ) (l : ℕ) (lrest : List ℕ) (q : List (List ℕ))
      (r : Result E (Option (ℕ × ℕ))) (slot : List ℕ) (c : C)
      → 0 < cap
      → cap * stride ≤ length out
      → cap ≤ suc (length lrest)
      → Fit ops queue contract stride q
      → Pops (take stride out) q r slot (queue c)
      → Received out
          (l ∷ lrest)
          q
          (after_first ops cap stride (put_slot 0 stride slot out) (l ∷ lrest) c r)
  unfolding after_first Pops Fit put_len
  after_first-Received zero out l lrest q r slot c some_room room many fit p = elim some_room [ ]
  after_first-Received (suc rounds) out l lrest (m ∷ ms) (ok (some (id, len))) slot c some_room room
        many fit (is_len, is_slot, left) =
      let here : stride ≤ length out = omega (arith, next_slot rounds stride) in
      let none_yet : length {A = ℕ} [] ≡ 0 * stride = omega arith in
      let put = put_front stride out slot m fit.0 here (unfold filled in is_slot) in
      let sized = length-filled stride 0 [] out [] l lrest m none_yet refl here fit.0 in
      let from_one =
        drain-Drained ops queue contract stride rounds 1 (filled stride out m) (drop stride out)
          (length m ∷ []) lrest ms c (omega (arith, sized)) refl
          (omega (arith, next_slot rounds stride, length-drop stride out)) (omega arith) fit.1
          left in
      let fewer : suc rounds - 1 ≡ rounds = omega arith in
      rw (is_len, put, fewer)
        (drained_all out lrest m ms l _
          (Drained-one ops queue contract stride 0 [] out [] l lrest m ms none_yet refl here fit.0 _
            from_one)
          (λ n e.
            at_least 0 (filled stride out m) (drop stride out) (length m ∷ []) lrest ms _ n from_one
              e))
  after_first-Received (suc rounds) out l lrest [] (ok (some got)) slot c some_room room many fit
        p =
      elim p [ ]
  after_first-Received (suc rounds) out l lrest q (ok none) slot c some_room room many fit p =
      let here : stride ≤ length out = omega (arith, next_slot rounds stride) in
      let (size, left) = Pops-none E (take stride out) q slot (queue c) p in
      none_received timeout q out (l ∷ lrest) _ c (λ n e. cc) left
        (length-put_front stride out slot here (omega (arith, size, length-take stride out)))
  after_first-Received (suc rounds) out l lrest q (err e) slot c some_room room many fit p =
      let here : stride ≤ length out = omega (arith, next_slot rounds stride) in
      let (size, left) = Pops-error (take stride out) q e slot (queue c) p in
      none_received (error_outcome ops e) q out (l ∷ lrest) _ c (no_messages e) left
        (length-put_front stride out slot here (omega (arith, size, length-take stride out)))

  left : ShmSource C → List (List ℕ)
  left s = queue s.client

  received_batch :
      (s : ShmSource C) (buf lens : List ℕ) (max : ℕ)
      → length buf ≡ stride * max
      → length lens ≡ max
      → 0 < max
      → 0 < stride
      → Fit ops queue contract stride (queue s.client)
      → let r = recv_batch ops s buf stride max lens in
        Received buf lens (left s) (r.0, r.1, r.2, r.3.client)
  unfolding recv_batch left
  received_batch s buf [] max hb hl some_max some_stride fit = absurd (omega arith)
  received_batch s buf (l ∷ lrest) max hb hl some_max some_stride fit =
      let here : stride ≤ length buf = omega (arith, le-mul_of_pos_right stride some_max, hb) in
      let enough : length buf / stride ≡ max =
        ap (λ k. k / stride) hb ∙ mul-div_cancel_left max some_stride in
      let guard : (max == 0 || stride == 0 || ltb (length buf) stride || false) ≡ false =
        ground arith in
      let cap = min (min max (length buf / stride)) (suc (length lrest)) in
      let whole = slice 0 stride buf in
      let front : whole ≡ take stride buf = ap (λ k. take k buf) (omega arith) in
      let r = ops.recv_into s.client whole s.timeout_ms in
      let width : stride ≡ length whole = omega (arith, ap length front, length-take stride buf) in
      let popped = contract.pops s.client whole s.timeout_ms (
        subst (λ k. All (λ (m : List ℕ). length m ≤ k) (queue s.client)) width
          (unfold Fit in fit)) in
      rw guard (
        after_first-Received cap buf l lrest (queue s.client) r.0 r.1 r.2 (omega arith)
          (omega (
            arith,
            mul-le-mul_right {m = cap} {n = length buf / stride} stride (omega arith),
            div-mul-le_self (length buf) stride,
          ))
          (omega arith) fit (subst (λ x. Pops x (queue s.client) r.0 r.1 (queue r.2)) front popped))

  peeked-queue :
      (c : C) (front : Option (ℕ × List ℕ)) (rest : List (List ℕ) × C)
      → ops.peek_payload c ≡ front
      → queue (ops.advance_recv c) ≡ rest.0 ++ queue rest.1
      → let r = peeked ops front rest c in queue c ≡ r.0 ++ queue r.1
  unfolding peeked
  peeked-queue c none rest e h = refl
  peeked-queue c (some (id, m)) rest e h = contract.peeks c id m e ∙ ap (λ t. m ∷ t) h

  peek_all-queue :
      (rounds : ℕ) (c : C) → let r = peek_all ops rounds c in queue c ≡ r.0 ++ queue r.1
  unfolding peek_all
  peek_all-queue zero c = refl
  peek_all-queue (suc rounds) c =
      peeked-queue c (ops.peek_payload c) (peek_all ops rounds (ops.advance_recv c)) refl
        (peek_all-queue rounds (ops.advance_recv c))

  handed-Receives :
      (s : ShmSource C) (msgs : List (List ℕ)) (c : C)
      → queue s.client ≡ msgs ++ queue c
      → let r = handed ops s (msgs, c) in Receives (left s) r.1 (left r.2) r.0
  unfolding handed Receives left
  handed-Receives s [] c e = (e, refl)
  handed-Receives s (m ∷ ms) c e =
      let some_more : (suc (length ms) == 0) ≡ false = ground arith in
      rw some_more (e, refl, omega arith)

  not_messages :
      (s s' : ShmSource C) (o : BatchReceived)
      → ((n : ℕ) → o ≢ messages n)
      → left s' ≡ left s
      → Receives (left s) [] (left s') o
  unfolding Receives
  not_messages s s' (messages n) never e = absurd (never n refl)
  not_messages s s' timeout never e = (sym e, refl)
  not_messages s s' closed never e = (sym e, refl)
  not_messages s s' broken never e = (sym e, refl)

  after_wait-Receives :
      (s : ShmSource C) (max : ℕ) (r : Result E Bool) (c : C)
      → queue c ≡ queue s.client
      → let t = after_wait ops s max (r, c) in Receives (left s) t.1 (left t.2) t.0
  unfolding after_wait left
  after_wait-Receives s max (ok true) c e =
      let all = peek_all ops max c in
      unfold left in handed-Receives s all.0 all.1 (sym e ∙ peek_all-queue max c)
  after_wait-Receives s max (ok false) c e =
      not_messages s (record s { client = c }) timeout (λ n e. cc) e
  after_wait-Receives s max (err x) c e =
      not_messages s (record s { client = c }) (error_outcome ops x) (no_messages x) e

module _ {E C : Type 0} (ops : ScgReceiver E C) (queue : C → List (List ℕ))
    (contract : ReceiverContract ops queue) where
  -- So the shared-memory source delivers the ring's messages whole and in order.
  pub shm_source-SourceContract : SourceContract (shm_source ops) (λ s. queue s.client)
  unfolding shm_source left
  shm_source-SourceContract = record {
    receives = λ s buf lens stride max hb hl some_max some_stride fit.
        unfold Received Fit in
        received_batch ops queue contract stride s buf lens max hb hl some_max some_stride fit;
    receives_inplace = λ s max some_max.
        unfold recv_inplace in
        after_wait-Receives ops queue contract 0 s max (ops.wait_readable s.client s.timeout_ms).0 _
          (contract.waits s.client s.timeout_ms);
    ends = λ s. refl;
  }
