-- ===== src/Transport/Shm/Drain.antt =====
-- The loop of `recv_batch` of src/transport/shm.rs that empties the ring, over a client that
-- delivers the ring's messages.
use mathlib.Core.Path.{subst}
use scg_seshat.Prelude.{
  ℕ, zero, suc, ◌+◌, ◌*◌, ◌≤◌, ◌≡◌, ◌≢◌, refl, sym, ap, ◌∙◌, Option, none, some, List, [], ◌∷◌,
  ◌++◌, length, take, drop, slice, All, length-append, length-take, length-drop, append_assoc,
  take-append-drop, arith,
}
use scg_seshat.Prelude.Result.{Result, ok, err}
use scg_seshat.Framing.{put_slot, put_len}
use scg_seshat.Framing.Batch.Slots.{put_slot-append, next_slot, slice_here}
use scg_seshat.Transport.{BatchReceived, messages, timeout, closed, broken}
use scg_seshat.Transport.Contract.{Laid}
use scg_seshat.Transport.Shm.Source.{ScgReceiver, drain}
use scg_seshat.Transport.Shm.Slot.{
  filled, length-filled, put_filled, put_length, get_filled, get_length,
}

-- What one call leaves of the messages in the ring, and writes in the slot.
unfoldable pub Pops :
    {E : Type 0}
    → List ℕ
    → List (List ℕ)
    → Result E (Option (ℕ × ℕ))
    → List ℕ
    → List (List ℕ)
    → Type 0
Pops slot (m ∷ ms) (ok (some (id, len))) slot' q =
    (len ≡ length m) × (slot' ≡ m ++ drop (length m) slot) × (q ≡ ms)
Pops slot [] (ok (some got)) slot' q = ⊥
Pops slot ms (ok none) slot' q = (length slot' ≡ length slot) × (q ≡ ms)
Pops slot ms (err e) slot' q = (length slot' ≡ length slot) × (q ≡ ms)

-- What is relied on of the client: a call pops the first message of the ring, whole, or leaves the
-- ring as it is; and a call that does not wait reports no error.
pub record ReceiverContract {E C : Type 0} (ops : ScgReceiver E C) (queue : C → List (List ℕ))
    : Type 0 where
  pub pops :
      (c : C) (slot : List ℕ) (time : ℕ)
      → All (λ (m : List ℕ). length m ≤ length slot) (queue c)
      → let r = ops.recv_into c slot time in Pops slot (queue c) r.0 r.1 (queue r.2)
  pub tries :
      (c : C) (slot : List ℕ)
      → All (λ (m : List ℕ). length m ≤ length slot) (queue c)
      → let r = ops.try_recv_into c slot in Pops slot (queue c) r.0 r.1 (queue r.2)
  pub never_fails : (c : C) (slot : List ℕ) (e : E) → (ops.try_recv_into c slot).0 ≢ err e
  pub waits : (c : C) (time : ℕ) → queue (ops.wait_readable c time).1 ≡ queue c
  pub peeks :
      (c : C) (id : ℕ) (m : List ℕ)
      → ops.peek_payload c ≡ some (id, m)
      → queue c ≡ m ∷ queue (ops.advance_recv c)

pub Pops-none :
    (E : Type 0) (slot : List ℕ) (q : List (List ℕ)) (slot' : List ℕ) (q' : List (List ℕ))
    → Pops {E = E} slot q (ok none) slot' q'
    → (length slot' ≡ length slot) × (q' ≡ q)
unfolding Pops
Pops-none E slot [] slot' q' p = p
Pops-none E slot (m ∷ ms) slot' q' p = p

pub Pops-error :
    {E : Type 0} (slot : List ℕ) (q : List (List ℕ)) (e : E) (slot' : List ℕ) (q' : List (List ℕ))
    → Pops {E = E} slot q (err e) slot' q'
    → (length slot' ≡ length slot) × (q' ≡ q)
unfolding Pops
Pops-error slot [] e slot' q' p = p
Pops-error slot (m ∷ ms) e slot' q' p = p

module _ {E C : Type 0} (ops : ScgReceiver E C) (queue : C → List (List ℕ))
    (contract : ReceiverContract ops queue) (stride : ℕ) where
  -- Behind `count` messages that are in their slots already.
  unfoldable pub Drained :
      ℕ
      → List ℕ
      → List ℕ
      → List ℕ
      → List ℕ
      → List (List ℕ)
      → BatchReceived × List ℕ × List ℕ × C
      → Type 0
  Drained count done out ldone lrest q (messages n, buf, lens, c) =
      (msgs : List (List ℕ)) × (out' : List ℕ) × (l' : List ℕ) × (q ≡ msgs ++ queue c)
      × (n ≡ count + length msgs)
      × (buf ≡ done ++ out')
      × (lens ≡ ldone ++ l')
      × (length out' ≡ length out)
      × (length l' ≡ length lrest)
      × Laid stride buf lens count msgs
  Drained count done out ldone lrest q _ = ⊥

  unfoldable pub Fit : List (List ℕ) → Type 0
  Fit = All (λ (m : List ℕ). length m ≤ stride)

  -- Nothing more was there.
  pub Drained-idle :
      (count : ℕ) (done out ldone lrest slot : List ℕ) (q : List (List ℕ)) (c : C)
      → length done ≡ count * stride
      → stride ≤ length out
      → length slot ≡ stride
      → queue c ≡ q
      → Drained count done out ldone lrest q (
        messages count,
        put_slot (count * stride) (count * stride + stride) slot (done ++ out),
        ldone ++ lrest,
        c,
      )
  unfolding Drained Laid
  Drained-idle count done out ldone lrest slot q c hd room size e =
      let put =
        ap (λ o. put_slot (count * stride) (count * stride + stride) slot (done ++ o))
          (sym (take-append-drop stride out))
        ∙ put_slot-append done (take stride out) slot (drop stride out) (count * stride)
            (count * stride + stride) (sym hd) (omega (arith, length-take stride out)) in
      (
        [],
        slot ++ drop stride out,
        lrest,
        sym e,
        omega arith,
        put,
        refl,
        omega (arith, length-append slot (drop stride out), length-drop stride out),
        refl,
        tt,
      )

  -- One more message in front of what follows it.
  pub Drained-one :
      (count : ℕ) (done out ldone : List ℕ) (l : ℕ) (lrest m : List ℕ) (q : List (List ℕ))
      (hd : length done ≡ count * stride) (hl : length ldone ≡ count) (room : stride ≤ length out)
      (fits : length m ≤ stride) (r : BatchReceived × List ℕ × List ℕ × C)
      → Drained
          (count + 1)
          (done ++ filled stride out m)
          (drop stride out)
          (ldone ++ length m ∷ [])
          lrest
          q
          r
      → Drained count done out ldone (l ∷ lrest) (m ∷ q) r
  unfolding Drained Laid
  Drained-one count done out ldone l lrest m q hd hl room fits (messages n, buf, lens, c)
        (msgs, out', l', e, is, eb, el, so, sl, laid) =
      let f = filled stride out m in
      (
        m ∷ msgs,
        f ++ out',
        length m ∷ l',
        ap (λ t. m ∷ t) e,
        omega arith,
        eb ∙ append_assoc done f out',
        el ∙ append_assoc ldone (length m ∷ []) l',
        omega (
          arith,
          length-append f out',
          length-filled stride count done out ldone l lrest m hd hl room fits,
          length-drop stride out,
        ),
        omega arith,
        (
          rw el (get_length stride count done out ldone l lrest m hd hl room fits l'),
          rw eb (get_filled stride count done out ldone l lrest m hd hl room fits out'),
          laid,
        ),
      )
  Drained-one count done out ldone l lrest m q hd hl room fits (timeout, buf, lens, c) h = h
  Drained-one count done out ldone l lrest m q hd hl room fits (closed, buf, lens, c) h = h
  Drained-one count done out ldone l lrest m q hd hl room fits (broken, buf, lens, c) h = h

  pub after_try :
      (rounds count : ℕ) (done out ldone : List ℕ) (l : ℕ) (lrest : List ℕ) (q : List (List ℕ))
      (r : Result E (Option (ℕ × ℕ))) (slot : List ℕ) (c : C)
      → length done ≡ count * stride
      → length ldone ≡ count
      → stride ≤ length out
      → Fit q
      → Pops (take stride out) q r slot (queue c)
      → ((e : E) → r ≢ err e)
      → ((done' ldone' : List ℕ) (q' : List (List ℕ))
          → length done' ≡ (count + 1) * stride
          → length ldone' ≡ count + 1
          → Fit q'
          → queue c ≡ q'
          → Drained
              (count + 1)
              done'
              (drop stride out)
              ldone'
              lrest
              q'
              (drain ops rounds (count + 1) stride (done' ++ drop stride out) (ldone' ++ lrest) c))
      → let base = count * stride in
        let buf' = put_slot base (base + stride) slot (done ++ out) in
        Drained count done out ldone (l ∷ lrest) q (elim r [
          | ok got ↦ elim got [
            | some (id, len) ↦
                drain ops rounds (count + 1) stride buf' (put_len count len (ldone ++ l ∷ lrest)) c
            | none ↦ (messages count, buf', ldone ++ l ∷ lrest, c)
          ]
          | err e ↦ (broken, buf', ldone ++ l ∷ lrest, c)
        ])
  unfolding Pops Fit
  after_try rounds count done out ldone l lrest (m ∷ ms) (ok (some (id, len))) slot c hd hl room fit
        (is_len, is_slot, left) ok_only ih =
      let put = put_filled stride count done out ldone l lrest m hd hl room fit.0 in
      let sized = length-filled stride count done out ldone l lrest m hd hl room fit.0 in
      let is' : slot ≡ filled stride out m = unfold filled in is_slot in
      Drained-one count done out ldone l lrest m ms hd hl room fit.0 _ (
        rw (is_len, is', put, put_length stride count done out ldone l lrest m hd hl room fit.0)
          (ih (done ++ filled stride out m) (ldone ++ length m ∷ []) ms
            (omega
              (arith, length-append done (filled stride out m), sized, next_slot count stride, hd))
            (omega (arith, length-append ldone (length m ∷ []), hl)) fit.1 left))
  after_try rounds count done out ldone l lrest [] (ok (some got)) slot c hd hl room fit p ok_only
        ih =
      elim p [ ]
  after_try rounds count done out ldone l lrest [] (ok none) slot c hd hl room fit p ok_only ih =
      Drained-idle count done out ldone (l ∷ lrest) slot [] c hd room
        (omega (arith, p.0, length-take stride out)) p.1
  after_try rounds count done out ldone l lrest (m ∷ ms) (ok none) slot c hd hl room fit p ok_only
        ih =
      Drained-idle count done out ldone (l ∷ lrest) slot (m ∷ ms) c hd room
        (omega (arith, p.0, length-take stride out)) p.1
  after_try rounds count done out ldone l lrest q (err e) slot c hd hl room fit p ok_only ih =
      absurd (ok_only e refl)

  pub drain-Drained :
      (rounds count : ℕ) (done out ldone lrest : List ℕ) (q : List (List ℕ)) (c : C)
      → length done ≡ count * stride
      → length ldone ≡ count
      → rounds * stride ≤ length out
      → rounds ≤ length lrest
      → Fit q
      → queue c ≡ q
      → Drained count done out ldone lrest q
          (drain ops rounds count stride (done ++ out) (ldone ++ lrest) c)
  unfolding drain Drained Fit Laid
  drain-Drained zero count done out ldone lrest q c hd hl room many fit e =
      ([], out, lrest, sym e, omega arith, refl, refl, refl, refl, tt)
  drain-Drained (suc rounds) count done out ldone [] q c hd hl room many fit e = elim many [ ]
  drain-Drained (suc rounds) count done out ldone (l ∷ lrest) q c hd hl room many fit e =
      let here : stride ≤ length out = omega (arith, next_slot rounds stride) in
      let slot : slice (count * stride) (count * stride + stride) (done ++ out) ≡ take stride out =
        ap (λ k. slice (count * stride) k (done ++ out)) (sym (next_slot count stride))
        ∙ slice_here count stride done out hd here in
      let whole = slice (count * stride) (count * stride + stride) (done ++ out) in
      let width : stride ≡ length whole = omega (arith, ap length slot, length-take stride out) in
      let r = ops.try_recv_into c whole in
      let popped = contract.tries c whole (
        subst (λ k. All (λ (m : List ℕ). length m ≤ k) (queue c)) width
          (subst (λ x. All (λ (m : List ℕ). length m ≤ stride) x) (sym e) fit)) in
      after_try rounds count done out ldone l lrest q r.0 r.1 r.2 hd hl here fit
        (subst (λ x. Pops (take stride out) x r.0 r.1 (queue r.2)) e
          (subst (λ x. Pops x (queue c) r.0 r.1 (queue r.2)) slot popped))
        (contract.never_fails c whole)
        (λ done' ldone' q' hd' hl' fit' e'.
          drain-Drained rounds (count + 1) done' (drop stride out) ldone' lrest q' r.2 hd' hl'
            (omega (arith, next_slot rounds stride, length-drop stride out)) (omega arith) fit' e')
