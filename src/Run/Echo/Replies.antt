-- ===== src/Run/Echo/Replies.antt =====
-- What the echo server of src/run/engine.rs sends back.
use scg_seshat.Prelude.{
  ℕ, suc, append-nil, ◌+◌, ◌-◌, ◌<◌, ◌≡◌, refl, sym, ap, ◌∙◌, some, List, [], ◌∷◌, ◌++◌, length,
  length-replicate, append_assoc, get_range, ◌⊎◌, inl, inr, Bool-cases, arith,
}
use scg_seshat.Prelude.Loop.{Exit, Keeps, Returns, loop_returns}
use scg_seshat.Transport.{
  SendOutcome, sent, would_block, failed, Received, message, nothing, shut, lost, DuplexEnd,
}
use scg_seshat.Run.{World, is_done, EndsBy}
use scg_seshat.Run.Sender.Progress.{before_end}
use scg_seshat.Run.Echo.{
  Echo, after_reply, reply, after_request, echo_round, close_server, echo_loop,
}

-- What was to come before a call and is to come after it, by the outcome and the buffer.
unfoldable pub Hears : List (List ℕ) → List (List ℕ) → List ℕ → Received → Type 0
Hears before after buf (message n) =
    (m : List ℕ) × (before ≡ m ∷ after) × (get_range 0 n buf ≡ some m)
Hears before after buf _ = after ≡ before

unfoldable pub Says : List (List ℕ) → List (List ℕ) → List ℕ → SendOutcome → Type 0
Says before after m sent = after ≡ before ++ m ∷ []
Says before after m _ = after ≡ before

-- What is relied on of the end: with a buffer of `size`, which holds every message, it hears the
-- messages to come in order, and what it accepts is sent.
pub record EchoContract {S : Type 0} (ops : DuplexEnd S) (size : ℕ)
    (incoming outgoing : S → List (List ℕ)) : Type 0 where
  pub hears :
      (s : S) (buf : List ℕ)
      → length buf ≡ size
      → let r = ops.recv_msg s buf in Hears (incoming s) (incoming r.2) r.1 r.0
  pub keeps_size : (s : S) (buf : List ℕ) → length (ops.recv_msg s buf).1 ≡ length buf
  pub quiet : (s : S) (buf : List ℕ) → outgoing (ops.recv_msg s buf).2 ≡ outgoing s
  pub says :
      (s : S) (m : List ℕ) → let r = ops.send_msg s m in Says (outgoing s) (outgoing r.1) m r.0
  pub deaf : (s : S) (m : List ℕ) → incoming (ops.send_msg s m).1 ≡ incoming s
  pub closes :
      (s : S) → (incoming (ops.close s) ≡ incoming s) × (outgoing (ops.close s) ≡ outgoing s)

module _ {S : Type 0} (ops : DuplexEnd S) (w : World) (size : ℕ)
    (incoming outgoing : S → List (List ℕ)) (contract : EchoContract ops size incoming outgoing)
    (start : S) where
  -- The messages heard so far are the messages sent back.
  Echoing : Echo S → Type 0
  Echoing s =
      (heard : List (List ℕ)) × (incoming start ≡ heard ++ incoming s.server)
      × (outgoing s.server ≡ outgoing start ++ heard)
      × (length s.buf ≡ size)

  -- At the end one message may have been heard that could not be sent back.
  unfoldable pub Echoed : S → Type 0
  Echoed s =
      (heard : List (List ℕ)) × (outgoing s ≡ outgoing start ++ heard)
      × ((incoming start ≡ heard ++ incoming s)
          ⊎ ((m : List ℕ) × (incoming start ≡ heard ++ m ∷ incoming s)))

  module _ (limit : ℕ) (ends : EndsBy w limit) where
    left : Echo S → ℕ
    left s = length (incoming s.server) + (limit - s.at)

    -- The state is the one behind `recv_msg` and the reply, before it is known whether it was sent.
    after_reply-Keeps :
        (n : ℕ) (s : Echo S) (m : List ℕ) (before : List (List ℕ)) (heard : List (List ℕ))
        (o : SendOutcome)
        → incoming start ≡ heard ++ m ∷ incoming s.server
        → before ≡ outgoing start ++ heard
        → Says before (outgoing s.server) m o
        → length s.buf ≡ size
        → left s < n
        → Keeps (λ t. Echoing t × (left t < n)) Echoed (after_reply ops w s o)
    unfolding after_reply Keeps Echoing Echoed Says
    after_reply-Keeps n s m before heard sent e b said fits less = (
      (
        heard ++ m ∷ [],
        e ∙ sym (append_assoc heard (m ∷ []) (incoming s.server)),
        said ∙ ap (λ a. a ++ m ∷ []) b ∙ append_assoc (outgoing start) heard (m ∷ []),
        fits,
      ),
      less,
    )
    after_reply-Keeps n s m before heard would_block e b said fits less =
        (heard, said ∙ b, inr (m, e))
    after_reply-Keeps n s m before heard failed e b said fits less = (heard, said ∙ b, inr (m, e))

    after_request-Keeps :
        (n : ℕ) (s : Echo S) (before : List (List ℕ)) (heard : List (List ℕ)) (o : Received)
        → incoming start ≡ heard ++ before
        → outgoing s.server ≡ outgoing start ++ heard
        → Hears before (incoming s.server) s.buf o
        → length s.buf ≡ size
        → length before + (limit - s.at) ≡ n
        → Keeps (λ t. Echoing t × (left t < n)) Echoed (after_request ops w s o)
    unfolding after_request reply Keeps Echoing Echoed Hears left
    after_request-Keeps n s before heard (message k) e out (m, cons, got) fits less =
        let r = ops.send_msg s.server m in
        let same = contract.deaf s.server m in
        let shorter : length before ≡ suc (length (incoming r.1)) =
          ap length cons ∙ ap (λ a. suc (length a)) (sym same) in
        rw got (
          unfold Echoing Echoed in
          after_reply-Keeps n (record s { server = r.1 }) m (outgoing s.server) heard r.0
            (e ∙ ap (λ a. heard ++ a) (cons ∙ ap (λ a. m ∷ a) (sym same))) out
            (contract.says s.server m) fits (unfold left in omega (arith, shorter, less)))
    after_request-Keeps n s before heard nothing e out same fits less =
        elim (Bool-cases (is_done (w.phase s.at))) [
          | inl over ↦ rw over (heard, out, inl (e ∙ ap (λ a. heard ++ a) (sym same)))
          | inr on ↦
              let early = before_end w limit s.at ends on in
              rw on (
                (heard, e ∙ ap (λ a. heard ++ a) (sym same), out, fits),
                omega (arith, ap length same, less, early),
              )
        ]
    after_request-Keeps n s before heard shut e out same fits less =
        (heard, out, inl (e ∙ ap (λ a. heard ++ a) (sym same)))
    after_request-Keeps n s before heard lost e out same fits less =
        (heard, out, inl (e ∙ ap (λ a. heard ++ a) (sym same)))

    echo_round-Keeps :
        (s : Echo S)
        → Echoing s
        → Keeps (λ t. Echoing t × (left t < left s)) Echoed (echo_round ops w s)
    unfolding echo_round Echoing left
    echo_round-Keeps s (heard, e, out, fits) =
        let r = ops.recv_msg s.server s.buf in
        unfold Echoing left in
        after_request-Keeps (left s) (record s { server = r.2; buf = r.1 }) (incoming s.server)
          heard r.0 e (contract.quiet s.server s.buf ∙ out) (contract.hears s.server s.buf fits)
          (contract.keeps_size s.server s.buf ∙ fits) refl

    closed_server : (e : Exit S) → Returns Echoed e → Returns Echoed (close_server ops w e)
    unfolding close_server Echoed
    closed_server e (s, is, (heard, out, or)) =
        let (same_in, same_out) = contract.closes s in
        (
          ops.close s,
          rw is refl,
          (
            heard,
            same_out ∙ out,
            elim or [
              | inl all ↦ inl (all ∙ ap (λ a. heard ++ a) (sym same_in))
              | inr (m, all) ↦ inr (m, all ∙ ap (λ a. heard ++ m ∷ a) (sym same_in))
            ],
          ),
        )

    -- Over an end that hears the messages to come in order, each of which the buffer holds, and
    -- that has sent what it accepts: where the phase flag reads done from some reading on, the
    -- echo server returns, with more rounds of fuel than those messages and readings together, and
    -- does not panic. It has sent back, in order and unchanged, exactly the messages it has heard,
    -- but for the last one where the end refused it; the others are still to come.
    pub echo_loop-Echoed :
        (fuel : ℕ)
        → length (incoming start) + limit < fuel
        → Returns Echoed (echo_loop ops w fuel size start)
    unfolding echo_loop Echoing left
    echo_loop-Echoed fuel enough = closed_server _ (
        loop_returns (echo_round ops w) Echoing Echoed left echo_round-Keeps fuel _
          ([], refl, sym (append-nil (outgoing start)), length-replicate size 0) (omega arith))
