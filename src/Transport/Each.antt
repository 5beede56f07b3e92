-- ===== src/Transport/Each.antt =====
-- The trait's own `send_batch` (src/transport/mod.rs) keeps the contract if `send_msg` does.
use mathlib.Core.Bool.{false}
use mathlib.Core.Path.{subst}
use scg_seshat.Prelude.{
  ℕ, zero, suc, ◌+◌, ◌<◌, ◌≡◌, refl, sym, ap, ◌∙◌, ◌⊎◌, inl, inr, some, List, [], ◌∷◌, ◌++◌, length,
  take, get_elem?, append_assoc, append-nil, ◌==◌, if◌then◌else◌, arith,
}
use scg_seshat.Transport.{
  SendOutcome, sent, would_block, failed, BatchOutcome, accepted, refused, send_each,
}
use scg_seshat.Transport.Contract.{HandsOver, Sends, SendsBatch}

unfoldable pub IsError : SendOutcome → Type 0
IsError sent = ⊥
IsError would_block = Unit
IsError failed = Unit

module _ {S : Type 0} (log : S → List (List ℕ)) (send_msg : S → List ℕ → SendOutcome × S) where
  -- The message number `n` was tried behind those before it, and the call that tried it, with the
  -- error `o`, is the last.
  unfoldable pub StopsAt : S → List (List ℕ) → ℕ → SendOutcome → S → Type 0
  StopsAt s msgs n o s' =
      (t : S) × (m : List ℕ) × (get_elem? msgs n ≡ some m)
      × (log t ≡ log s ++ take n msgs)
      × (send_msg t m ≡ (o, s'))
      × IsError o

  -- A batch is answered with the number of messages handed over: all of them, or those before the
  -- first that was not accepted, at least one; and with its error if that is the very first.
  unfoldable pub AnswersBatch : S → List (List ℕ) → BatchOutcome → S → Type 0
  AnswersBatch s msgs (accepted n) s' =
      HandsOver log s msgs s' n
      × ((n ≡ length msgs) ⊎ ((0 < n) × (o : SendOutcome) × StopsAt s msgs n o s'))
  AnswersBatch s msgs (refused o) s' = HandsOver log s msgs s' 0 × StopsAt s msgs 0 o s'

module _ {S : Type 0} (log : S → List (List ℕ)) (send_msg : S → List ℕ → SendOutcome × S)
    (sends : (s : S) (m : List ℕ) → let r = send_msg s m in Sends log s m r.0 r.1) where
  -- Behind `i` messages that have been handed over already.
  SendsFrom : ℕ → S → List (List ℕ) → BatchOutcome × S → Type 0
  SendsFrom i s msgs (accepted n, s') =
      (k : ℕ) × (n ≡ i + k)
      × HandsOver log s msgs s' k
      × ((k ≡ length msgs) ⊎ ((0 < n) × (o : SendOutcome) × StopsAt log send_msg s msgs k o s'))
  SendsFrom i s msgs (refused o, s') =
      (i ≡ 0) × HandsOver log s msgs s' 0 × StopsAt log send_msg s msgs 0 o s'

  StopsAt-suc :
      (s s' s'' : S) (m : List ℕ) (msgs : List (List ℕ)) (k : ℕ) (o : SendOutcome)
      → log s' ≡ log s ++ m ∷ []
      → StopsAt log send_msg s' msgs k o s''
      → StopsAt log send_msg s (m ∷ msgs) (suc k) o s''
  unfolding StopsAt
  StopsAt-suc s s' s'' m msgs k o e (t, a, at, behind, call, error) = (
    t,
    a,
    at,
    behind ∙ ap (λ l. l ++ take k msgs) e ∙ append_assoc (log s) (m ∷ []) (take k msgs),
    call,
    error,
  )

  -- One more message in front.
  SendsFrom-suc :
      (i : ℕ) (s s' : S) (m : List ℕ) (msgs : List (List ℕ)) (r : BatchOutcome × S)
      → log s' ≡ log s ++ m ∷ []
      → SendsFrom (i + 1) s' msgs r
      → SendsFrom i s (m ∷ msgs) r
  unfolding SendsFrom
  SendsFrom-suc i s s' m msgs (accepted n, t) e (k, n_is, (room, h), why) = (
    suc k,
    omega arith,
    (omega arith, h ∙ ap (λ l. l ++ take k msgs) e ∙ append_assoc (log s) (m ∷ []) (take k msgs)),
    elim why [
      | inl all ↦ inl (ap suc all)
      | inr (some_n, o, stops) ↦ inr (some_n, o, StopsAt-suc s s' t m msgs k o e stops)
    ],
  )
  SendsFrom-suc i s s' m msgs (refused o, t) e (i_is, h, stops) = absurd (omega arith)

  stopped :
      (i : ℕ) (s s' : S) (m : List ℕ) (msgs : List (List ℕ)) (o : SendOutcome)
      → HandsOver log s (m ∷ []) s' 0
      → send_msg s m ≡ (o, s')
      → IsError o
      → SendsFrom i s (m ∷ msgs) (if i == 0 then (refused o, s') else (accepted i, s'))
  unfolding SendsFrom StopsAt
  stopped zero s s' m msgs o h call error =
      (refl, (omega arith, h.1), (s, m, refl, sym (append-nil (log s)), call, error))
  stopped (suc i) s s' m msgs o h call error =
      let later : (suc i == 0) ≡ false = ground arith in
      rw later (
        0,
        omega arith,
        (omega arith, h.1),
        inr (omega arith, o, (s, m, refl, sym (append-nil (log s)), call, error)),
      )

  after_message :
      (i : ℕ) (s s' : S) (m : List ℕ) (msgs : List (List ℕ)) (o : SendOutcome)
      → Sends log s m o s'
      → send_msg s m ≡ (o, s')
      → SendsFrom (i + 1) s' msgs (send_each send_msg (i + 1) s' msgs)
      → SendsFrom i s (m ∷ msgs) (elim o [
        | sent ↦ send_each send_msg (i + 1) s' msgs
        | e ↦ if i == 0 then (refused e, s') else (accepted i, s')
      ])
  unfolding Sends IsError
  after_message i s s' m msgs sent h call ih =
      SendsFrom-suc i s s' m msgs (send_each send_msg (i + 1) s' msgs) h.1 ih
  after_message i s s' m msgs would_block h call ih = stopped i s s' m msgs would_block h call tt
  after_message i s s' m msgs failed h call ih = stopped i s s' m msgs failed h call tt

  send_each-SendsFrom :
      (i : ℕ) (s : S) (msgs : List (List ℕ)) → SendsFrom i s msgs (send_each send_msg i s msgs)
  unfolding send_each SendsFrom
  send_each-SendsFrom i s [] = (0, omega arith, (omega arith, sym (append-nil (log s))), inl refl)
  send_each-SendsFrom i s (m ∷ msgs) =
      let r = send_msg s m in
      after_message i s r.1 m msgs r.0 (sends s m) refl (send_each-SendsFrom (i + 1) r.1 msgs)

  from_zero :
      (s : S) (msgs : List (List ℕ)) (r : BatchOutcome × S)
      → SendsFrom 0 s msgs r
      → AnswersBatch log send_msg s msgs r.0 r.1
  unfolding SendsFrom AnswersBatch
  from_zero s msgs (accepted n, t) (k, n_is, h, why) =
      let e : k ≡ n = omega arith in
      subst
        (λ j.
          HandsOver log s msgs t j
          × ((j ≡ length msgs) ⊎ ((0 < n) × (o : SendOutcome) × StopsAt log send_msg s msgs j o t)))
        e (h, why)
  from_zero s msgs (refused o, t) (i_is, h, stops) = (h, stops)

  AnswersBatch-SendsBatch :
      (s : S) (msgs : List (List ℕ)) (o : BatchOutcome) (s' : S)
      → AnswersBatch log send_msg s msgs o s'
      → SendsBatch log s msgs o s'
  unfolding AnswersBatch SendsBatch
  AnswersBatch-SendsBatch s msgs (accepted n) s' a = a.0
  AnswersBatch-SendsBatch s msgs (refused o) s' a = (0, a.0)

  -- If sending one message hands it over exactly where the outcome says so, then the default
  -- `send_batch` hands over a front part of the batch, in order, and answers with its length where
  -- it succeeds. The answer is the whole batch; or fewer, but at least one, and then the last call
  -- of `send_msg` was an error on the next message; or that error itself, where the message is the
  -- very first and nothing has been handed over.
  pub send_each-AnswersBatch :
      (s : S) (msgs : List (List ℕ))
      → let r = send_each send_msg 0 s msgs in
        AnswersBatch log send_msg s msgs r.0 r.1 × SendsBatch log s msgs r.0 r.1
  send_each-AnswersBatch s msgs =
      let a = from_zero s msgs _ (send_each-SendsFrom 0 s msgs) in
      (a, AnswersBatch-SendsBatch s msgs _ _ a)
