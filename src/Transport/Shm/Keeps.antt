-- ===== src/Transport/Shm/Keeps.antt =====
-- The sink of src/transport/shm.rs keeps the contract of the trait, if the ring's client hands over
-- what it reports.
use mathlib.Core.Option.{some-injective}
use scg_seshat.Prelude.{
  ℕ, ◌≤◌, ◌≡◌, ◌≢◌, refl, sym, ap, ◌∙◌, Bool, Option, none, some, List, length, take, leb, inl, inr,
  Bool-cases, le_cases, le→leb, lt→leb-false, length-take, arith,
}
use scg_seshat.Prelude.Result.{Result, ok, err}
use scg_seshat.Transport.{SendOutcome, sent, would_block, failed, BatchOutcome, accepted, refused}
use scg_seshat.Transport.Contract.{Sends, SendsBatch, SinkContract}
use scg_seshat.Transport.Shm.{
  ScgClient, ShmSink, outcome, batch_outcome, send_msg, send_batch, lend, reserve, write_slot,
  commit_pending, commit_reserved, commit_batched, flush_batch, shm_sink,
}

-- What is relied on of the client: a message is in the ring exactly if the call says so, and a
-- commit publishes the first bytes of the slot as they were written.
pub record ClientContract {E C : Type 0} (ops : ScgClient E C) (published : C → List (List ℕ))
    : Type 0 where
  pub tries :
      (c : C) (id : ℕ) (m : List ℕ)
      → let r = ops.try_send c id m in Sends published c m (outcome r.0) r.1
  pub tries_batch :
      (c : C) (id : ℕ) (msgs : List (List ℕ))
      → let r = ops.try_send_batch c id msgs in SendsBatch published c msgs (batch_outcome r.0) r.1
  pub reserves_raw : (c : C) → published (ops.reserve_raw c).1 ≡ published c
  pub commits_raw :
      (c c' : C) (id : ℕ) (slot m : List ℕ)
      → ops.reserve_raw c ≡ (ok (some slot), c')
      → length m ≤ length slot
      → let r = ops.commit_raw (ops.write_raw c' m) id (length m) in
        Sends published c' m (outcome r.0) r.1
  pub commits_nosignal :
      (c c' : C) (id : ℕ) (slot m : List ℕ)
      → ops.reserve_raw c ≡ (ok (some slot), c')
      → length m ≤ length slot
      → let r = ops.commit_raw_nosignal (ops.write_raw c' m) id (length m) in
        Sends published c' m (outcome r.0) r.1
  pub flushes_c2g : (c : C) → published (ops.flush_c2g c).1 ≡ published c

module _ {E C : Type 0} (ops : ScgClient E C) where
  none-≢-some : (slot : List ℕ) → none ≢ some slot
  none-≢-some slot e = cc

  -- What a slot that is lent tells of the ring's answer.
  record Lent (s : ShmSink C) (len : ℕ) (r : Result E (Option (List ℕ)) × C) (slot : List ℕ)
      (s' : ShmSink C) : Type 0 where
    raw : List ℕ
    answer : r ≡ (ok (some raw), r.1)
    fits : len ≤ length raw
    front : slot ≡ take len raw
    state : s' ≡ record s { client = r.1; pending_len = some len }

  lend-Lent :
      (s s' : ShmSink C) (len : ℕ) (r : Result E (Option (List ℕ)) × C) (slot : List ℕ)
      → lend ops s len r ≡ (some slot, s')
      → Lent s len r slot s'
  unfolding lend
  lend-Lent s s' len (ok (some raw), c) slot e = elim (le_cases len (length raw)) [
    | inl fits ↦
        let given : Option (List ℕ) × ShmSink C =
          (some (take len raw), record s { client = c; pending_len = some len }) in
        let is : lend ops s len (ok (some raw), c) ≡ given =
          rw (le→leb len (length raw) fits) refl in
        record {
          raw = raw;
          answer = refl;
          fits = fits;
          front = some-injective slot (take len raw) (ap (λ p. p.0) (sym e ∙ is));
          state = ap (λ p. p.1) (sym e ∙ is);
        }
    | inr small ↦
        let given : Option (List ℕ) × ShmSink C = (none, record s { client = c }) in
        let is : lend ops s len (ok (some raw), c) ≡ given =
          rw (lt→leb-false len (length raw) small) refl in
        absurd (none-≢-some slot (ap (λ p. p.0) (sym is ∙ e)))
  ]
  lend-Lent s s' len (ok none, c) slot e = cc
  lend-Lent s s' len (err x, c) slot e = cc

  module _ (published : C → List (List ℕ)) (contract : ClientContract ops published) where
    log : ShmSink C → List (List ℕ)
    log s = published s.client

    lend-log :
        (s : ShmSink C) (len : ℕ) (r : Result E (Option (List ℕ)) × C)
        → log (lend ops s len r).1 ≡ published r.1
    unfolding lend log
    lend-log s len (ok (some raw), c) = elim (Bool-cases (leb len (length raw))) [
      | inl fits ↦ rw fits refl
      | inr small ↦ rw small refl
    ]
    lend-log s len (ok none, c) = refl
    lend-log s len (err x, c) = refl

    lift :
        (s s' : ShmSink C) (m : List ℕ) (o : SendOutcome)
        → Sends published s.client m o s'.client
        → Sends log s m o s'
    unfolding Sends log
    lift s s' m sent h = h
    lift s s' m would_block h = h
    lift s s' m failed h = h

    lift_batch :
        (s s' : ShmSink C) (msgs : List (List ℕ)) (o : BatchOutcome)
        → SendsBatch published s.client msgs o s'.client
        → SendsBatch log s msgs o s'
    unfolding SendsBatch log
    lift_batch s s' msgs (accepted n) h = h
    lift_batch s s' msgs (refused e) h = h

    committed :
        (commit : C → ℕ → ℕ → Result E Bool × C) (s s' : ShmSink C) (n : ℕ) (slot m : List ℕ)
        → ((c c' : C) (id : ℕ) (raw : List ℕ)
            → ops.reserve_raw c ≡ (ok (some raw), c')
            → length m ≤ length raw
            → let r = commit (ops.write_raw c' m) id (length m) in
              Sends published c' m (outcome r.0) r.1)
        → reserve ops s n ≡ (some slot, s')
        → length m ≡ n
        → let t = write_slot ops s' m in
          let r = commit_pending ops commit t t.pending_len in Sends log s' m r.0 r.1
    unfolding reserve write_slot commit_pending
    committed commit s s' n slot m law e size =
        let l = lend-Lent s s' n (ops.reserve_raw s.client) slot e in
        rw (l.state, ← size)
          (lift _ _ m _ (
            law s.client (ops.reserve_raw s.client).1 s.traffic_id l.raw l.answer
              (omega (arith, l.fits))))

    -- So the shared-memory sink hands every message over whole and in order, or not at all.
    pub shm_sink-SinkContract : SinkContract (shm_sink ops) (λ s. published s.client)
    unfolding shm_sink log
    shm_sink-SinkContract = record {
      sends = λ s m. unfold send_msg in lift s _ m _ (contract.tries s.client s.traffic_id m);
      sends_batch = λ s msgs.
          unfold send_batch in
          lift_batch s _ msgs _ (contract.tries_batch s.client s.traffic_id msgs);
      reserves = λ s n.
          unfold reserve in
          lend-log s n (ops.reserve_raw s.client) ∙ contract.reserves_raw s.client;
      slot_sized = λ s s' n slot e.
          let l = lend-Lent s s' n (ops.reserve_raw s.client) slot (unfold reserve in e) in
          omega (arith, ap length l.front, length-take n l.raw, l.fits);
      commits = λ s s' n slot m e size.
          unfold commit_reserved in
          committed ops.commit_raw s s' n slot m (λ c c' id raw. contract.commits_raw c c' id raw m)
            e size;
      commits_batched = λ s s' n slot m e size.
          unfold commit_batched in
          committed ops.commit_raw_nosignal s s' n slot m
            (λ c c' id raw. contract.commits_nosignal c c' id raw m) e size;
      flushes = λ s. unfold flush_batch log in contract.flushes_c2g s.client;
      closes = λ s. refl;
    }
