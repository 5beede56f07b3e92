-- ===== src/Transport/Samples.antt =====
-- A ring in memory for the clients of src/transport/shm.rs: messages are queued without a bound, a
-- slot has 64 bytes, and no call fails.
use scg_seshat.Prelude.{
  ℕ, ◌≡◌, ◌≢◌, refl, ap, true, Option, none, some, List, [], ◌∷◌, ◌++◌, length, take, drop,
  replicate, take-append_length, take_all, arith,
}
use scg_seshat.Prelude.Result.{Result, ok, err}
use scg_seshat.Prelude.Text.{codes}
use scg_seshat.Transport.Contract.{Sends, SendsBatch}
use scg_seshat.Transport.Shm.{ScgClient, outcome, batch_outcome}
use scg_seshat.Transport.Shm.Keeps.{ClientContract}
use scg_seshat.Transport.Shm.Source.{ScgReceiver}
use scg_seshat.Transport.Shm.Drain.{Pops, ReceiverContract}

-- The queue, and the slot that is lent.
abbrev pub Ring : Type 0
Ring = List (List ℕ) × List ℕ

abbrev pub push : Ring → List ℕ → Ring
push c m = (c.0 ++ m ∷ [], c.1)

abbrev pub ring : ScgClient Unit Ring
ring = record {
  try_send = λ c id m. (ok true, push c m);
  try_send_batch = λ c id msgs. (ok (length msgs), (c.0 ++ msgs, c.1));
  reserve_raw = λ c. (ok (some (replicate 64 0)), (c.0, replicate 64 0));
  write_raw = λ c m. (c.0, m ++ drop (length m) c.1);
  commit_raw = λ c id n. (ok true, push c (take n c.1));
  commit_raw_nosignal = λ c id n. (ok true, push c (take n c.1));
  flush_c2g = λ c. (ok tt, c);
  supports_inplace = λ c. true;
}

pub ring-ClientContract : ClientContract ring (λ c. c.0)
unfolding outcome batch_outcome Sends SendsBatch
ring-ClientContract = record {
  tries = λ c id m. (omega arith, refl);
  tries_batch = λ c id msgs.
      (omega arith, ap (λ l. c.0 ++ l) (rw (take_all (length msgs) msgs (omega arith)) refl));
  reserves_raw = λ c. refl;
  commits_raw = λ c c' id slot m e fits.
      (omega arith, ap (λ t. c'.0 ++ t ∷ []) (take-append_length m (drop (length m) c'.1)));
  commits_nosignal = λ c c' id slot m e fits.
      (omega arith, ap (λ t. c'.0 ++ t ∷ []) (take-append_length m (drop (length m) c'.1)));
  flushes_c2g = λ c. refl;
}

abbrev pub pop : List (List ℕ) → List ℕ → Result Unit (Option (ℕ × ℕ)) × List ℕ × List (List ℕ)
pop [] slot = (ok none, slot, [])
pop (m ∷ ms) slot = (ok (some (7, length m)), m ++ drop (length m) slot, ms)

abbrev pub front : List (List ℕ) → Option (ℕ × List ℕ)
front [] = none
front (m ∷ ms) = some (7, m)

pop-never_fails : (q : List (List ℕ)) (slot : List ℕ) (e : Unit) → (pop q slot).0 ≢ err e
pop-never_fails [] slot e h = cc
pop-never_fails (m ∷ ms) slot e h = cc

pop-Pops :
    (q : List (List ℕ)) (slot : List ℕ) → let r = pop q slot in Pops {E = Unit} slot q r.0 r.1 r.2
unfolding Pops
pop-Pops [] slot = (refl, refl)
pop-Pops (m ∷ ms) slot = (refl, refl, refl)

front-peeks : (q : List (List ℕ)) (id : ℕ) (m : List ℕ) → front q ≡ some (id, m) → q ≡ m ∷ drop 1 q
front-peeks [] id m e = cc
front-peeks (x ∷ q) id m e = cc

abbrev pub receiving_ring : ScgReceiver Unit (List (List ℕ))
receiving_ring = record {
  recv_into = λ q slot time. pop q slot;
  try_recv_into = λ q slot. pop q slot;
  wait_readable = λ q time. (ok true, q);
  peek_payload = λ q. front q;
  advance_recv = λ q. drop 1 q;
  supports_inplace_recv = λ q. true;
  error_text = λ e. codes "closed";
}

pub receiving_ring-ReceiverContract : ReceiverContract receiving_ring (λ q. q)
receiving_ring-ReceiverContract = record {
  pops = λ q slot time fit. pop-Pops q slot;
  tries = λ q slot fit. pop-Pops q slot;
  never_fails = λ q slot e. pop-never_fails q slot e;
  waits = λ q time. refl;
  peeks = λ q id m e. front-peeks q id m e;
}
