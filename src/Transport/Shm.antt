-- ===== src/Transport/Shm.antt =====
-- The sender of the shared-memory transport: `ShmSink` of src/transport/shm.rs. The client library
-- that owns the ring is an argument; `C` is the type of its states.
pub mod Keeps
pub mod Source
pub mod Slot
pub mod Drain
pub mod Delivers
use scg_seshat.Prelude.{
  ℕ, Bool, true, false, Option, none, some, List, length, take, leb, if◌then◌else◌,
}
use scg_seshat.Prelude.Result.{Result, ok, err}
use scg_seshat.Transport.{
  SendOutcome, sent, would_block, failed, BatchOutcome, accepted, refused, DataSink, batch_max,
}

-- What the sink calls of `scg_client::ScgClient`; `E` is its error.
pub record ScgClient (E C : Type 0) : Type 0 where
  pub try_send : C → ℕ → List ℕ → Result E Bool × C
  pub try_send_batch : C → ℕ → List (List ℕ) → Result E ℕ × C
  -- The bytes of the slot that the ring lends, if one is free.
  pub reserve_raw : C → Result E (Option (List ℕ)) × C
  -- The first bytes of the slot are overwritten through the pointer.
  pub write_raw : C → List ℕ → C
  pub commit_raw : C → ℕ → ℕ → Result E Bool × C
  pub commit_raw_nosignal : C → ℕ → ℕ → Result E Bool × C
  pub flush_c2g : C → Result E Unit × C
  pub supports_inplace : C → Bool

pub record ShmSink (C : Type 0) : Type 0 where
  pub client : C
  pub traffic_id : ℕ
  -- The length of the slot that is reserved, until the commit.
  pub pending_len : Option ℕ

-- `Ok(true)`, `Ok(false)` and an error.
unfoldable pub outcome : {E : Type 0} → Result E Bool → SendOutcome
outcome (ok true) = sent
outcome (ok false) = would_block
outcome (err e) = failed

unfoldable pub batch_outcome : {E : Type 0} → Result E ℕ → BatchOutcome
batch_outcome (ok n) = accepted n
batch_outcome (err e) = refused failed

module _ {E C : Type 0} (ops : ScgClient E C) where
  unfoldable pub send_msg : ShmSink C → List ℕ → SendOutcome × ShmSink C
  send_msg s buf =
      let (r, client) = ops.try_send s.client s.traffic_id buf in
      (outcome r, record s { client = client })

  unfoldable pub send_batch : ShmSink C → List (List ℕ) → BatchOutcome × ShmSink C
  send_batch s msgs =
      let (r, client) = ops.try_send_batch s.client s.traffic_id msgs in
      (batch_outcome r, record s { client = client })

  -- What the ring answered, for a message of `len` bytes.
  unfoldable pub lend : ShmSink C → ℕ → Result E (Option (List ℕ)) × C → Option (List ℕ) × ShmSink C
  lend s len (ok (some slot), client) =
      if leb len (length slot)
      then (some (take len slot), record s { client = client; pending_len = some len })
      else (none, record s { client = client })
  lend s len (ok none, client) = (none, record s { client = client })
  lend s len (err e, client) = (none, record s { client = client })

  unfoldable pub reserve : ShmSink C → ℕ → Option (List ℕ) × ShmSink C
  reserve s len = lend s len (ops.reserve_raw s.client)

  unfoldable pub write_slot : ShmSink C → List ℕ → ShmSink C
  write_slot s bytes = record s { client = ops.write_raw s.client bytes }

  -- `self.pending_len.take()`, and the commit if there was one.
  unfoldable pub commit_pending :
      (C → ℕ → ℕ → Result E Bool × C) → ShmSink C → Option ℕ → SendOutcome × ShmSink C
  commit_pending commit s none = (failed, s)
  commit_pending commit s (some len) =
      let (r, client) = commit s.client s.traffic_id len in
      (outcome r, record s { client = client; pending_len = none })

  unfoldable pub commit_reserved : ShmSink C → SendOutcome × ShmSink C
  commit_reserved s = commit_pending ops.commit_raw s s.pending_len

  unfoldable pub commit_batched : ShmSink C → SendOutcome × ShmSink C
  commit_batched s = commit_pending ops.commit_raw_nosignal s s.pending_len

  unfoldable pub flush_batch : ShmSink C → Bool × ShmSink C
  flush_batch s =
      let (r, client) = ops.flush_c2g s.client in
      (elim r [ ok u ↦ true | err e ↦ false ], record s { client = client })

  -- The methods of the trait; `close` leaves the client to its destructor, and the batch size is
  -- the trait's.
  unfoldable pub shm_sink : DataSink (ShmSink C)
  shm_sink = record {
    send_msg = send_msg;
    send_batch = send_batch;
    preferred_batch = λ s message_bytes. batch_max;
    reserve = reserve;
    write_slot = write_slot;
    commit_reserved = commit_reserved;
    supports_inplace = λ s. ops.supports_inplace s.client;
    commit_batched = commit_batched;
    flush_batch = flush_batch;
    close = λ s. s;
  }
