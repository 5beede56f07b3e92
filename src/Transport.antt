-- ===== src/Transport.antt =====
-- What the run engine asks of a transport: the traits `DataSink`,
-- `DataSource` and `DuplexEnd` of src/transport/mod.rs over a type
-- `S` of states, with the batch sizes. An `io::Result` is an outcome.
pub mod Contract
pub mod Each
pub mod Shm
pub mod Samples
mod Tests
use scg_seshat.Prelude.{
  ℕ, suc, ◌+◌, ◌*◌, ◌/◌, ◌==◌, min, max, Bool, Option, List, [], ◌∷◌, length, if◌then◌else◌,
}

abbrev pub batch_max : ℕ
batch_max = 32

abbrev pub batch_abs_max : ℕ
batch_abs_max = 1024

abbrev pub batch_bytes_budget : ℕ
batch_bytes_budget = 256 * 1024

-- `x.clamp(lo, hi)`, for `lo ≤ hi`
abbrev pub clamp : ℕ → ℕ → ℕ → ℕ
clamp x lo hi = min (max x lo) hi

unfoldable pub stream_batch_size : ℕ → ℕ
stream_batch_size message_bytes =
    clamp (batch_bytes_budget / max message_bytes 1) batch_max batch_abs_max

-- The outcome for one message: `Ok(())` or `Ok(true)`; the error `WouldBlock` or `Ok(false)`; any
-- other error.
pub data SendOutcome : Type 0 where
  sent would_block failed : SendOutcome

pub data BatchOutcome : Type 0 where
  -- `Ok(n)`
  accepted : ℕ → BatchOutcome
  refused : SendOutcome → BatchOutcome

pub record DataSink (S : Type 0) : Type 0 where
  pub send_msg : S → List ℕ → SendOutcome × S
  pub send_batch : S → List (List ℕ) → BatchOutcome × S
  pub preferred_batch : S → ℕ → ℕ
  -- The contents of the slot that is lent.
  pub reserve : S → ℕ → Option (List ℕ) × S
  -- What the holder of the slot has written in it.
  pub write_slot : S → List ℕ → S
  pub commit_reserved : S → SendOutcome × S
  pub supports_inplace : S → Bool
  pub commit_batched : S → SendOutcome × S
  -- whether it succeeded
  pub flush_batch : S → Bool × S
  pub close : S → S

pub data BatchReceived : Type 0 where
  messages : ℕ → BatchReceived
  timeout closed broken : BatchReceived

-- The trait `DataSource`. `recv_batch` takes the buffer, the stride, the most messages wanted and
-- the lengths, and `recv_inplace` yields the payloads that it has called its function on.
pub record DataSource (S : Type 0) : Type 0 where
  pub recv_batch : S → List ℕ → ℕ → ℕ → List ℕ → BatchReceived × List ℕ × List ℕ × S
  pub preferred_batch : S → ℕ → ℕ
  pub supports_inplace_recv : S → Bool
  pub recv_inplace : S → ℕ → BatchReceived × List (List ℕ) × S
  pub close : S → S

-- `RecvOutcome`, or an error.
pub data Received : Type 0 where
  message : ℕ → Received
  nothing shut lost : Received

-- The trait `DuplexEnd`. `recv_msg` yields the buffer as well.
pub record DuplexEnd (S : Type 0) : Type 0 where
  pub send_msg : S → List ℕ → SendOutcome × S
  pub recv_msg : S → List ℕ → Received × List ℕ × S
  pub close : S → S

-- The trait's `send_batch`: one message after the other, from number `i` on.
unfoldable pub send_each :
    {S : Type 0} → (S → List ℕ → SendOutcome × S) → ℕ → S → List (List ℕ) → BatchOutcome × S
send_each send_msg i s [] = (accepted i, s)
send_each send_msg i s (m ∷ msgs) =
    let (o, s') = send_msg s m in
    elim o [
      | sent ↦ send_each send_msg (i + 1) s' msgs
      | e ↦ if i == 0 then (refused e, s') else (accepted i, s')
    ]
