-- ===== src/Workload/Builder.antt =====
-- What is sent: `MessageBuilder` and `BatchBuilder` of src/workload/sender.rs. The clock's readings
-- are arguments, and `none` is a panic.
pub mod Messages
pub mod Numbered
use scg_seshat.Prelude.{
  ℕ, zero, suc, ◌+◌, ◌-◌, ◌%◌, ◌^◌, ◌<◌, ◌≡◌, min, max, Option, some, List, [], ◌∷◌, length, take,
  replicate,
}
use scg_seshat.Prelude.Partial.{◌>>=◌}
use scg_seshat.Wire.Header.{header_len}
use scg_seshat.Wire.Message.{message_len, encode_message, encode_message_at}

abbrev pub min_message_size : ℕ
min_message_size = header_len

pub record MessageBuilder : Type 0 where
  pub buf : List ℕ
  pub payload_len : ℕ
  pub message_bytes : ℕ

-- Sizes below the header's are raised to it.
unfoldable pub new : ℕ → MessageBuilder
new message_bytes = record {
  buf = replicate (max message_bytes min_message_size) 0;
  payload_len = max message_bytes min_message_size - min_message_size;
  message_bytes = max message_bytes min_message_size;
}

-- The message for `seq` with the send time `ts_ns`, and the builder afterwards.
unfoldable pub build_at : MessageBuilder → ℕ → ℕ → Option (List ℕ × MessageBuilder)
build_at b seq ts_ns = do
  encoded ← encode_message_at seq b.payload_len ts_ns b.buf
  some (take encoded.0 encoded.1, record b { buf = encoded.1 })

unfoldable pub message_len_of : MessageBuilder → ℕ
message_len_of b = b.message_bytes

unfoldable pub build : MessageBuilder → ℕ → ℕ → Option (List ℕ × MessageBuilder)
build b seq now = do
  encoded ← encode_message seq b.payload_len now b.buf
  some (take encoded.0 encoded.1, record b { buf = encoded.1 })

-- Straight into the caller's buffer.
unfoldable pub build_into : MessageBuilder → ℕ → ℕ → List ℕ → Option (ℕ × List ℕ)
build_into b seq ts_ns dst = encode_message_at seq b.payload_len ts_ns dst

pub record BatchBuilder : Type 0 where
  pub bufs : List (List ℕ)
  pub payload_len : ℕ

unfoldable pub new_batch : ℕ → ℕ → BatchBuilder
new_batch message_bytes batch = record {
  bufs = replicate (max batch 1) (replicate (max message_bytes min_message_size) 0);
  payload_len = max message_bytes min_message_size - min_message_size;
}

-- The loop over the first `count` buffers, the next of which is number `i`.
unfoldable pub encode_bufs : ℕ → ℕ → (ℕ → ℕ) → ℕ → ℕ → List (List ℕ) → Option (List (List ℕ))
encode_bufs seq_start payload_len now i zero bufs = some bufs
encode_bufs seq_start payload_len now i (suc count) [] = some []
encode_bufs seq_start payload_len now i (suc count) (buf ∷ bufs) = do
  encoded ← encode_message ((seq_start + i) % 2 ^ 64) payload_len (now i) buf
  rest ← encode_bufs seq_start payload_len now (i + 1) count bufs
  some (encoded.1 ∷ rest)

-- Message `i` of the batch is stamped `now i`.
unfoldable pub build_batch : BatchBuilder → ℕ → ℕ → (ℕ → ℕ) → Option (List (List ℕ) × BatchBuilder)
build_batch b seq_start count now = do
  bufs ← encode_bufs seq_start b.payload_len now 0 (min count (length b.bufs)) b.bufs
  some (take (min count (length b.bufs)) bufs, record b { bufs = bufs })
