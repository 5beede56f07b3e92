-- ===== src/Wire/Message.antt =====
-- Whole messages (src/proto/wire.rs): `encode_message_at`, `encode_message`, `decode_message`.
pub mod RoundTrip
pub mod Sound
use scg_seshat.Prelude.{
  ℕ, ◌+◌, Option, some, List, length, slice, get_range, write_range, ltb, if◌then◌else◌,
}
use scg_seshat.Prelude.Partial
use scg_seshat.Prelude.Result.{Result, ok, err, ◌>>=◌, ◌>>◌}
use scg_seshat.Wire.Header.{
  WireError, truncated_payload, WireHeader, header_len, stamp_at, encode, decode,
}
use scg_seshat.Wire.Payload.{fill_payload, verify_payload}

-- `HEADER_LEN + payload_len as usize`, on a 64-bit `usize`
abbrev pub message_len : ℕ → ℕ
message_len payload_len = header_len + payload_len

-- The length and the buffer afterwards; `none` is a panic on a buffer that is too short.
unfoldable pub encode_message_at : ℕ → ℕ → ℕ → List ℕ → Option (ℕ × List ℕ)
encode_message_at seq payload_len ts_ns buf =
    Partial.◌>>=◌ (encode (stamp_at seq payload_len ts_ns) buf) λ written.
      Partial.◌>>=◌ (get_range header_len (message_len payload_len) written.1) λ payload.
        Partial.◌>>=◌ (fill_payload seq payload) λ filled.
          Partial.◌>>=◌ (write_range written.1 header_len filled)
            λ b. some (message_len payload_len, b)

-- `now` is the reading of the monotonic clock.
unfoldable pub encode_message : ℕ → ℕ → ℕ → List ℕ → Option (ℕ × List ℕ)
encode_message seq payload_len now buf = encode_message_at seq payload_len now buf

unfoldable pub decode_message : List ℕ → Result WireError WireHeader
decode_message buf = do
  hdr ← decode buf
  let need = message_len hdr.payload_len
  if ltb (length buf) need
      then err (truncated_payload need (length buf))
      else (do verify_payload hdr.seq (slice header_len need buf); ok hdr)
