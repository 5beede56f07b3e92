-- ===== src/Wire/Tests.antt =====
-- The theorems on messages at concrete headers and buffers (src/proto/wire.rs).
use scg_seshat.Prelude.{
  ℕ, ◌≡◌, refl, some, List, [], ◌∷◌, ◌++◌, length, take, drop, replicate, AreBytes, bytes_eq,
  from_le_bytes, ltb, ltb→lt, Bool, true, false, ◌&&◌, if◌then◌else◌, arith,
}
use scg_seshat.Prelude.Result.{ok, err, ◌>>◌}
use scg_seshat.Wire.Header.{
  short_header, truncated_payload, WireHeader, InRange, header_len, stamp_at, decode, fields_of,
}
use scg_seshat.Wire.Header.RoundTrip.{header_bytes}
use scg_seshat.Wire.Payload.{fill_payload, verify_payload}
use scg_seshat.Wire.Payload.Ramp.{pattern_from}
use scg_seshat.Wire.Payload.Fill.{fill_payload_lem}
use scg_seshat.Wire.Payload.Verify.{first_mismatch, verdict, verify_payload_lem}
use scg_seshat.Wire.Message.{message_len, encode_message_at, decode_message}
use scg_seshat.Wire.Message.RoundTrip.{
  message_bytes, decode_message-altered, decode_message-cut, decode_message-encode_message_at,
}
use scg_seshat.Wire.Message.Sound.{decode_message_sound}

-- Number 258, sent at 7 ns, with three bytes of payload.
abbrev three_bytes : WireHeader
three_bytes = record { seq = 258; ts_ns = 7; payload_len = 3 }

three_bytes-InRange : InRange three_bytes
three_bytes-InRange = record {
  seq_fits = omega arith;
  ts_ns_fits = omega arith;
  payload_len_fits = omega arith;
}

stamp-InRange : InRange (stamp_at 258 3 7)
unfolding stamp_at
stamp-InRange = record {
  seq_fits = omega arith;
  ts_ns_fits = omega arith;
  payload_len_fits = omega arith;
}

decode_message-encode_message_at_example :
    (buf' : List ℕ) × (encode_message_at 258 3 7 (replicate 30 9) ≡ some (message_len 3, buf'))
    × (length buf' ≡ length (replicate {A = ℕ} 30 9))
    × (drop (message_len 3) buf' ≡ drop (message_len 3) (replicate 30 9))
    × (decode_message (take (message_len 3) buf') ≡ ok (stamp_at 258 3 7))
decode_message-encode_message_at_example =
    decode_message-encode_message_at 258 3 7 (replicate 30 9) stamp-InRange (omega arith)

-- The second byte of the payload is 0 in place of 3.
decode_message-altered_example :
    decode_message (header_bytes three_bytes ++ ((2 ∷ 0 ∷ 4 ∷ []) ++ []))
    ≡ (do verdict (first_mismatch 258 0 (2 ∷ 0 ∷ 4 ∷ [])); ok three_bytes)
decode_message-altered_example =
    decode_message-altered three_bytes (2 ∷ 0 ∷ 4 ∷ []) [] three_bytes-InRange refl

decode_message-cut_example : decode_message (take 25 (message_bytes three_bytes)) ≡ (
    if ltb 25 header_len then err (short_header 25) else err (truncated_payload (message_len 3) 25))
decode_message-cut_example = decode_message-cut three_bytes 25 three_bytes-InRange (omega arith)

-- The message of that header with one byte after it.
abbrev received : List ℕ
received =
    83 ∷ 69 ∷ 83 ∷ 72 ∷ 2 ∷ 1 ∷ 0 ∷ 0 ∷ 0 ∷ 0 ∷ 0 ∷ 0 ∷ 7 ∷ 0 ∷ 0 ∷ 0 ∷ 0 ∷ 0 ∷ 0 ∷ 0 ∷ 3 ∷ 0 ∷ 0
    ∷ 0 ∷ 2 ∷ 3 ∷ 4 ∷ 5 ∷ []

received-decoded : decode_message received ≡ ok three_bytes
unfolding decode_message decode fields_of verify_payload bytes_eq from_le_bytes
received-decoded = refl

both : (a b : Bool) → a && b ≡ true → (a ≡ true) × (b ≡ true)
both true b h = (refl, h)
both false b h = absurd cc

all_bytes : List ℕ → Bool
all_bytes [] = true
all_bytes (b ∷ bs) = ltb b 256 && all_bytes bs

all_bytes-AreBytes : (bs : List ℕ) → all_bytes bs ≡ true → AreBytes bs
unfolding all_bytes
all_bytes-AreBytes [] h = tt
all_bytes-AreBytes (b ∷ bs) h =
    let (h1, h2) = both (ltb b 256) (all_bytes bs) h in (ltb→lt b 256 h1, all_bytes-AreBytes bs h2)

received-AreBytes : AreBytes received
unfolding all_bytes
received-AreBytes = all_bytes-AreBytes received refl

decode_message_sound_example :
    (received ≡ message_bytes three_bytes ++ drop (message_len 3) received) × InRange three_bytes
decode_message_sound_example =
    decode_message_sound three_bytes received received-AreBytes received-decoded

fill_payload_example :
    fill_payload 300 (replicate 300 7)
    ≡ some (pattern_from 300 0 (length (replicate {A = ℕ} 300 7)))
fill_payload_example = fill_payload_lem 300 (replicate 300 7)

verify_payload_example :
    verify_payload 255 (255 ∷ 0 ∷ 2 ∷ []) ≡ verdict (first_mismatch 255 0 (255 ∷ 0 ∷ 2 ∷ []))
verify_payload_example = verify_payload_lem 255 (255 ∷ 0 ∷ 2 ∷ [])
