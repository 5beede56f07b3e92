-- ===== src/Wire/Message/Sound.antt =====
-- What `decode_message` accepts is a message, byte for byte (src/proto/wire.rs).
use mathlib.Core.Path.{subst}
use scg_seshat.Prelude.{
  ℕ, ◌-◌, ◌^◌, ◌≤◌, ◌<◌, ◌≡◌, refl, sym, ap, ◌∙◌, none, List, ◌++◌, length, take, drop, slice,
  take_add, drop-drop, take-append-drop, AreBytes, AreBytes-take, AreBytes-drop, to_le_bytes,
  from_le_bytes, to_le_bytes-from_le_bytes, bytes_eq_iff, length-slice, append_assoc, arith,
}
use scg_seshat.Prelude.Result.{ok, Result-cases}
use scg_seshat.Wire.Header.{WireHeader, InRange, magic, header_len, decode, fields_of}
use scg_seshat.Wire.Header.RoundTrip.{header_bytes}
use scg_seshat.Wire.Payload.Ramp.{pattern_from}
use scg_seshat.Wire.Payload.Verify.{first_mismatch, verify_payload_lem, first_mismatch-eq-none_iff}
use scg_seshat.Wire.Message.{message_len, decode_message}
use scg_seshat.Wire.Message.RoundTrip.{message_bytes}

-- A field of `w` bytes at `a` holds the bytes of the number read there.
field_bytes :
    (a b w : ℕ) (buf : List ℕ)
    → AreBytes buf
    → b ≤ length buf
    → b - a ≡ w
    → (to_le_bytes w (from_le_bytes (slice a b buf)) ≡ slice a b buf)
      × (from_le_bytes (slice a b buf) < 256 ^ w)
field_bytes a b w buf bytes fits width =
    let size : length (slice a b buf) ≡ w = omega (arith, length-slice a b buf fits) in
    rw (size) at (
      to_le_bytes-from_le_bytes (slice a b buf)
        (AreBytes-take (b - a) (drop a buf) (AreBytes-drop a buf bytes)))

-- The tests that an accepted header has passed.
decode-guards :
    (h : WireHeader) (buf : List ℕ)
    → decode buf ≡ ok h
    → (header_len ≤ length buf) × (slice 0 4 buf ≡ magic) × (fields_of buf ≡ h)
unfolding decode
decode-guards h buf e = ground (arith, bytes_eq_iff (slice 0 4 buf) magic)

-- The first 24 bytes, field by field.
take-header :
    (buf : List ℕ)
    → take 24 buf ≡ slice 0 4 buf ++ (slice 4 12 buf ++ (slice 12 20 buf ++ slice 20 24 buf))
take-header buf =
    take_add 4 20 buf
    ∙ ap (λ t. take 4 buf ++ t)
        (take_add 8 12 (drop 4 buf)
          ∙ ap (λ t. take 8 (drop 4 buf) ++ t)
              (rw (drop-drop 8 4 buf) (take_add 8 4 (drop 12 buf) ∙ rw (drop-drop 8 12 buf))))

decode_sound :
    (buf : List ℕ)
    → AreBytes buf
    → header_len ≤ length buf
    → slice 0 4 buf ≡ magic
    → (take header_len buf ≡ header_bytes (fields_of buf)) × InRange (fields_of buf)
unfolding header_bytes fields_of
decode_sound buf bytes fits found =
    let (seq_bytes, seq_fits) = field_bytes 4 12 8 buf bytes (omega arith) refl in
    let (ts_bytes, ts_fits) = field_bytes 12 20 8 buf bytes (omega arith) refl in
    let (len_bytes, len_fits) = field_bytes 20 24 4 buf bytes (omega arith) refl in
    (
      take-header buf ∙ rw (found, seq_bytes, ts_bytes, len_bytes),
      record { seq_fits = seq_fits; ts_ns_fits = ts_fits; payload_len_fits = len_fits },
    )

-- The tests that an accepted message has passed, behind its header.
decode_message-guards :
    (h : WireHeader) (buf : List ℕ)
    → decode_message buf ≡ ok h
    → (decode buf ≡ ok h)
      × (message_len h.payload_len ≤ length buf)
      × (first_mismatch h.seq 0 (slice header_len (message_len h.payload_len) buf) ≡ none)
unfolding decode_message
decode_message-guards h buf e = ground (
  arith,
  Result-cases (decode buf),
  verify_payload_lem h.seq (slice header_len (message_len h.payload_len) buf),
)

-- From a buffer of bytes `decode_message` accepts only messages: where it returns a header, the
-- buffer begins with the message of that header, whose fields are in range.
pub decode_message_sound :
    (h : WireHeader) (buf : List ℕ)
    → AreBytes buf
    → decode_message buf ≡ ok h
    → (buf ≡ message_bytes h ++ drop (message_len h.payload_len) buf) × InRange h
unfolding message_bytes
decode_message_sound h buf bytes e =
    let (decoded, fits, clean) = decode_message-guards h buf e in
    let (long, found, fields) = decode-guards h buf decoded in
    let (front, ranges) = decode_sound buf bytes long found in
    let body = slice header_len (message_len h.payload_len) buf in
    let width : message_len h.payload_len - header_len ≡ h.payload_len = omega arith in
    let size : length body ≡ h.payload_len =
      omega (arith, length-slice header_len (message_len h.payload_len) buf fits) in
    let head : header_bytes h ≡ take header_len buf = ap header_bytes (sym fields) ∙ sym front in
    let fill : pattern_from h.seq 0 h.payload_len ≡ take h.payload_len (drop header_len buf) =
      ap (pattern_from h.seq 0) (sym size)
      ∙ sym ((first_mismatch-eq-none_iff h.seq 0 body).0 clean)
      ∙ ap (λ k. take k (drop header_len buf)) width in
    (
      sym (
          append_assoc (header_bytes h) (pattern_from h.seq 0 h.payload_len)
            (drop (message_len h.payload_len) buf)
          ∙ rw (
            head,
            fill,
            ← drop-drop h.payload_len header_len buf,
            take-append-drop h.payload_len (drop header_len buf),
            take-append-drop header_len buf,
          )),
      subst InRange fields ranges,
    )
