-- ===== src/Wire/Message/RoundTrip.antt =====
-- `decode_message` after `encode_message_at`, and the errors of a cut or altered message
-- (src/proto/wire.rs).
use scg_seshat.Prelude.{
  ℕ, ◌+◌, ◌-◌, ◌≤◌, ◌<◌, ◌≡◌, sym, ap, ◌∙◌, some, List, [], ◌++◌, length, take, drop, ltb, lt→ltb,
  le→ltb-false, length-append, length-drop, length-take, drop-append_length, drop-drop,
  append_assoc, append-nil, take-append_length, get_range_lem, length-slice, slice-append, le_cases,
  take-append_right, if◌then◌else◌, inl, inr, write_range-append, arith,
}
use scg_seshat.Prelude.Result.{ok, err, ◌>>◌}
use scg_seshat.Wire.Header.{
  short_header, truncated_payload, WireHeader, InRange, header_len, stamp_at, decode,
}
use scg_seshat.Wire.Header.RoundTrip.{
  header_bytes, length-header_bytes, encode_lem, decode-header_bytes,
}
use scg_seshat.Wire.Payload.Ramp.{pattern_from, length-pattern_from}
use scg_seshat.Wire.Payload.Fill.{fill_payload_lem}
use scg_seshat.Wire.Payload.Verify.{
  first_mismatch, verdict, verify_payload_lem, first_mismatch-eq-none_iff,
}
use scg_seshat.Wire.Message.{message_len, encode_message_at, decode_message}

-- The bytes of a message: its header, then its pattern.
unfoldable pub message_bytes : WireHeader → List ℕ
message_bytes h = header_bytes h ++ pattern_from h.seq 0 h.payload_len

pub length-message_bytes : (h : WireHeader) → length (message_bytes h) ≡ message_len h.payload_len
unfolding message_bytes
length-message_bytes h = omega (
  arith,
  length-append (header_bytes h) (pattern_from h.seq 0 h.payload_len),
  length-header_bytes h,
  length-pattern_from h.seq 0 h.payload_len,
)

-- The message replaces the front of the buffer, and the rest stays.
pub encode_message_at_lem :
    (seq payload_len ts_ns : ℕ) (buf : List ℕ)
    → message_len payload_len ≤ length buf
    → encode_message_at seq payload_len ts_ns buf
      ≡ some (
        message_len payload_len,
        message_bytes (stamp_at seq payload_len ts_ns) ++ drop (message_len payload_len) buf,
      )
unfolding encode_message_at message_bytes stamp_at
encode_message_at_lem seq payload_len ts_ns buf fits =
    let h : WireHeader = stamp_at seq payload_len ts_ns in
    let whole = length-append (header_bytes h) (drop header_len buf) in
    let size = length-header_bytes h in
    let width : message_len payload_len - header_len ≡ payload_len = omega arith in
    rw (
      encode_lem h buf (omega arith),
      get_range_lem header_len (message_len payload_len) (header_bytes h ++ drop header_len buf)
          (omega arith) (omega (arith, whole, size, length-drop header_len buf)),
      fill_payload_lem,
      ap (pattern_from seq 0) (
          length-slice header_len (message_len payload_len) (header_bytes h ++ drop header_len buf)
            (omega (arith, whole, size, length-drop header_len buf))),
      width,
      write_range-append (header_bytes h) (pattern_from seq 0 payload_len) (drop header_len buf)
          header_len (sym size)
          (omega (arith, length-pattern_from seq 0 payload_len, length-drop header_len buf)),
      length-pattern_from seq 0 payload_len,
      drop-drop payload_len header_len buf,
    )

-- Behind the header of a message with fields in range, any payload of the announced length is
-- judged by its bytes alone: `decode_message` returns the header if no byte differs from the
-- pattern, and otherwise the offset of the first that does.
pub decode_message-altered :
    (h : WireHeader) (payload rest : List ℕ)
    → InRange h
    → length payload ≡ h.payload_len
    → decode_message (header_bytes h ++ (payload ++ rest))
      ≡ (do verdict (first_mismatch h.seq 0 payload); ok h)
unfolding decode_message
decode_message-altered h payload rest v size =
    let long : message_len h.payload_len ≤ length (header_bytes h ++ (payload ++ rest)) = omega (
      arith,
      length-append (header_bytes h) (payload ++ rest),
      length-append payload rest,
      length-header_bytes h,
    ) in
    rw (
      decode-header_bytes h (payload ++ rest) v,
      le→ltb-false (length (header_bytes h ++ (payload ++ rest))) (message_len h.payload_len) long,
      slice-append (header_bytes h) payload rest header_len (message_len h.payload_len)
          (sym (length-header_bytes h)) (omega arith),
      verify_payload_lem h.seq payload,
    )

-- A message, whatever follows it.
pub decode_message-message_bytes :
    (h : WireHeader) (rest : List ℕ) → InRange h → decode_message (message_bytes h ++ rest) ≡ ok h
unfolding message_bytes
decode_message-message_bytes h rest v =
    let p = pattern_from h.seq 0 h.payload_len in
    let size = length-pattern_from h.seq 0 h.payload_len in
    rw (append_assoc (header_bytes h) p rest, decode_message-altered h p rest v size)
      (rw ((first_mismatch-eq-none_iff h.seq 0 p).1 (ap (pattern_from h.seq 0) (sym size))))

-- A message with fields in range that is cut short is refused: as a short header if less than a
-- header is left, and otherwise as a truncated payload, with the length needed and the length
-- there is.
pub decode_message-cut :
    (h : WireHeader) (k : ℕ)
    → InRange h
    → k < message_len h.payload_len
    → decode_message (take k (message_bytes h)) ≡ (
        if ltb k header_len
        then err (short_header k)
        else err (truncated_payload (message_len h.payload_len) k))
decode_message-cut h k v short = elim (le_cases header_len k) [
  | inl past ↦
      let p = pattern_from h.seq 0 h.payload_len in
      let kept = take (k - header_len) p in
      let head = length-header_bytes h in
      let cut : k ≡ length (header_bytes h) + (k - header_len) = omega arith in
      let front : take k (message_bytes h) ≡ header_bytes h ++ kept =
        unfold message_bytes in
        ap (λ n. take n (header_bytes h ++ p)) cut
        ∙ take-append_right (k - header_len) (header_bytes h) p in
      let size : length (header_bytes h ++ kept) ≡ k = omega (
        arith,
        length-append (header_bytes h) kept,
        length-take (k - header_len) p,
        length-pattern_from h.seq 0 h.payload_len,
      ) in
      rw (front, le→ltb-false k header_len past)
        (unfold decode_message in
          rw (decode-header_bytes h kept v, size, lt→ltb k (message_len h.payload_len) short))
  | inr inside ↦
      let size : length (take k (message_bytes h)) ≡ k =
        omega (arith, length-take k (message_bytes h), length-message_bytes h) in
      unfold decode_message decode in rw (size, lt→ltb k header_len inside)
]

-- Where the fields are in range and the buffer has room, `encode_message_at` does not panic, keeps
-- the buffer's length and what follows the message, and the message written decodes to the same
-- header.
pub decode_message-encode_message_at :
    (seq payload_len ts_ns : ℕ) (buf : List ℕ)
    → InRange (stamp_at seq payload_len ts_ns)
    → message_len payload_len ≤ length buf
    → (buf' : List ℕ) × (encode_message_at seq payload_len ts_ns buf
        ≡ some (message_len payload_len, buf'))
      × (length buf' ≡ length buf)
      × (drop (message_len payload_len) buf' ≡ drop (message_len payload_len) buf)
      × (decode_message (take (message_len payload_len) buf') ≡ ok (stamp_at seq payload_len ts_ns))
decode_message-encode_message_at seq payload_len ts_ns buf v fits =
    let h : WireHeader = stamp_at seq payload_len ts_ns in
    let rest = drop (message_len payload_len) buf in
    let size : length (message_bytes h) ≡ message_len payload_len =
      unfold stamp_at in length-message_bytes h in
    (
      message_bytes h ++ rest,
      encode_message_at_lem seq payload_len ts_ns buf fits,
      omega (
        arith,
        size,
        length-append (message_bytes h) rest,
        length-drop (message_len payload_len) buf,
      ),
      rw (← size) (drop-append_length (message_bytes h) (drop (length (message_bytes h)) buf)),
      ap (λ n. decode_message (take n (message_bytes h ++ rest))) (sym size)
          ∙ ap decode_message
              (take-append_length (message_bytes h) rest ∙ sym (append-nil (message_bytes h)))
          ∙ decode_message-message_bytes h [] v,
    )
