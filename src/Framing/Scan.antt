-- ===== src/Framing/Scan.antt =====
-- A reference for `take_one` of src/transport/mod.rs, over the list of the buffered bytes.
use scg_seshat.Prelude.{
  ℕ, ◌≤◌, ◌<◌, ◌≡◌, refl, ap, ◌∙◌, Option, none, some, List, [], ◌∷◌, ◌++◌, length, take, drop, ltb,
  if◌then◌else◌, lt→ltb, le→ltb-false, le_cases, inl, inr, length-append, drop-append_length,
  take-append_length, append_assoc, append-eq-append, arith,
}
use scg_seshat.Prelude.Result.{ok, err}
use scg_seshat.Wire.Header.{WireHeader, InRange, header_len, decode}
use scg_seshat.Wire.Header.RoundTrip.{header_bytes, length-header_bytes, decode-header_bytes}
use scg_seshat.Wire.Payload.Ramp.{pattern_from}
use scg_seshat.Wire.Message.{message_len}
use scg_seshat.Wire.Message.RoundTrip.{message_bytes, length-message_bytes}

-- The first message and what follows it; or no message, and what is left to wait for. Bytes that
-- cannot begin a message of at most `limit` bytes are dropped one by one.
unfoldable pub scan : ℕ → List ℕ → Option (List ℕ) × List ℕ
scan limit [] = (none, [])
scan limit (b ∷ bs) =
    let skip = scan limit bs in
    let q = b ∷ bs in
    let framed : Option (List ℕ) × List ℕ = elim (decode q) [
      | err why ↦ skip
      | ok hdr ↦
          if ltb limit (message_len hdr.payload_len)
          then skip
          else if ltb (length q) (message_len hdr.payload_len)
          then (none, q)
          else (some (take (message_len hdr.payload_len) q), drop (message_len hdr.payload_len) q)
    ] in
    if ltb (length q) header_len then (none, q) else framed

scan-whole :
    (limit : ℕ) (q : List ℕ) (h : WireHeader)
    → decode q ≡ ok h
    → message_len h.payload_len ≤ limit
    → message_len h.payload_len ≤ length q
    → scan limit q ≡ (some (take (message_len h.payload_len) q), drop (message_len h.payload_len) q)
unfolding scan
scan-whole limit [] h decoded fits whole = absurd (omega arith)
scan-whole limit (b ∷ bs) h decoded fits whole = rw (
  le→ltb-false (length (b ∷ bs)) header_len (omega arith),
  decoded,
  le→ltb-false limit (message_len h.payload_len) fits,
  le→ltb-false (length (b ∷ bs)) (message_len h.payload_len) whole,
)

scan-short : (limit : ℕ) (q : List ℕ) → length q < header_len → scan limit q ≡ (none, q)
unfolding scan
scan-short limit [] short = refl
scan-short limit (b ∷ bs) short = rw (lt→ltb (length (b ∷ bs)) header_len short)

scan-waiting :
    (limit : ℕ) (q : List ℕ) (h : WireHeader)
    → decode q ≡ ok h
    → message_len h.payload_len ≤ limit
    → header_len ≤ length q
    → length q < message_len h.payload_len
    → scan limit q ≡ (none, q)
unfolding scan
scan-waiting limit [] h decoded fits long short = elim long [ ]
scan-waiting limit (b ∷ bs) h decoded fits long short = rw (
  le→ltb-false (length (b ∷ bs)) header_len long,
  decoded,
  le→ltb-false limit (message_len h.payload_len) fits,
  lt→ltb (length (b ∷ bs)) (message_len h.payload_len) short,
)

-- A whole message at the front is found, and exactly its bytes are consumed.
pub scan-message_bytes :
    (limit : ℕ) (h : WireHeader) (rest : List ℕ)
    → InRange h
    → message_len h.payload_len ≤ limit
    → scan limit (message_bytes h ++ rest) ≡ (some (message_bytes h), rest)
scan-message_bytes limit h rest v fits =
    let size = length-message_bytes h in
    let p = pattern_from h.seq 0 h.payload_len in
    let decoded : decode (message_bytes h ++ rest) ≡ ok h =
      unfold message_bytes in
      rw (append_assoc (header_bytes h) p rest) (decode-header_bytes h (p ++ rest) v) in
    scan-whole limit (message_bytes h ++ rest) h decoded fits
      (omega (arith, size, length-append (message_bytes h) rest))
    ∙ rw (
      ← size,
      take-append_length (message_bytes h) rest,
      drop-append_length (message_bytes h) rest,
    )

-- Of a message that has not arrived whole nothing is consumed.
pub scan-partial :
    (limit : ℕ) (h : WireHeader) (q u rest : List ℕ)
    → InRange h
    → message_len h.payload_len ≤ limit
    → q ++ u ≡ message_bytes h ++ rest
    → length q < message_len h.payload_len
    → scan limit q ≡ (none, q)
scan-partial limit h q u rest v fits e short = elim (le_cases header_len (length q)) [
  | inl long ↦
      let p = pattern_from h.seq 0 h.payload_len in
      let head = length-header_bytes h in
      let apart : q ++ u ≡ header_bytes h ++ (p ++ rest) =
        e ∙ (unfold message_bytes in append_assoc (header_bytes h) p rest) in
      let (front, _) =
        append-eq-append q u (header_bytes h) (p ++ rest) apart (omega (arith, head)) in
      scan-waiting limit q h
        (ap decode front ∙ decode-header_bytes h (drop (length (header_bytes h)) q) v) fits long
        short
  | inr few ↦ scan-short limit q few
]

-- While no message is found, less than `limit` bytes are kept.
pub scan-none-lt :
    (limit : ℕ) (q : List ℕ)
    → header_len ≤ limit
    → (scan limit q).0 ≡ none
    → length (scan limit q).1 < limit
unfolding scan
scan-none-lt limit [] room e = omega arith
scan-none-lt limit (b ∷ bs) room e = ground (arith, scan-none-lt limit bs room)
