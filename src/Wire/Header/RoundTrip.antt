-- ===== src/Wire/Header/RoundTrip.antt =====
-- What `encode` writes, and that `decode` reads it back (src/proto/wire.rs).
use scg_seshat.Prelude.{
  ℕ, ◌+◌, ◌≤◌, ◌≡◌, refl, some, Option, List, [], ◌++◌, length, drop, write_range,
  write_range-append, to_le_bytes, bytes_eq_refl, length-drop, drop-drop, from_le_bytes-to_le_bytes,
  le→ltb-false, arith,
}
use scg_seshat.Prelude.Partial.{◌>>=◌}
use scg_seshat.Prelude.Result.{ok}
use scg_seshat.Wire.Header.{WireHeader, InRange, magic, header_len, encode, decode, fields_of}

-- The 24 bytes of a header.
unfoldable pub header_bytes : WireHeader → List ℕ
header_bytes h =
    magic ++ (to_le_bytes 8 h.seq ++ (to_le_bytes 8 h.ts_ns ++ to_le_bytes 4 h.payload_len))

pub length-header_bytes : (h : WireHeader) → length (header_bytes h) ≡ header_len
unfolding header_bytes to_le_bytes
length-header_bytes h = refl

-- Four writes in a row, each right behind the one before.
four_writes :
    {B : Type 0} (k : List ℕ → Option B) (a b c d rest : List ℕ)
    → length a + length b + length c + length d ≤ length rest
    → (do
      b1 ← write_range rest 0 a
      b2 ← write_range b1 (length a) b
      b3 ← write_range b2 (length (a ++ b)) c
      b4 ← write_range b3 (length ((a ++ b) ++ c)) d
      k b4)
      ≡ k ((((a ++ b) ++ c) ++ d) ++ drop (length a + length b + length c + length d) rest)
four_writes k a b c d rest fits = rw (
  write_range-append [] a rest 0 refl (omega arith),
  write_range-append a b (drop (length a) rest) (length a) refl
      (omega (arith, length-drop (length a) rest)),
  drop-drop (length b) (length a) rest,
  write_range-append (a ++ b) c (drop (length a + length b) rest) (length (a ++ b)) refl
      (omega (arith, length-drop (length a + length b) rest)),
  drop-drop (length c) (length a + length b) rest,
  write_range-append ((a ++ b) ++ c) d (drop (length a + length b + length c) rest)
      (length ((a ++ b) ++ c)) refl
      (omega (arith, length-drop (length a + length b + length c) rest)),
  drop-drop (length d) (length a + length b + length c) rest,
)

-- The header replaces the first 24 bytes, and the rest of the buffer stays.
pub encode_lem :
    (h : WireHeader) (buf : List ℕ)
    → header_len ≤ length buf
    → encode h buf ≡ some (header_len, header_bytes h ++ drop header_len buf)
unfolding encode header_bytes to_le_bytes
encode_lem h buf fits = rw (
    four_writes {B = ℕ × List ℕ} (λ b. some (header_len, b)) magic (to_le_bytes 8 h.seq)
      (to_le_bytes 8 h.ts_ns) (to_le_bytes 4 h.payload_len) buf fits)

pub decode-header_bytes :
    (h : WireHeader) (rest : List ℕ) → InRange h → decode (header_bytes h ++ rest) ≡ ok h
unfolding decode header_bytes fields_of to_le_bytes
decode-header_bytes h rest v = rw (
  le→ltb-false (length (header_bytes h ++ rest)) header_len (omega arith),
  bytes_eq_refl magic,
  from_le_bytes-to_le_bytes 8 h.seq v.seq_fits,
  from_le_bytes-to_le_bytes 8 h.ts_ns v.ts_ns_fits,
  from_le_bytes-to_le_bytes 4 h.payload_len v.payload_len_fits,
)
