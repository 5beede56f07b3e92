-- ===== src/Wire/Header.antt =====
-- The 24-byte message header (src/proto/wire.rs): `WireHeader` with `encode` and `decode`.
pub mod RoundTrip
use scg_seshat.Prelude.{
  ℕ, ◌+◌, ◌^◌, ◌<◌, Bool, not, Option, some, List, [], ◌∷◌, length, slice, write_range, take,
  to_le_bytes, from_le_bytes, bytes_eq, ltb, if◌then◌else◌,
}
use scg_seshat.Prelude.Partial.{◌>>=◌}
use scg_seshat.Prelude.Result.{Result, ok, err}

-- b"SESH"
abbrev pub magic : List ℕ
magic = b'S' ∷ b'E' ∷ b'S' ∷ b'H' ∷ []

abbrev pub header_len : ℕ
header_len = 24

pub data WireError : Type 0 where
  -- `have`
  short_header : ℕ → WireError
  -- `found`
  bad_magic : List ℕ → WireError
  -- `need` and `have`
  truncated_payload : ℕ → ℕ → WireError
  -- `offset`
  corrupt_payload : ℕ → WireError

pub record WireHeader : Type 0 where
  pub seq : ℕ
  pub ts_ns : ℕ
  pub payload_len : ℕ

-- The fields have the ranges of `u64`, `u64` and `u32`.
pub record InRange (h : WireHeader) : Type 0 where
  pub seq_fits : h.seq < 2 ^ 64
  pub ts_ns_fits : h.ts_ns < 2 ^ 64
  pub payload_len_fits : h.payload_len < 2 ^ 32

-- The send time is the caller's; `stamp` passes the clock's reading.
unfoldable pub stamp_at : ℕ → ℕ → ℕ → WireHeader
stamp_at seq payload_len ts_ns = record { seq = seq; ts_ns = ts_ns; payload_len = payload_len }

-- Writes the header into `buf`; `none` is the panic of a range past the end of `buf`.
unfoldable pub encode : WireHeader → List ℕ → Option (ℕ × List ℕ)
encode h buf = do
  b1 ← write_range buf 0 magic
  b2 ← write_range b1 4 (to_le_bytes 8 h.seq)
  b3 ← write_range b2 12 (to_le_bytes 8 h.ts_ns)
  b4 ← write_range b3 20 (to_le_bytes 4 h.payload_len)
  some (header_len, b4)

-- The fields behind the magic.
unfoldable pub fields_of : List ℕ → WireHeader
fields_of buf = record {
  seq = from_le_bytes (slice 4 12 buf);
  ts_ns = from_le_bytes (slice 12 20 buf);
  payload_len = from_le_bytes (slice 20 24 buf);
}

unfoldable pub decode : List ℕ → Result WireError WireHeader
decode buf =
    if ltb (length buf) header_len
    then err (short_header (length buf))
    else if not (bytes_eq (slice 0 4 buf) magic)
    then err (bad_magic (slice 0 4 buf))
    else ok (fields_of buf)
