-- ===== src/Wire/Payload.antt =====
-- The deterministic payload (src/proto/wire.rs): `fill_byte`, the `RAMP` table, `fill_payload` and
-- `verify_payload`. A byte is a number below 256 and `seq` one below 2 ^ 64.
pub mod Ramp
pub mod Fill
pub mod Verify
use scg_seshat.Prelude.{
  ℕ, zero, suc, ◌+◌, ◌-◌, ◌%◌, ◌^◌, min, Bool, Option, none, some, List, [], ◌∷◌, length, get_or,
  slice, write_range, bytes_eq, ltb, ◌==◌, if◌then◌else◌,
}
use scg_seshat.Prelude.Partial.{◌>>=◌}
use scg_seshat.Prelude.Result.{Result, ok, err}
use scg_seshat.Wire.Header.{WireError, corrupt_payload}

-- `seq.wrapping_add(i as u64) & 0xff`
unfoldable pub fill_byte : ℕ → ℕ → ℕ
fill_byte seq i = (seq + i) % 2 ^ 64 % 256

-- The loop that fills the table, from index `k` on.
unfoldable pub ramp_from : ℕ → ℕ → List ℕ
ramp_from k zero = []
ramp_from k (suc n) = (k % 256) ∷ ramp_from (k + 1) n

pub ramp : List ℕ
ramp = ramp_from 0 512

abbrev pub ramp_offset : ℕ → ℕ
ramp_offset seq = seq % 256

-- The size of the block at `pos` of a payload of `len` bytes.
abbrev pub block : ℕ → ℕ → ℕ
block len pos = min (len - pos) 256

-- The `while` loop of `fill_payload`. Each round but the last handles 256 bytes and the last at
-- least one, so the number of bytes left is fuel enough, and with no fuel `pos` is at the end.
fill_from : ℕ → ℕ → ℕ → List ℕ → Option (List ℕ)
fill_from zero off pos payload = some payload
fill_from (suc fuel) off pos payload =
    let n = block (length payload) pos in
    let round = (do
      filled ← write_range payload pos (slice off (off + n) ramp)
      fill_from fuel off (pos + n) filled) in
    if ltb pos (length payload) then round else some payload

-- `none` is a panic of `copy_from_slice`.
unfoldable pub fill_payload : ℕ → List ℕ → Option (List ℕ)
unfolding fill_from ramp ramp_from
fill_payload seq payload = fill_from (length payload) (ramp_offset seq) 0 payload

-- The `for` loop over one block: the index of the first byte that differs from the table.
find_mismatch : ℕ → ℕ → List ℕ → Option ℕ
find_mismatch off i [] = none
find_mismatch off i (b ∷ bs) =
    let rest = find_mismatch off (i + 1) bs in if b == get_or ramp (off + i) 0 then rest else some i

-- The `while` loop of `verify_payload`, on the same fuel.
verify_from : ℕ → ℕ → ℕ → List ℕ → Result WireError Unit
verify_from zero off pos payload = ok tt
verify_from (suc fuel) off pos payload =
    let n = block (length payload) pos in
    let found = slice pos (pos + n) payload in
    let next = verify_from fuel off (pos + n) payload in
    let slow : Result WireError Unit = elim (find_mismatch off 0 found) [
      | none ↦ next
      | some i ↦ err (corrupt_payload (pos + i))
    ] in
    if ltb pos (length payload)
    then (if bytes_eq found (slice off (off + n) ramp) then next else slow)
    else ok tt

unfoldable pub verify_payload : ℕ → List ℕ → Result WireError Unit
unfolding verify_from find_mismatch ramp ramp_from
verify_payload seq payload = verify_from (length payload) (ramp_offset seq) 0 payload
