-- ===== src/Framing.antt =====
-- Re-framing of a byte stream into messages: `FramedReader` of src/transport/mod.rs, with
-- `take_one`, `take_messages`, `fill_once` and `next_message`.
pub mod Scan
pub mod Take
pub mod Fill
pub mod Stream
pub mod Next
pub mod Batch
mod Tests
use scg_seshat.Prelude.{
  ℕ, zero, suc, ◌+◌, ◌-◌, ◌*◌, ◌/◌, ◌≤◌, min, max, Option, none, some, List, [], ◌∷◌, ◌++◌, length,
  take, drop, replicate, slice, ◌==◌, ltb, if◌then◌else◌,
}
use scg_seshat.Prelude.Result.{Result, ok, err}
use scg_seshat.Wire.Header.{header_len, decode}
use scg_seshat.Wire.Message.{message_len}

-- The valid bytes are `buf[start..end]`; the length of `buf` never changes.
pub record FramedReader : Type 0 where
  pub buf : List ℕ
  pub start : ℕ
  pub end : ℕ

pub record IsValid (r : FramedReader) : Type 0 where
  pub ordered : r.start ≤ r.end
  pub inside : r.end ≤ length r.buf

-- The bytes that are buffered and not consumed.
abbrev pub pending : FramedReader → List ℕ
pending r = slice r.start r.end r.buf

abbrev pub capacity_for : ℕ → ℕ
capacity_for message_bytes = max (message_bytes + header_len) (64 * 1024) * 2

unfoldable pub new : ℕ → FramedReader
new message_bytes = record { buf = replicate (capacity_for message_bytes) 0; start = 0; end = 0 }

-- The `loop` of `take_one`. Each round but the last drops one of the buffered bytes, so their
-- number is fuel enough, and with no fuel nothing is buffered. The list is the caller's buffer.
take_loop : ℕ → List ℕ → FramedReader → Option ℕ × List ℕ × FramedReader
take_loop zero out r = (none, out, r)
take_loop (suc fuel) out r =
    let skip = take_loop fuel out (record r { start = r.start + 1 }) in
    let n = λ (total : ℕ). min total (length out) in
    let framed : Option ℕ × List ℕ × FramedReader = elim (decode (pending r)) [
      | err why ↦ skip
      | ok hdr ↦
          if ltb (length r.buf) (message_len hdr.payload_len)
          then skip
          else if ltb (r.end - r.start) (message_len hdr.payload_len)
          then (none, out, r)
          else (
            some (n (message_len hdr.payload_len)),
            slice r.start (r.start + n (message_len hdr.payload_len)) r.buf
                ++ drop (n (message_len hdr.payload_len)) out,
            record r { start = r.start + message_len hdr.payload_len },
          )
    ] in
    if ltb (r.end - r.start) header_len then (none, out, r) else framed

unfoldable pub take_one : List ℕ → FramedReader → Option ℕ × List ℕ × FramedReader
unfolding take_loop
take_one out r = take_loop (r.end - r.start) out r

-- The slot from `lo` to `hi` is written.
unfoldable pub put_slot : ℕ → ℕ → List ℕ → List ℕ → List ℕ
put_slot lo hi slot out = take lo out ++ (slot ++ drop hi out)

-- `lens[count] = n`
unfoldable pub put_len : ℕ → ℕ → List ℕ → List ℕ
put_len count n lens = take count lens ++ n ∷ drop (count + 1) lens

-- The `while` loop, by the rounds that are left of `cap`.
unfoldable pub carve :
    ℕ → ℕ → ℕ → List ℕ → List ℕ → FramedReader → ℕ × List ℕ × List ℕ × FramedReader
carve zero count stride out lens r = (count, out, lens, r)
carve (suc rounds) count stride out lens r =
    let lo : ℕ = count * stride in
    let hi : ℕ = (count + 1) * stride in
    let (got, slot, r') = take_one (slice lo hi out) r in
    elim got [
      | none ↦ (count, put_slot lo hi slot out, lens, r')
      | some n ↦ carve rounds (count + 1) stride (put_slot lo hi slot out) (put_len count n lens) r'
    ]

unfoldable pub take_messages :
    List ℕ → ℕ → ℕ → List ℕ → FramedReader → ℕ × List ℕ × List ℕ × FramedReader
take_messages out stride most lens r =
    if stride == 0
    then (0, out, lens, r)
    else carve (min (min most (length lens)) (length out / stride)) 0 stride out lens r

-- What one call of the caller's read function returns: `Ok` with the bytes read, or an error.
pub data ReadResult : Type 0 where
  read : List ℕ → ReadResult
  would_block timed_out interrupted failed : ReadResult

pub data FillOutcome : Type 0 where
  filled timeout closed : FillOutcome

pub data IoError : Type 0 where
  -- "framed-reader buffer full without a complete message"
  buffer_full : IoError
  -- any other error of the read function
  read_failed : IoError

-- The buffer is reset when everything is consumed, and moved to the front when its end is reached.
pub compact : FramedReader → FramedReader
compact r =
    if r.start == r.end
    then record r { start = 0; end = 0 }
    else if r.end == length r.buf
    then record {
      buf = pending r ++ drop (r.end - r.start) r.buf;
      start = 0;
      end = r.end - r.start;
    }
    else r

-- The read function writes its bytes from `end` on.
pub store : List ℕ → FramedReader → FramedReader
store bytes r = record r {
  buf = take r.end r.buf ++ (bytes ++ drop (r.end + length bytes) r.buf);
  end = r.end + length bytes;
}

pub settle : ReadResult → FramedReader → Result IoError FillOutcome × FramedReader
unfolding store
settle (read []) r = (ok closed, r)
settle (read (b ∷ bytes)) r = (ok filled, store (b ∷ bytes) r)
settle would_block r = (ok timeout, r)
settle timed_out r = (ok timeout, r)
settle interrupted r = (ok filled, r)
settle failed r = (err read_failed, r)

-- The read function is a closure with a state of its own; it is told how much room there is.
module _ {S : Type 0} (read_fn : S → ℕ → ReadResult × S) where
  unfoldable pub fill_once : S → FramedReader → Result IoError FillOutcome × FramedReader × S
  unfolding compact settle
  fill_once s r =
      let packed = compact r in
      let (got, s') = read_fn s (length packed.buf - packed.end) in
      let (outcome, r') = settle got packed in
      if packed.end == length packed.buf then (err buffer_full, packed, s) else (outcome, r', s')

pub data RecvOutcome : Type 0 where
  message : ℕ → RecvOutcome
  idle shut : RecvOutcome
  broken : IoError → RecvOutcome
  -- the rounds given have not been enough
  unfinished : RecvOutcome

module _ {S : Type 0} (read_fn : S → ℕ → ReadResult × S) where
  -- The `loop` of `next_message`, with a bound on its rounds.
  unfoldable pub next_message :
      ℕ → List ℕ → S → FramedReader → RecvOutcome × List ℕ × FramedReader × S
  next_message zero out s r = (unfinished, out, r, s)
  next_message (suc rounds) out s r =
      let (got, out', r') = take_one out r in
      let (outcome, r'', s') = fill_once read_fn s r' in
      let again = next_message rounds out' s' r'' in
      elim got [
        | some n ↦ (message n, out', r', s)
        | none ↦ elim outcome [
          | ok filled ↦ again
          | ok timeout ↦ (idle, out', r'', s')
          | ok closed ↦ (shut, out', r'', s')
          | err e ↦ (broken e, out', r'', s')
        ]
      ]
