-- ===== src/Framing/Fill.antt =====
-- `fill_once` of src/transport/mod.rs: compaction loses no byte, and a read appends its own.
use scg_seshat.Prelude.{
  ℕ, ◌+◌, ◌-◌, ◌≤◌, ◌<◌, ◌≡◌, refl, ap, ◌∙◌, List, ◌++◌, length, take, drop, ◌==◌, ==_iff,
  Bool-cases, inl, inr, length-append, length-take, length-drop, take-append_length,
  take-append_right, drop-append_left, drop-take, arith,
}
use scg_seshat.Framing.{FramedReader, IsValid, pending, compact, store}
use scg_seshat.Framing.Take.{length-pending}

-- Compaction keeps the buffered bytes, the invariant and the capacity.
pub record SameBytes (r r' : FramedReader) : Type 0 where
  pub valid : IsValid r'
  pub bytes : pending r' ≡ pending r
  pub capacity : length r'.buf ≡ length r.buf

compact-drained :
    (r : FramedReader) → IsValid r → r.start ≡ r.end → SameBytes r (record r { start = 0; end = 0 })
compact-drained r v e =
    let none_left : r.end - r.start ≡ 0 = omega arith in
    record { valid = omega arith; bytes = rw none_left; capacity = refl }

compact-moved :
    (r : FramedReader)
    → IsValid r
    → SameBytes r (record {
      buf = pending r ++ drop (r.end - r.start) r.buf;
      start = 0;
      end = r.end - r.start;
    })
compact-moved r v =
    let size = length-pending r v in
    let whole : length (pending r ++ drop (r.end - r.start) r.buf) ≡ length r.buf = omega (
      arith,
      size,
      length-append (pending r) (drop (r.end - r.start) r.buf),
      length-drop (r.end - r.start) r.buf,
    ) in
    record {
      valid = omega (arith, whole);
      bytes =
          ap (λ n. take n (pending r ++ drop (r.end - r.start) r.buf)) (omega (arith, size))
          ∙ take-append_length (pending r) (drop (r.end - r.start) r.buf);
      capacity = whole;
    }

pub compact-SameBytes : (r : FramedReader) → IsValid r → SameBytes r (compact r)
unfolding compact
compact-SameBytes r v = elim (Bool-cases (r.start == r.end)) [
  | inl drained ↦ rw drained (compact-drained r v ((==_iff r.start r.end).0 drained))
  | inr some_left ↦ elim (Bool-cases (r.end == length r.buf)) [
    | inl at_end ↦ rw (some_left, at_end) (compact-moved r v)
    | inr room ↦ rw (some_left, room) (record { valid = v; bytes = refl; capacity = refl })
  ]
]

-- After compaction there is room, unless the buffered bytes take up the whole buffer.
pub compact_room :
    (r : FramedReader)
    → IsValid r
    → length (pending r) < length r.buf
    → (compact r).end < length (compact r).buf
compact_room r v few =
    rw ((compact-SameBytes r v).capacity) (unfold compact in ground (arith, length-pending r v))

-- A stored read lies behind the bytes that were buffered.
pub store_lem :
    (bytes : List ℕ) (r : FramedReader)
    → IsValid r
    → length bytes ≤ length r.buf - r.end
    → IsValid (store bytes r)
      × (pending (store bytes r) ≡ pending r ++ bytes)
      × (length (store bytes r).buf ≡ length r.buf)
unfolding store
store_lem bytes r v fits =
    let front = length-take r.end r.buf in
    let rest = drop (r.end + length bytes) r.buf in
    let whole : length (take r.end r.buf ++ (bytes ++ rest)) ≡ length r.buf = omega (
      arith,
      front,
      length-append (take r.end r.buf) (bytes ++ rest),
      length-append bytes rest,
      length-drop (r.end + length bytes) r.buf,
    ) in
    let size = length-pending r v in
    let split : r.end ≡ r.start + (r.end - r.start) = omega arith in
    let kept : drop r.start (take r.end r.buf) ≡ pending r =
      ap (λ n. drop r.start (take n r.buf)) split ∙ drop-take r.start (r.end - r.start) r.buf in
    let width : r.end + length bytes - r.start ≡ length (pending r) + length bytes =
      omega (arith, size) in
    (
      omega (arith, whole),
      rw (
        drop-append_left r.start (take r.end r.buf) (bytes ++ rest) (omega (arith, front)),
        kept,
        width,
        take-append_right (length bytes) (pending r) (bytes ++ rest),
        take-append_length bytes rest,
      ),
      whole,
    )
