-- ===== src/Framing/Take.antt =====
-- `take_one` of src/transport/mod.rs against the reference of `Framing.Scan`.
use mathlib.Core.Path.{subst}
use scg_seshat.Prelude.{
  ℕ, ◌+◌, ◌-◌, ◌≤◌, ◌≡◌, refl, sym, ap, ◌∙◌, min, Option, none, some, List, [], ◌∷◌, ◌++◌, length,
  take, drop, slice, ltb, if◌then◌else◌, lt→ltb, le→ltb-false, le_cases, Bool-cases, inl, inr,
  length-slice, length-take, slice-suc, take-slice, drop-slice, take-take, arith,
}
use scg_seshat.Prelude.Result.{Result, ok, err}
use scg_seshat.Wire.Header.{WireError, WireHeader, header_len, decode}
use scg_seshat.Wire.Message.{message_len}
use scg_seshat.Framing.{FramedReader, IsValid, pending, take_loop, take_one}
use scg_seshat.Framing.Scan.{scan}

-- The caller's buffer afterwards, with the number of bytes put into it.
abbrev pub deliver : List ℕ → Option (List ℕ) → Option ℕ × List ℕ
deliver out none = (none, out)
deliver out (some m) = (
  some (min (length m) (length out)),
  take (min (length m) (length out)) m ++ drop (min (length m) (length out)) out,
)

-- What a result of `take_one` is to have in common with the reference's.
pub record TakesAs (r : FramedReader) (out : List ℕ) (spec : Option (List ℕ) × List ℕ)
    (t : Option ℕ × List ℕ × FramedReader) : Type 0 where
  pub delivered : ◌≡◌ {A = Option ℕ × List ℕ} (t.0, t.1) (deliver out spec.0)
  pub left : pending t.2 ≡ spec.1
  pub valid : IsValid t.2
  pub same_buf : t.2.buf ≡ r.buf
  pub same_end : t.2.end ≡ r.end

-- The reader after `n` of its bytes are consumed.
abbrev advance : ℕ → FramedReader → FramedReader
advance n r = record r { start = r.start + n }

pending-advance :
    (n : ℕ) (r : FramedReader) → n ≤ r.end - r.start → drop n (pending r) ≡ pending (advance n r)
pending-advance n r h = drop-slice r.start r.end n r.buf h

pub length-pending : (r : FramedReader) → IsValid r → length (pending r) ≡ r.end - r.start
length-pending r v = length-slice r.start r.end r.buf v.inside

-- Nothing is delivered or consumed.
nothing :
    (r : FramedReader) (out q : List ℕ)
    → IsValid r
    → pending r ≡ q
    → TakesAs r out (none, q) (none, out, r)
nothing r out q v e = record {
  delivered = refl;
  left = e;
  valid = v;
  same_buf = refl;
  same_end = refl;
}

-- A whole message is copied out and consumed.
TakesAs-whole :
    (r : FramedReader) (out : List ℕ) (total : ℕ)
    → IsValid r
    → total ≤ r.end - r.start
    → TakesAs r out
        (some (take total (pending r)), drop total (pending r))
        (
          some (min total (length out)),
          slice r.start (r.start + min total (length out)) r.buf
              ++ drop (min total (length out)) out,
          advance total r,
        )
TakesAs-whole r out total v whole =
    let size : length (take total (pending r)) ≡ total =
      omega (arith, length-take total (pending r), length-pending r v) in
    record {
      delivered = rw (
        size,
        take-take (min total (length out)) total (pending r) (omega arith),
        take-slice r.start r.end (min total (length out)) r.buf (omega arith),
      );
      left = sym (pending-advance total r whole);
      valid = omega arith;
      same_buf = refl;
      same_end = refl;
    }

-- One round, by what the header decodes to, with the result of the round after a dropped byte.
TakesAs-round :
    (r : FramedReader) (out : List ℕ) (q : List ℕ) (d : Result WireError WireHeader)
    (skip_spec : Option (List ℕ) × List ℕ) (skip : Option ℕ × List ℕ × FramedReader)
    → IsValid r
    → pending r ≡ q
    → TakesAs r out skip_spec skip
    → let n = λ (total : ℕ). min total (length out) in
      TakesAs r out
        (if ltb (length q) header_len then (none, q) else (elim d [
          | err why ↦ skip_spec
          | ok hdr ↦
              if ltb (length r.buf) (message_len hdr.payload_len)
              then skip_spec
              else if ltb (length q) (message_len hdr.payload_len)
              then (none, q)
              else (
                some (take (message_len hdr.payload_len) q),
                drop (message_len hdr.payload_len) q,
              )
        ]))
        (if ltb (r.end - r.start) header_len then (none, out, r) else (elim d [
          | err why ↦ skip
          | ok hdr ↦
              if ltb (length r.buf) (message_len hdr.payload_len)
              then skip
              else if ltb (r.end - r.start) (message_len hdr.payload_len)
              then (none, out, r)
              else (
                some (n (message_len hdr.payload_len)),
                slice r.start (r.start + n (message_len hdr.payload_len)) r.buf
                    ++ drop (n (message_len hdr.payload_len)) out,
                advance (message_len hdr.payload_len) r,
              )
        ]))
TakesAs-round r out q (err why) skip_spec skip v e ih =
    let size : length q ≡ r.end - r.start = ap length (sym e) ∙ length-pending r v in
    rw size (elim (Bool-cases (ltb (r.end - r.start) header_len)) [
      | inl short ↦ rw short (nothing r out q v e)
      | inr long ↦ rw long ih
    ])
TakesAs-round r out q (ok hdr) skip_spec skip v e ih =
    let size : length q ≡ r.end - r.start = ap length (sym e) ∙ length-pending r v in
    let total = message_len hdr.payload_len in
    rw size (elim (Bool-cases (ltb (r.end - r.start) header_len)) [
      | inl short ↦ rw short (nothing r out q v e)
      | inr long ↦ elim (Bool-cases (ltb (length r.buf) total)) [
        | inl huge ↦ rw (long, huge) ih
        | inr fits ↦ elim (le_cases total (r.end - r.start)) [
          | inl whole ↦
              rw (long, fits, le→ltb-false (r.end - r.start) total whole)
                (rw e at (TakesAs-whole r out total v whole))
          | inr part ↦ rw (long, fits, lt→ltb (r.end - r.start) total part) (nothing r out q v e)
        ]
      ]
    ])

take_loop-TakesAs :
    (out : List ℕ) (r : FramedReader) (q : List ℕ)
    → IsValid r
    → pending r ≡ q
    → TakesAs r out (scan (length r.buf) q) (take_loop (length q) out r)
unfolding take_loop scan
take_loop-TakesAs out r [] v e = nothing r out [] v e
take_loop-TakesAs out r (b ∷ bs) v e =
    let size : length (b ∷ bs) ≡ r.end - r.start = ap length (sym e) ∙ length-pending r v in
    let (x, step) = slice-suc r.start r.end (length bs) r.buf (omega arith) v.inside in
    let tail : pending (advance 1 r) ≡ bs = ap (drop 1) (sym step ∙ e) in
    let ih = take_loop-TakesAs out (advance 1 r) bs (omega arith) tail in
    rw e (
      TakesAs-round r out (b ∷ bs) (decode (b ∷ bs)) (scan (length r.buf) bs)
        (take_loop (length bs) out (advance 1 r)) v e
        (record {
          delivered = ih.delivered;
          left = ih.left;
          valid = ih.valid;
          same_buf = ih.same_buf;
          same_end = ih.same_end;
        }))

-- In a valid reader `take_one` does what the scan of the buffered bytes says: it delivers the
-- message found, cut to the caller's buffer, or none, and leaves buffered the bytes that the scan
-- leaves. The reader stays valid, its storage untouched.
pub take_one-TakesAs :
    (out : List ℕ) (r : FramedReader)
    → IsValid r
    → TakesAs r out (scan (length r.buf) (pending r)) (take_one out r)
unfolding take_one
take_one-TakesAs out r v =
    subst (λ n. TakesAs r out (scan (length r.buf) (pending r)) (take_loop n out r))
      (length-pending r v) (take_loop-TakesAs out r (pending r) v refl)
