-- ===== src/Framing/Batch.antt =====
-- `FramedReader::take_messages` of src/transport/mod.rs: several messages into the slots of one buffer.
pub mod Slots
use scg_seshat.Prelude.{
  ℕ, zero, suc, ◌+◌, false, ◌*◌, ◌/◌, ◌≤◌, ◌<◌, ◌≡◌, refl, sym, ap, ap₂, ◌∙◌, min, Option, none,
  some, List, [], ◌∷◌, ◌++◌, length, take, drop, slice, ◌==◌, slice-append, take-append_length,
  drop-append_length, take-append-drop, drop-drop, length-append, length-take, length-drop,
  append_assoc, arith,
}
use mathlib.Core.Path.{subst}
use mathlib.Core.Option.{some-injective}
use native.Mathlib.Nat.{mul-le-mul_right, div-mul-le_self}
use scg_seshat.Framing.{
  FramedReader, IsValid, pending, take_one, put_slot, put_len, carve, take_messages,
}
use scg_seshat.Framing.Scan.{scan}
use scg_seshat.Framing.Batch.Slots.{
  put_slot-append, put_len-append, next_slot, length-deliver, slice_here, rounds_fit,
}
use scg_seshat.Framing.Take.{deliver, TakesAs, take_one-TakesAs}

-- The reference: the messages of the buffered bytes one after the other, each into the next slot.
unfoldable pub batch : ℕ → ℕ → ℕ → List ℕ → List ℕ → List ℕ → ℕ × List ℕ × List ℕ × List ℕ
batch zero limit stride out lens q = (0, out, lens, q)
batch (suc rounds) limit stride out lens q =
    let rest = batch rounds limit stride (drop stride out) (drop 1 lens) (scan limit q).1 in
    elim (scan limit q).0 [
      | none ↦ (0, out, lens, (scan limit q).1)
      | some m ↦ (
        suc rest.0,
        (deliver (take stride out) (some m)).1 ++ rest.1,
        min (length m) stride ∷ rest.2,
        rest.3,
      )
    ]

-- What carving has in common with the reference, behind what is done already.
abbrev pub CarvesAs :
    ℕ
    → List ℕ
    → List ℕ
    → ℕ
    → ℕ × List ℕ × List ℕ × List ℕ
    → ℕ × List ℕ × List ℕ × FramedReader
    → Type 0
CarvesAs count done ldone size spec t =
    (t.0 ≡ count + spec.0)
    × (t.1 ≡ done ++ spec.1)
    × (t.2 ≡ ldone ++ spec.2)
    × (pending t.3 ≡ spec.3)
    × IsValid t.3
    × (length t.3.buf ≡ size)

-- One round, by what `take_one` returned.
module _ (rounds count stride : ℕ) (done out ldone : List ℕ) (l : ℕ) (ls : List ℕ)
    (r : FramedReader) (hd : length done ≡ count * stride) (hl : length ldone ≡ count)
    (room : stride ≤ length out)
    (ih : (done' ldone' : List ℕ) (r' : FramedReader)
      → IsValid r'
      → length done' ≡ (count + 1) * stride
      → length ldone' ≡ count + 1
      → CarvesAs
          (count + 1)
          done'
          ldone'
          (length r'.buf)
          (batch rounds (length r'.buf) stride (drop stride out) ls (pending r'))
          (carve rounds (count + 1) stride (done' ++ drop stride out) (ldone' ++ ls) r')) where
  slot_width : length (take stride out) ≡ stride
  slot_width = omega (arith, length-take stride out)

  put_slot_here :
      (slot : List ℕ)
      → put_slot (count * stride) ((count + 1) * stride) slot (done ++ out)
        ≡ done ++ (slot ++ drop stride out)
  put_slot_here slot =
      let hi : (count + 1) * stride ≡ count * stride + length (take stride out) =
        omega (arith, next_slot count stride, slot_width) in
      ap (λ o. put_slot (count * stride) ((count + 1) * stride) slot (done ++ o))
        (sym (take-append-drop stride out))
      ∙ put_slot-append done (take stride out) slot (drop stride out) (count * stride)
          ((count + 1) * stride) (sym hd) hi

  carve_step :
      (spec : Option (List ℕ) × List ℕ) (t : Option ℕ × List ℕ × FramedReader)
      → TakesAs r (take stride out) spec t
      → CarvesAs count done ldone
          (length r.buf)
          (elim spec.0 [
            | none ↦ (0, out, l ∷ ls, spec.1)
            | some m ↦
                let rest = batch rounds (length r.buf) stride (drop stride out) ls spec.1 in
                (
                  suc rest.0,
                  (deliver (take stride out) (some m)).1 ++ rest.1,
                  min (length m) stride ∷ rest.2,
                  rest.3,
                )
          ])
          (elim t.0 [
            | none ↦ (
              count,
              put_slot (count * stride) ((count + 1) * stride) t.1 (done ++ out),
              ldone ++ l ∷ ls,
              t.2,
            )
            | some n ↦
                carve rounds
                  (count + 1)
                  stride
                  (put_slot (count * stride) ((count + 1) * stride) t.1 (done ++ out))
                  (put_len count n (ldone ++ l ∷ ls))
                  t.2
          ])
  carve_step (none, rest) (none, slot, r') ta =
      let e : slot ≡ take stride out = ap (λ p. p.1) ta.delivered in
      (
        omega arith,
        put_slot_here slot
            ∙ ap (λ x. done ++ x) (ap (λ x. x ++ drop stride out) e ∙ take-append-drop stride out),
        refl,
        ta.left,
        ta.valid,
        ap length ta.same_buf,
      )
  carve_step (none, rest) (some n, slot, r') ta = absurd cc (ap (λ p. p.0) ta.delivered)
  carve_step (some m, rest) (none, slot, r') ta = absurd cc (ap (λ p. p.0) ta.delivered)
  carve_step (some m, rest) (some n, slot, r') ta =
      let es : slot ≡ (deliver (take stride out) (some m)).1 = ap (λ p. p.1) ta.delivered in
      let en : n ≡ min (length m) (length (take stride out)) =
        some-injective n (min (length m) (length (take stride out))) (ap (λ p. p.0) ta.delivered) in
      let width : length slot ≡ stride =
        ap length es ∙ length-deliver (take stride out) m ∙ slot_width in
      let hd' : length (done ++ slot) ≡ (count + 1) * stride =
        omega (arith, length-append done slot, next_slot count stride, width, hd) in
      let hl' : length (ldone ++ n ∷ []) ≡ count + 1 =
        omega (arith, length-append ldone (n ∷ [])) in
      let (c0, c1, c2, c3, c4, c5) = ih (done ++ slot) (ldone ++ n ∷ []) r' ta.valid hd' hl' in
      let eb =
        ap₂ (λ k q. batch rounds k stride (drop stride out) ls q) (ap length ta.same_buf) ta.left in
      let ec =
        ap₂ (λ o z. carve rounds (count + 1) stride o z r')
          (put_slot_here slot ∙ sym (append_assoc done slot (drop stride out)))
          (put_len-append ldone l n ls count (sym hl) ∙ sym (append_assoc ldone (n ∷ []) ls)) in
      let limit : ℕ = length r.buf in
      let x = batch rounds (length r'.buf) stride (drop stride out) ls (pending r') in
      let y = batch rounds limit stride (drop stride out) ls rest in
      let more : count + 1 + y.0 ≡ count + suc y.0 = omega arith in
      (
        ap (λ t. t.0) ec ∙ c0 ∙ ap (λ b. count + 1 + b.0) eb ∙ more,
        ap (λ t. t.1) ec ∙ c1 ∙ append_assoc done slot x.1 ∙ ap₂ (λ z b. done ++ (z ++ b.1)) es eb,
        ap (λ t. t.2) ec
            ∙ c2
            ∙ append_assoc ldone (n ∷ []) x.2
            ∙ ap₂ (λ k b. ldone ++ k ∷ b.2) (en ∙ ap (min (length m)) slot_width) eb,
        ap (λ t. pending t.3) ec ∙ c3 ∙ ap (λ b. b.3) eb,
        subst (λ t. IsValid t.3) (sym ec) c4,
        ap (λ t. length t.3.buf) ec ∙ c5 ∙ ap length ta.same_buf,
      )

carve_lem :
    (rounds count stride : ℕ) (done out ldone lens : List ℕ) (r : FramedReader)
    → IsValid r
    → length done ≡ count * stride
    → length ldone ≡ count
    → rounds * stride ≤ length out
    → rounds ≤ length lens
    → CarvesAs count done ldone
        (length r.buf)
        (batch rounds (length r.buf) stride out lens (pending r))
        (carve rounds count stride (done ++ out) (ldone ++ lens) r)
unfolding carve batch
carve_lem zero count stride done out ldone lens r v hd hl ho hn =
    (omega arith, refl, refl, refl, v, refl)
carve_lem (suc rounds) count stride done out ldone [] r v hd hl ho hn = absurd (omega arith)
carve_lem (suc rounds) count stride done out ldone (l ∷ ls) r v hd hl ho hn =
    let lo : ℕ = count * stride in
    let hi : ℕ = (count + 1) * stride in
    let room : stride ≤ length out = omega (arith, next_slot rounds stride) in
    let here : slice lo hi (done ++ out) ≡ take stride out =
      slice_here count stride done out hd room in
    let t = take_one (slice lo hi (done ++ out)) r in
    let ta : TakesAs r (take stride out) (scan (length r.buf) (pending r)) t =
      subst (λ o. TakesAs r o (scan (length r.buf) (pending r)) t) here
        (take_one-TakesAs (slice lo hi (done ++ out)) r v) in
    carve_step rounds count stride done out ldone l ls r hd hl room
      (λ done' ldone' r' v' hd' hl'.
        carve_lem rounds (count + 1) stride done' (drop stride out) ldone' ls r' v' hd' hl'
          (omega (arith, next_slot rounds stride, length-drop stride out)) (omega arith))
      (scan (length r.buf) (pending r)) t ta

-- In a valid reader and with slots that are not empty, `take_messages` does what repeated scans of
-- the buffered bytes say: it fills the slots from the first on with the messages found, cut to the
-- slot, until there is none or the room, the lengths or the limit is used up; it returns their
-- number and lengths, leaves the rest of the buffer and of the lengths as it is, and leaves
-- buffered the bytes that the scans leave. The reader stays valid and of the same size.
pub take_messages_lem :
    (out : List ℕ) (stride most : ℕ) (lens : List ℕ) (r : FramedReader)
    → IsValid r
    → 0 < stride
    → CarvesAs 0 [] []
        (length r.buf)
        (batch
          (min (min most (length lens)) (length out / stride))
          (length r.buf)
          stride
          out
          lens
          (pending r))
        (take_messages out stride most lens r)
unfolding take_messages
take_messages_lem out stride most lens r v hs =
    let rounds : ℕ = min (min most (length lens)) (length out / stride) in
    let some_stride : (stride == 0) ≡ false = ground arith in
    rw some_stride (
      carve_lem rounds 0 stride [] out [] lens r v (omega arith) refl
        (rounds_fit (min most (length lens)) (length out) stride) (omega arith))
