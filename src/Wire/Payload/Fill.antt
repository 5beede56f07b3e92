-- ===== src/Wire/Payload/Fill.antt =====
-- `fill_payload` writes the pattern of its message and never panics (src/proto/wire.rs).
use scg_seshat.Prelude.{
  ℕ, zero, suc, ◌+◌, ◌-◌, ◌%◌, ◌≤◌, ◌<◌, ◌≡◌, refl, sym, ap, ◌∙◌, ◌⊎◌, inl, inr, min, Option, some,
  List, [], ◌∷◌, ◌++◌, length, slice, drop, write_range-append, length-append, length-drop,
  append_assoc, append-nil, lt→ltb, le→ltb-false, arith,
}
use scg_seshat.Wire.Payload.{ramp, ramp_offset, block, fill_from, fill_payload}
use scg_seshat.Wire.Payload.Ramp.{
  pattern_from, length-pattern_from, pattern_from-add, slice-ramp, ramp_from-eq-pattern_from,
}

-- The window that a round copies is the pattern at its position.
pub window-eq-pattern_from :
    (seq pos n : ℕ)
    → n ≤ 256
    → pos % 256 ≡ 0
    → slice (ramp_offset seq) (ramp_offset seq + n) ramp ≡ pattern_from seq pos n
window-eq-pattern_from seq pos n small aligned =
    slice-ramp (seq % 256) n (omega arith)
    ∙ ramp_from-eq-pattern_from seq (seq % 256) pos n (omega arith)

-- The pattern of `len` bytes, taken apart after `n`.
pub pattern_from-split :
    (seq pos n len : ℕ)
    → n ≤ len
    → pattern_from seq pos len ≡ pattern_from seq pos n ++ pattern_from seq (pos + n) (len - n)
pattern_from-split seq pos n len h =
    let whole : len ≡ n + (len - n) = omega arith in
    ap (pattern_from seq pos) whole ∙ pattern_from-add seq pos n (len - n)

-- One round: the next `n` bytes are filled, and the loop goes on behind them.
fill_round :
    (fuel seq n : ℕ) (done rest : List ℕ)
    → n ≡ min (length rest) 256
    → 0 < length rest
    → length done % 256 ≡ 0
    → fill_from (suc fuel) (ramp_offset seq) (length done) (done ++ rest)
      ≡ fill_from fuel
          (ramp_offset seq)
          (length done + n)
          ((done ++ pattern_from seq (length done) n) ++ drop n rest)
unfolding fill_from
fill_round fuel seq n done rest size some_left aligned =
    let len = length-append done rest in
    let width : block (length (done ++ rest)) (length done) ≡ n = omega arith in
    rw (
      lt→ltb (length done) (length (done ++ rest)) (omega arith),
      width,
      window-eq-pattern_from seq (length done) n (omega arith) aligned,
      write_range-append done (pattern_from seq (length done) n) rest (length done) refl
          (omega (arith, length-pattern_from seq (length done) n)),
      length-pattern_from seq (length done) n,
    )

fill_rounds :
    (fuel seq : ℕ) (done rest : List ℕ)
    → length rest ≤ fuel
    → (length done % 256 ≡ 0) ⊎ (length rest ≡ 0)
    → fill_from fuel (ramp_offset seq) (length done) (done ++ rest)
      ≡ some (done ++ pattern_from seq (length done) (length rest))
unfolding fill_from pattern_from
fill_rounds zero seq done [] enough aligned = refl
fill_rounds zero seq done (b ∷ rest) enough aligned = elim enough [ ]
fill_rounds (suc fuel) seq done [] enough aligned =
    rw (le→ltb-false (length done) (length (done ++ [])) (omega (arith, length-append done [])))
      (rw append-nil)
fill_rounds (suc fuel) seq done (b ∷ rest) enough (inr none_left) = absurd (omega arith)
fill_rounds (suc fuel) seq done (b ∷ rest) enough (inl aligned) =
    fill_round fuel seq n done (b ∷ rest) refl (omega arith) aligned
    ∙ ap (λ k. fill_from fuel (ramp_offset seq) k (filled ++ left)) (sym grown)
    ∙ fill_rounds fuel seq filled left (omega (arith, short)) still_aligned
    ∙ ap {B = Option (List ℕ)} some joined
  where
    n : ℕ
    n = min (length (b ∷ rest)) 256

    filled : List ℕ
    filled = done ++ pattern_from seq (length done) n

    left : List ℕ
    left = drop n (b ∷ rest)

    grown : length filled ≡ length done + n
    grown = omega (
      arith,
      length-append done (pattern_from seq (length done) n),
      length-pattern_from seq (length done) n,
    )

    short : length left ≡ length (b ∷ rest) - n
    short = length-drop n (b ∷ rest)

    still_aligned : (length filled % 256 ≡ 0) ⊎ (length left ≡ 0)
    still_aligned = grind (arith, short, grown)

    joined :
        filled ++ pattern_from seq (length filled) (length left)
        ≡ done ++ pattern_from seq (length done) (length (b ∷ rest))
    joined =
        rw (grown, short)
          (append_assoc done (pattern_from seq (length done) n)
              (pattern_from seq (length done + n) (length (b ∷ rest) - n))
            ∙ ap (λ t. done ++ t)
                (sym (pattern_from-split seq (length done) n (length (b ∷ rest)) (omega arith))))

-- `fill_payload` turns every payload into the pattern of its length, byte `i` of which is
-- `fill_byte seq i`, without a panic.
pub fill_payload_lem :
    (seq : ℕ) (payload : List ℕ)
    → fill_payload seq payload ≡ some (pattern_from seq 0 (length payload))
unfolding fill_payload
fill_payload_lem seq payload = fill_rounds (length payload) seq [] payload (omega arith) (inl refl)
