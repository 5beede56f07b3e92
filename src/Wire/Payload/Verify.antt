-- ===== src/Wire/Payload/Verify.antt =====
-- `verify_payload` against a byte-by-byte reference (src/proto/wire.rs).
use native.Mathlib.Nat.{add-zero}
use scg_seshat.Prelude.{
  ◌^◌, ℕ, zero, suc, ◌+◌, ◌-◌, ◌%◌, ◌≤◌, ◌<◌, ◌≡◌, ◌↔◌, refl, sym, ap, ◌∙◌, ◌⊎◌, inl, inr, Bool,
  true, false, Option, none, some, List, [], ◌∷◌, ◌++◌, length, get_or, slice, take, drop,
  drop-drop, drop_all, length-drop, length-take, take-append-drop, bytes_eq, bytes_eq_iff, ◌==◌,
  lt→ltb, le→ltb-false, Bool-cases, le_cases, if◌then◌else◌, arith,
}
use scg_seshat.Prelude.Result.{Result, ok, err}
use scg_seshat.Wire.Header.{WireError, corrupt_payload}
use scg_seshat.Wire.Payload.{
  fill_byte, ramp, ramp_offset, block, find_mismatch, verify_from, verify_payload,
}
use scg_seshat.Wire.Payload.Ramp.{pattern_from, get_or-ramp}
use scg_seshat.Wire.Payload.Fill.{window-eq-pattern_from}

-- The reference: the index of the first byte, from index `i` on, that is not `fill_byte`'s.
unfoldable pub first_mismatch : ℕ → ℕ → List ℕ → Option ℕ
first_mismatch seq i [] = none
first_mismatch seq i (b ∷ bs) =
    if b == fill_byte seq i then first_mismatch seq (i + 1) bs else some i

-- What `verify_payload` returns for it.
abbrev pub verdict : Option ℕ → Result WireError Unit
verdict none = ok tt
verdict (some i) = err (corrupt_payload i)

abbrev or_else : Option ℕ → Option ℕ → Option ℕ
or_else none o = o
or_else (some i) o = some i

abbrev shifted : ℕ → Option ℕ → Option ℕ
shifted pos none = none
shifted pos (some j) = some (pos + j)

first_mismatch-append :
    (seq i : ℕ) (xs ys : List ℕ)
    → first_mismatch seq i (xs ++ ys)
      ≡ or_else (first_mismatch seq i xs) (first_mismatch seq (i + length xs) ys)
unfolding first_mismatch
first_mismatch-append seq i [] ys = rw add-zero
first_mismatch-append seq i (x ∷ xs) ys =
    let shift : i + 1 + length xs ≡ i + suc (length xs) = omega arith in
    elim (Bool-cases (x == fill_byte seq i)) [
      | inl same ↦ rw (same, first_mismatch-append seq (i + 1) xs ys, shift)
      | inr differs ↦ rw differs
    ]

-- Only the pattern has no mismatch.
pub first_mismatch-eq-none_iff :
    (seq i : ℕ) (bs : List ℕ)
    → (first_mismatch seq i bs ≡ none) ↔ (bs ≡ pattern_from seq i (length bs))
unfolding first_mismatch pattern_from
first_mismatch-eq-none_iff seq i [] = (λ _. refl, λ _. refl)
first_mismatch-eq-none_iff seq i (b ∷ bs) =
    ground (arith, first_mismatch-eq-none_iff seq (i + 1) bs)

-- The slow path of a block finds what the reference finds.
find_mismatch_lem :
    (seq pos i : ℕ) (bs : List ℕ)
    → pos % 256 ≡ 0
    → i + length bs ≤ 256
    → shifted pos (find_mismatch (ramp_offset seq) i bs) ≡ first_mismatch seq (pos + i) bs
unfolding find_mismatch first_mismatch fill_byte
find_mismatch_lem seq pos i [] aligned fits = refl
find_mismatch_lem seq pos i (b ∷ bs) aligned fits =
    let here : get_or ramp (seq % 256 + i) 0 ≡ (seq + (pos + i)) % 2 ^ 64 % 256 =
      omega (arith, get_or-ramp (seq % 256 + i) (omega arith)) in
    let shift : pos + (i + 1) ≡ pos + i + 1 = omega arith in
    elim (Bool-cases (b == (seq + (pos + i)) % 2 ^ 64 % 256)) [
      | inl same ↦
          rw (here, same, find_mismatch_lem seq pos (i + 1) bs aligned (omega arith), shift)
      | inr differs ↦ rw (here, differs)
    ]

-- The two paths of a round, by the comparison `same` and the slow path's answer.
round_choice :
    (pos : ℕ) (same : Bool) (slow m o : Option ℕ) (next : Result WireError Unit)
    → next ≡ verdict o
    → shifted pos slow ≡ m
    → (same ≡ true → m ≡ none)
    → (if same then next else elim slow [ none ↦ next | some i ↦ err (corrupt_payload (pos + i)) ])
      ≡ verdict (or_else m o)
round_choice pos true slow m o next go found agree = rw (agree refl) go
round_choice pos false none m o next go found agree = rw (← found) go
round_choice pos false (some i) m o next go found agree = rw (← found)

-- One round, with what the rest of the loop returns.
verify_round :
    (fuel seq pos : ℕ) (payload : List ℕ) (o : Option ℕ)
    → pos < length payload
    → pos % 256 ≡ 0
    → let n = block (length payload) pos in
      verify_from fuel (ramp_offset seq) (pos + n) payload ≡ verdict o
      → verify_from (suc fuel) (ramp_offset seq) pos payload
        ≡ verdict (or_else (first_mismatch seq pos (slice pos (pos + n) payload)) o)
unfolding verify_from
verify_round fuel seq pos payload o inside aligned next =
    let n = block (length payload) pos in
    let found = slice pos (pos + n) payload in
    let size : length found ≡ n =
      omega (arith, length-take (pos + n - pos) (drop pos payload), length-drop pos payload) in
    rw (lt→ltb pos (length payload) inside, window-eq-pattern_from seq pos n (omega arith) aligned)
      (round_choice pos (bytes_eq found (pattern_from seq pos n))
        (find_mismatch (ramp_offset seq) 0 found) (first_mismatch seq pos found) o
        (verify_from fuel (ramp_offset seq) (pos + n) payload) next
        (find_mismatch_lem seq pos 0 found aligned (omega arith)
          ∙ ap (λ k. first_mismatch seq k found) (add-zero pos))
        (λ same. (first_mismatch-eq-none_iff seq pos found).1 (
          (bytes_eq_iff found (pattern_from seq pos n)).0 same
          ∙ ap (pattern_from seq pos) (sym size))))

-- The reference over one block and over what follows it.
first_mismatch-block :
    (seq pos n : ℕ) (payload : List ℕ)
    → n ≤ length payload - pos
    → or_else
        (first_mismatch seq pos (slice pos (pos + n) payload))
        (first_mismatch seq (pos + n) (drop (pos + n) payload))
      ≡ first_mismatch seq pos (drop pos payload)
first_mismatch-block seq pos n payload fits =
    let rest = drop pos payload in
    let width : pos + n - pos ≡ n = omega arith in
    let size : length (take n rest) ≡ n =
      omega (arith, length-take n rest, length-drop pos payload) in
    rw (
      width,
      ← drop-drop n pos payload,
      sym (ap (λ k. first_mismatch seq (pos + k) (drop n rest)) size),
      ← first_mismatch-append seq pos (take n rest) (drop n rest),
      take-append-drop n rest,
    )

verify_rounds :
    (fuel seq pos : ℕ) (payload : List ℕ)
    → length payload ≤ pos + fuel
    → (pos % 256 ≡ 0) ⊎ (length payload ≤ pos)
    → verify_from fuel (ramp_offset seq) pos payload
      ≡ verdict (first_mismatch seq pos (drop pos payload))
verify_rounds zero seq pos payload enough aligned =
    unfold verify_from first_mismatch in rw (drop_all pos payload (omega arith))
verify_rounds (suc fuel) seq pos payload enough aligned = elim (le_cases (length payload) pos) [
  | inl past ↦
      unfold verify_from first_mismatch in
      rw (le→ltb-false pos (length payload) past, drop_all pos payload past)
  | inr inside ↦
      let n = block (length payload) pos in
      let rest = drop pos payload in
      verify_round fuel seq pos payload (first_mismatch seq (pos + n) (drop (pos + n) payload))
        inside (grind arith) (verify_rounds fuel seq (pos + n) payload (omega arith) (grind arith))
      ∙ ap verdict (first_mismatch-block seq pos n payload (omega arith))
]

-- `verify_payload` gives the verdict of a byte-wise comparison with the pattern: the index of the
-- first byte that differs, or success where none does.
pub verify_payload_lem :
    (seq : ℕ) (payload : List ℕ)
    → verify_payload seq payload ≡ verdict (first_mismatch seq 0 payload)
unfolding verify_payload
verify_payload_lem seq payload =
    verify_rounds (length payload) seq 0 payload (omega arith) (inl refl)
