-- ===== src/Transport/Shm/Slot.antt =====
-- The slots of the buffer that `recv_batch` of src/transport/shm.rs fills.
use scg_seshat.Prelude.{
  ℕ, zero, suc, ◌+◌, ◌*◌, ◌≤◌, ◌≡◌, refl, sym, ap, ◌∙◌, some, List, [], ◌∷◌, ◌++◌, length, take,
  drop, get_elem?, get_range, length-append, length-take, length-drop, append_assoc,
  take-append-drop, get_range_lem, slice-append, arith,
}
use scg_seshat.Framing.{put_slot, put_len}
use scg_seshat.Framing.Batch.Slots.{put_slot-append, put_len-append}

pub get_elem-append :
    (xs : List ℕ) (x : ℕ) (ys : List ℕ) (i : ℕ)
    → length xs ≡ i
    → get_elem? (xs ++ x ∷ ys) i ≡ some x
get_elem-append [] x ys zero e = refl
get_elem-append [] x ys (suc i) e = absurd (omega arith)
get_elem-append (y ∷ xs) x ys zero e = absurd (omega arith)
get_elem-append (y ∷ xs) x ys (suc i) e = get_elem-append xs x ys i (omega arith)

-- A slot with the message at its front.
unfoldable pub filled : ℕ → List ℕ → List ℕ → List ℕ
filled stride out m = m ++ drop (length m) (take stride out)

-- One slot: the message at its front, its length, and the buffers in front of the next slot.
module _ (stride count : ℕ) (done out ldone : List ℕ) (l : ℕ) (lrest m : List ℕ)
    (hd : length done ≡ count * stride) (hl : length ldone ≡ count) (room : stride ≤ length out)
    (fits : length m ≤ stride) where
  pub length-filled : length (filled stride out m) ≡ stride
  unfolding filled
  length-filled = omega (
    arith,
    length-append m (drop (length m) (take stride out)),
    length-drop (length m) (take stride out),
    length-take stride out,
  )

  pub put_filled :
      put_slot (count * stride) (count * stride + stride) (filled stride out m) (done ++ out)
      ≡ (done ++ filled stride out m) ++ drop stride out
  put_filled =
      ap
        (λ o. put_slot (count * stride) (count * stride + stride) (filled stride out m) (done ++ o))
        (sym (take-append-drop stride out))
      ∙ put_slot-append done (take stride out) (filled stride out m) (drop stride out)
          (count * stride) (count * stride + stride) (sym hd)
          (omega (arith, length-take stride out))
      ∙ sym (append_assoc done (filled stride out m) (drop stride out))

  pub put_length : put_len count (length m) (ldone ++ l ∷ lrest) ≡ (ldone ++ length m ∷ []) ++ lrest
  put_length =
      put_len-append ldone l (length m) lrest count (sym hl)
      ∙ sym (append_assoc ldone (length m ∷ []) lrest)

  pub get_filled :
      (rest : List ℕ)
      → get_range
          (count * stride)
          (count * stride + length m)
          ((done ++ filled stride out m) ++ rest)
        ≡ some m
  unfolding filled
  get_filled rest =
      let d = drop (length m) (take stride out) in
      let parts : (done ++ (m ++ d)) ++ rest ≡ done ++ (m ++ (d ++ rest)) =
        append_assoc done (m ++ d) rest ∙ ap (λ t. done ++ t) (append_assoc m d rest) in
      let size = length-append done (m ++ (d ++ rest)) in
      rw
        (
          parts,
          get_range_lem (count * stride) (count * stride + length m) (done ++ (m ++ (d ++ rest)))
              (omega arith) (omega (arith, size, length-append m (d ++ rest), hd)),
          slice-append done m (d ++ rest) (count * stride) (count * stride + length m) (sym hd)
              refl,
        )
        refl

  pub get_length :
      (rest : List ℕ) → get_elem? ((ldone ++ length m ∷ []) ++ rest) count ≡ some (length m)
  get_length rest =
      rw (append_assoc ldone (length m ∷ []) rest) (get_elem-append ldone (length m) rest count hl)

-- The slot at the front of the buffer.
pub put_front :
    (stride : ℕ) (out slot m : List ℕ)
    → length m ≤ stride
    → stride ≤ length out
    → slot ≡ filled stride out m
    → put_slot 0 stride slot out ≡ filled stride out m ++ drop stride out
unfolding put_slot
put_front stride out slot m fits room e = rw e refl

pub length-put_front :
    (stride : ℕ) (out slot : List ℕ)
    → stride ≤ length out
    → length slot ≡ stride
    → length (put_slot 0 stride slot out) ≡ length out
unfolding put_slot
length-put_front stride out slot room e =
    omega (arith, length-append slot (drop stride out), length-drop stride out)
