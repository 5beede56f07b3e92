-- ===== src/Framing/Batch/Slots.antt =====
-- The slots that `take_messages` of src/transport/mod.rs fills.
use scg_seshat.Prelude.{
  ℕ, ◌+◌, ◌*◌, ◌/◌, ◌≤◌, ◌≡◌, sym, ap, ap₂, ◌∙◌, min, some, List, ◌∷◌, ◌++◌, length, take, drop,
  slice, slice-append, take-append_length, drop-append_length, take-append-drop, drop-drop,
  length-append, length-take, length-drop, arith,
}
use native.Mathlib.Nat.{mul-le-mul_right, div-mul-le_self}
use scg_seshat.Framing.{put_slot, put_len}
use scg_seshat.Framing.Take.{deliver}

pub put_slot-append :
    (done slot slot' rest : List ℕ) (lo hi : ℕ)
    → lo ≡ length done
    → hi ≡ lo + length slot
    → put_slot lo hi slot' (done ++ (slot ++ rest)) ≡ done ++ (slot' ++ rest)
unfolding put_slot
put_slot-append done slot slot' rest lo hi hl hh =
    let e : hi ≡ length done + length slot = omega arith in
    ap₂ (λ a b. a ++ (slot' ++ b))
      (ap (λ k. take k (done ++ (slot ++ rest))) hl ∙ take-append_length done (slot ++ rest))
      (ap (λ k. drop k (done ++ (slot ++ rest))) e
        ∙ sym (drop-drop (length slot) (length done) (done ++ (slot ++ rest)))
        ∙ ap (drop (length slot)) (drop-append_length done (slot ++ rest))
        ∙ drop-append_length slot rest)

pub put_len-append :
    (ldone : List ℕ) (l n : ℕ) (ls : List ℕ) (count : ℕ)
    → count ≡ length ldone
    → put_len count n (ldone ++ l ∷ ls) ≡ ldone ++ n ∷ ls
unfolding put_len
put_len-append ldone l n ls count h =
    ap₂ (λ a b. a ++ n ∷ b)
      (ap (λ k. take k (ldone ++ l ∷ ls)) h ∙ take-append_length ldone (l ∷ ls))
      (ap (λ k. drop (k + 1) (ldone ++ l ∷ ls)) h
        ∙ sym (drop-drop 1 (length ldone) (ldone ++ l ∷ ls))
        ∙ ap (drop 1) (drop-append_length ldone (l ∷ ls)))

pub next_slot : (count stride : ℕ) → (count + 1) * stride ≡ count * stride + stride
next_slot count stride = omega arith

pub length-deliver : (slot m : List ℕ) → length (deliver slot (some m)).1 ≡ length slot
length-deliver slot m =
    let k : ℕ = min (length m) (length slot) in
    omega (arith, length-append (take k m) (drop k slot), length-take k m, length-drop k slot)

pub slice_here :
    (count stride : ℕ) (done out : List ℕ)
    → length done ≡ count * stride
    → stride ≤ length out
    → slice (count * stride) ((count + 1) * stride) (done ++ out) ≡ take stride out
slice_here count stride done out hd room =
    let width : length (take stride out) ≡ stride = omega (arith, length-take stride out) in
    ap (λ o. slice (count * stride) ((count + 1) * stride) (done ++ o))
      (sym (take-append-drop stride out))
    ∙ slice-append done (take stride out) (drop stride out) (count * stride) ((count + 1) * stride)
        (sym hd) (omega (arith, next_slot count stride))

-- The slots of the rounds lie inside the buffer.
pub rounds_fit : (n size stride : ℕ) → min n (size / stride) * stride ≤ size
rounds_fit n size stride = omega (
  arith,
  mul-le-mul_right {m = min n (size / stride)} {n = size / stride} stride (omega arith),
  div-mul-le_self size stride,
)
