-- ===== src/Prelude/Slices.antt =====
-- Ranges of a buffer: `&buf[a..b]`, and `buf[pos..pos + len].copy_from_slice(src)`.
use Prim.Native.Nat.{ℕ, suc, ◌+◌, ◌-◌, ◌≤◌}
use mathlib.Core.Path.{◌≡◌, refl, ap}
use mathlib.Core.Bool.{◌&&◌}
use mathlib.Core.Option.{Option, none, some}
use mathlib.Core.List.{List, [], ◌∷◌, ◌++◌, append_assoc}
use native.Mathlib.Omega.{arith}
use scg_seshat.Prelude.Tests.{leb, if◌then◌else◌, le→leb}
use scg_seshat.Prelude.Lists.{
  length, take, drop, length-append, length-take, length-drop, take-append_length,
  drop-append_length, drop-drop, take-take, drop-take,
}

module _ {ℓ} {A : Type ℓ} where
  -- The bytes from `a` up to `b`.
  abbrev pub slice : ℕ → ℕ → List A → List A
  slice a b buf = take (b - a) (drop a buf)

  -- `&buf[a..b]` with its range check.
  unfoldable pub get_range : ℕ → ℕ → List A → Option (List A)
  get_range a b buf = if leb a b && leb b (length buf) then some (slice a b buf) else none

  -- `none` is the panic of a range that does not fit.
  unfoldable pub write_range : List A → ℕ → List A → Option (List A)
  write_range buf pos src =
      if leb (pos + length src) (length buf)
      then some (take pos buf ++ (src ++ drop (pos + length src) buf))
      else none

  -- A write right behind a written prefix extends it.
  pub write_range-append :
      (done src rest : List A) (pos : ℕ)
      → pos ≡ length done
      → length src ≤ length rest
      → write_range (done ++ rest) pos src ≡ some ((done ++ src) ++ drop (length src) rest)
  unfolding write_range
  write_range-append done src rest pos e h = rw (
    e,
    le→leb (length done + length src) (length (done ++ rest))
        (omega (arith, length-append done rest)),
    take-append_length done rest,
    ← drop-drop (length src) (length done) (done ++ rest),
    drop-append_length done rest,
    append_assoc done src (drop (length src) rest),
  )

  pub length-slice : (a b : ℕ) (buf : List A) → b ≤ length buf → length (slice a b buf) ≡ b - a
  length-slice a b buf h = omega (arith, length-take (b - a) (drop a buf), length-drop a buf)

  pub get_range_lem :
      (a b : ℕ) (buf : List A) → a ≤ b → b ≤ length buf → get_range a b buf ≡ some (slice a b buf)
  unfolding get_range
  get_range_lem a b buf h k = rw (le→leb a b h, le→leb b (length buf) k)

  -- The middle one of three parts.
  pub slice-append :
      (a b c : List A) (i j : ℕ) → i ≡ length a → j ≡ i + length b → slice i j (a ++ (b ++ c)) ≡ b
  slice-append a b c i j front back =
      let width : j - i ≡ length b = omega arith in
      rw (width, front, drop-append_length a (b ++ c), take-append_length b c)

  -- The range from `a` on begins with an element, and goes on from `a + 1`.
  pub slice-suc :
      (a b n : ℕ) (buf : List A)
      → a + suc n ≡ b
      → b ≤ length buf
      → (x : A) × (slice a b buf ≡ x ∷ slice (a + 1) b buf)
  slice-suc a b n buf e h = go (drop a buf) refl
    where
      width : b - a ≡ suc n
      width = omega arith

      width' : b - (a + 1) ≡ n
      width' = omega arith

      go : (xs : List A) → drop a buf ≡ xs → (x : A) × (slice a b buf ≡ x ∷ slice (a + 1) b buf)
      go [] left = absurd (omega (arith, length-drop a buf, ap length left))
      go (x ∷ xs) left = (x, rw (width, width', ← drop-drop 1 a buf, left))

  -- The front of a range, and what is behind it.
  pub take-slice :
      (a b n : ℕ) (buf : List A) → n ≤ b - a → take n (slice a b buf) ≡ slice a (a + n) buf
  take-slice a b n buf h =
      let width : a + n - a ≡ n = omega arith in rw (take-take n (b - a) (drop a buf) h, width)

  pub drop-slice :
      (a b n : ℕ) (buf : List A) → n ≤ b - a → drop n (slice a b buf) ≡ slice (a + n) b buf
  drop-slice a b n buf h =
      let width : b - a ≡ n + (b - (a + n)) = omega arith in
      rw (width, drop-take n (b - (a + n)) (drop a buf), drop-drop n a buf)
