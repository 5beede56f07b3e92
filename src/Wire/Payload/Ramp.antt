-- ===== src/Wire/Payload/Ramp.antt =====
-- The table `RAMP` holds the bytes that `fill_byte` describes (src/proto/wire.rs).
use Prim.Native.Nat.add
use native.Mathlib.Nat.{add-zero}
use scg_seshat.Prelude.{
  ℕ, zero, suc, ◌+◌, ◌-◌, ◌%◌, ◌≤◌, ◌<◌, ◌≡◌, refl, ap, ap₂, ◌∙◌, List, [], ◌∷◌, ◌++◌, length,
  get_or, slice, take, drop, arith,
}
use scg_seshat.Wire.Payload.{fill_byte, ramp_from, ramp}

-- The reference: bytes `i`, `i + 1`, … of message `seq`, `n` of them.
unfoldable pub pattern_from : ℕ → ℕ → ℕ → List ℕ
pattern_from seq i zero = []
pattern_from seq i (suc n) = fill_byte seq i ∷ pattern_from seq (i + 1) n

pub length-pattern_from : (seq i n : ℕ) → length (pattern_from seq i n) ≡ n
unfolding pattern_from
length-pattern_from seq i zero = refl
length-pattern_from seq i (suc n) = ap suc (length-pattern_from seq (i + 1) n)

pub pattern_from-add :
    (seq i m n : ℕ)
    → pattern_from seq i (m + n) ≡ pattern_from seq i m ++ pattern_from seq (i + m) n
unfolding pattern_from
pattern_from-add seq i zero n = rw (add.zero n, add-zero i)
pattern_from-add seq i (suc m) n =
    rw (add.suc m n) (ap (λ t. fill_byte seq i ∷ t) (pattern_from-add seq (i + 1) m n ∙ rw shift))
  where
    shift : i + 1 + m ≡ i + suc m
    shift = omega arith

take-ramp_from : (n r k : ℕ) → take n (ramp_from k (n + r)) ≡ ramp_from k n
unfolding ramp_from
take-ramp_from zero r k = refl
take-ramp_from (suc n) r k = rw (add.suc n r) (ap (λ t. (k % 256) ∷ t) (take-ramp_from n r (k + 1)))

drop-ramp_from : (m n k : ℕ) → drop m (ramp_from k (m + n)) ≡ ramp_from (k + m) n
unfolding ramp_from
drop-ramp_from zero n k = rw (add.zero n, add-zero k)
drop-ramp_from (suc m) n k = rw (add.suc m n) (drop-ramp_from m n (k + 1) ∙ rw shift)
  where
    shift : k + 1 + m ≡ k + suc m
    shift = omega arith

-- A window of the table counts on from its offset.
pub slice-ramp : (off n : ℕ) → off + n ≤ 512 → slice off (off + n) ramp ≡ ramp_from off n
unfolding ramp
slice-ramp off n h =
    let whole : 512 ≡ off + (n + (512 - off - n)) = omega arith in
    let width : off + n - off ≡ n = omega arith in
    rw (
      whole,
      width,
      drop-ramp_from off (n + (512 - off - n)) 0,
      take-ramp_from n (512 - off - n) (0 + off),
      add.zero off,
    )

-- A window of the table is the pattern wherever offset and index agree modulo 256.
pub ramp_from-eq-pattern_from :
    (seq k i n : ℕ) → k % 256 ≡ (seq + i) % 256 → ramp_from k n ≡ pattern_from seq i n
unfolding ramp_from pattern_from fill_byte
ramp_from-eq-pattern_from seq k i zero h = refl
ramp_from-eq-pattern_from seq k i (suc n) h =
    ap₂ ◌∷◌ (omega arith) (ramp_from-eq-pattern_from seq (k + 1) (i + 1) n (omega arith))

get_or-ramp_from : (i k n : ℕ) → i < n → get_or (ramp_from k n) i 0 ≡ (k + i) % 256
unfolding ramp_from
get_or-ramp_from i k zero h = elim h [ ]
get_or-ramp_from zero k (suc n) h = rw (add-zero k)
get_or-ramp_from (suc i) k (suc n) h =
    let shift : k + 1 + i ≡ k + suc i = omega arith in
    rw (get_or-ramp_from i (k + 1) n (omega arith), shift)

pub get_or-ramp : (k : ℕ) → k < 512 → get_or ramp k 0 ≡ k % 256
unfolding ramp
get_or-ramp k h = rw (get_or-ramp_from k 0 512 h, add.zero k)
