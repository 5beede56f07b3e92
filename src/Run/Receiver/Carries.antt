-- ===== src/Run/Receiver/Carries.antt =====
-- Messages and the sequence numbers that they carry (src/proto/wire.rs), for the receiver of
-- src/run/engine.rs.
use scg_seshat.Prelude.{
  ℕ, zero, suc, ◌+◌, ◌%◌, ◌^◌, ◌≤◌, ◌<◌, ◌≡◌, refl, ap, List, [], ◌∷◌, ◌++◌, length, All, arith,
}
use scg_seshat.Wire.Header.{stamp_at}
use scg_seshat.Wire.Message.{message_len}
use scg_seshat.Wire.Message.RoundTrip.{message_bytes, length-message_bytes}
use scg_seshat.Workload.Builder.Numbered.{Numbered}

-- Whole messages with a payload of `payload_len` bytes and these numbers.
unfoldable pub Carries : ℕ → List ℕ → List (List ℕ) → Type 0
Carries payload_len [] [] = Unit
Carries payload_len (n ∷ ns) (m ∷ ms) =
    (n < 2 ^ 64)
    × ((ts_ns : ℕ) × (ts_ns < 2 ^ 64) × (m ≡ message_bytes (stamp_at n payload_len ts_ns)))
    × Carries payload_len ns ms
Carries payload_len _ _ = ⊥

-- The numbers of `count` messages from number `n` on.
unfoldable pub numbers : ℕ → ℕ → List ℕ
numbers n zero = []
numbers n (suc count) = n % 2 ^ 64 ∷ numbers (n + 1) count

pub Numbered-Carries :
    (payload_len n : ℕ) (ms : List (List ℕ))
    → Numbered payload_len n ms
    → Carries payload_len (numbers n (length ms)) ms
unfolding Numbered Carries numbers
Numbered-Carries payload_len n [] h = tt
Numbered-Carries payload_len n (m ∷ ms) h =
    (omega arith, h.0, Numbered-Carries payload_len (n + 1) ms h.1)

pub Carries-append :
    (payload_len : ℕ) (ns : List ℕ) (ms ms' : List (List ℕ))
    → Carries payload_len ns (ms ++ ms')
    → (a : List ℕ) × (b : List ℕ) × (ns ≡ a ++ b)
      × Carries payload_len a ms
      × Carries payload_len b ms'
unfolding Carries
Carries-append payload_len ns [] ms' h = ([], ns, refl, tt, h)
Carries-append payload_len [] (m ∷ ms) ms' h = elim h [ ]
Carries-append payload_len (n ∷ ns) (m ∷ ms) ms' h =
    let (a, b, e, front, back) = Carries-append payload_len ns ms ms' h.2 in
    (n ∷ a, b, ap (λ t. n ∷ t) e, (h.0, h.1, front), back)

-- All of them have the same size.
pub Carries-sized :
    (payload_len : ℕ) (ns : List ℕ) (ms : List (List ℕ))
    → Carries payload_len ns ms
    → All (λ (m : List ℕ). length m ≤ message_len payload_len) ms
unfolding Carries stamp_at
Carries-sized payload_len [] [] h = tt
Carries-sized payload_len [] (m ∷ ms) h = elim h [ ]
Carries-sized payload_len (n ∷ ns) [] h = elim h [ ]
Carries-sized payload_len (n ∷ ns) (m ∷ ms) (fits, (ts, _, is), rest) = (
  omega (arith, ap length is, length-message_bytes (stamp_at n payload_len ts)),
  Carries-sized payload_len ns ms rest,
)
