-- ===== src/Workload/Builder/Numbered.antt =====
-- Sequences of messages as the senders of src/workload/sender.rs number them: one after the other,
-- wrapping at the width of `u64`, each stamped with some send time.
use scg_seshat.Prelude.{
  ℕ, zero, suc, ◌+◌, ◌%◌, ◌^◌, ◌<◌, ◌≡◌, ap, List, [], ◌∷◌, ◌++◌, length, take, arith,
}
use scg_seshat.Wire.Header.{stamp_at}
use scg_seshat.Wire.Message.RoundTrip.{message_bytes}
use scg_seshat.Workload.Builder.Messages.{batch_messages}

-- The messages carry the numbers from `n` on.
unfoldable pub Numbered : ℕ → ℕ → List (List ℕ) → Type 0
Numbered payload_len n [] = Unit
Numbered payload_len n (m ∷ ms) =
    ((ts_ns : ℕ) × (ts_ns < 2 ^ 64) × (m ≡ message_bytes (stamp_at (n % 2 ^ 64) payload_len ts_ns)))
    × Numbered payload_len (n + 1) ms

pub Numbered-append :
    (payload_len n : ℕ) (xs ys : List (List ℕ))
    → Numbered payload_len n xs
    → Numbered payload_len (n + length xs) ys
    → Numbered payload_len n (xs ++ ys)
unfolding Numbered
Numbered-append payload_len n [] ys h k = let e : n + 0 ≡ n = omega arith in rw (← e) k
Numbered-append payload_len n (x ∷ xs) ys h k =
    let e : n + suc (length xs) ≡ n + 1 + length xs = omega arith in
    (h.0, Numbered-append payload_len (n + 1) xs ys h.1 (rw (← e) k))

pub Numbered-take :
    (payload_len n k : ℕ) (xs : List (List ℕ))
    → Numbered payload_len n xs
    → Numbered payload_len n (take k xs)
unfolding Numbered
Numbered-take payload_len n zero xs h = tt
Numbered-take payload_len n (suc k) [] h = tt
Numbered-take payload_len n (suc k) (x ∷ xs) h = (h.0, Numbered-take payload_len (n + 1) k xs h.1)

pub Numbered-one :
    (payload_len n seq ts_ns : ℕ)
    → seq ≡ n % 2 ^ 64
    → ts_ns < 2 ^ 64
    → Numbered payload_len n (message_bytes (stamp_at seq payload_len ts_ns) ∷ [])
unfolding Numbered
Numbered-one payload_len n seq ts_ns e fits =
    ((ts_ns, fits, ap (λ s. message_bytes (stamp_at s payload_len ts_ns)) e), tt)

-- A batch that starts at the number `n`, which the sender keeps wrapped.
pub Numbered-batch_messages :
    (payload_len n seq : ℕ) (now : ℕ → ℕ) (i count : ℕ)
    → seq ≡ n % 2 ^ 64
    → ((j : ℕ) → now j < 2 ^ 64)
    → Numbered payload_len (n + i) (batch_messages seq payload_len now i count)
unfolding Numbered batch_messages
Numbered-batch_messages payload_len n seq now i zero e fits = tt
Numbered-batch_messages payload_len n seq now i (suc count) e fits =
    let wraps : (seq + i) % 2 ^ 64 ≡ (n + i) % 2 ^ 64 = omega arith in
    let here : n + i + 1 ≡ n + (i + 1) = omega arith in
    (
      (now i, fits i, ap (λ s. message_bytes (stamp_at s payload_len (now i))) wraps),
      rw here (Numbered-batch_messages payload_len n seq now (i + 1) count e fits),
    )
