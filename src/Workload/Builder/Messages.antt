-- ===== src/Workload/Builder/Messages.antt =====
-- Every message that a builder of src/workload/sender.rs makes is one that the receiver decodes.
use scg_seshat.Prelude.{
  ℕ, zero, suc, ◌+◌, ◌-◌, ◌%◌, ◌^◌, ◌<◌, ◌≤◌, ◌≡◌, refl, sym, ap, ◌∙◌, min, max, some, List, [],
  ◌∷◌, ◌++◌, length, take, drop, replicate, All, length-replicate, length-append, length-drop,
  take-append_length, take_all, drop_all, append-nil, arith,
}
use scg_seshat.Wire.Header.{WireHeader, header_len, stamp_at}
use scg_seshat.Wire.Message.{message_len, encode_message}
use scg_seshat.Wire.Message.RoundTrip.{message_bytes, length-message_bytes, encode_message_at_lem}
use scg_seshat.Workload.Builder.{
  MessageBuilder, new, build, build_at, build_into, BatchBuilder, new_batch, encode_bufs,
  build_batch,
}

-- The buffer has the size of the messages, which is a `u32`.
pub record IsValid (b : MessageBuilder) : Type 0 where
  pub sized : length b.buf ≡ message_len b.payload_len
  pub total : b.message_bytes ≡ message_len b.payload_len
  pub fits : b.message_bytes < 2 ^ 32

pub new-IsValid : (bytes : ℕ) → bytes < 2 ^ 32 → IsValid (new bytes)
unfolding new
new-IsValid bytes h = record {
  sized = omega (arith, length-replicate {A = ℕ} (max bytes header_len) 0);
  total = omega arith;
  fits = omega arith;
}

-- A valid builder makes exactly the message of the number and the send time, of the configured
-- size, whatever its buffer held, and is valid afterwards, its payload length unchanged.
pub build_at_lem :
    (b : MessageBuilder) (seq ts_ns : ℕ)
    → IsValid b
    → (b' : MessageBuilder) × (build_at b seq ts_ns
        ≡ some (message_bytes (stamp_at seq b.payload_len ts_ns), b'))
      × (length (message_bytes (stamp_at seq b.payload_len ts_ns)) ≡ b.message_bytes)
      × IsValid b'
      × (b'.payload_len ≡ b.payload_len)
unfolding build_at
build_at_lem b seq ts_ns v =
    let h : WireHeader = stamp_at seq b.payload_len ts_ns in
    let m = message_bytes h in
    let size : length m ≡ message_len b.payload_len = unfold stamp_at in length-message_bytes h in
    let whole : m ++ drop (message_len b.payload_len) b.buf ≡ m =
      ap (λ t. m ++ t) (drop_all (message_len b.payload_len) b.buf (omega (arith, v.sized)))
      ∙ append-nil m in
    (
      record b { buf = m },
      rw (
        encode_message_at_lem seq b.payload_len ts_ns b.buf (omega (arith, v.sized)),
        whole,
        ← size,
        take_all (length m) m (omega arith),
      ),
      omega (arith, size, v.total),
      record { sized = size; total = v.total; fits = v.fits },
      refl,
    )

-- The messages of a batch: numbers from `seq_start + i` on, wrapping, message `i` stamped `now i`.
unfoldable pub batch_messages : ℕ → ℕ → (ℕ → ℕ) → ℕ → ℕ → List (List ℕ)
batch_messages seq_start payload_len now i zero = []
batch_messages seq_start payload_len now i (suc n) =
    message_bytes (stamp_at ((seq_start + i) % 2 ^ 64) payload_len (now i))
    ∷ batch_messages seq_start payload_len now (i + 1) n

pub length-batch_messages :
    (seq_start payload_len : ℕ) (now : ℕ → ℕ) (i n : ℕ)
    → length (batch_messages seq_start payload_len now i n) ≡ n
unfolding batch_messages
length-batch_messages seq_start payload_len now i zero = refl
length-batch_messages seq_start payload_len now i (suc n) =
    ap suc (length-batch_messages seq_start payload_len now (i + 1) n)

-- Every buffer has the size of the messages.
abbrev pub BatchIsValid : BatchBuilder → Type 0
BatchIsValid b = All (λ (buf : List ℕ). length buf ≡ message_len b.payload_len) b.bufs

All-append {ℓ κ} :
    {A : Type ℓ} (P : A → Type κ) (xs ys : List A) → All P xs → All P ys → All P (xs ++ ys)
All-append P [] ys h k = k
All-append P (x ∷ xs) ys h k = (h.0, All-append P xs ys h.1 k)

All-drop {ℓ κ} : {A : Type ℓ} (P : A → Type κ) (n : ℕ) (xs : List A) → All P xs → All P (drop n xs)
All-drop P zero xs h = h
All-drop P (suc n) [] h = tt
All-drop P (suc n) (x ∷ xs) h = All-drop P n xs h.1

All-replicate {ℓ κ} : {A : Type ℓ} (P : A → Type κ) (n : ℕ) (a : A) → P a → All P (replicate n a)
All-replicate P zero a h = tt
All-replicate P (suc n) a h = (h, All-replicate P n a h)

pub new_batch-BatchIsValid : (bytes batch : ℕ) → BatchIsValid (new_batch bytes batch)
unfolding new_batch
new_batch-BatchIsValid bytes batch =
    All-replicate (λ (buf : List ℕ). length buf ≡ message_len (max bytes header_len - header_len))
      (max batch 1) (replicate (max bytes header_len) 0)
      (omega (arith, length-replicate {A = ℕ} (max bytes header_len) 0))

encode_one :
    (seq payload_len now : ℕ) (buf : List ℕ)
    → length buf ≡ message_len payload_len
    → encode_message seq payload_len now buf
      ≡ some (message_len payload_len, message_bytes (stamp_at seq payload_len now))
unfolding encode_message
encode_one seq payload_len now buf size =
    let m = message_bytes (stamp_at seq payload_len now) in
    encode_message_at_lem seq payload_len now buf (omega (arith, size))
    ∙ rw (drop_all (message_len payload_len) buf (omega (arith, size)), append-nil m)

-- A slot of the size of the messages is filled with the message.
pub build_into_lem :
    (b : MessageBuilder) (seq ts_ns : ℕ) (slot : List ℕ)
    → length slot ≡ message_len b.payload_len
    → build_into b seq ts_ns slot
      ≡ some (message_len b.payload_len, message_bytes (stamp_at seq b.payload_len ts_ns))
unfolding build_into
build_into_lem b seq ts_ns slot size =
    let m = message_bytes (stamp_at seq b.payload_len ts_ns) in
    encode_message_at_lem seq b.payload_len ts_ns slot (omega (arith, size))
    ∙ rw (drop_all (message_len b.payload_len) slot (omega (arith, size)), append-nil m)

encode_bufs_lem :
    (seq_start payload_len : ℕ) (now : ℕ → ℕ) (i count : ℕ) (bufs : List (List ℕ))
    → All (λ (buf : List ℕ). length buf ≡ message_len payload_len) bufs
    → count ≤ length bufs
    → encode_bufs seq_start payload_len now i count bufs
      ≡ some (batch_messages seq_start payload_len now i count ++ drop count bufs)
unfolding encode_bufs batch_messages
encode_bufs_lem seq_start payload_len now i zero bufs sized room = refl
encode_bufs_lem seq_start payload_len now i (suc count) [] sized room = elim room [ ]
encode_bufs_lem seq_start payload_len now i (suc count) (buf ∷ bufs) sized room = rw (
  encode_one ((seq_start + i) % 2 ^ 64) payload_len (now i) buf sized.0,
  encode_bufs_lem seq_start payload_len now (i + 1) count bufs sized.1 (omega arith),
)

batch_messages-sized :
    (seq_start payload_len : ℕ) (now : ℕ → ℕ) (i n : ℕ)
    → All
        (λ (buf : List ℕ). length buf ≡ message_len payload_len)
        (batch_messages seq_start payload_len now i n)
unfolding batch_messages stamp_at
batch_messages-sized seq_start payload_len now i zero = tt
batch_messages-sized seq_start payload_len now i (suc n) = (
  length-message_bytes (stamp_at ((seq_start + i) % 2 ^ 64) payload_len (now i)),
  batch_messages-sized seq_start payload_len now (i + 1) n,
)

-- A valid batch builder makes as many messages as are asked for and fit, with consecutive numbers
-- that wrap, and keeps its number of buffers.
pub build_batch_lem :
    (b : BatchBuilder) (seq_start count : ℕ) (now : ℕ → ℕ)
    → BatchIsValid b
    → let n = min count (length b.bufs) in
      (b' : BatchBuilder) × (build_batch b seq_start count now
        ≡ some (batch_messages seq_start b.payload_len now 0 n, b'))
      × (length b'.bufs ≡ length b.bufs)
      × BatchIsValid b'
      × (b'.payload_len ≡ b.payload_len)
unfolding build_batch
build_batch_lem b seq_start count now v =
    let n = min count (length b.bufs) in
    let made = batch_messages seq_start b.payload_len now 0 n in
    let size = length-batch_messages seq_start b.payload_len now 0 n in
    (
      record b { bufs = made ++ drop n b.bufs },
      rw (
        encode_bufs_lem seq_start b.payload_len now 0 n b.bufs v (omega arith),
        sym (ap (λ k. take k (made ++ drop n b.bufs)) size),
        take-append_length made (drop n b.bufs),
      ),
      omega (arith, size, length-append made (drop n b.bufs), length-drop n b.bufs),
      All-append _ made (drop n b.bufs) (batch_messages-sized seq_start b.payload_len now 0 n)
          (All-drop _ n b.bufs v),
      refl,
    )

-- `build` stamps the clock's reading.
pub build_now : (b : MessageBuilder) (seq now : ℕ) → build b seq now ≡ build_at b seq now
unfolding build build_at encode_message
build_now b seq now = refl
