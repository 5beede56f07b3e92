-- ===== src/Transport/Shm/Source.antt =====
-- The receiver of the shared-memory transport: `ShmSource` of src/transport/shm.rs. The client
-- library that owns the ring is an argument; `C` is the type of its states.
use scg_seshat.Prelude.{
  ℕ, zero, suc, ◌+◌, ◌-◌, ◌*◌, ◌/◌, ◌==◌, ◌||◌, min, Bool, true, false, Option, none, some, List,
  [], ◌∷◌, length, slice, ltb, if◌then◌else◌,
}
use scg_seshat.Prelude.Result.{Result, ok, err}
use scg_seshat.Prelude.Text.{codes, contains, is_empty}
use scg_seshat.Framing.{put_slot, put_len}
use scg_seshat.Transport.{BatchReceived, messages, timeout, closed, broken, DataSource, batch_max}

-- What the source calls of `scg_client::ScgClient`; `E` is its error.
pub record ScgReceiver (E C : Type 0) : Type 0 where
  -- A message is popped in the slice: its traffic id and length, and the slice afterwards.
  pub recv_into : C → List ℕ → ℕ → Result E (Option (ℕ × ℕ)) × List ℕ × C
  pub try_recv_into : C → List ℕ → Result E (Option (ℕ × ℕ)) × List ℕ × C
  pub wait_readable : C → ℕ → Result E Bool × C
  pub peek_payload : C → Option (ℕ × List ℕ)
  pub advance_recv : C → C
  pub supports_inplace_recv : C → Bool
  -- `format!("{e}")`
  pub error_text : E → List ℕ

pub record ShmSource (C : Type 0) : Type 0 where
  pub client : C
  pub timeout_ms : ℕ

module _ {E C : Type 0} (ops : ScgReceiver E C) where
  -- An error whose text tells of the end of the stream is no failure.
  unfoldable pub error_outcome : E → BatchReceived
  error_outcome e =
      let msg = ops.error_text e in
      if contains (codes "closed") msg || contains (codes "EOF") msg then closed else broken

  -- The `while` loop of `recv_batch`, for at most `rounds` more messages behind `count`.
  unfoldable pub drain : ℕ → ℕ → ℕ → List ℕ → List ℕ → C → BatchReceived × List ℕ × List ℕ × C
  drain zero count stride buf lens client = (messages count, buf, lens, client)
  drain (suc rounds) count stride buf lens client =
      let base = count * stride in
      let (r, slot, client') = ops.try_recv_into client (slice base (base + stride) buf) in
      let buf' = put_slot base (base + stride) slot buf in
      elim r [
        | ok got ↦ elim got [
          | some (id, len) ↦ drain rounds (count + 1) stride buf' (put_len count len lens) client'
          | none ↦ (messages count, buf', lens, client')
        ]
        | err e ↦ (broken, buf', lens, client')
      ]

  -- Behind the call that waits for the first message, in a buffer for `cap` of them.
  unfoldable pub after_first :
      ℕ → ℕ → List ℕ → List ℕ → C → Result E (Option (ℕ × ℕ)) → BatchReceived × List ℕ × List ℕ × C
  after_first cap stride buf lens client (ok (some (id, len))) =
      drain (cap - 1) 1 stride buf (put_len 0 len lens) client
  after_first cap stride buf lens client (ok none) = (timeout, buf, lens, client)
  after_first cap stride buf lens client (err e) = (error_outcome e, buf, lens, client)

  unfoldable pub recv_batch :
      ShmSource C → List ℕ → ℕ → ℕ → List ℕ → BatchReceived × List ℕ × List ℕ × ShmSource C
  recv_batch s buf stride max lens =
      if max == 0 || stride == 0 || ltb (length buf) stride || is_empty lens
      then (timeout, buf, lens, s)
      else (let cap = min (min max (length buf / stride)) (length lens) in
          let (r, slot, client) = ops.recv_into s.client (slice 0 stride buf) s.timeout_ms in
          let (o, buf', lens', client') =
            after_first cap stride (put_slot 0 stride slot buf) lens client r in
          (o, buf', lens', record s { client = client' }))

  -- One round of the `while` loop of `recv_inplace`, on what is at the front of the ring.
  unfoldable pub peeked : Option (ℕ × List ℕ) → List (List ℕ) × C → C → List (List ℕ) × C
  peeked (some (id, payload)) rest client = (payload ∷ rest.0, rest.1)
  peeked none rest client = ([], client)

  -- The payloads that the function was called on, in at most `rounds` rounds.
  unfoldable pub peek_all : ℕ → C → List (List ℕ) × C
  peek_all zero client = ([], client)
  peek_all (suc rounds) client =
      peeked (ops.peek_payload client) (peek_all rounds (ops.advance_recv client)) client

  unfoldable pub handed :
      ShmSource C → List (List ℕ) × C → BatchReceived × List (List ℕ) × ShmSource C
  handed s (msgs, client) =
      let s' = record s { client = client } in
      if length msgs == 0 then (timeout, msgs, s') else (messages (length msgs), msgs, s')

  unfoldable pub after_wait :
      ShmSource C → ℕ → Result E Bool × C → BatchReceived × List (List ℕ) × ShmSource C
  after_wait s max (ok true, client) = handed s (peek_all max client)
  after_wait s max (ok false, client) = (timeout, [], record s { client = client })
  after_wait s max (err e, client) = (error_outcome e, [], record s { client = client })

  unfoldable pub recv_inplace : ShmSource C → ℕ → BatchReceived × List (List ℕ) × ShmSource C
  recv_inplace s max = after_wait s max (ops.wait_readable s.client s.timeout_ms)

  -- The methods of the trait; `close` leaves the client to its destructor, and the batch size is
  -- the trait's.
  unfoldable pub shm_source : DataSource (ShmSource C)
  shm_source = record {
    recv_batch = recv_batch;
    preferred_batch = λ s message_bytes. batch_max;
    supports_inplace_recv = λ s. ops.supports_inplace_recv s.client;
    recv_inplace = recv_inplace;
    close = λ s. s;
  }
