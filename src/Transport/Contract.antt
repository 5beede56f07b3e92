-- ===== src/Transport/Contract.antt =====
-- What a sink (`DataSink` of src/transport/mod.rs) promises the run engine: every message is handed
-- over whole and in order, or not at all.
use scg_seshat.Prelude.{
  ℕ, ◌+◌, ◌*◌, ◌≤◌, ◌<◌, ◌≡◌, sym, ap, ◌∙◌, Option, some, List, [], ◌∷◌, ◌++◌, length, take,
  get_elem?, get_range, All,
}
use scg_seshat.Transport.{
  SendOutcome, sent, would_block, failed, BatchOutcome, accepted, refused, DataSink, BatchReceived,
  messages, DataSource,
}

module _ {S : Type 0} (log : S → List (List ℕ)) where
  -- The first `k` of the messages have been handed over, behind the ones before.
  abbrev pub HandsOver : S → List (List ℕ) → S → ℕ → Type 0
  HandsOver s msgs s' k = (k ≤ length msgs) × (log s' ≡ log s ++ take k msgs)

  -- One message, by the outcome.
  unfoldable pub Sends : S → List ℕ → SendOutcome → S → Type 0
  Sends s m sent s' = HandsOver s (m ∷ []) s' 1
  Sends s m would_block s' = HandsOver s (m ∷ []) s' 0
  Sends s m failed s' = HandsOver s (m ∷ []) s' 0

  -- A batch, of which a failure may have handed over a part.
  unfoldable pub SendsBatch : S → List (List ℕ) → BatchOutcome → S → Type 0
  SendsBatch s msgs (accepted n) s' = HandsOver s msgs s' n
  SendsBatch s msgs (refused o) s' = (k : ℕ) × HandsOver s msgs s' k

-- The log is of the messages that have been handed over, in order.
pub record SinkContract {S : Type 0} (sink : DataSink S) (log : S → List (List ℕ)) : Type 0 where
  pub sends : (s : S) (m : List ℕ) → let r = sink.send_msg s m in Sends log s m r.0 r.1
  pub sends_batch :
      (s : S) (msgs : List (List ℕ))
      → let r = sink.send_batch s msgs in SendsBatch log s msgs r.0 r.1
  pub reserves : (s : S) (n : ℕ) → log (sink.reserve s n).1 ≡ log s
  -- A slot is as long as was asked for.
  pub slot_sized :
      (s s' : S) (n : ℕ) (slot : List ℕ) → sink.reserve s n ≡ (some slot, s') → length slot ≡ n
  -- A commit hands over what was written in the slot.
  pub commits :
      (s s' : S) (n : ℕ) (slot m : List ℕ)
      → sink.reserve s n ≡ (some slot, s')
      → length m ≡ n
      → let r = sink.commit_reserved (sink.write_slot s' m) in Sends log s' m r.0 r.1
  pub commits_batched :
      (s s' : S) (n : ℕ) (slot m : List ℕ)
      → sink.reserve s n ≡ (some slot, s')
      → length m ≡ n
      → let r = sink.commit_batched (sink.write_slot s' m) in Sends log s' m r.0 r.1
  pub flushes : (s : S) → log (sink.flush_batch s).1 ≡ log s
  pub closes : (s : S) → log (sink.close s) ≡ log s

module _ {S : Type 0} (sink : DataSink S) (log : S → List (List ℕ))
    (contract : SinkContract sink log) where
  -- Asking for a slot sends nothing, whether one is lent or not.
  pub reserved :
      (s s' : S) (n : ℕ) (lent : Option (List ℕ)) → sink.reserve s n ≡ (lent, s') → log s' ≡ log s
  reserved s s' n lent e = ap (λ r. log r.1) (sym e) ∙ contract.reserves s n

-- From number `i` on, the messages stand in their slots of the buffer.
unfoldable pub Laid : ℕ → List ℕ → List ℕ → ℕ → List (List ℕ) → Type 0
Laid stride buf lens i [] = Unit
Laid stride buf lens i (m ∷ ms) =
    (get_elem? lens i ≡ some (length m))
    × (get_range (i * stride) (i * stride + length m) buf ≡ some m)
    × Laid stride buf lens (i + 1) ms

-- Which of the messages that were left have been delivered.
unfoldable pub Receives : List (List ℕ) → List (List ℕ) → List (List ℕ) → BatchReceived → Type 0
Receives left msgs left' (messages n) = (left ≡ msgs ++ left') × (length msgs ≡ n) × (0 < n)
Receives left msgs left' _ = (left ≡ left') × (msgs ≡ [])

-- What a source promises the run engine: the messages that are left to deliver are delivered in
-- order, and none is lost.
pub record SourceContract {S : Type 0} (source : DataSource S) (left : S → List (List ℕ))
    : Type 0 where
  pub receives :
      (s : S) (buf lens : List ℕ) (stride max : ℕ)
      → length buf ≡ stride * max
      → length lens ≡ max
      → 0 < max
      → 0 < stride
      → All (λ (m : List ℕ). length m ≤ stride) (left s)
      → let r = source.recv_batch s buf stride max lens in
        (msgs : List (List ℕ)) × Receives (left s) msgs (left r.3) r.0
        × (length r.1 ≡ length buf)
        × (length r.2 ≡ length lens)
        × Laid stride r.1 r.2 0 msgs
  pub receives_inplace :
      (s : S) (max : ℕ)
      → 0 < max
      → let r = source.recv_inplace s max in Receives (left s) r.1 (left r.2) r.0
  pub ends : (s : S) → left (source.close s) ≡ left s
