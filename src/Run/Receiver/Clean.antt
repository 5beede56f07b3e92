-- ===== src/Run/Receiver/Clean.antt =====
-- What the receiver of src/run/engine.rs accounts of whole messages.
use mathlib.Core.List.{Sublistᴰ}
use scg_seshat.Prelude.{
  ℕ, ◌+◌, ◌*◌, ◌%◌, ◌^◌, ◌≤◌, ◌<◌, ◌≡◌, refl, Bool, true, false, some, List, [], ◌∷◌, ◌++◌, length,
  append_assoc, append-nil, length-append, arith,
}
use scg_seshat.Prelude.Float.{FloatOps}
use scg_seshat.Wire.Header.{WireHeader, InRange, stamp_at}
use scg_seshat.Wire.Message.{message_len}
use scg_seshat.Wire.Message.RoundTrip.{message_bytes}
use scg_seshat.Metrics.Flow.{FlowMetrics, record_message, new}
use scg_seshat.Workload.Receiver.Pipeline.{receive_measured-message_bytes}
use scg_seshat.Transport.{DataSource}
use scg_seshat.Transport.Contract.{Laid}
use scg_seshat.Run.{World, is_measuring}
use scg_seshat.Run.Receiver.{take_in, ingest_each, ingest_slots}
use scg_seshat.Run.Receiver.Carries.{Carries}

-- Of the messages with these numbers some have been recorded, in order, none as a failure.
pub record Clean {F : Type 0} (size : ℕ) (ns : List ℕ) (m : FlowMetrics F) : Type 0 where
  pub recorded : Sublistᴰ m.seqs ns
  pub sound : m.integrity_failures ≡ 0
  pub bounded : m.boundary_violations ≡ 0
  pub counted : m.bytes ≡ length m.seqs * size % 2 ^ 64
  pub timed : length m.latencies_us ≡ length m.seqs

-- Of the messages with the numbers `ns` the first ones are in the account, and the others are
-- still to be delivered.
pub record Accounted {F S : Type 0} (left : S → List (List ℕ)) (payload_len : ℕ) (ns : List ℕ)
    (r : FlowMetrics F × S) : Type 0 where
  pub done : List ℕ
  pub rest : List ℕ
  pub split : ns ≡ done ++ rest
  pub to_come : Carries payload_len rest (left r.1)
  pub clean : Clean (message_len payload_len) done r.0

sublist-append {ℓ} :
    {A : Type ℓ} {xs ys : List A} (zs : List A) → Sublistᴰ xs ys → Sublistᴰ xs (ys ++ zs)
sublist-append [] Sublistᴰ.slnil = Sublistᴰ.slnil
sublist-append (z ∷ zs) Sublistᴰ.slnil = Sublistᴰ.cons (sublist-append zs Sublistᴰ.slnil)
sublist-append zs (Sublistᴰ.cons d) = Sublistᴰ.cons (sublist-append zs d)
sublist-append zs (Sublistᴰ.cons-cons e d) = Sublistᴰ.cons-cons e (sublist-append zs d)

sublist-snoc {ℓ} :
    {A : Type ℓ} {xs ys : List A} (a : A) → Sublistᴰ xs ys → Sublistᴰ (xs ++ a ∷ []) (ys ++ a ∷ [])
sublist-snoc a Sublistᴰ.slnil = Sublistᴰ.cons-cons refl Sublistᴰ.slnil
sublist-snoc a (Sublistᴰ.cons d) = Sublistᴰ.cons (sublist-snoc a d)
sublist-snoc a (Sublistᴰ.cons-cons e d) = Sublistᴰ.cons-cons e (sublist-snoc a d)

one_more :
    {A B : Type 0} (xs : List A) (ys : List B) (a : A) (b : B)
    → length xs ≡ length ys
    → length (xs ++ a ∷ []) ≡ length (ys ++ b ∷ [])
one_more xs ys a b e = omega (arith, length-append xs (a ∷ []), length-append ys (b ∷ []))

one_more_bytes :
    (seqs : List ℕ) (n bytes size : ℕ)
    → bytes ≡ length seqs * size % 2 ^ 64
    → (bytes + size) % 2 ^ 64 ≡ length (seqs ++ n ∷ []) * size % 2 ^ 64
one_more_bytes seqs n bytes size e =
    let longer : length (seqs ++ n ∷ []) ≡ length seqs + 1 =
      omega (arith, length-append seqs (n ∷ [])) in
    let product : (length seqs + 1) * size ≡ length seqs * size + size = omega arith in
    rw (longer, product) (omega (arith, e))

module _ {F S : Type 0} (fl : FloatOps F) (source_ops : DataSource S) (w : World) (payload_len : ℕ)
    (fits : payload_len < 2 ^ 32) where
  abbrev pub stride : ℕ
  stride = message_len payload_len

  take_in-Clean :
      (measuring : Bool) (recv_ns n ts_ns : ℕ) (done : List ℕ) (m : FlowMetrics F) (msg : List ℕ)
      → n < 2 ^ 64
      → ts_ns < 2 ^ 64
      → msg ≡ message_bytes (stamp_at n payload_len ts_ns)
      → Clean stride done m
      → Clean stride (done ++ n ∷ []) (take_in fl source_ops w stride measuring recv_ns m msg)
  unfolding take_in stamp_at record_message
  take_in-Clean false recv_ns n ts_ns done m msg n_fits ts_fits is c = record {
    recorded = sublist-append (n ∷ []) c.recorded;
    sound = c.sound;
    bounded = c.bounded;
    counted = c.counted;
    timed = c.timed;
  }
  take_in-Clean true recv_ns n ts_ns done m msg n_fits ts_fits is c =
      let h : WireHeader = stamp_at n payload_len ts_ns in
      let range : InRange h = record {
        seq_fits = n_fits;
        ts_ns_fits = ts_fits;
        payload_len_fits = fits;
      } in
      let e = receive_measured-message_bytes fl h m recv_ns range in
      rw (is, e)
        (record {
          recorded = sublist-snoc n c.recorded;
          sound = c.sound;
          bounded = c.bounded;
          counted = one_more_bytes m.seqs n m.bytes stride c.counted;
          timed = one_more m.latencies_us m.seqs _ n c.timed;
        })

  pub ingest_each-Clean :
      (at : ℕ) (done ns : List ℕ) (m : FlowMetrics F) (msgs : List (List ℕ))
      → Carries payload_len ns msgs
      → Clean stride done m
      → let r = ingest_each fl source_ops w stride at m msgs in
        (at ≤ r.0) × Clean stride (done ++ ns) r.1
  unfolding ingest_each Carries
  ingest_each-Clean at done [] m [] h c = (omega arith, rw (append-nil done) c)
  ingest_each-Clean at done [] m (msg ∷ msgs) h c = elim h [ ]
  ingest_each-Clean at done (n ∷ ns) m [] h c = elim h [ ]
  ingest_each-Clean at done (n ∷ ns) m (msg ∷ msgs) (n_fits, (ts, ts_fits, is), rest) c =
      let c' =
        take_in-Clean (is_measuring (w.phase (at + 1))) (w.clock at) n ts done m msg n_fits ts_fits
          is c in
      let (later, c'') = ingest_each-Clean (at + 2) (done ++ n ∷ []) ns _ msgs rest c' in
      (omega (arith, later), rw (← append_assoc done (n ∷ []) ns) c'')

  pub ingest_slots-Clean :
      (measuring : Bool) (recv_ns : ℕ) (buf lens : List ℕ) (i : ℕ) (done ns : List ℕ)
      (m : FlowMetrics F) (msgs : List (List ℕ))
      → Laid stride buf lens i msgs
      → Carries payload_len ns msgs
      → Clean stride done m
      → (m' : FlowMetrics F) × (ingest_slots fl source_ops w stride measuring recv_ns buf lens
            (length msgs)
            i
            m
          ≡ some m')
        × Clean stride (done ++ ns) m'
  unfolding ingest_slots Carries Laid
  ingest_slots-Clean measuring recv_ns buf lens i done [] m [] l h c =
      (m, refl, rw (append-nil done) c)
  ingest_slots-Clean measuring recv_ns buf lens i done [] m (msg ∷ msgs) l h c = elim h [ ]
  ingest_slots-Clean measuring recv_ns buf lens i done (n ∷ ns) m [] l h c = elim h [ ]
  ingest_slots-Clean measuring recv_ns buf lens i done (n ∷ ns) m (msg ∷ msgs) l h c =
      let (ts, ts_fits, is) = h.1 in
      let c' = take_in-Clean measuring recv_ns n ts done m msg h.0 ts_fits is c in
      let (m', e, c'') =
        ingest_slots-Clean measuring recv_ns buf lens (i + 1) (done ++ n ∷ []) ns _ msgs l.2 h.2
          c' in
      (m', rw (l.0, l.1) e, rw (← append_assoc done (n ∷ []) ns) c'')

  pub new-Clean : Clean stride [] (new fl)
  unfolding new
  new-Clean = record {
    recorded = Sublistᴰ.slnil;
    sound = refl;
    bounded = refl;
    counted = omega arith;
    timed = refl;
  }
