-- ===== src/Workload/Receiver/Tally.antt =====
-- What a measured stream of messages adds up to (src/workload/streams.rs, receiver.rs).
use mathlib.Core.Path.{subst}
use mathlib.Core.List.{foldl}
use scg_seshat.Prelude.{
  ℕ, ◌+◌, ◌-◌, ◌%◌, ◌^◌, ◌≤◌, ◌<◌, ◌≡◌, refl, sym, ap, ◌∙◌, List, [], ◌∷◌, ◌++◌, map, length,
  length-append, append_assoc, append-nil, ◌==◌, inl, inr, Bool-cases, if◌then◌else◌, arith,
}
use scg_seshat.Prelude.Float.{FloatOps}
use scg_seshat.Prelude.Result.{Result, ok, err}
use scg_seshat.Wire.Header.{WireError, WireHeader}
use scg_seshat.Wire.Message.{message_len, decode_message}
use scg_seshat.Metrics.Flow as Flow
use scg_seshat.Metrics.Flow.{
  FlowMetrics, record_message, record_integrity_failure, record_boundary_violation,
}
use scg_seshat.Workload.Receiver.{
  ingest, ingest_decoded, count_failure, count_boundary, receive_measured,
}

-- A message and the time of its arrival.
abbrev pub Arrival : Type 0
Arrival = List ℕ × ℕ

unfoldable pub decoded_one : Result WireError WireHeader → ℕ → List (WireHeader × ℕ)
decoded_one (ok h) recv_ns = (h, recv_ns) ∷ []
decoded_one (err e) recv_ns = []

-- The headers of the messages that the decoder accepts, with their arrivals.
unfoldable pub decoded : List Arrival → List (WireHeader × ℕ)
decoded [] = []
decoded (a ∷ rest) = decoded_one (decode_message a.0) a.1 ++ decoded rest

-- The messages that do not have the expected size.
unfoldable pub misfits : ℕ → List Arrival → ℕ
misfits size [] = 0
misfits size (a ∷ rest) = (if length a.0 == size then 0 else 1) + misfits size rest

unfoldable pub total_len : List (WireHeader × ℕ) → ℕ
total_len [] = 0
total_len (d ∷ ds) = message_len d.0.payload_len + total_len ds

length-decoded_one : (r : Result WireError WireHeader) (t : ℕ) → length (decoded_one r t) ≤ 1
unfolding decoded_one
length-decoded_one (ok h) t = omega arith
length-decoded_one (err e) t = omega arith

length-decoded : (rest : List Arrival) → length (decoded rest) ≤ length rest
unfolding decoded
length-decoded [] = omega arith
length-decoded (a ∷ rest) =
    let one = decoded_one (decode_message a.0) a.1 in
    omega (
      arith,
      length-append one (decoded rest),
      length-decoded_one (decode_message a.0) a.1,
      length-decoded rest,
    )

module _ {F : Type 0} (fl : FloatOps F) (size : ℕ) where
  abbrev pub latency_of : WireHeader × ℕ → F
  latency_of d = fl.div (fl.of_nat (d.1 - d.0.ts_ns)) (fl.of_nat 1000)

  pub record IsTally (ds : List (WireHeader × ℕ)) (m : FlowMetrics F) (rest : List Arrival)
      (r : FlowMetrics F) : Type 0 where
    pub seqs : r.seqs ≡ m.seqs ++ map (λ d. d.0.seq) ds
    pub latencies : r.latencies_us ≡ m.latencies_us ++ map latency_of ds
    pub bytes : r.bytes ≡ (m.bytes + total_len ds) % 2 ^ 64
    pub failures :
        r.integrity_failures ≡ (m.integrity_failures + (length rest - length ds)) % 2 ^ 64
    pub violations : r.boundary_violations ≡ (m.boundary_violations + misfits size rest) % 2 ^ 64

  record Fits (m : FlowMetrics F) : Type 0 where
    bytes_fit : m.bytes < 2 ^ 64
    failures_fit : m.integrity_failures < 2 ^ 64
    violations_fit : m.boundary_violations < 2 ^ 64

  receive : FlowMetrics F → Arrival → FlowMetrics F
  receive m a = receive_measured fl size m a.0 a.1

  counted-Fits :
      (m : FlowMetrics F) (msg : List ℕ) (t : ℕ) (r : Result WireError WireHeader)
      → Fits m
      → Fits (count_failure fl (ingest_decoded fl r (count_boundary fl size m msg) t))
  unfolding count_failure ingest_decoded count_boundary record_message record_integrity_failure
      record_boundary_violation
  counted-Fits m msg t (ok h) f = ground arith
  counted-Fits m msg t (err e) f = ground arith

  boundary_lem :
      (m : FlowMetrics F) (msg : List ℕ)
      → let c = count_boundary fl size m msg in
        (c.seqs ≡ m.seqs)
        × (c.latencies_us ≡ m.latencies_us)
        × (c.bytes ≡ m.bytes)
        × (c.integrity_failures ≡ m.integrity_failures)
        × (c.boundary_violations % 2 ^ 64
            ≡ (m.boundary_violations + (if length msg == size then 0 else 1)) % 2 ^ 64)
  unfolding count_boundary record_boundary_violation
  boundary_lem m msg = elim (Bool-cases (length msg == size)) [
    | inl same ↦ rw same (refl, refl, refl, refl, omega arith)
    | inr other ↦ rw other (refl, refl, refl, refl, omega arith)
  ]

  -- One more arrival in front.
  IsTally-cons :
      (m r : FlowMetrics F) (a : Arrival) (rest : List Arrival) (d : Result WireError WireHeader)
      → decode_message a.0 ≡ d
      → IsTally
          (decoded rest)
          (count_failure fl (ingest_decoded fl d (count_boundary fl size m a.0) a.1))
          rest
          r
      → IsTally (decoded (a ∷ rest)) m (a ∷ rest) r
  unfolding count_failure ingest_decoded record_message record_integrity_failure decoded decoded_one
      misfits total_len
  IsTally-cons m r a rest (ok h) e t =
      let (s, l, b, f, v) = boundary_lem m a.0 in
      let now : decoded (a ∷ rest) ≡ (h, a.1) ∷ decoded rest =
        ap (λ d. decoded_one d a.1 ++ decoded rest) e in
      subst (λ ds. IsTally ds m (a ∷ rest) r) (sym now)
        (record {
          seqs =
              t.seqs
              ∙ ap (λ x. (x ++ h.seq ∷ []) ++ map (λ d. d.0.seq) (decoded rest)) s
              ∙ append_assoc m.seqs (h.seq ∷ []) (map (λ d. d.0.seq) (decoded rest));
          latencies =
              t.latencies
              ∙ ap (λ x. (x ++ latency_of (h, a.1) ∷ []) ++ map latency_of (decoded rest)) l
              ∙ append_assoc m.latencies_us (latency_of (h, a.1) ∷ [])
                  (map latency_of (decoded rest));
          bytes = omega (arith, t.bytes, b);
          failures = omega (arith, t.failures, f);
          violations = omega (arith, t.violations, v);
        })
  IsTally-cons m r a rest (err x) e t =
      let (s, l, b, f, v) = boundary_lem m a.0 in
      let now : decoded (a ∷ rest) ≡ decoded rest = ap (λ d. decoded_one d a.1 ++ decoded rest) e in
      subst (λ ds. IsTally ds m (a ∷ rest) r) (sym now)
        (record {
          seqs = t.seqs ∙ ap (λ y. y ++ map (λ d. d.0.seq) (decoded rest)) s;
          latencies = t.latencies ∙ ap (λ y. y ++ map latency_of (decoded rest)) l;
          bytes = omega (arith, t.bytes, b);
          failures = omega (arith, t.failures, f, length-decoded rest);
          violations = omega (arith, t.violations, v);
        })

  foldl-IsTally :
      (m : FlowMetrics F) (rest : List Arrival)
      → Fits m
      → IsTally (decoded rest) m rest (foldl receive m rest)
  unfolding decoded misfits total_len receive receive_measured ingest
  foldl-IsTally m [] f = record {
    seqs = sym (append-nil m.seqs);
    latencies = sym (append-nil m.latencies_us);
    bytes = omega (arith, f.bytes_fit);
    failures = omega (arith, f.failures_fit);
    violations = omega (arith, f.violations_fit);
  }
  foldl-IsTally m (a ∷ rest) f =
      IsTally-cons m _ a rest (decode_message a.0) refl
        (foldl-IsTally (receive m a) rest (counted-Fits m a.0 a.1 (decode_message a.0) f))

  -- Whatever byte sequences arrive, in a new account: the sequence numbers and the latencies
  -- recorded are those of the messages that the decoder accepts, in order of arrival; the bytes
  -- are the sum of the lengths that their headers announce, the integrity failures are all the
  -- other arrivals, and the boundary violations are the arrivals that do not have the expected
  -- size, accepted or not, each of the three wrapping.
  pub receive_measured-IsTally :
      (arrivals : List Arrival)
      → IsTally
          (decoded arrivals)
          (Flow.new fl)
          arrivals
          (foldl (λ m a. receive_measured fl size m a.0 a.1) (Flow.new fl) arrivals)
  unfolding Flow.new receive
  receive_measured-IsTally arrivals =
      foldl-IsTally (Flow.new fl) arrivals (record {
        bytes_fit = omega arith;
        failures_fit = omega arith;
        violations_fit = omega arith;
      })
