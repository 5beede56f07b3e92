-- ===== src/Framing/Next.antt =====
-- `next_message` of src/transport/mod.rs over a byte stream that arrives in any pieces.
use mathlib.Core.Path.{subst}
use scg_seshat.Prelude.{
  ℕ, zero, suc, ◌≤◌, ◌<◌, ◌≡◌, refl, ap, ◌∙◌, min, Option, none, some, List, ◌++◌, length, take,
  drop, le_cases, inl, inr, append-eq-append, arith,
}
use scg_seshat.Prelude.Result.{Result, ok, err}
use scg_seshat.Wire.Header.{WireHeader, InRange}
use scg_seshat.Wire.Message.{message_len}
use scg_seshat.Wire.Message.RoundTrip.{message_bytes, length-message_bytes}
use scg_seshat.Framing.{
  FramedReader, IsValid, pending, take_one, ReadResult, FillOutcome, filled, timeout, closed,
  IoError, buffer_full, read_failed, fill_once, RecvOutcome, message, idle, shut, broken,
  unfinished, next_message,
}
use scg_seshat.Framing.Scan.{scan, scan-message_bytes, scan-partial}
use scg_seshat.Framing.Take.{TakesAs, take_one-TakesAs}
use scg_seshat.Framing.Stream.{ByteStream, to_come, FillsAs, fill_once-FillsAs}

module _ {S : Type 0} (read_fn : S → ℕ → ReadResult × S) (stream : ByteStream read_fn) where
  open stream use {unread, left}

  -- What `next_message` may answer while message `h` comes next and `rest` behind it: the message,
  -- or a reason to stop that has lost none of its bytes.
  abbrev pub Answers :
      ℕ → List ℕ → WireHeader → List ℕ → RecvOutcome → List ℕ → S → FramedReader → Type 0
  Answers room out h rest (message n) out' s r =
      (n ≡ min (message_len h.payload_len) (length out))
      × (out' ≡ take n (message_bytes h) ++ drop n out)
      × (to_come read_fn stream s r ≡ rest)
      × IsValid r
      × (length r.buf ≡ room)
  Answers room out h rest idle out' s r =
      (out' ≡ out)
      × (to_come read_fn stream s r ≡ message_bytes h ++ rest)
      × IsValid r
      × (length r.buf ≡ room)
  Answers room out h rest shut out' s r =
      (out' ≡ out)
      × (to_come read_fn stream s r ≡ message_bytes h ++ rest)
      × IsValid r
      × (length r.buf ≡ room)
  Answers room out h rest (broken e) out' s r =
      (e ≡ read_failed)
      × (out' ≡ out)
      × (to_come read_fn stream s r ≡ message_bytes h ++ rest)
      × IsValid r
      × (length r.buf ≡ room)
  Answers room out h rest unfinished out' s r = ⊥

  -- Taking from a buffer in which `h` is not yet whole changes nothing that matters.
  pub take_one-partial :
      (out : List ℕ) (h : WireHeader) (rest : List ℕ) (s : S) (r : FramedReader)
      → InRange h
      → message_len h.payload_len ≤ length r.buf
      → IsValid r
      → to_come read_fn stream s r ≡ message_bytes h ++ rest
      → length (pending r) < message_len h.payload_len
      → TakesAs r out (none, pending r) (take_one out r)
  take_one-partial out h rest s r range fits v e short =
      subst (λ t. TakesAs r out t (take_one out r))
        (scan-partial (length r.buf) h (pending r) (unread s) rest range fits e short)
        (take_one-TakesAs out r v)

  -- Taking from a buffer with the whole of `h` at its front consumes exactly `h`.
  pub take_one-whole :
      (out : List ℕ) (h : WireHeader) (rest : List ℕ) (s : S) (r : FramedReader)
      → InRange h
      → message_len h.payload_len ≤ length r.buf
      → IsValid r
      → to_come read_fn stream s r ≡ message_bytes h ++ rest
      → message_len h.payload_len ≤ length (pending r)
      → (q : List ℕ) × (q ++ unread s ≡ rest)
        × TakesAs r out (some (message_bytes h), q) (take_one out r)
  take_one-whole out h rest s r range fits v e whole =
      let (front, behind) =
        append-eq-append (pending r) (unread s) (message_bytes h) rest e
          (omega (arith, length-message_bytes h)) in
      let q = drop (length (message_bytes h)) (pending r) in
      (
        q,
        behind,
        subst (λ t. TakesAs r out t (take_one out r))
            (ap (scan (length r.buf)) front ∙ scan-message_bytes (length r.buf) h q range fits)
            (take_one-TakesAs out r v),
      )

  -- A round that finds no whole message, by what its read brought.
  after_fill :
      (out out' : List ℕ) (h : WireHeader) (rest : List ℕ) (s : S) (r : FramedReader)
      (got : Result IoError FillOutcome) (r' : FramedReader) (s' : S)
      (again : RecvOutcome × List ℕ × FramedReader × S)
      → out' ≡ out
      → to_come read_fn stream s r ≡ message_bytes h ++ rest
      → FillsAs read_fn stream s r (got, r', s')
      → (got ≡ ok filled → Answers (length r.buf) out h rest again.0 again.1 again.3 again.2)
      → let t : RecvOutcome × List ℕ × FramedReader × S = elim got [
        | ok filled ↦ again
        | ok timeout ↦ (idle, out', r', s')
        | ok closed ↦ (shut, out', r', s')
        | err e ↦ (broken e, out', r', s')
      ] in
        Answers (length r.buf) out h rest t.0 t.1 t.3 t.2
  after_fill out out' h rest s r (ok filled) r' s' again same e f next = next refl
  after_fill out out' h rest s r (ok timeout) r' s' again same e f next =
      (same, f.bytes ∙ e, f.valid, f.capacity)
  after_fill out out' h rest s r (ok closed) r' s' again same e f next =
      (same, f.bytes ∙ e, f.valid, f.capacity)
  after_fill out out' h rest s r (err buffer_full) r' s' again same e f next =
      absurd (f.not_full refl)
  after_fill out out' h rest s r (err read_failed) r' s' again same e f next =
      (refl, same, f.bytes ∙ e, f.valid, f.capacity)

  -- While the bytes to come begin with a message that fits the reader, and there are more rounds
  -- than reads to come, `next_message` answers: a message is the first one, cut to the caller's
  -- buffer, and the bytes to come are then those after it; at a timeout, an end of the stream or
  -- an error of the read function the bytes to come are still the same. The reader stays valid.
  pub next_message-Answers :
      (rounds : ℕ) (out : List ℕ) (h : WireHeader) (rest : List ℕ) (s : S) (r : FramedReader)
      → InRange h
      → message_len h.payload_len ≤ length r.buf
      → IsValid r
      → to_come read_fn stream s r ≡ message_bytes h ++ rest
      → left s < rounds
      → let t = next_message read_fn rounds out s r in
        Answers (length r.buf) out h rest t.0 t.1 t.3 t.2
  unfolding next_message
  next_message-Answers zero out h rest s r range fits v e enough = elim enough [ ]
  next_message-Answers (suc rounds) out h rest s r range fits v e enough =
      elim (le_cases (message_len h.payload_len) (length (pending r))) [
        | inl whole ↦
            let (q, behind, t) = take_one-whole out h rest s r range fits v e whole in
            let size = length-message_bytes h in
            let found = ap (λ (p : Option ℕ × List ℕ). p.0) t.delivered in
            let copied = ap (λ (p : Option ℕ × List ℕ). p.1) t.delivered in
            rw (found, next_message, copied, size)
              (refl, refl, ap (λ x. x ++ unread s) t.left ∙ behind, t.valid, ap length t.same_buf)
        | inr short ↦
            let t = take_one-partial out h rest s r range fits v e short in
            let r1 = (take_one out r).2 in
            let found = ap (λ (p : Option ℕ × List ℕ). p.0) t.delivered in
            let same = ap (λ (p : Option ℕ × List ℕ). p.1) t.delivered in
            let room = ap length t.same_buf in
            let e1 : to_come read_fn stream s r1 ≡ message_bytes h ++ rest =
              ap (λ x. x ++ unread s) t.left ∙ e in
            let f =
              fill_once-FillsAs read_fn stream s r1 t.valid
                (omega (arith, room, ap length t.left)) in
            let filled_up = fill_once read_fn s r1 in
            let out1 = (take_one out r).1 in
            let again = next_message read_fn rounds out1 filled_up.2 filled_up.1 in
            rw (found, next_message, ← room)
              (after_fill out out1 h rest s r1 filled_up.0 filled_up.1 filled_up.2 again same e1 f
                (λ was.
                  subst (λ o. Answers (length r1.buf) o h rest again.0 again.1 again.3 again.2) same
                    (rw (← f.capacity) (
                      next_message-Answers rounds out1 h rest filled_up.2 filled_up.1 range
                        (omega (arith, f.capacity, room)) f.valid (f.bytes ∙ e1)
                        (omega (arith, f.progress was))))))
      ]
