-- ===== src/Workload/Pacer/Deadlines.antt =====
-- The deadlines that a `Pacer` of src/workload/sender.rs hands out.
use Prim.Native.Nat.add
use scg_seshat.Prelude.{
  ℕ, zero, suc, ◌+◌, ◌*◌, ◌≤◌, ◌<◌, ◌≡◌, refl, sym, ap, ap₂, ◌∙◌, min, true, ==_iff, le_cases, inl,
  inr, le→leb, lt→leb-false, arith,
}
use scg_seshat.Prelude.Float.{FloatOps}
use scg_seshat.Config.Schema.{Pattern, Sender}
use scg_seshat.Workload.Pacer.{
  u64_max, saturating_add, PacerKind, fixed, burst, ramp, Pacer, kind_for, from_sender, advance,
  next_deadline_ns, after, is_blast,
}

-- The kinds that can occur: a burst's position lies inside it, and a ramp's steps take time.
abbrev pub KindIsValid : {F : Type 0} → PacerKind F → Type 0
KindIsValid (fixed gap_ns) = Unit
KindIsValid (burst count gap_ns pause_ns pos) = pos < count
KindIsValid (ramp message_bytes start_mbps step_mbps step_interval_ns) = 0 < step_interval_ns

pub record IsValid {F : Type 0} (p : Pacer F) : Type 0 where
  pub kind_valid : KindIsValid p.kind
  pub next_fits : p.next_ns ≤ u64_max

module _ {F : Type 0} (fl : FloatOps F) where
  kind_for-IsValid :
      (pattern' : Pattern) (sender : Sender F) (bytes : ℕ)
      → KindIsValid (kind_for fl pattern' sender bytes)
  unfolding kind_for
  kind_for-IsValid Pattern.sustained sender bytes = tt
  kind_for-IsValid Pattern.periodic sender bytes = tt
  kind_for-IsValid Pattern.burst sender bytes = omega arith
  kind_for-IsValid Pattern.ramp sender bytes = omega arith

  -- Whatever the sender's configuration, the pacer made from it is valid: its position lies inside
  -- the burst and a ramp's step takes time.
  pub from_sender-IsValid : (sender : Sender F) (bytes : ℕ) → IsValid (from_sender fl sender bytes)
  unfolding from_sender
  from_sender-IsValid sender bytes = record {
    kind_valid = kind_for-IsValid sender.pattern sender bytes;
    next_fits = omega arith;
  }

  advance-IsValid :
      (k : PacerKind F) (d : ℕ)
      → KindIsValid k
      → d ≤ u64_max
      → IsValid (advance fl k d) × (d ≤ (advance fl k d).next_ns)
  unfolding advance
  advance-IsValid (fixed gap_ns) d v fits =
      (record { kind_valid = tt; next_fits = omega arith }, omega arith)
  advance-IsValid (burst count gap_ns pause_ns pos) d v fits = elim (le_cases count (pos + 1)) [
    | inl last ↦
        rw (le→leb count (pos + 1) last)
          (record { kind_valid = omega arith; next_fits = omega arith }, omega arith)
    | inr more ↦
        rw (lt→leb-false count (pos + 1) more)
          (record { kind_valid = omega arith; next_fits = omega arith }, omega arith)
  ]
  advance-IsValid (ramp message_bytes start_mbps step_mbps step_interval_ns) d v fits =
      (record { kind_valid = v; next_fits = omega arith }, omega arith)

  -- A valid pacer hands out its deadline, is valid afterwards, and its next deadline is not
  -- earlier.
  pub next_deadline_ns-IsValid :
      (p : Pacer F)
      → IsValid p
      → let (d, p') = next_deadline_ns fl p in (d ≡ p.next_ns) × IsValid p' × (d ≤ p'.next_ns)
  unfolding next_deadline_ns
  next_deadline_ns-IsValid p v =
      let (valid, later) = advance-IsValid p.kind p.next_ns v.kind_valid v.next_fits in
      (refl, valid, later)

  pub after-add : (m n : ℕ) (p : Pacer F) → after fl (m + n) p ≡ after fl n (after fl m p)
  unfolding after
  after-add zero n p = rw (add.zero n)
  after-add (suc m) n p = rw (add.suc m n) (after-add m n (next_deadline_ns fl p).1)

  -- The pacers of the two kinds that do not depend on `f64`, at a time that saturates.
  abbrev pub fixed_at : ℕ → ℕ → Pacer F
  fixed_at gap_ns t = record { kind = fixed gap_ns; next_ns = min t u64_max }

  abbrev pub burst_at : ℕ → ℕ → ℕ → ℕ → ℕ → Pacer F
  burst_at count gap_ns pause_ns pos t = record {
    kind = burst count gap_ns pause_ns pos;
    next_ns = min t u64_max;
  }

  -- After `n` messages a pacer with a fixed gap that starts at `t` is due `n` gaps later,
  -- saturating at the largest `u64`.
  after-fixed : (n gap_ns t : ℕ) → after fl n (fixed_at gap_ns t) ≡ fixed_at gap_ns (t + n * gap_ns)
  unfolding after next_deadline_ns advance
  after-fixed zero gap_ns t = let e : t ≡ t + 0 * gap_ns = omega arith in ap (fixed_at gap_ns) e
  after-fixed (suc n) gap_ns t =
      let e : saturating_add (min t u64_max) gap_ns ≡ min (t + gap_ns) u64_max = omega arith in
      let e' : t + gap_ns + n * gap_ns ≡ t + suc n * gap_ns = omega arith in
      rw e (after-fixed n gap_ns (t + gap_ns) ∙ ap (fixed_at gap_ns) e')

  after-blast :
      (n : ℕ) (k : PacerKind F) (d : ℕ)
      → d ≤ u64_max
      → is_blast (record { kind = k; next_ns = d }) ≡ true
      → after fl n (record { kind = k; next_ns = d }) ≡ record { kind = k; next_ns = d }
  unfolding is_blast
  after-blast n (fixed gap_ns) d fits h =
      let none_added : gap_ns ≡ 0 = (==_iff gap_ns 0).0 h in
      let e : d ≡ min d u64_max = omega arith in
      let e' : d ≡ min (d + n * 0) u64_max = omega arith in
      rw none_added (
        ap (λ t. after fl n (record { kind = fixed 0; next_ns = t })) e
        ∙ after-fixed n 0 d
        ∙ ap {B = Pacer F} (λ t. record { kind = fixed 0; next_ns = t }) (sym e'))
  after-blast n (burst count gap_ns pause_ns pos) d fits h = cc
  after-blast n (ramp message_bytes start_mbps step_mbps step_interval_ns) d fits h = cc

  -- A pacer whose deadline is a `u64` and that counts as a blast is the same after any number of
  -- messages.
  after-is_blast :
      (n : ℕ) (p : Pacer F) → p.next_ns ≤ u64_max → is_blast p ≡ true → after fl n p ≡ p
  after-is_blast n p fits h = after-blast n p.kind p.next_ns fits h

  -- Inside a burst the messages are `gap_ns` apart.
  after-burst_inside :
      (k count gap_ns pause_ns pos t : ℕ)
      → pos + k < count
      → after fl k (burst_at count gap_ns pause_ns pos t)
        ≡ burst_at count gap_ns pause_ns (pos + k) (t + k * gap_ns)
  unfolding after next_deadline_ns advance
  after-burst_inside zero count gap_ns pause_ns pos t inside =
      let e : t ≡ t + 0 * gap_ns = omega arith in
      let e' : pos ≡ pos + 0 = omega arith in ap₂ (burst_at count gap_ns pause_ns) e' e
  after-burst_inside (suc k) count gap_ns pause_ns pos t inside =
      let e : saturating_add (min t u64_max) gap_ns ≡ min (t + gap_ns) u64_max = omega arith in
      let e' : t + gap_ns + k * gap_ns ≡ t + suc k * gap_ns = omega arith in
      let e'' : pos + 1 + k ≡ pos + suc k = omega arith in
      rw (lt→leb-false count (pos + 1) (omega arith), e)
        (after-burst_inside k count gap_ns pause_ns (pos + 1) (t + gap_ns) (omega arith)
          ∙ ap₂ (burst_at count gap_ns pause_ns) e'' e')

  -- Behind the last message of a burst comes the pause.
  after-burst_wrap :
      (last gap_ns pause_ns t : ℕ)
      → after fl 1 (burst_at (suc last) gap_ns pause_ns last t)
        ≡ burst_at (suc last) gap_ns pause_ns 0 (t + gap_ns + pause_ns)
  unfolding after next_deadline_ns advance
  after-burst_wrap last gap_ns pause_ns t =
      let e : saturating_add (saturating_add (min t u64_max) gap_ns) pause_ns
          ≡ min (t + gap_ns + pause_ns) u64_max =
        omega arith in
      rw (le→leb (suc last) (last + 1) (omega arith), e)

  -- A whole burst takes its gaps and one pause.
  after-burst_round :
      (last gap_ns pause_ns t : ℕ)
      → after fl (suc last) (burst_at (suc last) gap_ns pause_ns 0 t)
        ≡ burst_at (suc last) gap_ns pause_ns 0 (t + (suc last * gap_ns + pause_ns))
  after-burst_round last gap_ns pause_ns t =
      let e : suc last ≡ last + 1 = omega arith in
      let e' : t + last * gap_ns + gap_ns + pause_ns ≡ t + (suc last * gap_ns + pause_ns) =
        omega arith in
      ap (λ n. after fl n (burst_at (suc last) gap_ns pause_ns 0 t)) e
      ∙ after-add last 1 (burst_at (suc last) gap_ns pause_ns 0 t)
      ∙ ap (after fl 1) (after-burst_inside last (suc last) gap_ns pause_ns 0 t (omega arith))
      ∙ rw (add.zero last) (after-burst_wrap last gap_ns pause_ns (t + last * gap_ns))
      ∙ ap (burst_at (suc last) gap_ns pause_ns 0) e'

  -- For a position inside a burst: at message `k` of burst `j` a bursting pacer that starts at `t`
  -- is due after `j` whole bursts with their pauses and `k` gaps, saturating at the largest `u64`.
  pub after-burst :
      (j k count gap_ns pause_ns t : ℕ)
      → k < count
      → after fl (j * count + k) (burst_at count gap_ns pause_ns 0 t)
        ≡ burst_at count gap_ns pause_ns k (t + j * (count * gap_ns + pause_ns) + k * gap_ns)
  after-burst zero k count gap_ns pause_ns t inside =
      let e : 0 * count + k ≡ k = omega arith in
      let e' : t + k * gap_ns ≡ t + 0 * (count * gap_ns + pause_ns) + k * gap_ns = omega arith in
      ap (λ n. after fl n (burst_at count gap_ns pause_ns 0 t)) e
      ∙ after-burst_inside k count gap_ns pause_ns 0 t (omega arith)
      ∙ ap₂ (burst_at count gap_ns pause_ns) (add.zero k) e'
  after-burst (suc j) k zero gap_ns pause_ns t inside = absurd (omega arith)
  after-burst (suc j) k (suc last) gap_ns pause_ns t inside =
      let count = suc last in
      let e : suc j * suc last + k ≡ suc last + (j * suc last + k) = omega arith in
      let e' : t + (suc last * gap_ns + pause_ns) + j * (suc last * gap_ns + pause_ns) + k * gap_ns
          ≡ t + suc j * (suc last * gap_ns + pause_ns) + k * gap_ns =
        omega arith in
      ap (λ n. after fl n (burst_at count gap_ns pause_ns 0 t)) e
      ∙ after-add (suc last) (j * suc last + k) (burst_at count gap_ns pause_ns 0 t)
      ∙ ap (after fl (j * suc last + k)) (after-burst_round last gap_ns pause_ns t)
      ∙ after-burst j k (suc last) gap_ns pause_ns (t + (suc last * gap_ns + pause_ns)) inside
      ∙ ap (burst_at count gap_ns pause_ns k) e'
