-- ===== src/Run/Connrate/Counts.antt =====
-- What the connector of src/run/engine.rs has counted at the end of a run.
use mathlib.Core.Path.{subst}
use scg_seshat.Prelude.{
  append-nil, append_assoc, le_cases, ℕ, zero, suc, ◌+◌, ◌-◌, ◌%◌, ◌^◌, ◌<◌, ◌≡◌, refl, sym, ap,
  ap₂, ◌∙◌, Bool, true, false, Option, none, some, List, [], ◌∷◌, ◌++◌, map, length, length-append,
  get_elem?, inl, inr, Bool-cases, arith,
}
use scg_seshat.Prelude.Float.{FloatOps}
use scg_seshat.Prelude.Loop.{Keeps, Returns, loop_returns}
use scg_seshat.Metrics.Flow as Flow
use scg_seshat.Metrics.Flow.{FlowMetrics, record_message}
use scg_seshat.Run.{World, is_done, is_measuring, EndsBy}
use scg_seshat.Run.Sender.Progress.{before_end}
use scg_seshat.Run.Receiver.Carries.{numbers}
use scg_seshat.Run.Connrate.{
  ConnFactory, Connector, Outcome, track, connected, connect_round, connrate_client_loop,
}

numbers-snoc : (n count : ℕ) → numbers n count ++ (n + count) % 2 ^ 64 ∷ [] ≡ numbers n (suc count)
unfolding numbers
numbers-snoc n zero = let e : n + 0 ≡ n = omega arith in rw e refl
numbers-snoc n (suc count) =
    let e : n + suc count ≡ n + 1 + count = omega arith in
    rw e (ap (λ t. n % 2 ^ 64 ∷ t) (numbers-snoc (n + 1) count))

map-snoc :
    {A B : Type 0} (f : A → B) (xs : List A) (a : A) → map f (xs ++ a ∷ []) ≡ map f xs ++ f a ∷ []
map-snoc f [] a = refl
map-snoc f (x ∷ xs) a = ap (λ t. f x ∷ t) (map-snoc f xs a)

tracked :
    (hs : List ℕ) (ns : ℕ)
    → track (get_elem? hs 0) (get_elem? hs 1) ns
      ≡ (get_elem? (hs ++ ns ∷ []) 0, get_elem? (hs ++ ns ∷ []) 1)
unfolding track
tracked [] ns = refl
tracked (x ∷ []) ns = refl
tracked (x ∷ y ∷ hs) ns = refl

-- The handshakes in order, with the microseconds of each; the first two are also kept apart.
pub record Counted {F : Type 0} (fl : FloatOps F) (handshakes : List ℕ) (r : Outcome F)
    : Type 0 where
  pub numbered : r.0.seqs ≡ numbers 0 (length handshakes)
  pub timed : r.0.latencies_us ≡ map (λ ns. fl.div (fl.of_nat ns) (fl.of_nat 1000)) handshakes
  pub first : r.1 ≡ get_elem? handshakes 0
  pub second : r.2 ≡ get_elem? handshakes 1
  pub sound : r.0.integrity_failures ≡ 0
  pub bounded : r.0.boundary_violations ≡ 0
  pub no_bytes : r.0.bytes ≡ 0

-- The handshakes that succeed while the flag reads measure, of `k` attempts from reading `at` on.
unfoldable pub counted_one : Bool → Option ℕ → List ℕ
counted_one true (some ns) = ns ∷ []
counted_one true none = []
counted_one false o = []

unfoldable pub handshakes : {S : Type 0} → ConnFactory S → World → ℕ → S → ℕ → List ℕ
handshakes ops w zero factory at = []
handshakes ops w (suc k) factory at =
    let (o, factory') = ops.connect_once factory in
    counted_one (is_measuring (w.phase at)) o ++ handshakes ops w k factory' (at + 1)

-- Reading `n` is the first that is done.
unfoldable pub IsFirstDone : World → ℕ → Type 0
IsFirstDone w n = (is_done (w.phase n) ≡ true) × ((j : ℕ) → j < n → is_done (w.phase j) ≡ false)

module _ {F S : Type 0} (fl : FloatOps F) (ops : ConnFactory S) (w : World) where
  Counting : List ℕ → Connector F S → Type 0
  Counting hs s =
      Counted fl hs (s.metrics, s.first_hs_ns, s.second_hs_ns) × (s.seq ≡ length hs % 2 ^ 64)

  connected-Counting :
      (hs : List ℕ) (s : Connector F S) (measuring : Bool) (o : Option ℕ)
      → Counting hs s
      → Counting (hs ++ counted_one measuring o) (connected fl ops w s measuring o)
  unfolding connected Counting record_message counted_one
  connected-Counting hs s true none h = rw (append-nil hs) h
  connected-Counting hs s false none h = rw (append-nil hs) h
  connected-Counting hs s false (some ns) h = rw (append-nil hs) h
  connected-Counting hs s true (some ns) (c, e) =
      let both : track s.first_hs_ns s.second_hs_ns ns
          ≡ (get_elem? (hs ++ ns ∷ []) 0, get_elem? (hs ++ ns ∷ []) 1) =
        ap₂ (λ a b. track a b ns) c.first c.second ∙ tracked hs ns in
      let longer : length (hs ++ ns ∷ []) ≡ suc (length hs) =
        omega (arith, length-append hs (ns ∷ [])) in
      let here : s.seq ≡ (0 + length hs) % 2 ^ 64 = omega (arith, e) in
      (
        record {
          numbered =
              ap₂ (λ a b. a ++ b ∷ []) c.numbered here
              ∙ numbers-snoc 0 (length hs)
              ∙ ap (numbers 0) (sym longer);
          timed =
              ap (λ a. a ++ fl.div (fl.of_nat ns) (fl.of_nat 1000) ∷ []) c.timed
              ∙ sym (map-snoc (λ t. fl.div (fl.of_nat t) (fl.of_nat 1000)) hs ns);
          first = ap (λ p. p.0) both;
          second = ap (λ p. p.1) both;
          sound = c.sound;
          bounded = c.bounded;
          no_bytes = ap (λ b. (b + 0) % 2 ^ 64) c.no_bytes;
        },
        omega (arith, e, longer),
      )

  connected-at :
      (s : Connector F S) (measuring : Bool) (o : Option ℕ)
      → (connected fl ops w s measuring o).at ≡ s.at
  unfolding connected
  connected-at s measuring none = refl
  connected-at s false (some ns) = refl
  connected-at s true (some ns) = refl

  connected-factory :
      (s : Connector F S) (measuring : Bool) (o : Option ℕ)
      → (connected fl ops w s measuring o).factory ≡ s.factory
  unfolding connected
  connected-factory s measuring none = refl
  connected-factory s false (some ns) = refl
  connected-factory s true (some ns) = refl

  -- All handshakes up to the first reading that is done have been counted.
  abbrev pub CountsAll : S → Outcome F → Type 0
  CountsAll factory r = (n : ℕ) × IsFirstDone w n × Counted fl (handshakes ops w n factory 0) r

  module _ (factory : S) (limit : ℕ) (ends : EndsBy w limit) where
    -- Those counted so far, and those to come, are those of the run.
    Connecting : Connector F S → Type 0
    Connecting s =
        (hs : List ℕ) × Counting hs s
        × ((k : ℕ)
            → handshakes ops w (s.at + k) factory 0 ≡ hs ++ handshakes ops w k s.factory s.at)
        × ((j : ℕ) → j < s.at → is_done (w.phase j) ≡ false)

    after_attempt :
        (s : Connector F S)
        → is_done (w.phase s.at) ≡ false
        → Connecting s
        → let r = ops.connect_once s.factory in
          Connecting (
            connected fl ops w
              (record s { factory = r.1; at = s.at + 1 })
              (is_measuring (w.phase s.at))
              r.0)
    unfolding Connecting handshakes
    after_attempt s on (hs, c, split, before) =
        let r = ops.connect_once s.factory in
        let t : Connector F S = record s { factory = r.1; at = s.at + 1 } in
        let measuring = is_measuring (w.phase s.at) in
        (
          hs ++ counted_one measuring r.0,
          connected-Counting hs t measuring r.0 (unfold Counting in c),
          rw (connected-at t measuring r.0, connected-factory t measuring r.0)
              (λ k.
                let e : s.at + 1 + k ≡ s.at + suc k = omega arith in
                ap (λ n. handshakes ops w n factory 0) e
                ∙ split (suc k)
                ∙ sym (
                    append_assoc hs (counted_one measuring r.0)
                      (handshakes ops w k r.1 (s.at + 1)))),
          rw (connected-at t measuring r.0) (λ j h. elim (le_cases s.at j) [
            | inl late ↦ let e : j ≡ s.at = omega arith in ap (λ i. is_done (w.phase i)) e ∙ on
            | inr early ↦ before j early
          ]),
        )

    at_end :
        (s : Connector F S)
        → is_done (w.phase s.at) ≡ true
        → Connecting s
        → CountsAll factory (s.metrics, s.first_hs_ns, s.second_hs_ns)
    unfolding Connecting Counting handshakes IsFirstDone
    at_end s over (hs, c, split, before) =
        let e : s.at + 0 ≡ s.at = omega arith in
        let all : hs ≡ handshakes ops w s.at factory 0 =
          sym (append-nil hs) ∙ sym (split 0) ∙ ap (λ n. handshakes ops w n factory 0) e in
        (
          s.at,
          (over, before),
          subst (λ l. Counted fl l (s.metrics, s.first_hs_ns, s.second_hs_ns)) all c.0,
        )

    connect_round-Keeps :
        (s : Connector F S)
        → Connecting s
        → Keeps
            (λ t. Connecting t × (limit - t.at < limit - s.at))
            (CountsAll factory)
            (connect_round fl ops w s)
    unfolding connect_round Keeps
    connect_round-Keeps s h = elim (Bool-cases (is_done (w.phase s.at))) [
      | inl over ↦ rw over (at_end s over (unfold Connecting in h))
      | inr on ↦
          let o = ops.connect_once s.factory in
          let t : Connector F S = record s { factory = o.1; at = s.at + 1 } in
          let early = before_end w limit s.at ends on in
          rw on (
            after_attempt s on h,
            (let e = connected-at t (is_measuring (w.phase s.at)) o.0 in omega (arith, e, early)),
          )
    ]

    -- Whatever handshakes succeed or fail: where the phase flag reads done from some reading on,
    -- the connector returns, with more rounds of fuel than readings before it, and does not panic.
    -- It has attempted one handshake for each reading before the first that is done. Its account
    -- has exactly those that succeeded while the flag read measure, in order, numbered from 0,
    -- wrapping, with the microseconds of each, no bytes and no failure; the first and the second
    -- of them are what is handed back apart, none where there is none.
    pub connrate_client_loop-CountsAll :
        (fuel : ℕ)
        → limit < fuel
        → Returns (CountsAll factory) (connrate_client_loop fl ops w fuel factory)
    unfolding connrate_client_loop Connecting Counting Flow.new numbers
    connrate_client_loop-CountsAll fuel enough =
        loop_returns (connect_round fl ops w) Connecting (CountsAll factory) (λ t. limit - t.at)
          connect_round-Keeps fuel _
          (
            [],
            (
              record {
                numbered = refl;
                timed = refl;
                first = refl;
                second = refl;
                sound = refl;
                bounded = refl;
                no_bytes = refl;
              },
              omega arith,
            ),
            λ k. let e : 0 + k ≡ k = omega arith in ap (λ n. handshakes ops w n factory 0) e,
            λ j h. absurd (omega arith),
          )
          (omega arith)
