-- ===== src/Run/Echo/Tests.antt =====
-- The theorem on the echo server of src/run/engine.rs at an end that has whole messages to deliver.
use scg_seshat.Prelude.{
  ℕ, ◌-◌, ◌≡◌, refl, sym, ap, ◌∙◌, some, List, [], ◌∷◌, ◌++◌, append-nil, length, take,
  take-append_length, get_range, get_range_lem, ltb, le→ltb-false, ◌==◌, ==_iff, inl, inr,
  Bool-cases, if◌then◌else◌, arith,
}
use scg_seshat.Prelude.Loop.{Returns}
use scg_seshat.Transport.{sent, Received, message, nothing, lost, DuplexEnd}
use scg_seshat.Run.{Phase, World, EndsBy}
use scg_seshat.Run.Echo.{echo_loop}
use scg_seshat.Run.Echo.Replies.{Hears, Says, EchoContract, Echoed, echo_loop-Echoed}

-- The messages to come, and those sent.
abbrev Line : Type 0
Line = List (List ℕ) × List (List ℕ)

-- A message that does not have the size of the buffer breaks the connection.
unfoldable hear : List (List ℕ) → List (List ℕ) → List ℕ → Received × List ℕ × Line
hear [] out buf = (nothing, buf, ([], out))
hear (m ∷ ms) out buf =
    if length m == length buf
    then (message (length m), m, (ms, out))
    else (lost, buf, (m ∷ ms, out))

abbrev line : DuplexEnd Line
line = record {
  send_msg = λ s m. (sent, (s.0, s.1 ++ m ∷ []));
  recv_msg = λ s buf. hear s.0 s.1 buf;
  close = λ s. s;
}

whole_range : (m : List ℕ) → get_range 0 (length m) m ≡ some m
whole_range m =
    let no_less : length m - 0 ≡ length m = omega arith in
    get_range_lem 0 (length m) m (omega arith) (omega arith)
    ∙ ap some (
        ap (λ n. take n m) no_less
        ∙ ap (take (length m)) (sym (append-nil m))
        ∙ take-append_length m [])

heard_lem :
    (ms out : List (List ℕ)) (buf : List ℕ)
    → let r = hear ms out buf in Hears ms r.2.0 r.1 r.0 × (length r.1 ≡ length buf) × (r.2.1 ≡ out)
unfolding hear Hears
heard_lem [] out buf = (refl, refl, refl)
heard_lem (m ∷ ms) out buf = elim (Bool-cases (length m == length buf)) [
  | inl same ↦ rw same ((m, refl, whole_range m), (==_iff (length m) (length buf)).0 same, refl)
  | inr other ↦ rw other (refl, refl, refl)
]

line-EchoContract : EchoContract line 2 (λ s. s.0) (λ s. s.1)
unfolding Says
line-EchoContract = record {
  hears = λ s buf h. (heard_lem s.0 s.1 buf).0;
  keeps_size = λ s buf. (heard_lem s.0 s.1 buf).1;
  quiet = λ s buf. (heard_lem s.0 s.1 buf).2;
  says = λ s m. refl;
  deaf = λ s m. refl;
  closes = λ s. (refl, refl);
}

-- The run is over at reading 3.
abbrev world : World
world = record { phase = λ t. if ltb t 3 then Phase.measure else Phase.done; clock = λ t. 1000 }

world-EndsBy : EndsBy world 3
world-EndsBy t h = rw (le→ltb-false t 3 h) refl

abbrev start : Line
start = ((1 ∷ 2 ∷ []) ∷ (3 ∷ 4 ∷ []) ∷ [], [])

echo_loop-Echoed_example :
    Returns
      (Echoed line world 2 (λ s. s.0) (λ s. s.1) line-EchoContract start)
      (echo_loop line world 6 2 start)
echo_loop-Echoed_example =
    echo_loop-Echoed line world 2 (λ s. s.0) (λ s. s.1) line-EchoContract start 3 world-EndsBy 6
      (omega arith)
