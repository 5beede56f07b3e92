-- ===== src/Config/Rules/Whole.antt =====
-- `validate_scenario` and `validate` (src/config/mod.rs) accept what keeps the rules, and nothing else.
use scg_seshat.Prelude.{
  ◌≡◌, ◌≢◌, ◌↔◌, ◌⊎◌, inl, inr, refl, Bool, true, false, ◌&&◌, Option, none, some, List, [], ◌∷◌,
  if◌then◌else◌,
}
use scg_seshat.Prelude.Text.{is_none, is_empty}
use scg_seshat.Prelude.Float.{FloatOps}
use Prim.Native.String.{String}
use scg_seshat.Config.Schema.{Stream, Scenario}
use scg_seshat.Config.Report.{Problem, scenario_ok, error_if, add_note, Note}
use scg_seshat.Config.Address.{is_blank}
use scg_seshat.Config.Validate.{validate_latency, validate_topology}
use scg_seshat.Config.Suite.{new_report, validate_enabled, validate_scenario}
use scg_seshat.Config.Checks.{
  Checks, OptAll, error_if-Checks, warn_if-Checks, ◌then◌, iff-Checks, option-Checks, either-Checks,
  add_note-Checks,
}
use scg_seshat.Config.Rules.{IsSome, IsHostPort, RatesAreValid, ScenarioIsValid}
use scg_seshat.Config.Rules.Transport.{validate_sender-Checks}
use scg_seshat.Config.Rules.Accepts.{
  validate_saturation-Checks, validate_streams-Checks, validate_kind-Checks,
}
use scg_seshat.Config.Rules.Flags.{
  validate_flags-Checks, validate_multi_stream-Checks, validate_certificates-Checks,
  validate_reload-Checks,
}

traffic_iff :
    {A : Type 0} (o : Option A) (streams : List Stream)
    → (is_none o && is_empty streams ≡ false) ↔ (IsSome o ⊎ (streams ≢ []))
traffic_iff none [] =
    (λ h. absurd cc, λ h. elim h [ inl (a, e) ↦ absurd cc | inr h ↦ absurd (h refl) ])
traffic_iff none (x ∷ xs) = (λ h. inr (λ e. absurd cc), λ h. refl)
traffic_iff (some a) streams = (λ h. inl (a, refl), λ h. refl)

latency_step :
    {F : Type 0} (s : Scenario F)
    → Checks (validate_latency s) (OptAll (λ sender. Unit {0}) s.sender)
unfolding validate_latency
latency_step s = option-Checks {P = λ sender. Unit {0}} s.sender (λ sender. warn_if-Checks _ _)

any_option {ℓ} : {A : Type ℓ} (o : Option A) → OptAll (λ a. Unit {0}) o
any_option none = tt
any_option (some a) = tt

module _ {F : Type 0} (fl : FloatOps F) (parses : String → Bool)
    (parses_lem : (addr : String) → parses addr ≡ true → IsHostPort addr) where
  pub validate_enabled-Checks :
      (s : Scenario F) → Checks (validate_enabled fl parses s) (ScenarioIsValid fl s)
  unfolding validate_enabled validate_topology
  validate_enabled-Checks s =
      iff-Checks
        (
          λ ((((((((((t, k), snd), l), sat), ss), m), f), c), r), u).
              (t, k, snd, sat, ss, m, f, c, r),
          λ (t, k, snd, sat, ss, m, f, c, r).
              ((((((((((t, k), snd), any_option s.sender), sat), ss), m), f), c), r), tt),
        )
        (error_if-Checks _ _ (traffic_iff s.sender s.streams)
          then validate_kind-Checks s
          then validate_sender-Checks parses parses_lem s
          then latency_step s
          then option-Checks {P = RatesAreValid fl} s.saturation (validate_saturation-Checks fl)
          then validate_streams-Checks parses parses_lem s 0 s.streams
          then validate_multi_stream-Checks s
          then validate_flags-Checks s
          then validate_certificates-Checks s
          then validate_reload-Checks s
          then warn_if-Checks _ _)

  name_then_rules :
      (s : Scenario F)
      → Checks
          (λ r.
            let r' = error_if (is_blank s.name) Problem.name_empty r in
            if s.enabled
            then validate_enabled fl parses s r'
            else add_note (Note.skip s.disabled_reason) r')
          ((is_blank s.name ≡ false) × (s.enabled ≡ true → ScenarioIsValid fl s))
  name_then_rules s =
      iff-Checks (λ (h, (h', u)). (h, h'), λ (h, h'). (h, (h', λ e. tt)))
        (error_if-Checks (is_blank s.name) Problem.name_empty (λ h. h, λ h. h)
          then either-Checks s.enabled (validate_enabled-Checks s) (add_note-Checks _))

  -- A scenario passes validation exactly if its name is not blank and, where it is enabled, it
  -- keeps all the rules. The hypothesis is that the standard library parses as a socket address
  -- only what is a host, a colon and a port.
  pub validate_scenario-ok_iff :
      (s : Scenario F)
      → (scenario_ok (validate_scenario fl parses s) ≡ true)
        ↔ ((is_blank s.name ≡ false) × (s.enabled ≡ true → ScenarioIsValid fl s))
  unfolding validate_scenario
  validate_scenario-ok_iff s =
      let (to, from) = (name_then_rules s).accepts (new_report s) in
      (λ h. let (h1, h2) = to h in h2, λ h. from (refl, h))
