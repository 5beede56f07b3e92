-- ===== src/Config/Suite.antt =====
-- `validate_scenario` and `validate` (src/config/mod.rs), of the checks in Address and Validate.
use scg_seshat.Prelude.{
  Bool, not, ◌&&◌, ◌||◌, none, some, List, [], ◌∷◌, ◌++◌, map, ◌==◌, if◌then◌else◌,
}
use scg_seshat.Prelude.Text.{is_none, is_empty}
use scg_seshat.Prelude.Float.{FloatOps}
use Prim.Native.String.{String}
use scg_seshat.Config.Schema.{Scenario, Config}
use scg_seshat.Config.Report.{
  SuiteError, Problem, Note, ScenarioReport, ValidationReport, error_if, add_note,
}
use scg_seshat.Config.Address.{is_blank}
use scg_seshat.Config.Validate.{
  contains, validate_kind, validate_sender, validate_latency, validate_saturation, validate_streams,
  validate_multi_stream, validate_flags, validate_certificate_selection, validate_reload,
  validate_topology,
}

abbrev pub new_report : {F : Type 0} → Scenario F → ScenarioReport
new_report s = record { name = s.name; enabled = s.enabled; errors = []; warnings = []; notes = [] }

abbrev pub suite_error_if : Bool → SuiteError → List SuiteError → List SuiteError
suite_error_if b e es = if b then es ++ e ∷ [] else es

-- The loop that reports each name seen before.
unfoldable pub duplicate_names :
    {F : Type 0} → List String → List (Scenario F) → List SuiteError → List SuiteError
duplicate_names seen [] errors = errors
duplicate_names seen (s ∷ ss) errors =
    duplicate_names (s.name ∷ seen) ss
      (suite_error_if (contains seen s.name) (SuiteError.duplicate_name s.name) errors)

module _ {F : Type 0} (fl : FloatOps F) where
  -- `!(0.0..1.0).contains(&level) || level <= 0.0`
  abbrev pub bad_confidence : F → Bool
  bad_confidence level =
      not (fl.le (fl.of_nat 0) level && fl.lt level (fl.of_nat 1)) || fl.le level (fl.of_nat 0)

module _ {F : Type 0} (fl : FloatOps F) (parses : String → Bool) where
  -- The checks of an enabled scenario, in the order of the code.
  unfoldable pub validate_enabled : Scenario F → ScenarioReport → ScenarioReport
  validate_enabled s r =
      let r1 = error_if (is_none s.sender && is_empty s.streams) Problem.no_traffic r in
      let r2 = validate_latency s (validate_sender parses s (validate_kind s r1)) in
      let r3 : ScenarioReport = elim s.saturation [
        | none ↦ r2
        | some sat ↦ validate_saturation fl sat r2
      ] in
      let r4 = validate_multi_stream s (validate_streams parses s 0 s.streams r3) in
      validate_topology s
        (validate_reload s (validate_certificate_selection s (validate_flags s r4)))

  unfoldable pub validate_scenario : Scenario F → ScenarioReport
  validate_scenario s =
      let r = error_if (is_blank s.name) Problem.name_empty (new_report s) in
      if s.enabled then validate_enabled s r else add_note (Note.skip s.disabled_reason) r

  unfoldable pub validate : Config F → ValidationReport
  validate config =
      let e1 = suite_error_if (is_blank config.suite.name) SuiteError.name_empty [] in
      let e2 = suite_error_if (is_blank config.suite.version) SuiteError.version_empty e1 in
      let e3 = suite_error_if (config.defaults.runs == 0) SuiteError.runs_zero e2 in
      let e4 =
        suite_error_if (bad_confidence fl config.defaults.confidence_level)
          SuiteError.confidence_level e3 in
      let e5 =
        suite_error_if (config.defaults.metrics_sample_rate_hz == 0) SuiteError.sample_rate_zero
          e4 in
      record {
        suite_errors = duplicate_names [] config.scenarios e5;
        scenarios = map validate_scenario config.scenarios;
      }
