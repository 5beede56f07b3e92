-- ===== src/Config/Rules/Names.antt =====
-- `validate` (src/config/mod.rs) accepts a whole configuration: the suite, its names and its scenarios.
use scg_seshat.Prelude.{
  ℕ, ◌<◌, ◌≡◌, ◌≢◌, ◌↔◌, refl, Bool, true, false, ◌&&◌, List, [], ◌∷◌, ◌++◌, map, ◌==◌, All, arith,
}
use scg_seshat.Prelude.Text.{is_empty}
use scg_seshat.Prelude.Float.{FloatOps}
use Prim.Native.String.{String}
use text.Mathlib.Text.{◌==◌ as str_eq}
use text.Mathlib.TextEquality.{eq_iff}
use scg_seshat.Config.Schema.{Scenario, Config}
use scg_seshat.Config.Report.{SuiteError, scenario_ok, all_ok, ok}
use scg_seshat.Config.Address.{is_blank}
use scg_seshat.Config.Validate.{contains}
use scg_seshat.Config.Suite.{
  suite_error_if, duplicate_names, validate_scenario, bad_confidence, validate,
}
use scg_seshat.Config.Checks.{or_false_iff}
use scg_seshat.Config.Rules.{IsHostPort, ScenarioIsValid}
use scg_seshat.Config.Rules.Whole.{validate_scenario-ok_iff}

-- No two scenarios have one name.
abbrev pub AreDistinct : {F : Type 0} → List (Scenario F) → Type 0
AreDistinct [] = Unit
AreDistinct (s ∷ ss) = All (λ t. s.name ≢ t.name) ss × AreDistinct ss

append-nonempty : (es : List SuiteError) (e : SuiteError) → is_empty (es ++ e ∷ []) ≡ false
append-nonempty [] e = refl
append-nonempty (x ∷ es) e = refl

suite_error_if-ok_iff :
    (b : Bool) (e : SuiteError) (es : List SuiteError)
    → (is_empty (suite_error_if b e es) ≡ true) ↔ ((is_empty es ≡ true) × (b ≡ false))
suite_error_if-ok_iff true e es = (λ h. absurd cc (h, append-nonempty es e), λ (h, h'). absurd cc)
suite_error_if-ok_iff false e es = (λ h. (h, refl), λ (h, h'). h)

not_true : (b : Bool) → b ≢ true → b ≡ false
not_true true h = absurd (h refl)
not_true false h = refl

-- The names not seen before, when one more is seen.
unseen_iff :
    {F : Type 0} (name : String) (seen : List String) (ss : List (Scenario F))
    → All (λ t. contains (name ∷ seen) t.name ≡ false) ss
      ↔ (All (λ t. name ≢ t.name) ss × All (λ t. contains seen t.name ≡ false) ss)
unseen_iff name seen [] = (λ h. (tt, tt), λ h. tt)
unseen_iff name seen (t ∷ ts) =
    let (to, from) = unseen_iff name seen ts in
    let (o_to, o_from) = or_false_iff (str_eq name t.name) (contains seen t.name) in
    let (e_to, e_from) = eq_iff name t.name in
    (
      λ (h, hs).
          let (h1, h2) = o_to h in
          let (hs1, hs2) = to hs in ((λ e. absurd cc (h1, e_from e), hs1), (h2, hs2)),
      λ ((h1, hs1), (h2, hs2)).
          (o_from (not_true (str_eq name t.name) (λ e. h1 (e_to e)), h2), from (hs1, hs2)),
    )

duplicate_names-ok_iff :
    {F : Type 0} (seen : List String) (ss : List (Scenario F)) (es : List SuiteError)
    → (is_empty (duplicate_names seen ss es) ≡ true)
      ↔ ((is_empty es ≡ true) × All (λ t. contains seen t.name ≡ false) ss × AreDistinct ss)
unfolding duplicate_names
duplicate_names-ok_iff seen [] es = (λ h. (h, tt, tt), λ (h, h', h''). h)
duplicate_names-ok_iff seen (s ∷ ss) es =
    let es' = suite_error_if (contains seen s.name) (SuiteError.duplicate_name s.name) es in
    let (to, from) = duplicate_names-ok_iff (s.name ∷ seen) ss es' in
    let (s_to, s_from) =
      suite_error_if-ok_iff (contains seen s.name) (SuiteError.duplicate_name s.name) es in
    let (u_to, u_from) = unseen_iff s.name seen ss in
    (
      λ h.
          let (h1, h2, h3) = to h in
          let (h4, h5) = s_to h1 in let (h6, h7) = u_to h2 in (h4, (h5, h7), (h6, h3)),
      λ (h4, (h5, h7), (h6, h3)). from (s_from (h4, h5), u_from (h6, h7), h3),
    )

unseen-nil : {F : Type 0} (ss : List (Scenario F)) → All (λ t. contains [] t.name ≡ false) ss
unseen-nil [] = tt
unseen-nil (s ∷ ss) = (refl, unseen-nil ss)

and_iff : (a b : Bool) → (a && b ≡ true) ↔ ((a ≡ true) × (b ≡ true))
and_iff true b = (λ h. (refl, h), λ (h, h'). h')
and_iff false b = (λ h. absurd cc, λ (h, h'). absurd cc)

positive_iff : (n : ℕ) → (n == 0 ≡ false) ↔ (0 < n)
positive_iff n = ground arith

-- What a valid configuration is.
abbrev pub ConfigIsValid : {F : Type 0} → FloatOps F → Config F → Type 0
ConfigIsValid fl c =
    (is_blank c.suite.name ≡ false)
    × (is_blank c.suite.version ≡ false)
    × (0 < c.defaults.runs)
    × (bad_confidence fl c.defaults.confidence_level ≡ false)
    × (0 < c.defaults.metrics_sample_rate_hz)
    × AreDistinct c.scenarios
    × All (λ s. (is_blank s.name ≡ false) × (s.enabled ≡ true → ScenarioIsValid fl s)) c.scenarios

module _ {F : Type 0} (fl : FloatOps F) (parses : String → Bool)
    (parses_lem : (addr : String) → parses addr ≡ true → IsHostPort addr) where
  all_ok_iff :
      (ss : List (Scenario F))
      → (all_ok (map (validate_scenario fl parses) ss) ≡ true)
        ↔ All (λ s. (is_blank s.name ≡ false) × (s.enabled ≡ true → ScenarioIsValid fl s)) ss
  unfolding all_ok
  all_ok_iff [] = (λ h. tt, λ h. refl)
  all_ok_iff (s ∷ ss) =
      let (to, from) = all_ok_iff ss in
      let (s_to, s_from) = validate_scenario-ok_iff fl parses parses_lem s in
      let (a_to, a_from) =
        and_iff (scenario_ok (validate_scenario fl parses s))
          (all_ok (map (validate_scenario fl parses) ss)) in
      (λ h. let (h1, h2) = a_to h in (s_to h1, to h2), λ (h1, h2). a_from (s_from h1, from h2))

  -- Validation accepts a configuration exactly if the suite has a name and a version, the defaults
  -- ask for at least one run, a confidence level that is not refused as outside the open interval
  -- from 0 to 1 and a sample rate, no two scenarios have one name, every name is not blank, and
  -- each enabled scenario keeps the rules. The hypothesis is that the standard library parses as a
  -- socket address only what is a host, a colon and a port.
  pub validate-ok_iff : (c : Config F) → (ok (validate fl parses c) ≡ true) ↔ ConfigIsValid fl c
  unfolding ok validate
  validate-ok_iff c =
      let b1 = is_blank c.suite.name in
      let b2 = is_blank c.suite.version in
      let b3 = c.defaults.runs == 0 in
      let b4 = bad_confidence fl c.defaults.confidence_level in
      let b5 = c.defaults.metrics_sample_rate_hz == 0 in
      let e1 = suite_error_if b1 SuiteError.name_empty [] in
      let e2 = suite_error_if b2 SuiteError.version_empty e1 in
      let e3 = suite_error_if b3 SuiteError.runs_zero e2 in
      let e4 = suite_error_if b4 SuiteError.confidence_level e3 in
      let e5 = suite_error_if b5 SuiteError.sample_rate_zero e4 in
      let (t1, f1) = suite_error_if-ok_iff b1 SuiteError.name_empty [] in
      let (t2, f2) = suite_error_if-ok_iff b2 SuiteError.version_empty e1 in
      let (t3, f3) = suite_error_if-ok_iff b3 SuiteError.runs_zero e2 in
      let (t4, f4) = suite_error_if-ok_iff b4 SuiteError.confidence_level e3 in
      let (t5, f5) = suite_error_if-ok_iff b5 SuiteError.sample_rate_zero e4 in
      let (td, fd) = duplicate_names-ok_iff [] c.scenarios e5 in
      let (ta, fa) = all_ok_iff c.scenarios in
      let (pr_to, pr_from) = positive_iff c.defaults.runs in
      let (ps_to, ps_from) = positive_iff c.defaults.metrics_sample_rate_hz in
      let (a_to, a_from) =
        and_iff (is_empty (duplicate_names [] c.scenarios e5))
          (all_ok (map (validate_scenario fl parses) c.scenarios)) in
      (
        λ h.
            let (h1, h2) = a_to h in
            let (g5, u, d) = td h1 in
            let (g4, r5) = t5 g5 in
            let (g3, r4) = t4 g4 in
            let (g2, r3) = t3 g3 in
            let (g1, r2) = t2 g2 in
            let (g0, r1) = t1 g1 in (r1, r2, pr_to r3, r4, ps_to r5, d, ta h2),
        λ (r1, r2, r3, r4, r5, d, a). a_from (
          fd (
            f5 (f4 (f3 (f2 (f1 (refl, r1), r2), pr_from r3), r4), ps_from r5),
            unseen-nil c.scenarios,
            d,
          ),
          fa a,
        ),
      )
