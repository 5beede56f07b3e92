-- ===== src/Config/Estimate.antt =====
-- The run time estimated from a configuration, and its print (src/config/mod.rs).
pub mod Exact
use scg_seshat.Prelude.{
  ℕ, zero, suc, ◌+◌, ◌*◌, ◌/◌, ◌%◌, ◌^◌, ◌||◌, Option, none, some, List, [], ◌∷◌, ◌++◌, ltb,
  if◌then◌else◌,
}
use scg_seshat.Prelude.Text.{codes}
use scg_seshat.Config.Schema.{Scenario, Defaults, Config}

abbrev pub unwrap_or : Option ℕ → ℕ → ℕ
unwrap_or none d = d
unwrap_or (some n) d = n

unfoldable pub scenario_run_secs : {F : Type 0} → Scenario F → Defaults F → ℕ
scenario_run_secs s d =
    (unwrap_or s.warmup_secs d.warmup_secs
      + unwrap_or s.duration_secs d.duration_secs
      + unwrap_or s.cooldown_secs d.cooldown_secs)
    % 2 ^ 64

unfoldable pub scenario_runs : {F : Type 0} → Scenario F → Defaults F → ℕ
scenario_runs s d = unwrap_or s.runs d.runs

unfoldable pub sum_secs : {F : Type 0} → Defaults F → List (Scenario F) → ℕ
unfolding scenario_run_secs scenario_runs
sum_secs d [] = 0
sum_secs d (s ∷ ss) =
    let rest = sum_secs d ss in
    if s.enabled then (scenario_run_secs s d * scenario_runs s d % 2 ^ 64 + rest) % 2 ^ 64 else rest

unfoldable pub estimate_total_secs : {F : Type 0} → Config F → ℕ
estimate_total_secs config = sum_secs config.defaults config.scenarios

-- The decimal digits of a number below `10 ^ fuel`, from the left, before the text given.
unfoldable pub print_onto : ℕ → ℕ → List ℕ → List ℕ
print_onto zero n rest = rest
print_onto (suc fuel) n rest =
    let rest' = (48 + n % 10) ∷ rest in
    let more = print_onto fuel (n / 10) rest' in if ltb n 10 then rest' else more

-- `{n}` of a `u64`, which has at most 20 digits.
unfoldable pub print_nat : ℕ → List ℕ
unfolding print_onto
print_nat n = print_onto 20 n []

unfoldable pub human_secs : ℕ → List ℕ
unfolding print_nat
human_secs total =
    let h : ℕ = total / 3600 in
    let m : ℕ = total % 3600 / 60 in
    let s : ℕ = total % 60 in
    let hours = if ltb 0 h then print_nat h ++ codes "h " else [] in
    let minutes = if ltb 0 h || ltb 0 m then print_nat m ++ codes "m " else [] in
    hours ++ minutes ++ print_nat s ++ codes "s"
