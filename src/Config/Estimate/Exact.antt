-- ===== src/Config/Estimate/Exact.antt =====
-- The estimate of the run time (src/config/mod.rs) against the sum without wrap-around.
use scg_seshat.Prelude.{
  ℕ, zero, suc, ◌+◌, ◌*◌, ◌%◌, ◌^◌, ◌≤◌, ◌<◌, ◌≡◌, refl, sym, ap, ap₂, ◌∙◌, Bool, true, false, List,
  [], ◌∷◌, if◌then◌else◌, arith,
}
use native.Mathlib.Nat.{mod-eq_of_lt, mul-suc, mul-zero, zero-mod}
use scg_seshat.Config.Schema.{Scenario, Defaults, Config}
use scg_seshat.Config.Estimate.{
  unwrap_or, scenario_run_secs, scenario_runs, sum_secs, estimate_total_secs,
}

-- The seconds of all runs of a scenario: warm-up, measurement and cool-down, each the scenario's own
-- or else the default, times the number of runs.
abbrev pub run_secs : {F : Type 0} → Defaults F → Scenario F → ℕ
run_secs d s =
    (unwrap_or s.warmup_secs d.warmup_secs
      + unwrap_or s.duration_secs d.duration_secs
      + unwrap_or s.cooldown_secs d.cooldown_secs)
    * unwrap_or s.runs d.runs

abbrev pub total_secs : {F : Type 0} → Defaults F → List (Scenario F) → ℕ
total_secs d [] = 0
total_secs d (s ∷ ss) = (if s.enabled then run_secs d s else 0) + total_secs d ss

le-mul : (a r : ℕ) → a ≤ a * suc r
le-mul a r = omega (arith, mul-suc a r)

wrapped_mul : (a r m : ℕ) → a * r < m → a % m * r % m ≡ a * r
wrapped_mul a zero m h = ap (λ k. k % m) (mul-zero (a % m)) ∙ zero-mod m ∙ sym (mul-zero a)
wrapped_mul a (suc r) m h =
    ap (λ k. k * suc r % m) (mod-eq_of_lt (omega (arith, le-mul a r))) ∙ mod-eq_of_lt h

-- One scenario more, enabled or not.
sum_step :
    (b : Bool) (a r x y : ℕ)
    → (y < 2 ^ 64 → x ≡ y)
    → (if b then a * r else 0) + y < 2 ^ 64
    → (if b then (a % 2 ^ 64 * r % 2 ^ 64 + x) % 2 ^ 64 else x) ≡ (if b then a * r else 0) + y
sum_step true a r x y hx h =
    ap₂ (λ k l. (k + l) % 2 ^ 64) (wrapped_mul a r (2 ^ 64) (omega arith)) (hx (omega arith))
    ∙ mod-eq_of_lt h
sum_step false a r x y hx h = hx (omega arith) ∙ (let e : y ≡ 0 + y = omega arith in e)

sum_secs-exact :
    {F : Type 0} (d : Defaults F) (ss : List (Scenario F))
    → total_secs d ss < 2 ^ 64
    → sum_secs d ss ≡ total_secs d ss
unfolding sum_secs scenario_run_secs scenario_runs
sum_secs-exact d [] h = refl
sum_secs-exact d (s ∷ ss) h =
    sum_step s.enabled
      (unwrap_or s.warmup_secs d.warmup_secs
        + unwrap_or s.duration_secs d.duration_secs
        + unwrap_or s.cooldown_secs d.cooldown_secs)
      (unwrap_or s.runs d.runs) (sum_secs d ss) (total_secs d ss) (sum_secs-exact d ss) h

-- Where the exact sum fits in 64 bits, the estimate is the sum over the enabled scenarios of their
-- runs times warm-up, measurement and cool-down, each the scenario's own or else the default.
pub estimate_total_secs-exact :
    {F : Type 0} (c : Config F)
    → total_secs c.defaults c.scenarios < 2 ^ 64
    → estimate_total_secs c ≡ total_secs c.defaults c.scenarios
unfolding estimate_total_secs
estimate_total_secs-exact c h = sum_secs-exact c.defaults c.scenarios h
