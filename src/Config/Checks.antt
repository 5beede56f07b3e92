-- ===== src/Config/Checks.antt =====
-- A check that only adds errors, and the condition under which it adds none (src/config/mod.rs).
use scg_seshat.Prelude.{
  ◌≡◌, refl, ◌↔◌, Bool, true, false, not, ◌&&◌, ◌||◌, Option, none, some, List, [], ◌∷◌, ◌++◌,
  if◌then◌else◌,
}
use scg_seshat.Prelude.Text.{is_none, is_empty}
use scg_seshat.Config.Report.{
  Problem, Warning, Note, ScenarioReport, scenario_ok, error_if, warn_if, add_note,
}

-- The report after the check is free of errors exactly if the one before was and the condition holds.
pub record Checks (f : ScenarioReport → ScenarioReport) (P : Type 0) : Type 0 where
  pub accepts : (r : ScenarioReport) → (scenario_ok (f r) ≡ true) ↔ ((scenario_ok r ≡ true) × P)

abbrev pub OptAll {ℓ} : {A : Type ℓ} → (A → Type 0) → Option A → Type 0
OptAll P none = Unit
OptAll P (some a) = P a

append-nonempty : (es : List Problem) (e : Problem) → is_empty (es ++ e ∷ []) ≡ false
append-nonempty [] e = refl
append-nonempty (x ∷ es) e = refl

pub error_if-Checks :
    {P : Type 0} (b : Bool) (e : Problem) → (b ≡ false) ↔ P → Checks (error_if b e) P
error_if-Checks true e (to, from) = record {
  accepts = λ r. (λ h. absurd cc (h, append-nonempty r.errors e), λ (h, p). absurd cc (from p));
}
error_if-Checks false e (to, from) = record { accepts = λ r. (λ h. (h, to refl), λ (h, p). h) }

pub warn_if-Checks : (b : Bool) (w : Warning) → Checks (warn_if b w) Unit
warn_if-Checks true w = record { accepts = λ r. (λ h. (h, tt), λ (h, p). h) }
warn_if-Checks false w = record { accepts = λ r. (λ h. (h, tt), λ (h, p). h) }

pub add_note-Checks : (n : Note) → Checks (add_note n) Unit
add_note-Checks n = record { accepts = λ r. (λ h. (h, tt), λ (h, p). h) }

pub skip-Checks : Checks (λ r. r) Unit
skip-Checks = record { accepts = λ r. (λ h. (h, tt), λ (h, p). h) }

infixl 6 ◌then◌
pub ◌then◌ :
    {P Q : Type 0} {f g : ScenarioReport → ScenarioReport}
    → Checks f P
    → Checks g Q
    → Checks (λ r. g (f r)) (P × Q)
◌then◌ {f = f} {g = g} hf hg = record {
  accepts = λ r. (
    λ h. let (h1, q) = (hg.accepts (f r)).0 h in let (h2, p) = (hf.accepts r).0 h1 in (h2, (p, q)),
    λ (h, (p, q)). (hg.accepts (f r)).1 ((hf.accepts r).1 (h, p), q),
  );
}

pub iff-Checks :
    {P Q : Type 0} {f : ScenarioReport → ScenarioReport} → P ↔ Q → Checks f P → Checks f Q
iff-Checks (to, from) hf = record {
  accepts = λ r.
      (λ h. let (h1, p) = (hf.accepts r).0 h in (h1, to p), λ (h, q). (hf.accepts r).1 (h, from q));
}

pub option-Checks {ℓ} :
    {A : Type ℓ} {P : A → Type 0} {f : A → ScenarioReport → ScenarioReport} (o : Option A)
    → ((a : A) → Checks (f a) (P a))
    → Checks (λ r. elim o [ none ↦ r | some a ↦ f a r ]) (OptAll P o)
option-Checks none hf = skip-Checks
option-Checks (some a) hf = hf a

-- An early error, or the checks that follow.
pub error_or-Checks :
    {Q : Type 0} {g : ScenarioReport → ScenarioReport} (b : Bool) (e : Problem)
    → Checks g Q
    → Checks (λ r. if b then error_if true e r else g r) ((b ≡ false) × Q)
error_or-Checks true e hg = error_if-Checks true e (λ h. absurd cc, λ (h, q). h)
error_or-Checks false e hg = iff-Checks (λ q. (refl, q), λ (h, q). q) hg

-- Checks that are skipped.
pub unless-Checks :
    {Q : Type 0} {g : ScenarioReport → ScenarioReport} (b : Bool)
    → Checks g Q
    → Checks (λ r. if b then r else g r) (b ≡ false → Q)
unless-Checks true hg = iff-Checks (λ u h. absurd cc, λ h. tt) skip-Checks
unless-Checks false hg = iff-Checks (λ q h. q, λ h. h refl) hg

-- One of two checks.
pub either-Checks :
    {P Q : Type 0} {f g : ScenarioReport → ScenarioReport} (b : Bool)
    → Checks f P
    → Checks g Q
    → Checks (λ r. if b then f r else g r) ((b ≡ true → P) × (b ≡ false → Q))
either-Checks true hf hg = iff-Checks (λ p. (λ h. p, λ h. absurd cc), λ (h, h'). h refl) hf
either-Checks false hf hg = iff-Checks (λ q. (λ h. absurd cc, λ h. q), λ (h, h'). h' refl) hg

-- Tests and what they decide.
pub not-false : (b : Bool) → (not b ≡ false) ↔ (b ≡ true)
not-false true = (λ h. refl, λ h. refl)
not-false false = (λ h. absurd cc, λ h. absurd cc)

pub and_not_iff : {P : Type 0} (a b : Bool) → (b ≡ true) ↔ P → (a && not b ≡ false) ↔ (a ≡ true → P)
and_not_iff true true (to, from) = (λ h t. to refl, λ h. refl)
and_not_iff true false (to, from) = (λ h t. absurd cc, λ h. absurd cc (from (h refl)))
and_not_iff false b (to, from) = (λ h t. absurd cc, λ h. refl)

pub not_iff : {P : Type 0} (b : Bool) → (b ≡ true) ↔ P → (not b ≡ false) ↔ P
not_iff true (to, from) = (λ h. to refl, λ p. refl)
not_iff false (to, from) = (λ h. absurd cc, λ p. absurd cc (from p))

pub is_some_iff {ℓ} : {A : Type ℓ} (o : Option A) → (is_none o ≡ false) ↔ ((a : A) × (o ≡ some a))
is_some_iff none = (λ h. absurd cc, λ (a, h). absurd cc)
is_some_iff (some a) = (λ h. (a, refl), λ h. refl)

pub or_false_iff : (a b : Bool) → (a || b ≡ false) ↔ ((a ≡ false) × (b ≡ false))
or_false_iff true b = (λ h. absurd cc, λ (h, h'). absurd cc)
or_false_iff false b = (λ h. (refl, h), λ (h, h'). h')
