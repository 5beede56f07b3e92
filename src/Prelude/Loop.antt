-- ===== src/Prelude/Loop.antt =====
-- Loops whose end depends on what they observe: one round as a function, run on fuel.
use Prim.Native.Nat.{ℕ, zero, suc, ◌<◌}
use mathlib.Core.Path.{◌≡◌, refl, ap}
use native.Mathlib.Omega.{arith}

-- What a round does: go on from a new state, leave the loop, or panic.
pub data Round {ℓ} (S A : Type ℓ) : Type ℓ where
  again : S → Round S A
  leave : A → Round S A
  panic : Round S A

pub data Exit {ℓ} (A : Type ℓ) : Type ℓ where
  returned : A → Exit A
  panicked : Exit A
  -- the fuel did not suffice
  unfinished : Exit A

abbrev pub Returns {ℓ} : {A : Type ℓ} → (A → Type 0) → Exit A → Type ℓ
Returns {A = A} P e = (a : A) × (e ≡ returned a) × P a

module _ {ℓ} {S A : Type ℓ} where
  unfoldable pub loop : (S → Round S A) → ℕ → S → Exit A
  loop round zero s = unfinished
  loop round (suc fuel) s = elim (round s) [
    | again s' ↦ loop round fuel s'
    | leave a ↦ returned a
    | panic ↦ panicked
  ]

  -- A round goes on in a state with `I`, or leaves with a result with `P`, and does not panic.
  unfoldable pub Keeps : (S → Type 0) → (A → Type 0) → Round S A → Type 0
  Keeps I P (again s) = I s
  Keeps I P (leave a) = P a
  Keeps I P panic = ⊥

  after_round :
      (f : S → Exit A) (J : S → Type 0) (P : A → Type 0) (r : Round S A)
      → ((s : S) → J s → Returns P (f s))
      → Keeps J P r
      → Returns P (elim r [ again s' ↦ f s' | leave a ↦ returned a | panic ↦ panicked ])
  unfolding Keeps
  after_round f J P (again s') ih k = ih s' k
  after_round f J P (leave a) ih k = (a, refl, k)
  after_round f J P panic ih k = elim k [ ]

  -- If every round keeps the invariant and counts a measure down, a fuel above the measure is
  -- enough for the loop to return.
  pub loop_returns :
      (round : S → Round S A) (I : S → Type 0) (P : A → Type 0) (measure : S → ℕ)
      → ((s : S) → I s → Keeps (λ s'. I s' × (measure s' < measure s)) P (round s))
      → (fuel : ℕ) (s : S) → I s
      → measure s < fuel
      → Returns P (loop round fuel s)
  unfolding loop
  loop_returns round I P measure keeps zero s i h = elim h [ ]
  loop_returns round I P measure keeps (suc fuel) s i h =
      after_round (loop round fuel) (λ s'. I s' × (measure s' < measure s)) P (round s)
        (λ s' k. loop_returns round I P measure keeps fuel s' k.0 (omega (arith, k.1))) (keeps s i)

result_or {ℓ} : {A : Type ℓ} → A → Exit A → A
result_or d (returned a) = a
result_or d _ = d

pub returned-injective {ℓ} : {A : Type ℓ} (a b : A) → returned a ≡ returned b → a ≡ b
unfolding result_or
returned-injective a b e = ap (result_or a) e
