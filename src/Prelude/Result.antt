-- ===== src/Prelude/Result.antt =====
-- Rust's `Result`, and the `?` operator as the bind of a `do` block.
use mathlib.Core.Path.{◌≡◌, refl}
use mathlib.Core.Logic.{◌⊎◌, inl, inr}

pub data Result {ℓ} (E A : Type ℓ) : Type ℓ where
  ok : A → Result E A
  err : E → Result E A

infixl 5 ◌>>=◌ ◌>>◌
abbrev pub ◌>>=◌ {ℓ} : {E A B : Type ℓ} → Result E A → (A → Result E B) → Result E B
ok a >>= f = f a
err e >>= f = err e

abbrev pub ◌>>◌ {ℓ} : {E A B : Type ℓ} → Result E A → Result E B → Result E B
m >> k = m >>= λ _. k

pub Result-cases {ℓ} :
    {E A : Type ℓ} (r : Result E A) → ((a : A) × (r ≡ ok a)) ⊎ ((e : E) × (r ≡ err e))
Result-cases (ok a) = inl (a, refl)
Result-cases (err e) = inr (e, refl)

-- What a result has if it is no error.
unfoldable pub WhenOk {ℓ} : {E A : Type ℓ} → (A → Type 0) → Result E A → Type 0
WhenOk P (ok a) = P a
WhenOk P (err e) = Unit

pub WhenOk-bind {ℓ} :
    {E A B : Type ℓ} (Q : A → Type 0) (P : B → Type 0) (m : Result E A) (f : A → Result E B)
    → WhenOk Q m
    → ((a : A) → Q a → WhenOk P (f a))
    → WhenOk P (m >>= f)
unfolding WhenOk
WhenOk-bind Q P (ok a) f h k = k a h
WhenOk-bind Q P (err e) f h k = tt
