-- ===== src/Metrics/Stats/Sorting.antt =====
-- Sorting by `f64::total_cmp`, for the statistics of src/metrics/stats.rs.
use mathlib.Core.Path.{subst}
use scg_seshat.Prelude.{
  suc, ◌≡◌, refl, ap, ◌∙◌, true, false, List, [], ◌∷◌, length, All, inl, inr, Bool-cases,
}
use scg_seshat.Prelude.Float.{FloatMath}
use scg_seshat.Metrics.Stats.{insert, sort}

-- What the language documents of `total_cmp`.
pub record TotalOrder {F : Type 0} (fm : FloatMath F) : Type 0 where
  pub total : (a b : F) → fm.total_le a b ≡ false → fm.total_le b a ≡ true
  pub transitive :
      (a b c : F) → fm.total_le a b ≡ true → fm.total_le b c ≡ true → fm.total_le a c ≡ true
  pub reflexive : (a : F) → fm.total_le a a ≡ true

All-map {ℓ} :
    {A : Type ℓ} (P Q : A → Type 0) (xs : List A) → ((a : A) → P a → Q a) → All P xs → All Q xs
All-map P Q [] f h = tt
All-map P Q (x ∷ xs) f h = (f x h.0, All-map P Q xs f h.1)

module _ {F : Type 0} (fm : FloatMath F) where
  open fm use {total_le}

  abbrev pub Below : F → F → Type 0
  Below a b = total_le a b ≡ true

  unfoldable pub IsSorted : List F → Type 0
  IsSorted [] = Unit
  IsSorted (x ∷ xs) = All (Below x) xs × IsSorted xs

  length-insert : (x : F) (xs : List F) → length (insert fm x xs) ≡ suc (length xs)
  unfolding insert
  length-insert x [] = refl
  length-insert x (y ∷ ys) = elim (Bool-cases (total_le x y)) [
    | inl le ↦ rw le refl
    | inr gt ↦ rw gt (ap suc (length-insert x ys))
  ]

  pub length-sort : (xs : List F) → length (sort fm xs) ≡ length xs
  unfolding sort
  length-sort [] = refl
  length-sort (x ∷ xs) = length-insert x (sort fm xs) ∙ ap suc (length-sort xs)

  All-insert : (P : F → Type 0) (x : F) (xs : List F) → P x → All P xs → All P (insert fm x xs)
  unfolding insert
  All-insert P x [] p h = (p, tt)
  All-insert P x (y ∷ ys) p h = elim (Bool-cases (total_le x y)) [
    | inl le ↦ rw le (p, h)
    | inr gt ↦ rw gt (h.0, All-insert P x ys p h.1)
  ]

  insert-All : (P : F → Type 0) (x : F) (xs : List F) → All P (insert fm x xs) → P x × All P xs
  unfolding insert
  insert-All P x [] h = h
  insert-All P x (y ∷ ys) h = elim (Bool-cases (total_le x y)) [
    | inl le ↦ let e : insert fm x (y ∷ ys) ≡ x ∷ y ∷ ys = rw le refl in subst (All P) e h
    | inr gt ↦
        let e : insert fm x (y ∷ ys) ≡ y ∷ insert fm x ys = rw gt refl in
        let h' = subst (All P) e h in let (p, rest) = insert-All P x ys h'.1 in (p, (h'.0, rest))
  ]

  pub sort-All : (P : F → Type 0) (xs : List F) → All P (sort fm xs) → All P xs
  unfolding sort
  sort-All P [] h = tt
  sort-All P (x ∷ xs) h = let (p, rest) = insert-All P x (sort fm xs) h in (p, sort-All P xs rest)

  module _ (order : TotalOrder fm) where
    insert-IsSorted : (x : F) (xs : List F) → IsSorted xs → IsSorted (insert fm x xs)
    unfolding insert IsSorted
    insert-IsSorted x [] h = (tt, tt)
    insert-IsSorted x (y ∷ ys) h = elim (Bool-cases (total_le x y)) [
      | inl le ↦
          rw le ((le, All-map (Below y) (Below x) ys (λ a. order.transitive x y a le) h.0), h)
      | inr gt ↦
          rw gt (All-insert (Below y) x ys (order.total x y gt) h.0, insert-IsSorted x ys h.1)
    ]

    pub sort-IsSorted : (xs : List F) → IsSorted (sort fm xs)
    unfolding sort IsSorted
    sort-IsSorted [] = tt
    sort-IsSorted (x ∷ xs) = insert-IsSorted x (sort fm xs) (sort-IsSorted xs)
