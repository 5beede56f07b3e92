-- ===== src/Workload/SendLag.antt =====
-- How late a paced sender wakes: `SendLag` of src/workload/sender.rs. `count` and `max_ns` are
-- `u64`, `sum_ns` is `u128`; additions wrap as in a release build.
use mathlib.Core.List.{foldl}
use scg_seshat.Prelude.{
  ℕ, ◌+◌, ◌%◌, ◌^◌, ◌<◌, ◌≡◌, ◌∙◌, max, List, [], ◌∷◌, ◌++◌, length, length-append, ltb,
  if◌then◌else◌, arith,
}

pub record SendLag : Type 0 where
  pub count : ℕ
  pub sum_ns : ℕ
  pub max_ns : ℕ

-- `SendLag::default()`
abbrev pub no_lag : SendLag
no_lag = record { count = 0; sum_ns = 0; max_ns = 0 }

unfoldable pub record_lag : SendLag → ℕ → SendLag
record_lag l ns = record {
  count = (l.count + 1) % 2 ^ 64;
  sum_ns = (l.sum_ns + ns) % 2 ^ 128;
  max_ns = if ltb l.max_ns ns then ns else l.max_ns;
}

unfoldable pub merge : SendLag → SendLag → SendLag
merge l other = record {
  count = (l.count + other.count) % 2 ^ 64;
  sum_ns = (l.sum_ns + other.sum_ns) % 2 ^ 128;
  max_ns = if ltb l.max_ns other.max_ns then other.max_ns else l.max_ns;
}

-- The account of a sender that has recorded these lags.
unfoldable pub account : List ℕ → SendLag
account = foldl record_lag no_lag

pub sum : List ℕ → ℕ
sum [] = 0
sum (x ∷ xs) = x + sum xs

pub largest : List ℕ → ℕ
largest [] = 0
largest (x ∷ xs) = max x (largest xs)

-- The reference: number, sum and maximum of the lags.
abbrev pub totals : List ℕ → SendLag
totals xs = record { count = length xs % 2 ^ 64; sum_ns = sum xs % 2 ^ 128; max_ns = largest xs }

foldl-record_lag :
    (xs : List ℕ) (l : SendLag)
    → l.count < 2 ^ 64
    → l.sum_ns < 2 ^ 128
    → foldl record_lag l xs ≡ record {
      count = (l.count + length xs) % 2 ^ 64;
      sum_ns = (l.sum_ns + sum xs) % 2 ^ 128;
      max_ns = max l.max_ns (largest xs);
    }
unfolding record_lag sum largest
foldl-record_lag [] l hc hs = ground arith
foldl-record_lag (x ∷ xs) l hc hs =
    ground (arith, foldl-record_lag xs (record_lag l x) (omega arith) (omega arith))

-- The account of a list of lags holds their number, their sum, both wrapping, and their maximum.
account-eq-totals : (xs : List ℕ) → account xs ≡ totals xs
unfolding account
account-eq-totals xs = foldl-record_lag xs no_lag (omega arith) (omega arith) ∙ ground arith

sum-append : (xs ys : List ℕ) → sum (xs ++ ys) ≡ sum xs + sum ys
unfolding sum
sum-append [] ys = omega arith
sum-append (x ∷ xs) ys = omega (arith, sum-append xs ys)

largest-append : (xs ys : List ℕ) → largest (xs ++ ys) ≡ max (largest xs) (largest ys)
unfolding largest
largest-append [] ys = omega arith
largest-append (x ∷ xs) ys = omega (arith, largest-append xs ys)

-- Merging the accounts of two senders gives the account of all their lags, as if one sender had
-- recorded them.
pub merge-account : (xs ys : List ℕ) → merge (account xs) (account ys) ≡ account (xs ++ ys)
unfolding merge
merge-account xs ys =
    rw (account-eq-totals xs, account-eq-totals ys, account-eq-totals (xs ++ ys))
      (ground (arith, length-append xs ys, sum-append xs ys, largest-append xs ys))
