-- ===== src/Prelude/Float.antt =====
-- `f64` as a type with the operations that the program uses. Values are compared by `lt` and `le`
-- (false where an operand is not a number).
use Prim.Native.Nat.{ℕ, ◌^◌, ◌<◌}
use mathlib.Core.Bool.{Bool}

pub record FloatOps (F : Type 0) : Type 0 where
  -- `n as f64`
  pub of_nat : ℕ → F
  -- `x as u64`, which truncates and saturates
  pub to_u64 : F → ℕ
  pub add : F → F → F
  pub sub : F → F → F
  pub mul : F → F → F
  pub div : F → F → F
  -- `f64::max`
  pub fmax : F → F → F
  pub lt : F → F → Bool
  pub le : F → F → Bool
  pub is_finite : F → Bool

-- What the language documents of the cast.
pub record CastFits {F : Type 0} (fl : FloatOps F) : Type 0 where
  pub fits : (x : F) → fl.to_u64 x < 2 ^ 64

-- More of `f64`, for the statistics.
pub record FloatMath (F : Type 0) : Type 0 where
  pub ops : FloatOps F
  pub sqrt : F → F
  pub abs : F → F
  pub floor : F → F
  pub ceil : F → F
  -- `f64::clamp`
  pub clamp : F → F → F → F
  -- `a.total_cmp(&b)` is not greater
  pub total_le : F → F → Bool
  pub nan : F
  pub infinity : F
  -- `f64::EPSILON`
  pub epsilon : F
  -- the value of the decimal literal `n / 10 ^ k`
  pub literal : ℕ → ℕ → F
