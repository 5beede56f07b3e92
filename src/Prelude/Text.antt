-- ===== src/Prelude/Text.antt =====
-- Texts as lists of code points, and the string operations of the standard library that the program
-- uses: `trim`, `rsplit_once`, `strip_prefix`, `eq_ignore_ascii_case` and `parse::<u16>`.
use Prim.Native.Char.{code}
use Prim.Native.String.{String}
use Prim.Native.Nat.{ℕ, ◌+◌, ◌-◌, ◌*◌}
use mathlib.Core.Bool.{Bool, true, false, ◌&&◌, ◌||◌}
use mathlib.Core.Option.{Option, none, some}
use mathlib.Core.List.{List, [], ◌∷◌, map, reverse}
use scg_seshat.Prelude.Tests.{ltb, leb, ◌==◌, if◌then◌else◌}
use scg_seshat.Prelude.Bytes.{bytes_eq}

abbrev pub codes : String → List ℕ
codes String.[] = []
codes (String.◌∷◌ c s) = code c ∷ codes s

abbrev pub is_none {ℓ} : {A : Type ℓ} → Option A → Bool
is_none none = true
is_none (some a) = false

abbrev pub is_some {ℓ} : {A : Type ℓ} → Option A → Bool
is_some none = false
is_some (some a) = true

abbrev pub is_empty {ℓ} : {A : Type ℓ} → List A → Bool
is_empty [] = true
is_empty (x ∷ xs) = false

-- The code points with the property White_Space.
abbrev pub is_whitespace : ℕ → Bool
is_whitespace c =
    leb 9 c && leb c 13
    || c == 32
    || c == 133
    || c == 160
    || c == 5760
    || leb 8192 c && leb c 8202
    || c == 8232
    || c == 8233
    || c == 8239
    || c == 8287
    || c == 12288

unfoldable pub trim_start : List ℕ → List ℕ
trim_start [] = []
trim_start (c ∷ cs) = let rest = trim_start cs in if is_whitespace c then rest else c ∷ cs

unfoldable pub trim : List ℕ → List ℕ
trim s = reverse (trim_start (reverse (trim_start s)))

unfoldable pub to_ascii_lower : ℕ → ℕ
to_ascii_lower c = if leb 65 c && leb c 90 then c + 32 else c

unfoldable pub eq_ignore_ascii_case : List ℕ → List ℕ → Bool
eq_ignore_ascii_case s t = bytes_eq (map to_ascii_lower s) (map to_ascii_lower t)

-- At the last separator.
unfoldable pub rsplit_once : ℕ → List ℕ → Option (List ℕ × List ℕ)
rsplit_once sep [] = none
rsplit_once sep (c ∷ cs) = elim (rsplit_once sep cs) [
  | some (before, after) ↦ some (c ∷ before, after)
  | none ↦ if c == sep then some ([], cs) else none
]

unfoldable pub strip_prefix : List ℕ → List ℕ → Option (List ℕ)
strip_prefix [] s = some s
strip_prefix (p ∷ ps) [] = none
strip_prefix (p ∷ ps) (c ∷ cs) = let rest = strip_prefix ps cs in if p == c then rest else none

abbrev pub is_digit : ℕ → Bool
is_digit c = leb 48 c && leb c 57

-- The digits of a `u16` from the left, with the value so far; `none` at an overflow.
unfoldable pub digits_u16 : ℕ → List ℕ → Option ℕ
digits_u16 acc [] = some acc
digits_u16 acc (c ∷ cs) =
    let next : ℕ = acc * 10 + (c - 48) in
    let rest = digits_u16 next cs in if is_digit c && ltb next 65536 then rest else none

-- A sign `+` may stand before the digits, of which there is one at least.
unfoldable pub parse_u16 : List ℕ → Option ℕ
parse_u16 [] = none
parse_u16 (c ∷ []) = digits_u16 0 (c ∷ [])
parse_u16 (c ∷ d ∷ ds) = if c == 43 then digits_u16 0 (d ∷ ds) else digits_u16 0 (c ∷ d ∷ ds)

-- `str::contains`
unfoldable pub contains : List ℕ → List ℕ → Bool
contains needle [] = is_empty needle
contains needle (c ∷ text) = is_some (strip_prefix needle (c ∷ text)) || contains needle text
