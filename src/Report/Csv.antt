-- ===== src/Report/Csv.antt =====
-- The CSV writer (src/report/csv.rs) and the reader of records in the overview (src/report/overview.rs).
-- A text is a list of code points.
pub mod Quoting
pub mod Tables
use scg_seshat.Prelude.{
  ℕ, zero, suc, ◌+◌, Bool, true, false, not, ◌&&◌, ◌||◌, List, [], ◌∷◌, ◌++◌, map, length, ltb,
  ◌==◌, if◌then◌else◌,
}
use scg_seshat.Prelude.Text.{is_empty}

pub record Csv : Type 0 where
  pub headers : List (List ℕ)
  pub rows : List (List (List ℕ))

unfoldable pub new : List (List ℕ) → Csv
new headers = record { headers = headers; rows = [] }

unfoldable pub row : Csv → List (List ℕ) → Csv
row csv cells = record csv { rows = csv.rows ++ cells ∷ [] }

unfoldable pub kv : Csv → List ℕ → List ℕ → Csv
kv csv key value = record csv { rows = csv.rows ++ (key ∷ value ∷ []) ∷ [] }

abbrev pub needs_quotes : List ℕ → Bool
needs_quotes [] = false
needs_quotes (c ∷ cs) = c == b',' || c == b'"' || c == 10 || c == 13 || needs_quotes cs

unfoldable pub double_quotes : List ℕ → List ℕ
double_quotes [] = []
double_quotes (c ∷ cs) =
    let rest = double_quotes cs in if c == b'"' then b'"' ∷ c ∷ rest else c ∷ rest

unfoldable pub escape : List ℕ → List ℕ
escape field = if needs_quotes field then b'"' ∷ double_quotes field ++ b'"' ∷ [] else field

-- The cells from index `i` on, appended to what is written already.
unfoldable pub write_cells : ℕ → List ℕ → List (List ℕ) → List ℕ
write_cells i out [] = out
write_cells i out (cell ∷ cells) =
    write_cells (i + 1) ((if ltb 0 i then out ++ b',' ∷ [] else out) ++ escape cell) cells

unfoldable pub write_row : List ℕ → List (List ℕ) → List ℕ
write_row out cells = write_cells 0 out cells ++ 13 ∷ 10 ∷ []

unfoldable pub write_rows : List ℕ → List (List (List ℕ)) → List ℕ
write_rows out [] = out
write_rows out (row ∷ rows) = write_rows (write_row out row) rows

unfoldable pub render : Csv → List ℕ
render csv = write_rows (write_row [] csv.headers) csv.rows

unfoldable pub render_body : Csv → List ℕ
render_body csv = write_rows [] csv.rows

-- The loop of `parse_record`; a quote inside quotes looks at the character after it.
unfoldable pub parse_from : Bool → List ℕ → List (List ℕ) → List ℕ → List (List ℕ)
parse_from in_quotes field out [] = out ++ field ∷ []
parse_from false field out (c ∷ cs) = elim (c == b'"') [
  | true ↦ parse_from true field out cs
  | false ↦ elim (c == b',') [
    | true ↦ parse_from false [] (out ++ field ∷ []) cs
    | false ↦ parse_from false (field ++ c ∷ []) out cs
  ]
]
parse_from true field out (c ∷ []) = elim (c == b'"') [
  | true ↦ parse_from false field out []
  | false ↦ parse_from true (field ++ c ∷ []) out []
]
parse_from true field out (c ∷ d ∷ ds) = elim (c == b'"') [
  | true ↦ elim (d == b'"') [
    | true ↦ parse_from true (field ++ b'"' ∷ []) out ds
    | false ↦ parse_from false field out (d ∷ ds)
  ]
  | false ↦ parse_from true (field ++ c ∷ []) out (d ∷ ds)
]

unfoldable pub parse_record : List ℕ → List (List ℕ)
parse_record line = parse_from false [] [] line

-- `split('\n')`
unfoldable pub split_lines : List ℕ → List ℕ → List (List ℕ)
split_lines line [] = line ∷ []
split_lines line (c ∷ cs) = elim (c == 10) [
  | true ↦ line ∷ split_lines [] cs
  | false ↦ split_lines (line ++ c ∷ []) cs
]

-- `trim_end_matches('\r')`
unfoldable pub trim_end : List ℕ → List ℕ
trim_end [] = []
trim_end (c ∷ cs) = let rest = trim_end cs in if c == 13 && is_empty rest then [] else c ∷ rest

unfoldable pub keep_nonempty : List (List ℕ) → List (List ℕ)
keep_nonempty [] = []
keep_nonempty (l ∷ ls) = let rest = keep_nonempty ls in if is_empty l then rest else l ∷ rest

-- The lines that `parse_summary` goes over, each split into its fields: the header, then the rows.
unfoldable pub summary_records : List ℕ → List (List (List ℕ))
summary_records text = map parse_record (keep_nonempty (map trim_end (split_lines [] text)))
