-- ===== src/Report/Csv/Tables.antt =====
-- A table that is rendered (src/report/csv.rs) is read back line by line (src/report/overview.rs).
use scg_seshat.Prelude.{
  ℕ, ◌≡◌, ◌≢◌, refl, sym, ap, ◌∙◌, Bool, true, false, ◌&&◌, List, [], ◌∷◌, ◌++◌, map, append_assoc,
  append-nil, ◌==◌, ltb, if◌then◌else◌, arith, All,
}
use mathlib.Core.Path.{subst}
use scg_seshat.Prelude.Text.{is_empty}
use scg_seshat.Report.Csv.{
  Csv, needs_quotes, double_quotes, escape, write_cells, write_row, write_rows, render,
  parse_record, split_lines, trim_end, keep_nonempty, summary_records,
}
use scg_seshat.Report.Csv.Quoting.{
  following, write_cells_suc, parse_record-write_cells, false_branch,
}

-- No line feed and no carriage return.
abbrev pub IsOneLine : List ℕ → Type 0
IsOneLine = All (λ c. (c ≢ 10) × (c ≢ 13))

-- At least two cells, each on one line.
abbrev pub IsPlainRow : List (List ℕ) → Type 0
IsPlainRow [] = ⊥
IsPlainRow (cell ∷ []) = ⊥
IsPlainRow (cell ∷ next ∷ cells) = All IsOneLine (cell ∷ next ∷ cells)

append-IsOneLine : (xs ys : List ℕ) → IsOneLine xs → IsOneLine ys → IsOneLine (xs ++ ys)
append-IsOneLine [] ys hx hy = hy
append-IsOneLine (x ∷ xs) ys (h, hx) hy = (h, append-IsOneLine xs ys hx hy)

comma-IsOneLine : IsOneLine (b',' ∷ [])
comma-IsOneLine = ((λ e. ground arith, λ e. ground arith), tt)

quote-IsOneLine : IsOneLine (b'"' ∷ [])
quote-IsOneLine = ((λ e. ground arith, λ e. ground arith), tt)

if-All :
    (xs ys : List ℕ) (b : Bool) → IsOneLine xs → IsOneLine ys → IsOneLine (if b then xs else ys)
if-All xs ys true hx hy = hx
if-All xs ys false hx hy = hy

double_quotes-IsOneLine : (xs : List ℕ) → IsOneLine xs → IsOneLine (double_quotes xs)
unfolding double_quotes
double_quotes-IsOneLine [] h = tt
double_quotes-IsOneLine (x ∷ xs) (h, hs) =
    if-All _ _ (x == b'"') (quote-IsOneLine.0, (h, double_quotes-IsOneLine xs hs))
      (h, double_quotes-IsOneLine xs hs)

escape-IsOneLine : (cell : List ℕ) → IsOneLine cell → IsOneLine (escape cell)
unfolding escape
escape-IsOneLine cell h =
    if-All _ _ (needs_quotes cell)
      (
        quote-IsOneLine.0,
        append-IsOneLine (double_quotes cell) (b'"' ∷ []) (double_quotes-IsOneLine cell h)
            quote-IsOneLine,
      )
      h

following-IsOneLine : (cells : List (List ℕ)) → All IsOneLine cells → IsOneLine (following cells)
following-IsOneLine [] h = tt
following-IsOneLine (cell ∷ cells) (h, hs) = (
  comma-IsOneLine.0,
  append-IsOneLine (escape cell) (following cells) (escape-IsOneLine cell h)
      (following-IsOneLine cells hs),
)

differ : (a b : ℕ) → a ≢ b → a == b ≡ false
differ a b h = ground (arith, h)

-- Up to the line feed there is one line.
split_lines-line :
    (line body rest : List ℕ)
    → IsOneLine body
    → split_lines line (body ++ 13 ∷ 10 ∷ rest) ≡ (line ++ (body ++ 13 ∷ [])) ∷ split_lines [] rest
unfolding split_lines
split_lines-line line [] rest h = refl
split_lines-line line (c ∷ cs) rest ((h, h'), hs) =
    false_branch (c == 10) _ _ (differ c 10 h)
    ∙ split_lines-line (line ++ c ∷ []) cs rest hs
    ∙ ap (λ l. l ∷ split_lines [] rest) (append_assoc line (c ∷ []) (cs ++ 13 ∷ []))

trim_end-IsOneLine : (body : List ℕ) → IsOneLine body → trim_end (body ++ 13 ∷ []) ≡ body
unfolding trim_end
trim_end-IsOneLine [] h = refl
trim_end-IsOneLine (c ∷ cs) ((h, h'), hs) =
    ap (λ rest. if c == 13 && is_empty rest then [] else c ∷ rest) (trim_end-IsOneLine cs hs)
    ∙ ap (λ b. if b && is_empty cs then [] else c ∷ cs) (differ c 13 h')

keep_line :
    (line : List ℕ) (lines : List (List ℕ))
    → is_empty line ≡ false
    → keep_nonempty (line ∷ lines) ≡ line ∷ keep_nonempty lines
unfolding keep_nonempty
keep_line [] lines h = absurd cc
keep_line (c ∷ cs) lines h = refl

append-nonempty : (xs : List ℕ) (y : ℕ) (ys : List ℕ) → is_empty (xs ++ y ∷ ys) ≡ false
append-nonempty [] y ys = refl
append-nonempty (x ∷ xs) y ys = refl

first_cell :
    (cell : List ℕ) (cells : List (List ℕ))
    → write_cells 0 [] (cell ∷ cells) ≡ escape cell ++ following cells
unfolding write_cells
first_cell cell cells = write_cells_suc 0 (escape cell) cells

plain_row :
    (row : List (List ℕ))
    → IsPlainRow row
    → IsOneLine (write_cells 0 [] row)
      × (is_empty (write_cells 0 [] row) ≡ false)
      × (parse_record (write_cells 0 [] row) ≡ row)
plain_row [] h = absurd h
plain_row (cell ∷ []) h = absurd h
plain_row (cell ∷ next ∷ cells) (h, hs) =
    let text : List ℕ = escape cell ++ following (next ∷ cells) in
    let e : write_cells 0 [] (cell ∷ next ∷ cells) ≡ text = first_cell cell (next ∷ cells) in
    (
      subst IsOneLine (sym e) (
          append-IsOneLine (escape cell) (following (next ∷ cells)) (escape-IsOneLine cell h)
            (following-IsOneLine (next ∷ cells) hs)),
      ap is_empty e ∙ append-nonempty (escape cell) b',' (escape next ++ following cells),
      parse_record-write_cells cell (next ∷ cells),
    )

-- One row in front of the rest of a text.
read_row :
    (row : List (List ℕ)) (rest : List ℕ)
    → IsPlainRow row
    → summary_records (write_cells 0 [] row ++ 13 ∷ 10 ∷ rest) ≡ row ∷ summary_records rest
unfolding summary_records
read_row row rest h =
    let line : List ℕ = write_cells 0 [] row in
    let (h1, h2, h3) = plain_row row h in
    ap (λ ls. map parse_record (keep_nonempty (map trim_end ls))) (split_lines-line [] line rest h1)
    ∙ ap (λ l. map parse_record (keep_nonempty (l ∷ map trim_end (split_lines [] rest))))
        (trim_end-IsOneLine line h1)
    ∙ ap (map parse_record) (keep_line line (map trim_end (split_lines [] rest)) h2)
    ∙ ap (λ f. f ∷ map parse_record (keep_nonempty (map trim_end (split_lines [] rest)))) h3

if-append :
    (b : Bool) (out : List ℕ)
    → (if b then out ++ b',' ∷ [] else out) ≡ out ++ (if b then b',' ∷ [] else [])
if-append true out = refl
if-append false out = sym (append-nil out)

write_cells-append :
    (i : ℕ) (out : List ℕ) (cells : List (List ℕ))
    → write_cells i out cells ≡ out ++ write_cells i [] cells
unfolding write_cells
write_cells-append i out [] = sym (append-nil out)
write_cells-append i out (cell ∷ cells) =
    let commas : List ℕ = if ltb 0 i then b',' ∷ [] else [] in
    write_cells_suc i ((if ltb 0 i then out ++ b',' ∷ [] else out) ++ escape cell) cells
    ∙ ap (λ t. t ++ escape cell ++ following cells) (if-append (ltb 0 i) out)
    ∙ ap (λ t. t ++ following cells) (append_assoc out commas (escape cell))
    ∙ append_assoc out (commas ++ escape cell) (following cells)
    ∙ ap (λ t. out ++ t) (sym (write_cells_suc i (commas ++ escape cell) cells))

write_rows-row :
    (out : List ℕ) (rows : List (List (List ℕ))) → write_rows out rows ≡ out ++ write_rows [] rows
unfolding write_rows write_row
write_rows-row out [] = sym (append-nil out)
write_rows-row out (row ∷ rows) =
    let line : List ℕ = write_cells 0 [] row in
    write_rows-row (write_cells 0 out row ++ 13 ∷ 10 ∷ []) rows
    ∙ ap (λ t. t ++ 13 ∷ 10 ∷ [] ++ write_rows [] rows) (write_cells-append 0 out row)
    ∙ ap (λ t. t ++ write_rows [] rows) (append_assoc out line (13 ∷ 10 ∷ []))
    ∙ append_assoc out (line ++ 13 ∷ 10 ∷ []) (write_rows [] rows)
    ∙ ap (λ t. out ++ t) (sym (write_rows-row (line ++ 13 ∷ 10 ∷ []) rows))

read_rows :
    (rows : List (List (List ℕ)))
    → All IsPlainRow rows
    → summary_records (write_rows [] rows) ≡ rows
unfolding write_rows write_row summary_records split_lines trim_end keep_nonempty
read_rows [] h = refl
read_rows (row ∷ rows) (h, hs) =
    ap summary_records (
      write_rows-row (write_cells 0 [] row ++ 13 ∷ 10 ∷ []) rows
      ∙ append_assoc (write_cells 0 [] row) (13 ∷ 10 ∷ []) (write_rows [] rows))
    ∙ read_row row (write_rows [] rows) h
    ∙ ap (λ r. row ∷ r) (read_rows rows hs)

-- A rendered table whose rows, the header included, have two cells at least and no line break in a
-- cell is read back by the overview as the header and the rows.
pub summary_records-render :
    (csv : Csv)
    → IsPlainRow csv.headers
    → All IsPlainRow csv.rows
    → summary_records (render csv) ≡ csv.headers ∷ csv.rows
unfolding render write_row
summary_records-render csv hh hr =
    ap summary_records (
      write_rows-row (write_cells 0 [] csv.headers ++ 13 ∷ 10 ∷ []) csv.rows
      ∙ append_assoc (write_cells 0 [] csv.headers) (13 ∷ 10 ∷ []) (write_rows [] csv.rows))
    ∙ read_row csv.headers (write_rows [] csv.rows) hh
    ∙ ap (λ r. csv.headers ∷ r) (read_rows csv.rows hr)
