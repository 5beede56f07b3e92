-- ===== src/Report/Tests.antt =====
-- The theorems on CSV (src/report/csv.rs, src/report/overview.rs) at concrete cells.
use scg_seshat.Prelude.{◌≡◌, [], ◌∷◌, arith}
use scg_seshat.Prelude.Text.{codes}
use scg_seshat.Report.Csv.{Csv, write_cells, parse_record, render, summary_records}
use scg_seshat.Report.Csv.Quoting.{parse_record-write_cells}
use scg_seshat.Report.Csv.Tables.{IsOneLine, summary_records-render}

parse_record_example :
    parse_record (write_cells 0 [] (codes "a,b" ∷ codes "\"\n" ∷ []))
    ≡ codes "a,b" ∷ codes "\"\n" ∷ []
parse_record_example = parse_record-write_cells (codes "a,b") (codes "\"\n" ∷ [])

one_character : IsOneLine (codes "k")
one_character = ((λ e. ground arith, λ e. ground arith), tt)

one_character_v : IsOneLine (codes "v")
one_character_v = ((λ e. ground arith, λ e. ground arith), tt)

comma : IsOneLine (codes ",")
comma = ((λ e. ground arith, λ e. ground arith), tt)

abbrev table : Csv
table = record { headers = codes "k" ∷ codes "v" ∷ []; rows = (codes "," ∷ [] ∷ []) ∷ [] }

summary_records_example : summary_records (render table) ≡ table.headers ∷ table.rows
summary_records_example =
    summary_records-render table (one_character, (one_character_v, tt)) ((comma, (tt, tt)), tt)
