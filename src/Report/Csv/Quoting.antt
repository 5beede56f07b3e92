-- ===== src/Report/Csv/Quoting.antt =====
-- A record that is written (src/report/csv.rs) is read back (src/report/overview.rs), whatever its cells hold.
use scg_seshat.Prelude.{
  ℕ, ◌+◌, ◌≡◌, refl, sym, ap, ◌∙◌, ◌⊎◌, inl, inr, Bool, true, false, ◌||◌, List, [], ◌∷◌, ◌++◌,
  append_assoc, append-nil, ◌==◌, if◌then◌else◌, Bool-cases, arith, get_or, ==_iff, lt→ltb,
}
use scg_seshat.Report.Csv.{
  needs_quotes, double_quotes, escape, write_cells, parse_from, parse_record,
}

-- What may stand after a cell: nothing, or a comma.
abbrev pub Ends : List ℕ → Type 0
Ends rest = (rest ≡ []) ⊎ ((more : List ℕ) × (rest ≡ b',' ∷ more))

pub false_branch {ℓ} :
    {A : Type ℓ} (b : Bool) (x y : A) → b ≡ false → elim b [ true ↦ x | false ↦ y ] ≡ y
false_branch true x y h = absurd cc
false_branch false x y h = refl

true_branch {ℓ} : {A : Type ℓ} (b : Bool) (x y : A) → b ≡ true → elim b [ true ↦ x | false ↦ y ] ≡ x
true_branch true x y h = refl
true_branch false x y h = absurd cc

plain_char :
    (c : ℕ) (cs acc : List ℕ) (out : List (List ℕ))
    → (c == b'"') ≡ false
    → (c == b',') ≡ false
    → parse_from false acc out (c ∷ cs) ≡ parse_from false (acc ++ c ∷ []) out cs
unfolding parse_from
plain_char c cs acc out hq hc = false_branch (c == b'"') _ _ hq ∙ false_branch (c == b',') _ _ hc

quoted_char :
    (c : ℕ) (cs acc : List ℕ) (out : List (List ℕ))
    → (c == b'"') ≡ false
    → parse_from true acc out (c ∷ cs) ≡ parse_from true (acc ++ c ∷ []) out cs
unfolding parse_from
quoted_char c [] acc out hq = false_branch (c == b'"') _ _ hq
quoted_char c (d ∷ ds) acc out hq = false_branch (c == b'"') _ _ hq

closing_quote :
    (acc : List ℕ) (out : List (List ℕ)) (rest : List ℕ)
    → Ends rest
    → parse_from true acc out (b'"' ∷ rest) ≡ parse_from false acc out rest
unfolding parse_from
closing_quote acc out [] he = refl
closing_quote acc out (d ∷ ds) (inl e) = absurd cc
closing_quote acc out (d ∷ ds) (inr (more, e)) =
    false_branch (d == b'"') _ _ (ground (arith, ap (λ l. get_or l 0 0) e))

or_false : (a b : Bool) → a || b ≡ false → (a ≡ false) × (b ≡ false)
or_false true b h = absurd cc
or_false false b h = (refl, h)

doubled_quote :
    (c : ℕ) (cs acc : List ℕ) (out : List (List ℕ))
    → (c == b'"') ≡ true
    → parse_from true acc out (b'"' ∷ c ∷ cs) ≡ parse_from true (acc ++ c ∷ []) out cs
unfolding parse_from
doubled_quote c cs acc out e =
    true_branch (c == b'"') _ _ e
    ∙ ap (λ d. parse_from true (acc ++ d ∷ []) out cs) (sym ((==_iff c b'"').0 e))

-- A cell without quotes is read as it stands.
plain_cell :
    (field acc : List ℕ) (out : List (List ℕ)) (rest : List ℕ)
    → needs_quotes field ≡ false
    → parse_from false acc out (field ++ rest) ≡ parse_from false (acc ++ field) out rest
plain_cell [] acc out rest h = ap (λ a. parse_from false a out rest) (sym (append-nil acc))
plain_cell (c ∷ cs) acc out rest h =
    let (h4, hs) = or_false (c == b',' || c == b'"' || c == 10 || c == 13) (needs_quotes cs) h in
    let (h3, h13) = or_false (c == b',' || c == b'"' || c == 10) (c == 13) h4 in
    let (h2, h10) = or_false (c == b',' || c == b'"') (c == 10) h3 in
    let (h1, hq) = or_false (c == b',') (c == b'"') h2 in
    plain_char c (cs ++ rest) acc out hq h1
    ∙ plain_cell cs (acc ++ c ∷ []) out rest hs
    ∙ ap (λ a. parse_from false a out rest) (append_assoc acc (c ∷ []) cs)

-- What stands between quotes, with its quotes doubled, is read as the cell.
quoted_cell :
    (field acc : List ℕ) (out : List (List ℕ)) (rest : List ℕ)
    → Ends rest
    → parse_from true acc out (double_quotes field ++ b'"' ∷ rest)
      ≡ parse_from false (acc ++ field) out rest
unfolding double_quotes
quoted_cell [] acc out rest he =
    closing_quote acc out rest he ∙ ap (λ a. parse_from false a out rest) (sym (append-nil acc))
quoted_cell (c ∷ cs) acc out rest he =
    let tail = double_quotes cs in
    let after =
      quoted_cell cs (acc ++ c ∷ []) out rest he
      ∙ ap (λ a. parse_from false a out rest) (append_assoc acc (c ∷ []) cs) in
    elim (Bool-cases (c == b'"')) [
      | inl e ↦
          ap
            (λ b.
              parse_from true acc out ((if b then b'"' ∷ c ∷ tail else c ∷ tail) ++ b'"' ∷ rest))
            e
          ∙ doubled_quote c (tail ++ b'"' ∷ rest) acc out e
          ∙ after
      | inr e ↦
          ap
            (λ b.
              parse_from true acc out ((if b then b'"' ∷ c ∷ tail else c ∷ tail) ++ b'"' ∷ rest))
            e
          ∙ quoted_char c (tail ++ b'"' ∷ rest) acc out e
          ∙ after
    ]

-- An escaped cell is read back, before a comma or the end of the record.
pub escape-read :
    (cell : List ℕ) (out : List (List ℕ)) (rest : List ℕ)
    → Ends rest
    → parse_from false [] out (escape cell ++ rest) ≡ parse_from false cell out rest
unfolding escape parse_from
escape-read cell out rest he = elim (Bool-cases (needs_quotes cell)) [
  | inl e ↦
      ap
        (λ b.
          parse_from false [] out
            ((if b then b'"' ∷ double_quotes cell ++ b'"' ∷ [] else cell) ++ rest))
        e
      ∙ ap (parse_from true [] out) (append_assoc (double_quotes cell) (b'"' ∷ []) rest)
      ∙ quoted_cell cell [] out rest he
  | inr e ↦
      ap
        (λ b.
          parse_from false [] out
            ((if b then b'"' ∷ double_quotes cell ++ b'"' ∷ [] else cell) ++ rest))
        e
      ∙ plain_cell cell [] out rest e
]

-- The cells after the first, each behind a comma.
abbrev pub following : List (List ℕ) → List ℕ
following [] = []
following (cell ∷ cells) = b',' ∷ escape cell ++ following cells

pub write_cells_suc :
    (i : ℕ) (out : List ℕ) (cells : List (List ℕ))
    → write_cells (i + 1) out cells ≡ out ++ following cells
unfolding write_cells
write_cells_suc i out [] = sym (append-nil out)
write_cells_suc i out (cell ∷ cells) =
    let commaed : List ℕ = out ++ b',' ∷ [] in
    ap (λ b. write_cells (i + 1 + 1) ((if b then commaed else out) ++ escape cell) cells)
      (lt→ltb 0 (i + 1) (omega arith))
    ∙ write_cells_suc (i + 1) (commaed ++ escape cell) cells
    ∙ append_assoc commaed (escape cell) (following cells)
    ∙ append_assoc out (b',' ∷ []) (escape cell ++ following cells)

following-Ends : (cells : List (List ℕ)) → Ends (following cells)
following-Ends [] = inl refl
following-Ends (cell ∷ cells) = inr (escape cell ++ following cells, refl)

read-following :
    (cell : List ℕ) (out : List (List ℕ)) (cells : List (List ℕ))
    → parse_from false cell out (following cells) ≡ out ++ cell ∷ cells
unfolding parse_from
read-following cell out [] = refl
read-following cell out (next ∷ cells) =
    escape-read next (out ++ cell ∷ []) (following cells) (following-Ends cells)
    ∙ read-following next (out ++ cell ∷ []) cells
    ∙ append_assoc out (cell ∷ []) (next ∷ cells)

-- The cells of a record, at least one, are written as a text (its line end left off) that
-- `parse_record` reads back to them, whatever characters they hold.
pub parse_record-write_cells :
    (cell : List ℕ) (cells : List (List ℕ))
    → parse_record (write_cells 0 [] (cell ∷ cells)) ≡ cell ∷ cells
unfolding parse_record write_cells
parse_record-write_cells cell cells =
    ap (parse_from false [] []) (write_cells_suc 0 (escape cell) cells)
    ∙ escape-read cell [] (following cells) (following-Ends cells)
    ∙ read-following cell [] cells
