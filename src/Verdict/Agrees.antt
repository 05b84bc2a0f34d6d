-- ===== src/Verdict/Agrees.antt =====
-- `moves` of .github/scripts/btclib_node_verdict.py reports nothing exactly where every row agrees.
use bitcoin_node_tests.Base.{
  ◌≡◌, ◌≢◌, refl, sym, ap, ◌∙◌, ◌↔◌, ◌⊎◌, inl, inr, Bool, true, Option, none, some, List, [], ◌∷◌,
  All, Bool-cases, All-map,
}
use bitcoin_node_tests.Base.Raise.{>>=-eq-ok, >>=-ok, ok-injective}
use bitcoin_node_tests.Verdict.{skip, FullMatch, Status, Expected, expected, outcome, pass, fail}
use bitcoin_node_tests.Base.Bytes.{Text}
use bitcoin_node_tests.Verdict.Moves.{
  compare_rows, row_lines, ByRow, cases_at, statuses, moved_line, same_status, sorted, Kind,
  kind_of, moves, tally,
}
use bitcoin_node_tests.Base.Exec.{ok}
use bitcoin_node_tests.Verdict.Ledger.{Strings, ledger_cells}
use bitcoin_node_tests.Verdict.Grouped.{
  append-nil_parts, IsCovered, gathered, tally-gathered, covered-tally,
}
use mathlib.Core.Path.{subst}
use bitcoin_node_tests.Verdict.Cases.{NoClash, HasCase, gathered-HasCase}
use bitcoin_node_tests.Verdict.Cells.{Expects, expected-Expects, Expects-expected}
use mathlib.Core.List.{Memᴰ}
use bitcoin_node_tests.Verdict.Rows.{IsOutcome, IsOutcome-map, outcome-IsOutcome, IsOutcome-outcome}
use bitcoin_node_tests.Verdict.Sorted.{All-of_sorted, sorted-All}

same_status-true : (a b : Status) → same_status a b ≡ true → a ≡ b
same_status-true pass pass h = refl
same_status-true fail fail h = refl
same_status-true skip skip h = refl
same_status-true pass fail h = cc h
same_status-true pass skip h = cc h
same_status-true fail pass h = cc h
same_status-true fail skip h = cc h
same_status-true skip pass h = cc h
same_status-true skip fail h = cc h

same_status_refl : (a : Status) → same_status a a ≡ true
same_status_refl pass = refl
same_status_refl fail = refl
same_status_refl skip = refl

module _ (fullmatch : FullMatch) (release : Bool) where
  -- The testcases of a row have the outcome that its cell expects, where it expects one.
  abbrev CellAgrees : Text → List (Text × Status) → Type 0
  CellAgrees cell cases =
      (expected fullmatch cell release ≡ ok none)
      ⊎ ((e : Expected) × (expected fullmatch cell release ≡ ok (some e))
          × (cases ≢ [])
          × (outcome (statuses cases) ≡ e.outcome))

  moved-cons :
      (row : Text) (e : Expected) (cases : List (Text × Status)) (k : Option Kind)
      → moved_line fullmatch release row e cases k ≢ ok []
  unfolding moved_line
  moved-cons row e cases none h = cc h
  moved-cons row e cases (some k) h = cc h

  row_lines-nil :
      (row cell : Text) (e : Option Expected) (cases : List (Text × Status))
      → expected fullmatch cell release ≡ ok e
      → row_lines fullmatch release row e cases ≡ ok []
      → CellAgrees cell cases
  unfolding row_lines
  row_lines-nil row cell none cases q h = inl q
  row_lines-nil row cell (some e) [] q h = cc h
  row_lines-nil row cell (some e) (c ∷ cases) q h =
      elim (Bool-cases (same_status (outcome (statuses (c ∷ cases))) e.outcome)) [
        | inl k ↦ inr (e, q, (λ d. cc d), same_status-true _ _ k)
        | inr k ↦ absurd (
            moved-cons row e (c ∷ cases) (kind_of e.outcome (outcome (statuses (c ∷ cases))))
              (rw k at h))
      ]

  agrees-row_lines :
      (row cell : Text) (cases : List (Text × Status))
      → CellAgrees cell cases
      → (e : Option Expected) × (expected fullmatch cell release ≡ ok e)
        × (row_lines fullmatch release row e cases ≡ ok [])
  unfolding row_lines
  agrees-row_lines row cell cases (inl q) = (none, q, refl)
  agrees-row_lines row cell [] (inr (e, q, some_case, same)) = absurd (some_case refl)
  agrees-row_lines row cell (c ∷ cases) (inr (e, q, some_case, same)) =
      (some e, q, rw (ap (λ o. same_status o e.outcome) same ∙ same_status_refl e.outcome) refl)

  compare_rows-nil :
      (by_row : ByRow) (cells : List (Text × Text))
      → compare_rows fullmatch release by_row cells ≡ ok []
      → All (λ c. CellAgrees c.1 (cases_at c.0 by_row)) cells
  unfolding compare_rows
  compare_rows-nil by_row [] h = tt
  compare_rows-nil by_row ((row, cell) ∷ cells) h =
      let (e, q, h₁) = >>=-eq-ok (expected fullmatch cell release) _ h in
      let (lines, k, h₂) =
        >>=-eq-ok (row_lines fullmatch release row e (cases_at row by_row)) _ h₁ in
      let (rest, l, h₃) = >>=-eq-ok (compare_rows fullmatch release by_row cells) _ h₂ in
      let (here, later) = append-nil_parts lines rest (ok-injective h₃) in
      (
        row_lines-nil row cell e (cases_at row by_row) q (k ∙ ap ok here),
        compare_rows-nil by_row cells (l ∙ ap ok later),
      )

  agrees-compare_rows :
      (by_row : ByRow) (cells : List (Text × Text))
      → All (λ c. CellAgrees c.1 (cases_at c.0 by_row)) cells
      → compare_rows fullmatch release by_row cells ≡ ok []
  unfolding compare_rows
  agrees-compare_rows by_row [] h = refl
  agrees-compare_rows by_row ((row, cell) ∷ cells) (agrees, all) =
      let (e, q, k) = agrees-row_lines row cell (cases_at row by_row) agrees in
      >>=-ok _ q ∙ >>=-ok _ k ∙ >>=-ok _ (agrees-compare_rows by_row cells all)

some_statuses : (cases : List (Text × Status)) → cases ≢ [] → statuses cases ≢ []
some_statuses [] h e = absurd (h refl)
some_statuses (c ∷ cases) h e = cc e

module _ (fullmatch : FullMatch) (rows : Text → Option Text) (no_rows : Text → Bool)
    (release : Bool) where
  -- The cell of a row expects nothing of the build, or the outcome that the row's testcases have.
  abbrev pub RowAgrees : List (Text × Status) → Text × Text → Type 0
  RowAgrees results (row, cell) =
      Expects fullmatch cell release none
      ⊎ ((e : Expected) × Expects fullmatch cell release (some e)
          × IsOutcome (HasCase rows no_rows row results) e.outcome)

  cell-row :
      (row cell : Text) (results cases : List (Text × Status))
      → ((s : Status) → Memᴰ s (statuses cases) ↔ HasCase rows no_rows row results s)
      → CellAgrees fullmatch release cell cases ↔ RowAgrees results (row, cell)
  cell-row row cell results cases h = (there, back)
    where
      there : CellAgrees fullmatch release cell cases → RowAgrees results (row, cell)
      there (inl q) = inl (expected-Expects fullmatch cell release none q)
      there (inr (e, q, some_case, same)) = inr (
        e,
        expected-Expects fullmatch cell release (some e) q,
        IsOutcome-map (λ s. Memᴰ s (statuses cases)) (HasCase rows no_rows row results) e.outcome h
            (subst (IsOutcome (λ s. Memᴰ s (statuses cases))) same
              (outcome-IsOutcome (statuses cases) (some_statuses cases some_case))),
      )

      back : RowAgrees results (row, cell) → CellAgrees fullmatch release cell cases
      back (inl x) = inl (Expects-expected fullmatch cell release none x)
      back (inr (e, x, k)) =
          let (some_status, same) = IsOutcome-outcome (statuses cases) e.outcome (
            IsOutcome-map (HasCase rows no_rows row results) (λ s. Memᴰ s (statuses cases))
              e.outcome (λ s. ((h s).1, (h s).0)) k) in
          inr (
            e,
            Expects-expected fullmatch cell release (some e) x,
            (λ q. some_status (ap statuses q)),
            same,
          )

module _ (strings : Strings) (fullmatch : FullMatch) (rows : Text → Option Text)
    (no_rows : Text → Bool) where
  -- The ledger can be read, every testcase is covered, and every row agrees with its testcases.
  abbrev pub Agrees : Text → List (Text × Status) → Bool → Type 0
  Agrees ledger_text results release =
      (cells : List (Text × Text)) × (ledger_cells strings ledger_text ≡ ok cells)
      × All (IsCovered rows no_rows) results
      × All (RowAgrees fullmatch rows no_rows release results) cells

  -- Where no two testcases of a report are of one row by one name, moves reports nothing exactly
  -- where the ledger can be read, every testcase is of a row or is one of the repository's own
  -- tests and does not fail, and every row has testcases with the outcome that its cell expects of
  -- this build, unless the cell is bitcoind only: a row fails where any testcase of it does, skips
  -- where none fails and any skips, and passes where every one passes. What a cell expects is its
  -- verdict where it is one alone, and else that of its one segment about the build, where each
  -- other segment is about another one; a verdict is read by the first of the ledger's patterns
  -- that matches it.
  pub moves-Agrees :
      (ledger_text : Text) (results : List (Text × Status)) (release : Bool)
      → NoClash rows no_rows results
      → (moves strings fullmatch rows no_rows ledger_text results release ≡ ok [])
        ↔ Agrees ledger_text results release
  unfolding moves cases_at
  moves-Agrees ledger_text results release apart = (agreed, quiet)
    where
      row_of_cases :
          (c : Text × Text)
          → CellAgrees fullmatch release c.1 (gathered rows no_rows c.0 [] (sorted results))
            ↔ RowAgrees fullmatch rows no_rows release results c
      row_of_cases (row, cell) =
          cell-row fullmatch rows no_rows release row cell results
            (gathered rows no_rows row [] (sorted results))
            (gathered-HasCase rows no_rows row results apart)

      agreed :
          moves strings fullmatch rows no_rows ledger_text results release ≡ ok []
          → Agrees ledger_text results release
      agreed h =
          let (r, q, h₁) = >>=-eq-ok (tally rows no_rows [] (sorted results)) _ h in
          let (cells, k, h₂) = >>=-eq-ok (ledger_cells strings ledger_text) _ h₁ in
          let (lines, l, h₃) = >>=-eq-ok (compare_rows fullmatch release r.0 cells) _ h₂ in
          let (here, later) = append-nil_parts r.1 lines (ok-injective h₃) in
          let (covered, cases) =
            tally-gathered rows no_rows (sorted results) [] r.0 (q ∙ ap (λ x. ok (r.0, x)) here) in
          (
            cells,
            k,
            All-of_sorted (IsCovered rows no_rows) results covered,
            All-map (λ c. CellAgrees fullmatch release c.1 (cases_at c.0 r.0))
                (RowAgrees fullmatch rows no_rows release results)
                (λ c h. (row_of_cases c).0 (subst (CellAgrees fullmatch release c.1) (cases c.0) h))
                cells (compare_rows-nil fullmatch release r.0 cells (l ∙ ap ok later)),
          )

      quiet :
          Agrees ledger_text results release
          → moves strings fullmatch rows no_rows ledger_text results release ≡ ok []
      quiet (cells, q, covered, agrees) =
          let (by_row, done) =
            covered-tally rows no_rows (sorted results) []
              (sorted-All (IsCovered rows no_rows) results covered) in
          let (_c, cases) = tally-gathered rows no_rows (sorted results) [] by_row done in
          >>=-ok _ done
          ∙ >>=-ok _ q
          ∙ >>=-ok _ (
              agrees-compare_rows fullmatch release by_row cells (
                All-map (RowAgrees fullmatch rows no_rows release results)
                  (λ c. CellAgrees fullmatch release c.1 (cases_at c.0 by_row))
                  (λ c h.
                    subst (CellAgrees fullmatch release c.1) (sym (cases c.0))
                      ((row_of_cases c).1 h))
                  cells agrees))
