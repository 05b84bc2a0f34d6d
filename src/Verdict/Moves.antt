-- ===== src/Verdict/Moves.antt =====
-- .github/scripts/btclib_node_verdict.py: `moves`, what a run's outcomes say against the ledger. A line of
-- the report is its kind and what it names.
use bitcoin_node_tests.Base.{
  Bool, true, false, not, Option, none, some, List, [], ◌∷◌, ◌++◌, map, if◌then◌else◌, ◌==◌, ltb,
}
use bitcoin_node_tests.Base.Raise.{◌>>=◌}
use bitcoin_node_tests.Base.Bytes.{Text, bytes_eq}
use bitcoin_node_tests.Verdict.{
  FullMatch, Status, expected, is_fail, locate, outcome, pass, skip, Expected, fail, row_of,
  split_once, key_parts,
}
use bitcoin_node_tests.Verdict.Ledger.{Strings, ledger_cells}
use bitcoin_node_tests.Base.Exec.{Result, err, ok, lookup_error}

-- the values of `_KIND`
pub data Kind : Type 0 where
  regression skipped fixed ran ran_and_failed : Kind

-- `_KIND.get((verdict, outcome))`
abbrev pub kind_of : Status → Status → Option Kind
kind_of pass fail = some regression
kind_of pass skip = some skipped
kind_of fail pass = some fixed
kind_of fail skip = some skipped
kind_of skip pass = some ran
kind_of skip fail = some ran_and_failed
kind_of _ _ = none

pub data Line : Type 0 where
  -- a testcase that `_ROWS` names no row for
  no_row : Text → Line
  -- a testcase that fails, and no ledger row covers it
  uncovered : Text → Line
  -- a row that no testcase of the report is
  missing : Text → Line
  moved : Kind → Text → Text → Status → List Text → Line

-- `sorted(results.items())`, by the keys
unfoldable pub text_le : Text → Text → Bool
text_le [] ys = true
text_le (x ∷ xs) [] = false
text_le (x ∷ xs) (y ∷ ys) = if x == y then text_le xs ys else ltb x y

unfoldable pub insert_item : (Text × Status) → List (Text × Status) → List (Text × Status)
unfolding text_le
insert_item item [] = item ∷ []
insert_item item (other ∷ rest) =
    if text_le item.0 other.0 then item ∷ other ∷ rest else other ∷ insert_item item rest

unfoldable pub sorted : List (Text × Status) → List (Text × Status)
unfolding insert_item
sorted [] = []
sorted (item ∷ rest) = insert_item item (sorted rest)

-- `cases[name] = status`
unfoldable pub put : Text → Status → List (Text × Status) → List (Text × Status)
unfolding bytes_eq
put name status [] = (name, status) ∷ []
put name status ((n, s) ∷ cases) =
    if bytes_eq n name then (n, status) ∷ cases else (n, s) ∷ put name status cases

-- `by_row`: the testcases of each row by their names
abbrev pub ByRow : Type 0
ByRow = List (Text × List (Text × Status))

-- `by_row.setdefault(row, {})[name] = status`
unfoldable pub add_case : Text → Text → Status → ByRow → ByRow
unfolding put bytes_eq
add_case row name status [] = (row, put name status []) ∷ []
add_case row name status ((r, cases) ∷ by_row) =
    if bytes_eq r row
    then (r, put name status cases) ∷ by_row
    else (r, cases) ∷ add_case row name status by_row

-- `by_row.get(row)`, where no testcases and no entry are one
unfoldable pub cases_at : Text → ByRow → List (Text × Status)
unfolding bytes_eq
cases_at row [] = []
cases_at row ((r, cases) ∷ by_row) = if bytes_eq r row then cases else cases_at row by_row

module _ (rows : Text → Option Text) (no_rows : Text → Bool) where
  -- What a testcase without a row is reported as.
  unfoldable pub uncovered_line : Text → Text → Status → List Line
  uncovered_line key stem status =
      if not (no_rows stem)
      then no_row key ∷ []
      else if is_fail status
      then uncovered key ∷ []
      else []

  abbrev with_lines : List Line → ByRow × List Line → ByRow × List Line
  with_lines lines (by_row, rest) = (by_row, lines ++ rest)

  -- The first loop: the testcases by row, and the lines on those without one.
  unfoldable pub tally : ByRow → List (Text × Status) → Result (ByRow × List Line)
  unfolding locate add_case split_once uncovered_line
  tally by_row [] = ok (by_row, [])
  tally by_row ((key, status) ∷ items) = locate key >>= λ place.
      elim (row_of rows place.0 place.1) [
        | some row ↦ (key_parts key >>= λ parts. tally (add_case row parts.1 status by_row) items)
        | none ↦ (tally by_row items >>= λ r. ok (with_lines (uncovered_line key place.0 status) r))
      ]

abbrev pub same_status : Status → Status → Bool
same_status pass pass = true
same_status fail fail = true
same_status skip skip = true
same_status _ _ = false

-- the names of the testcases with a status
unfoldable pub names_with : Status → List (Text × Status) → List Text
names_with status [] = []
names_with status ((n, s) ∷ cases) =
    let rest = names_with status cases in if same_status s status then n ∷ rest else rest

abbrev pub statuses : List (Text × Status) → List Status
statuses cases = map (λ c. c.1) cases

module _ (fullmatch : FullMatch) (release : Bool) where
  -- What a row with testcases is reported as.
  unfoldable pub moved_line :
      Text → Expected → List (Text × Status) → Option Kind → Result (List Line)
  unfolding outcome names_with
  moved_line row e cases none = err lookup_error
  moved_line row e cases (some kind) =
      let o = outcome (statuses cases) in ok (moved kind row e.text o (names_with o cases) ∷ [])

  unfoldable pub row_lines : Text → Option Expected → List (Text × Status) → Result (List Line)
  unfolding outcome moved_line names_with
  row_lines row none cases = ok []
  row_lines row (some e) [] = ok (missing row ∷ [])
  row_lines row (some e) (c ∷ cases) =
      let o = outcome (statuses (c ∷ cases)) in
      if same_status o e.outcome then ok [] else moved_line row e (c ∷ cases) (kind_of e.outcome o)

  -- The second loop: each row of the ledger.
  unfoldable pub compare_rows : ByRow → List (Text × Text) → Result (List Line)
  unfolding row_lines expected cases_at
  compare_rows by_row [] = ok []
  compare_rows by_row ((row, cell) ∷ cells) = expected fullmatch cell release >>= λ e.
      row_lines row e (cases_at row by_row) >>= λ lines.
      compare_rows by_row cells >>= λ rest. ok (lines ++ rest)

-- `moves`
module _ (strings : Strings) (fullmatch : FullMatch) (rows : Text → Option Text)
    (no_rows : Text → Bool) where
  unfoldable pub moves : Text → List (Text × Status) → Bool → Result (List Line)
  unfolding tally compare_rows ledger_cells sorted
  moves ledger_text results release = tally rows no_rows [] (sorted results) >>= λ r.
      ledger_cells strings ledger_text >>= λ cells.
      compare_rows fullmatch release r.0 cells >>= λ lines. ok (r.1 ++ lines)
