-- ===== src/Verdict/Ledger.antt =====
-- .github/scripts/btclib_node_verdict.py: `ledger_cells`. Python's `splitlines`, and `strip` with and
-- without the bars at both ends, are parameters.
use bitcoin_node_tests.Base.{
  Bool, false, ◌||◌, Option, none, some, List, [], ◌∷◌, ◌++◌, map, if◌then◌else◌,
}
use bitcoin_node_tests.Base.Raise.{◌>>=◌}
use bitcoin_node_tests.Base.Bytes.{Text, bytes_eq, codes}
use bitcoin_node_tests.Base.Search.{starts_with}
use bitcoin_node_tests.Verdict.{split_once, split_from, split, before}
use bitcoin_node_tests.Base.Exec.{Result, err, ok, value_error}

pub record Strings : Type 0 where
  pub splitlines : Text → List Text
  pub strip : Text → Text
  -- `line.strip("|")`
  pub strip_bars : Text → Text

-- the cells of a row by their place
abbrev five : List Text → Result (Text × Text)
five (a ∷ b ∷ c ∷ d ∷ e ∷ []) = ok (a, e)
five _ = err value_error

-- whether a row is in a table
unfoldable pub has_row : Text → List (Text × Text) → Bool
unfolding bytes_eq
has_row row [] = false
has_row row ((r, cell) ∷ cells) = bytes_eq r row || has_row row cells

module _ (strings : Strings) where
  abbrev row_cells : Text → List Text
  unfolding split_from
  row_cells line = map strings.strip (split (codes "|") (strings.strip_bars (strings.strip line)))

  -- the lines of the section, in order, behind the cells read so far
  unfoldable pub cells_from : List (Text × Text) → List Text → Result (List (Text × Text))
  unfolding starts_with split_from has_row
  cells_from cells [] = ok cells
  cells_from cells (line ∷ lines) =
      let further = cells_from cells lines in
      if starts_with line (codes "| `")
      then (five (row_cells line) >>= λ row.
          if has_row row.0 cells then err value_error else cells_from (cells ++ row ∷ []) lines)
      else further

  abbrev section_lines : Option (Text × Text) → Result (List (Text × Text))
  unfolding cells_from split_once
  section_lines none = err value_error
  section_lines (some parts) = cells_from [] (strings.splitlines (before (codes "\n## ") parts.1))

  -- `ledger_cells`
  unfoldable pub ledger_cells : Text → Result (List (Text × Text))
  unfolding cells_from split_once
  ledger_cells text = section_lines (split_once (codes "## The per-test ledger") text)
