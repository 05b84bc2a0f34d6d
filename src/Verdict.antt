-- ===== src/Verdict.antt =====
-- .github/scripts/btclib_node_verdict.py: the testcases of a report, what the ledger expects of its rows,
-- and which row a testcase is. The regular expressions are a parameter, and so are the tables `_ROWS` and
-- `_NO_ROW`.
pub mod Ledger
pub mod Moves
pub mod Report
pub mod Grouped
pub mod Cells
pub mod Sorted
pub mod Rows
pub mod Cases
pub mod Agrees
mod Examples
use bitcoin_node_tests.Base.{
  ℕ, zero, suc, ◌+◌, ◌-◌, ◌*◌, ◌≤◌, ◌<◌, ◌≡◌, ◌≢◌, refl, sym, ap, ◌∙◌, ◌↔◌, ◌⊎◌, inl, inr, Bool,
  true, false, not, ◌&&◌, ◌||◌, Option, none, some, List, [], ◌∷◌, ◌++◌, map, arith, All,
  Bool-cases, length, drop, take, any, if◌then◌else◌,
}
use bitcoin_node_tests.Base.Raise.{◌>>=◌}
use bitcoin_node_tests.Base.Bytes.{Text, bytes_eq, codes}
use bitcoin_node_tests.Base.Search.{find, starts_with}
use bitcoin_node_tests.Base.Exec.{Result, err, ok, value_error}

-- an outcome, or a testcase's status
pub data Status : Type 0 where
  pass fail skip : Status

abbrev pub is_fail : Status → Bool
is_fail fail = true
is_fail _ = false

abbrev pub is_skip : Status → Bool
is_skip skip = true
is_skip _ = false

-- `_outcome`
unfoldable pub outcome : List Status → Status
outcome statuses =
    if any is_fail statuses then fail else if any is_skip statuses then skip else pass

-- `Expected`
pub record Expected : Type 0 where
  pub text : Text
  pub outcome : Status

-- The patterns of `_VERDICTS` in their order, `_ON_THE_BUILD` and `_ON_A_BUILD_PAST`.
pub data Pattern : Type 0 where
  is_pass not_ported fail_iss skip_capability on_the_build on_a_build_past : Pattern

-- `pattern.fullmatch(text)`, with the group `verdict`, or the whole text where there is none
abbrev pub FullMatch : Type 0
FullMatch = Pattern → Text → Option Text

abbrev pub verdicts : List (Pattern × Status)
verdicts = (is_pass, pass) ∷ (not_ported, fail) ∷ (fail_iss, fail) ∷ (skip_capability, skip) ∷ []

module _ (fullmatch : FullMatch) where
  abbrev pub verdict_or : Option Text → Text → Status → Result Expected → Result Expected
  verdict_or (some m) text o next = ok (record { text = text; outcome = o })
  verdict_or none text o next = next

  unfoldable pub verdict_among : List (Pattern × Status) → Text → Result Expected
  verdict_among [] text = err value_error
  verdict_among ((pattern, o) ∷ rest) text =
      verdict_or (fullmatch pattern text) text o (verdict_among rest text)

  -- `_verdict`
  unfoldable pub verdict : Text → Result Expected
  unfolding verdict_among
  verdict text = verdict_among verdicts text

-- `text.split(separator)`, for a separator of at least one character
abbrev onto_first : ℕ → List Text → List Text
onto_first c [] = (c ∷ []) ∷ []
onto_first c (t ∷ ts) = (c ∷ t) ∷ ts

unfoldable split_from : Text → ℕ → Text → List Text
unfolding starts_with
split_from separator skipped [] = [] ∷ []
split_from separator (suc skipped) (c ∷ cs) = split_from separator skipped cs
split_from separator zero (c ∷ cs) =
    let at_next = split_from separator (length separator - 1) cs in
    let further = split_from separator zero cs in
    if starts_with (c ∷ cs) separator then [] ∷ at_next else onto_first c further

abbrev pub split : Text → Text → List Text
unfolding split_from
split separator text = split_from separator zero text

-- `text.split(separator, 1)`: the parts before and behind the separator, where it stands in the text
abbrev parts_at : Text → Text → Option ℕ → Option (Text × Text)
parts_at separator text none = none
parts_at separator text (some n) = some (take n text, drop (n + length separator) text)

unfoldable pub split_once : Text → Text → Option (Text × Text)
unfolding find
split_once separator text = parts_at separator text (find separator text)

abbrev before_of : Text → Option (Text × Text) → Text
before_of text none = text
before_of text (some parts) = parts.0

-- `text.split(separator, 1)[0]`
abbrev pub before : Text → Text → Text
unfolding split_once
before separator text = before_of text (split_once separator text)

-- `text.rsplit(".", 1)[-1]`
abbrev last_or : Text → List Text → Text
last_or text [] = text
last_or text (t ∷ []) = t
last_or text (t ∷ rest) = last_or text rest

-- `text.removesuffix(suffix)`
unfoldable pub removesuffix : Text → Text → Text
unfolding bytes_eq
removesuffix suffix [] = []
removesuffix suffix (c ∷ cs) = if bytes_eq (c ∷ cs) suffix then [] else c ∷ removesuffix suffix cs

abbrev or_split_error : Option (Text × Text) → Result (Text × Text)
or_split_error none = err value_error
or_split_error (some parts) = ok parts

-- a key, `classname::name`, in its two parts
abbrev pub key_parts : Text → Result (Text × Text)
unfolding split_once
key_parts key = or_split_error (split_once (codes "::") key)

-- `locate`
unfoldable pub locate : Text → Result (Text × Text)
unfolding split_once split_from removesuffix
locate key = key_parts key >>= λ parts. ok (
  removesuffix (codes "_btclib_node_test") (last_or parts.0 (split (codes ".") parts.0)),
  before (codes "[") parts.1,
)

-- `row_of`, for a table `_ROWS`
abbrev row_or : Option Text → Option Text → Option Text
row_or (some row) other = some row
row_or none other = other

unfoldable pub row_of : (Text → Option Text) → Text → Text → Option Text
row_of rows stem function = row_or (rows (stem ++ codes "::" ++ function)) (rows stem)

-- `expected`
module _ (fullmatch : FullMatch) where
  -- what one segment says of a build: its verdict where it is that build's
  abbrev pub segment_verdict : Option Text → Option Text → Bool → Result (Option Text)
  segment_verdict (some v) past release = ok (if release then some v else none)
  segment_verdict none (some v) release = ok (if release then none else some v)
  segment_verdict none none release = err value_error

  abbrev pub with_found : Option Text → List Text → List Text
  with_found none found = found
  with_found (some v) found = v ∷ found

  unfoldable pub found_in : List Text → Bool → Result (List Text)
  found_in [] release = ok []
  found_in (segment ∷ segments) release =
      segment_verdict (fullmatch on_the_build segment) (fullmatch on_a_build_past segment) release
      >>= λ v. found_in segments release >>= λ found. ok (with_found v found)

  abbrev pub the_only : List Text → Result Text
  the_only (v ∷ []) = ok v
  the_only _ = err value_error

  abbrev pub some_verdict : Text → Result (Option Expected)
  unfolding verdict
  some_verdict text = verdict fullmatch text >>= λ e. ok (some e)

  abbrev pub is_single : List Text → Bool
  is_single (t ∷ []) = true
  is_single _ = false

  abbrev pub is_found : Option ℕ → Bool
  is_found none = false
  is_found (some n) = true

  -- whether a cell is a verdict for every build
  unfoldable pub is_plain : Text → Bool
  unfolding split_from find
  is_plain cell = is_single (split (codes "; ") cell) && not (is_found (find (codes " on ") cell))

  unfoldable pub expected : Text → Bool → Result (Option Expected)
  unfolding verdict found_in is_plain split_from bytes_eq
  expected cell release =
      if bytes_eq cell (codes "bitcoind only")
      then ok none
      else if is_plain cell
      then some_verdict cell
      else (found_in (split (codes "; ") cell) release >>= λ found.
          the_only found >>= λ text. some_verdict text)
