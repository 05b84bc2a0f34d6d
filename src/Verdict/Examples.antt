-- ===== src/Verdict/Examples.antt =====
-- The theorems on a report and the ledger at a ledger of two rows.
use bitcoin_node_tests.Base.{
  ℕ, ◌≡◌, refl, ◌↔◌, Bool, true, false, Option, none, some, List, [], ◌∷◌, ◌==◌, if◌then◌else◌,
}
use bitcoin_node_tests.Verdict.{skip, Status, split, FullMatch, fail, pass, is_pass, not_ported}
use bitcoin_node_tests.Base.Bytes.{Text, bytes_eq, codes}
use bitcoin_node_tests.Verdict.Ledger.{Strings}
use bitcoin_node_tests.Verdict.Moves.{moves, moved, regression}
use bitcoin_node_tests.Verdict.Report.{
  Testcase, status_at, parse_junit, worst, statuses_of, parse_junit-worst,
}
use bitcoin_node_tests.Base.Exec.{ok}
use bitcoin_node_tests.Verdict.Agrees.{Agrees, moves-Agrees}
use bitcoin_node_tests.Verdict.Cases.{NoClash}

abbrev dropped : ℕ → Text → Text
dropped c [] = []
dropped c (x ∷ xs) = if x == c then dropped c xs else x ∷ xs

abbrev reversed : Text → Text → Text
reversed acc [] = acc
reversed acc (x ∷ xs) = reversed (x ∷ acc) xs

abbrev stripped : ℕ → Text → Text
stripped c t = reversed [] (dropped c (reversed [] (dropped c t)))

abbrev lines_of : Text → List Text
unfolding split
lines_of t = split (codes "\n") t

abbrev plain : Strings
plain = record { splitlines = lines_of; strip = stripped 32; strip_bars = stripped 124 }

-- `pass` and `not ported` alone
abbrev words : FullMatch
unfolding bytes_eq
words is_pass t = if bytes_eq t (codes "pass") then some t else none
words not_ported t = if bytes_eq t (codes "not ported") then some t else none
words _ t = none

abbrev two_rows : Text → Option Text
unfolding bytes_eq
two_rows t =
    if bytes_eq t (codes "a")
    then some (codes "`a.py`")
    else if bytes_eq t (codes "b")
    then some (codes "`b.py`")
    else none

abbrev own : Text → Bool
unfolding bytes_eq
own t = bytes_eq t (codes "own")

abbrev ledger : Text
ledger =
    codes
      "## The per-test ledger\n\n| `a.py` | x | x | x | pass |\n| `b.py` | x | x | x | not ported |\n"

abbrev results : Status → List (Text × Status)
results status =
    (codes "it.b_btclib_node_test::test_b", fail)
    ∷ (codes "it.own_btclib_node_test::test_c", pass)
    ∷ (codes "it.a_btclib_node_test::test_a[x]", status)
    ∷ []

no_clash : NoClash two_rows own (results pass)
unfolding bitcoin_node_tests.Verdict.row_of bitcoin_node_tests.Verdict.locate
    bitcoin_node_tests.Verdict.split_once
no_clash =
    (((λ p h k. cc (h, k)), ((λ p h k. cc (h, k)), tt)), (((λ p h k. cc (h, k)), tt), (tt, tt)))

moves-Agrees_example :
    (moves plain words two_rows own ledger (results pass) true ≡ ok [])
    ↔ Agrees plain words two_rows own ledger (results pass) true
moves-Agrees_example = moves-Agrees plain words two_rows own ledger (results pass) true no_clash

nothing_moved : moves plain words two_rows own ledger (results pass) true ≡ ok []
unfolding moves bitcoin_node_tests.Verdict.row_of
nothing_moved = refl

a_regression :
    moves plain words two_rows own ledger (results fail) true
    ≡ ok (moved regression (codes "`a.py`") (codes "pass") fail (codes "test_a[x]" ∷ []) ∷ [])
unfolding moves bitcoin_node_tests.Verdict.row_of
a_regression = refl

abbrev a_case : Bool → Bool → List Text → Testcase
a_case failure skipped errors = record {
  classname = codes "it.a";
  name = codes "t";
  failure = failure;
  skipped = skipped;
  errors = errors;
}

-- a test that skipped, and whose teardown failed in another way than the time out
abbrev twice : List Testcase
twice = a_case false true [] ∷ a_case false false (codes "failed on teardown" ∷ []) ∷ []

parse_junit-worst_example :
    status_at (codes "it.a::t") (parse_junit twice) ≡ worst (statuses_of (codes "it.a::t") twice)
parse_junit-worst_example = parse_junit-worst (codes "it.a::t") twice

worst_kept : status_at (codes "it.a::t") (parse_junit twice) ≡ some fail
unfolding status_at parse_junit
worst_kept = refl
