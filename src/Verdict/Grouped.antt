-- ===== src/Verdict/Grouped.antt =====
-- The first loop of `moves` of .github/scripts/btclib_node_verdict.py: the testcases of each row.
use bitcoin_node_tests.Base.{
  ◌≡◌, refl, sym, ap, ◌∙◌, ◌⊎◌, inl, inr, Bool, true, false, Option, none, some, List, [], ◌∷◌,
  ◌++◌, All, Bool-cases, if◌then◌else◌, Option-cases,
}
use bitcoin_node_tests.Base.Raise.{>>=-eq-ok, ok-injective, >>=-ok}
use bitcoin_node_tests.Base.Bytes.{Text, bytes_eq, bytes_eq→eq}
use bitcoin_node_tests.Verdict.Moves.{cases_at, add_case, put, ByRow, tally, uncovered_line, Line}
use bitcoin_node_tests.Verdict.{Status, locate, row_of, is_fail, key_parts}
use bitcoin_node_tests.Base.Exec.{ok, Result, err}
use bitcoin_node_tests.Verdict.Report.{other_name}

cases_at-add_case :
    (q row name : Text) (status : Status) (by_row : ByRow)
    → cases_at q (add_case row name status by_row)
      ≡ (if bytes_eq row q then put name status (cases_at q by_row) else cases_at q by_row)
unfolding cases_at add_case put
cases_at-add_case q row name status [] = refl
cases_at-add_case q row name status ((r, cases) ∷ by_row) = elim (Bool-cases (bytes_eq r row)) [
  | inl e ↦
      let same = ap (λ t. bytes_eq t q) (bytes_eq→eq r row e) in
      elim (Bool-cases (bytes_eq row q)) [
        | inl f ↦ rw (e, same, f) refl
        | inr f ↦ rw (e, same, f) refl
      ]
  | inr e ↦ elim (Bool-cases (bytes_eq r q)) [
    | inl f ↦ rw (e, f, other_name row r q e f) refl
    | inr f ↦ rw (e, f) (cases_at-add_case q row name status by_row)
  ]
]

pub append-nil_parts : (xs ys : List Line) → xs ++ ys ≡ [] → (xs ≡ []) × (ys ≡ [])
append-nil_parts [] ys h = (refl, h)
append-nil_parts (x ∷ xs) ys h = cc h

module _ (rows : Text → Option Text) (no_rows : Text → Bool) where
  -- The row of a testcase, and its name there.
  abbrev named_in : Result (Text × Text) → Option Text → Option (Text × Text)
  named_in (ok parts) (some row) = some (row, parts.1)
  named_in _ _ = none

  abbrev row_at : Result (Text × Text) → Option Text
  row_at (ok place) = row_of rows place.0 place.1
  row_at (err e) = none

  abbrev pub row_name : Text → Option (Text × Text)
  row_name key = named_in (key_parts key) (row_at (locate key))

  abbrev pub gather :
      Text → Option (Text × Text) → Status → List (Text × Status) → List (Text × Status)
  gather row (some (r, name)) status cases = if bytes_eq r row then put name status cases else cases
  gather row none status cases = cases

  -- The testcases of a row among some, by their names, the later of two of one name.
  unfoldable pub gathered :
      Text → List (Text × Status) → List (Text × Status) → List (Text × Status)
  gathered row cases [] = cases
  gathered row cases ((key, status) ∷ items) =
      gathered row (gather row (row_name key) status cases) items

  -- A testcase that is no line of the report: it has a row, or it is one of the repository's own tests and
  -- does not fail.
  abbrev pub IsCovered : Text × Status → Type 0
  IsCovered (key, status) =
      (place : Text × Text) × (locate key ≡ ok place)
      × (((row : Text) × (row_of rows place.0 place.1 ≡ some row))
          ⊎ ((row_of rows place.0 place.1 ≡ none)
              × (no_rows place.0 ≡ true)
              × (is_fail status ≡ false)))

  uncovered_line-nil :
      (key stem : Text) (status : Status)
      → uncovered_line rows no_rows key stem status ≡ []
      → (no_rows stem ≡ true) × (is_fail status ≡ false)
  unfolding uncovered_line
  uncovered_line-nil key stem status h = elim (Bool-cases (no_rows stem)) [
    | inr e ↦ cc (rw e at h)
    | inl e ↦ elim (Bool-cases (is_fail status)) [ inl f ↦ cc (rw (e, f) at h) | inr f ↦ (e, f) ]
  ]

  nothing :
      (key stem : Text) (status : Status)
      → no_rows stem ≡ true
      → is_fail status ≡ false
      → uncovered_line rows no_rows key stem status ≡ []
  unfolding uncovered_line
  nothing key stem status e f = rw (e, f) refl

  both : (t : ByRow × List Line) (by_row : ByRow) → t.0 ≡ by_row → t.1 ≡ [] → t ≡ (by_row, [])
  both (x, y) by_row e f = rw (e, f) refl

  located-parts :
      (key : Text) (place : Text × Text)
      → locate key ≡ ok place
      → (parts : Text × Text) × (key_parts key ≡ ok parts)
  unfolding locate
  located-parts key place h = let (parts, q, _r) = >>=-eq-ok (key_parts key) _ h in (parts, q)

  pub tally-gathered :
      (items : List (Text × Status)) (by_row by_row' : ByRow)
      → tally rows no_rows by_row items ≡ ok (by_row', [])
      → All IsCovered items
        × ((row : Text) → cases_at row by_row' ≡ gathered row (cases_at row by_row) items)
  unfolding tally gathered
  tally-gathered [] by_row by_row' h = (tt, λ row. ap (cases_at row) (kept h))
    where
      kept :
          {by by' : ByRow}
          → ◌≡◌ {A = Result (ByRow × List Line)} (ok (by, [])) (ok (by', []))
          → by' ≡ by
      kept e = sym (ap (λ r. r.0) (ok-injective e))
  tally-gathered ((key, status) ∷ items) by_row by_row' h =
      let (place, q, h₁) = >>=-eq-ok (locate key) _ h in
      elim (Option-cases (row_of rows place.0 place.1)) [
        | inr (row, r) ↦
            let (parts, k, h₂) = >>=-eq-ok (key_parts key) _ (rw r at h₁) in
            let (all, cases) =
              tally-gathered items (add_case row parts.1 status by_row) by_row' h₂ in
            (
              ((place, q, inl (row, r)), all),
              λ other.
                  cases other
                  ∙ rw (q, r, k, cases_at-add_case other row parts.1 status by_row) refl,
            )
        | inl r ↦
            let (t, k, h₂) = >>=-eq-ok (tally rows no_rows by_row items) _ (rw r at h₁) in
            let same = ok-injective h₂ in
            let (none_here, none_later) =
              append-nil_parts (uncovered_line rows no_rows key place.0 status) t.1
                (ap (λ p. p.1) same) in
            let (own, passing) = uncovered_line-nil key place.0 status none_here in
            let (all, cases) =
              tally-gathered items by_row by_row'
                (k ∙ ap ok (both t by_row' (ap (λ p. p.0) same) none_later)) in
            (
              ((place, q, inr (r, own, passing)), all),
              λ other. cases other ∙ rw (q, r, (located-parts key place q).1) refl,
            )
      ]

  pub covered-tally :
      (items : List (Text × Status)) (by_row : ByRow)
      → All IsCovered items
      → (by_row' : ByRow) × (tally rows no_rows by_row items ≡ ok (by_row', []))
  unfolding tally
  covered-tally [] by_row h = (by_row, refl)
  covered-tally ((key, status) ∷ items) by_row ((place, q, inl (row, r)), all) =
      let (parts, k) = located-parts key place q in
      let (by_row', done) = covered-tally items (add_case row parts.1 status by_row) all in
      (by_row', >>=-ok _ q ∙ rw r (>>=-ok _ k ∙ done))
  covered-tally ((key, status) ∷ items) by_row ((place, q, inr (r, own, passing)), all) =
      let (by_row', done) = covered-tally items by_row all in
      (
        by_row',
        >>=-ok _ q
            ∙ rw r (
                >>=-ok _ done
                ∙ ap (λ l. ok (by_row', l ++ [])) (nothing key place.0 status own passing)),
      )
