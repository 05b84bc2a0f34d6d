-- ===== src/Verdict/Report.antt =====
-- .github/scripts/btclib_node_verdict.py: `parse_junit` and `teardown_timeouts`, on the testcases of a
-- report, and that a name has the worst outcome of all its testcases.
use bitcoin_node_tests.Base.{
  ◌≡◌, refl, sym, ap, ◌∙◌, inl, inr, Bool, true, false, not, ◌||◌, Option, none, some, List, [],
  ◌∷◌, ◌++◌, map, Bool-cases, any, if◌then◌else◌, keep_if,
}
use bitcoin_node_tests.Base.Bytes.{Text, bytes_eq, codes, bytes_eq→eq}
use bitcoin_node_tests.Base.Search.{starts_with}
use bitcoin_node_tests.Verdict.{Status, outcome, fail, pass, skip}

-- A `<testcase>`: whether it has a `<failure>` and a `<skipped>` child, and the messages of its
-- `<error>` children.
pub record Testcase : Type 0 where
  pub classname : Text
  pub name : Text
  pub failure : Bool
  pub skipped : Bool
  pub errors : List Text

-- `_is_teardown_timeout`
unfoldable pub is_teardown_timeout : Text → Bool
unfolding starts_with
is_teardown_timeout message =
    starts_with message
      (codes "failed on teardown with \"TimeoutError: node process ignored terminate for ")

abbrev pub key_of : Testcase → Text
key_of c = c.classname ++ codes "::" ++ c.name

abbrev pub status_of : Testcase → Status
unfolding is_teardown_timeout
status_of c =
    if c.failure || any (λ e. not (is_teardown_timeout e)) c.errors
    then fail
    else if c.skipped
    then skip
    else pass

-- `results[key] = ...`: the worse of two of one name
unfoldable pub with_status : Text → Status → List (Text × Status) → List (Text × Status)
unfolding bytes_eq outcome
with_status key status [] = (key, status) ∷ []
with_status key status ((k, s) ∷ results) =
    if bytes_eq k key
    then (k, outcome (s ∷ status ∷ [])) ∷ results
    else (k, s) ∷ with_status key status results

unfoldable pub parse_from : List (Text × Status) → List Testcase → List (Text × Status)
unfolding with_status is_teardown_timeout
parse_from results [] = results
parse_from results (c ∷ cases) = parse_from (with_status (key_of c) (status_of c) results) cases

-- `parse_junit`
unfoldable pub parse_junit : List Testcase → List (Text × Status)
unfolding parse_from
parse_junit cases = parse_from [] cases

-- `teardown_timeouts`, before it is sorted
abbrev pub timed_out : Testcase → Bool
unfolding is_teardown_timeout
timed_out c = any is_teardown_timeout c.errors

unfoldable pub teardown_timeouts : List Testcase → List Text
teardown_timeouts cases = map key_of (keep_if timed_out cases)

-- `results.get(key)`
unfoldable pub status_at : Text → List (Text × Status) → Option Status
unfolding bytes_eq
status_at key [] = none
status_at key ((k, s) ∷ results) = if bytes_eq k key then some s else status_at key results

-- The statuses of all testcases of a name, and the worst of some.
abbrev pub statuses_of : Text → List Testcase → List Status
statuses_of key cases = map status_of (keep_if (λ c. bytes_eq (key_of c) key) cases)

abbrev pub worst : List Status → Option Status
worst [] = none
worst (s ∷ statuses) = some (outcome (s ∷ statuses))

abbrev worse : Option Status → List Status → Option Status
worse none statuses = worst statuses
worse (some s) [] = some s
worse (some s) (t ∷ statuses) = some (outcome (s ∷ t ∷ statuses))

outcome_one : (s : Status) → outcome (s ∷ []) ≡ s
unfolding outcome
outcome_one pass = refl
outcome_one fail = refl
outcome_one skip = refl

outcome_pair :
    (s t : Status) (rest : List Status)
    → outcome (outcome (s ∷ t ∷ []) ∷ rest) ≡ outcome (s ∷ t ∷ rest)
unfolding outcome
outcome_pair pass pass rest = refl
outcome_pair pass fail rest = refl
outcome_pair pass skip rest = refl
outcome_pair fail pass rest = refl
outcome_pair fail fail rest = refl
outcome_pair fail skip rest = refl
outcome_pair skip pass rest = refl
outcome_pair skip fail rest = refl
outcome_pair skip skip rest = refl

worse_none : (o : Option Status) → o ≡ worse o []
worse_none none = refl
worse_none (some s) = refl

-- Two names of one entry are one name.
pub other_name :
    (k k' key : Text) → bytes_eq k' k ≡ false → bytes_eq k' key ≡ true → bytes_eq k key ≡ false
other_name k k' key h e = elim (Bool-cases (bytes_eq k key)) [
  | inr f ↦ f
  | inl f ↦ cc (h, ap (bytes_eq k') (bytes_eq→eq k key f), e)
]

status_at-with_status :
    (key k : Text) (s : Status) (results : List (Text × Status))
    → status_at key (with_status k s results)
      ≡ (if bytes_eq k key then worse (status_at key results) (s ∷ []) else status_at key results)
unfolding status_at with_status
status_at-with_status key k s [] = elim (Bool-cases (bytes_eq k key)) [
  | inl e ↦ rw e (ap some (sym (outcome_one s)))
  | inr e ↦ rw e refl
]
status_at-with_status key k s ((k', s') ∷ results) = elim (Bool-cases (bytes_eq k' k)) [
  | inl e ↦
      let same = ap (λ t. bytes_eq t key) (bytes_eq→eq k' k e) in
      elim (Bool-cases (bytes_eq k key)) [
        | inl f ↦ rw (e, same, f) refl
        | inr f ↦ rw (e, same, f) refl
      ]
  | inr e ↦ elim (Bool-cases (bytes_eq k' key)) [
    | inl f ↦ rw (e, f, other_name k k' key e f) refl
    | inr f ↦ rw (e, f) (status_at-with_status key k s results)
  ]
]

worse_twice :
    (o : Option Status) (s : Status) (statuses : List Status)
    → worse (worse o (s ∷ [])) statuses ≡ worse o (s ∷ statuses)
worse_twice none s [] = refl
worse_twice none s (t ∷ statuses) = ap (λ x. some (outcome (x ∷ t ∷ statuses))) (outcome_one s)
worse_twice (some r) s [] = refl
worse_twice (some r) s (t ∷ statuses) = ap some (outcome_pair r s (t ∷ statuses))

parse_from-worse :
    (key : Text) (results : List (Text × Status)) (cases : List Testcase)
    → status_at key (parse_from results cases)
      ≡ worse (status_at key results) (statuses_of key cases)
unfolding parse_from
parse_from-worse key results [] = worse_none (status_at key results)
parse_from-worse key results (c ∷ cases) =
    parse_from-worse key (with_status (key_of c) (status_of c) results) cases
    ∙ elim (Bool-cases (bytes_eq (key_of c) key)) [
      | inl e ↦
          rw (status_at-with_status key (key_of c) (status_of c) results, e)
            (worse_twice (status_at key results) (status_of c) (statuses_of key cases))
      | inr e ↦ rw (status_at-with_status key (key_of c) (status_of c) results, e) refl
    ]

-- parse_junit gives a name the worst status of all the testcases of this name in the report,
-- whatever stands between them, and none where it has no testcase.
pub parse_junit-worst :
    (key : Text) (cases : List Testcase)
    → status_at key (parse_junit cases) ≡ worst (statuses_of key cases)
unfolding status_at parse_junit parse_from
parse_junit-worst key cases = parse_from-worse key [] cases
