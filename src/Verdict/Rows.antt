-- ===== src/Verdict/Rows.antt =====
-- The testcases of a row of the ledger among those of a report, and the row's outcome.
use bitcoin_node_tests.Verdict.{Status, pass, fail, skip, outcome, is_fail, is_skip}
use bitcoin_node_tests.Base.{
  List, ◌↔◌, ◌≡◌, any, refl, true, ◌≢◌, [], any-Memᴰ, ◌∷◌, Bool-cases, inr, Memᴰ-any, inl,
}
use mathlib.Core.List.{Memᴰ}
use mathlib.Core.Path.{subst}

-- What a row did, by the statuses that its testcases have: it failed where any failed, skipped where
-- none failed and any skipped, and passed where there are some and every one passed.
abbrev pub IsOutcome : (Status → Type 0) → Status → Type 0
IsOutcome Has fail = Has fail
IsOutcome Has skip = (¬ Has fail) × Has skip
IsOutcome Has pass = (¬ Has fail) × (¬ Has skip) × Has pass

pub IsOutcome-map :
    (Has Has' : Status → Type 0) (o : Status)
    → ((s : Status) → Has s ↔ Has' s)
    → IsOutcome Has o
    → IsOutcome Has' o
IsOutcome-map Has Has' fail h k = (h fail).0 k
IsOutcome-map Has Has' skip h (k, l) = ((λ m. k ((h fail).1 m)), (h skip).0 l)
IsOutcome-map Has Has' pass h (k, l, m) =
    ((λ x. k ((h fail).1 x)), (λ x. l ((h skip).1 x)), (h pass).0 m)

fails : (s : Status) → is_fail s ≡ true → s ≡ fail
fails fail h = refl
fails pass h = cc h
fails skip h = cc h

skips : (s : Status) → is_skip s ≡ true → s ≡ skip
skips skip h = refl
skips pass h = cc h
skips fail h = cc h

any_fail : (ss : List Status) → (any is_fail ss ≡ true) ↔ Memᴰ fail ss
any_fail ss = (
  (λ h. let (s, m, e) = any-Memᴰ is_fail ss h in subst (λ x. Memᴰ x ss) (fails s e) m),
  λ m. Memᴰ-any is_fail ss m refl,
)

any_skip : (ss : List Status) → (any is_skip ss ≡ true) ↔ Memᴰ skip ss
any_skip ss = (
  (λ h. let (s, m, e) = any-Memᴰ is_skip ss h in subst (λ x. Memᴰ x ss) (skips s e) m),
  λ m. Memᴰ-any is_skip ss m refl,
)

-- a status of a list with none that failed or skipped
passed_only :
    (s : Status) (ss : List Status)
    → (¬ Memᴰ fail (s ∷ ss))
    → (¬ Memᴰ skip (s ∷ ss))
    → Memᴰ pass (s ∷ ss)
passed_only pass ss h k = Memᴰ.head refl
passed_only fail ss h k = absurd (h (Memᴰ.head refl))
passed_only skip ss h k = absurd (k (Memᴰ.head refl))

pub outcome-IsOutcome : (ss : List Status) → ss ≢ [] → IsOutcome (λ s. Memᴰ s ss) (outcome ss)
unfolding outcome
outcome-IsOutcome [] h = absurd (h refl)
outcome-IsOutcome (s ∷ ss) h = elim (Bool-cases (any is_fail (s ∷ ss))) [
  | inl f ↦ rw f ((any_fail (s ∷ ss)).0 f)
  | inr f ↦
      let no_fail : ¬ Memᴰ fail (s ∷ ss) = λ m. cc ((any_fail (s ∷ ss)).1 m, f) in
      elim (Bool-cases (any is_skip (s ∷ ss))) [
        | inl k ↦ rw (f, k) (no_fail, (any_skip (s ∷ ss)).0 k)
        | inr k ↦
            let no_skip : ¬ Memᴰ skip (s ∷ ss) = λ m. cc ((any_skip (s ∷ ss)).1 m, k) in
            rw (f, k) (no_fail, no_skip, passed_only s ss no_fail no_skip)
      ]
]

-- Two outcomes of one row are one.
pub IsOutcome-unique :
    (Has : Status → Type 0) (o o' : Status) → IsOutcome Has o → IsOutcome Has o' → o ≡ o'
IsOutcome-unique Has fail fail h k = refl
IsOutcome-unique Has skip skip h k = refl
IsOutcome-unique Has pass pass h k = refl
IsOutcome-unique Has fail skip h (n, k) = absurd (n h)
IsOutcome-unique Has fail pass h (n, k, l) = absurd (n h)
IsOutcome-unique Has skip fail (n, h) k = absurd (n k)
IsOutcome-unique Has skip pass (n, h) (m, k, l) = absurd (k h)
IsOutcome-unique Has pass fail (n, h, l) k = absurd (n k)
IsOutcome-unique Has pass skip (n, h, l) (m, k) = absurd (h k)

IsOutcome-has : (Has : Status → Type 0) (o : Status) → IsOutcome Has o → Has o
IsOutcome-has Has fail h = h
IsOutcome-has Has skip h = h.1
IsOutcome-has Has pass h = h.2

pub IsOutcome-outcome :
    (ss : List Status) (o : Status) → IsOutcome (λ s. Memᴰ s ss) o → (ss ≢ []) × (outcome ss ≡ o)
IsOutcome-outcome ss o h =
    let some_status : ss ≢ [] = some_of ss o (IsOutcome-has (λ s. Memᴰ s ss) o h) in
    (
      some_status,
      IsOutcome-unique (λ s. Memᴰ s ss) (outcome ss) o (outcome-IsOutcome ss some_status) h,
    )
  where
    some_of : (ss : List Status) (o : Status) → Memᴰ o ss → ss ≢ []
    some_of [] o m e = elim m [ ]
    some_of (s ∷ ss) o m e = cc e
