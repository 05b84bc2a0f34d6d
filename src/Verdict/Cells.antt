-- ===== src/Verdict/Cells.antt =====
-- What a cell of the ledger expects of a build, read without `expected` of
-- .github/scripts/btclib_node_verdict.py, and that `expected` reads the same.
use bitcoin_node_tests.Verdict.{
  FullMatch, Pattern, Status, Expected, pass, fail, skip, is_pass, not_ported, fail_iss,
  skip_capability, on_the_build, on_a_build_past, verdict, verdict_among, split, found_in,
  segment_verdict, with_found, the_only, is_plain, expected, some_verdict, is_single, is_found,
}
use bitcoin_node_tests.Base.{
  Bool, List, Option, All, some, true, false, ℕ, ◌∷◌, ◌≡◌, ◌≢◌, ◌⊎◌, Bool-cases, Option-cases, [],
  ap, arith, inl, inr, none, not, refl, sym, ◌∙◌,
}
use bitcoin_node_tests.Base.Bytes.{Text, codes, bytes_eq, bytes_eq→eq, bytes_eq_refl}
use bitcoin_node_tests.Base.Exec.{Result, ok}
use bitcoin_node_tests.Base.Raise.{>>=-eq-ok, >>=-ok, ok-injective}
use mathlib.Core.Path.{subst}
use bitcoin_node_tests.Base.Search.{find}

module _ (fullmatch : FullMatch) where
  abbrev pub Matches : Pattern → Text → Type 0
  Matches pattern t = (m : Text) × (fullmatch pattern t ≡ some m)

  abbrev pub Refuses : Pattern → Text → Type 0
  Refuses pattern t = fullmatch pattern t ≡ none

  -- The outcome that a verdict expects: the ledger's patterns, in their order.
  abbrev pub IsVerdict : Text → Status → Type 0
  IsVerdict t pass = Matches is_pass t
  IsVerdict t fail =
      Refuses is_pass t × (Matches not_ported t ⊎ (Refuses not_ported t × Matches fail_iss t))
  IsVerdict t skip =
      Refuses is_pass t × Refuses not_ported t × Refuses fail_iss t × Matches skip_capability t

  made :
      (t : Text) (o : Status) (e : Expected)
      → ok (record { text = t; outcome = o }) ≡ ok e
      → IsVerdict t o
      → (e.text ≡ t) × IsVerdict t e.outcome
  made t o e h v =
      subst (λ (x : Expected). (x.text ≡ t) × IsVerdict t x.outcome) (ok-injective h) (refl, v)

  verdict-IsVerdict :
      (t : Text) (e : Expected) → verdict fullmatch t ≡ ok e → (e.text ≡ t) × IsVerdict t e.outcome
  unfolding verdict verdict_among
  verdict-IsVerdict t e h = elim (Option-cases (fullmatch is_pass t)) [
    | inr (m, q) ↦ made t pass e (rw q at h) (m, q)
    | inl q ↦ elim (Option-cases (fullmatch not_ported t)) [
      | inr (m, q₁) ↦ made t fail e (rw (q, q₁) at h) (q, inl (m, q₁))
      | inl q₁ ↦ elim (Option-cases (fullmatch fail_iss t)) [
        | inr (m, q₂) ↦ made t fail e (rw (q, q₁, q₂) at h) (q, inr (q₁, (m, q₂)))
        | inl q₂ ↦ elim (Option-cases (fullmatch skip_capability t)) [
          | inr (m, q₃) ↦ made t skip e (rw (q, q₁, q₂, q₃) at h) (q, q₁, q₂, (m, q₃))
          | inl q₃ ↦ cc (rw (q, q₁, q₂, q₃) at h)
        ]
      ]
    ]
  ]

  IsVerdict-verdict :
      (t : Text) (o : Status)
      → IsVerdict t o
      → verdict fullmatch t ≡ ok (record { text = t; outcome = o })
  unfolding verdict verdict_among
  IsVerdict-verdict t pass (m, q) = rw q refl
  IsVerdict-verdict t fail (q, inl (m, q₁)) = rw (q, q₁) refl
  IsVerdict-verdict t fail (q, inr (q₁, (m, q₂))) = rw (q, q₁, q₂) refl
  IsVerdict-verdict t skip (q, q₁, q₂, (m, q₃)) = rw (q, q₁, q₂, q₃) refl

  -- A segment that gives the build a verdict, and one that speaks of another build.
  abbrev pub Says : Bool → Text → Text → Type 0
  Says true segment t = fullmatch on_the_build segment ≡ some t
  Says false segment t = Refuses on_the_build segment × (fullmatch on_a_build_past segment ≡ some t)

  abbrev pub IsSilent : Bool → Text → Type 0
  IsSilent true segment = Refuses on_the_build segment × Matches on_a_build_past segment
  IsSilent false segment = Matches on_the_build segment

  -- One segment alone gives the build a verdict.
  abbrev pub SaysOnly : Bool → List Text → Text → Type 0
  SaysOnly release [] t = ⊥
  SaysOnly release (segment ∷ segments) t =
      (Says release segment t × All (IsSilent release) segments)
      ⊎ (IsSilent release segment × SaysOnly release segments t)

  abbrev said : Bool → Text → Result (Option Text)
  said release segment =
      segment_verdict fullmatch (fullmatch on_the_build segment) (fullmatch on_a_build_past segment)
        release

  Says-said :
      (release : Bool) (segment t : Text)
      → Says release segment t
      → said release segment ≡ ok (some t)
  Says-said true segment t q = rw q refl
  Says-said false segment t (q, q₁) = rw (q, q₁) refl

  IsSilent-said :
      (release : Bool) (segment : Text) → IsSilent release segment → said release segment ≡ ok none
  IsSilent-said true segment (q, (m, q₁)) = rw (q, q₁) refl
  IsSilent-said false segment (m, q) = rw q refl

  -- What a segment is, by what the code makes of it.
  abbrev IsSegment : Bool → Text → Option Text → Type 0
  IsSegment release segment none = IsSilent release segment
  IsSegment release segment (some t) = Says release segment t

  said-IsSegment :
      (release : Bool) (segment : Text) (o : Option Text)
      → said release segment ≡ ok o
      → IsSegment release segment o
  said-IsSegment true segment o h = elim (Option-cases (fullmatch on_the_build segment)) [
    | inr (m, q) ↦ subst (IsSegment true segment) (ok-injective (rw q at h)) q
    | inl q ↦ elim (Option-cases (fullmatch on_a_build_past segment)) [
      | inr (m, q₁) ↦ subst (IsSegment true segment) (ok-injective (rw (q, q₁) at h)) (q, (m, q₁))
      | inl q₁ ↦ cc (rw (q, q₁) at h)
    ]
  ]
  said-IsSegment false segment o h = elim (Option-cases (fullmatch on_the_build segment)) [
    | inr (m, q) ↦ subst (IsSegment false segment) (ok-injective (rw q at h)) (m, q)
    | inl q ↦ elim (Option-cases (fullmatch on_a_build_past segment)) [
      | inr (m, q₁) ↦ subst (IsSegment false segment) (ok-injective (rw (q, q₁) at h)) (q, q₁)
      | inl q₁ ↦ cc (rw (q, q₁) at h)
    ]
  ]

  -- The verdicts found: none of the segments gives one, or one alone does.
  abbrev Finds : Bool → List Text → List Text → Type 0
  Finds release segments [] = All (IsSilent release) segments
  Finds release segments (t ∷ []) = SaysOnly release segments t
  Finds release segments (t ∷ t' ∷ ts) = Unit

  Finds-cons :
      (release : Bool) (segment : Text) (segments : List Text) (o : Option Text) (found : List Text)
      → IsSegment release segment o
      → Finds release segments found
      → Finds release (segment ∷ segments) (with_found fullmatch o found)
  Finds-cons release segment segments none [] q f = (q, f)
  Finds-cons release segment segments none (t ∷ []) q f = inr (q, f)
  Finds-cons release segment segments none (t ∷ t' ∷ ts) q f = tt
  Finds-cons release segment segments (some v) [] q f = inl (q, f)
  Finds-cons release segment segments (some v) (t ∷ []) q f = tt
  Finds-cons release segment segments (some v) (t ∷ t' ∷ ts) q f = tt

  found_in-Finds :
      (release : Bool) (segments found : List Text)
      → found_in fullmatch segments release ≡ ok found
      → Finds release segments found
  unfolding found_in
  found_in-Finds release [] found h = subst (Finds release []) (ok-injective h) tt
  found_in-Finds release (segment ∷ segments) found h =
      let (o, q, h₁) = >>=-eq-ok (said release segment) _ h in
      let (rest, q₁, h₂) = >>=-eq-ok (found_in fullmatch segments release) _ h₁ in
      subst (Finds release (segment ∷ segments)) (ok-injective h₂) (
        Finds-cons release segment segments o rest (said-IsSegment release segment o q)
          (found_in-Finds release segments rest q₁))

  silent-found_in :
      (release : Bool) (segments : List Text)
      → All (IsSilent release) segments
      → found_in fullmatch segments release ≡ ok []
  unfolding found_in
  silent-found_in release [] all = refl
  silent-found_in release (segment ∷ segments) (q, all) =
      >>=-ok _ (IsSilent-said release segment q) ∙ >>=-ok _ (silent-found_in release segments all)

  SaysOnly-found_in :
      (release : Bool) (segments : List Text) (t : Text)
      → SaysOnly release segments t
      → found_in fullmatch segments release ≡ ok (t ∷ [])
  unfolding found_in
  SaysOnly-found_in release [] t h = absurd h
  SaysOnly-found_in release (segment ∷ segments) t (inl (q, all)) =
      >>=-ok _ (Says-said release segment t q) ∙ >>=-ok _ (silent-found_in release segments all)
  SaysOnly-found_in release (segment ∷ segments) t (inr (q, later)) =
      >>=-ok _ (IsSilent-said release segment q)
      ∙ >>=-ok _ (SaysOnly-found_in release segments t later)

  -- A cell that is one verdict, true of every build.
  abbrev pub IsPlain : Text → Type 0
  IsPlain cell =
      ((t : Text) × (split (codes "; ") cell ≡ t ∷ [])) × (find (codes " on ") cell ≡ none)

  single-cons : (ts : List Text) → is_single fullmatch ts ≡ true → (t : Text) × (ts ≡ t ∷ [])
  single-cons [] h = cc h
  single-cons (t ∷ []) h = (t, refl)
  single-cons (t ∷ t' ∷ ts) h = cc h

  not_found : (o : Option ℕ) → not (is_found fullmatch o) ≡ true → o ≡ none
  not_found none h = refl
  not_found (some n) h = cc h

  is_plain-IsPlain : (cell : Text) → is_plain fullmatch cell ≡ true → IsPlain cell
  unfolding is_plain
  is_plain-IsPlain cell h = (
    single-cons (split (codes "; ") cell) (ground (arith, h)),
    not_found (find (codes " on ") cell) (ground (arith, h)),
  )

  IsPlain-is_plain : (cell : Text) → IsPlain cell → is_plain fullmatch cell ≡ true
  unfolding is_plain
  IsPlain-is_plain cell ((t, q), q₁) = rw (q, q₁) refl

  -- The verdict of a cell for a build: the whole cell, or that of the one segment about the build.
  abbrev pub IsText : Text → Bool → Text → Type 0
  IsText cell release t =
      (IsPlain cell × (t ≡ cell))
      ⊎ ((¬ IsPlain cell) × SaysOnly release (split (codes "; ") cell) t)

  abbrev pub Expects : Text → Bool → Option Expected → Type 0
  Expects cell release none = cell ≡ codes "bitcoind only"
  Expects cell release (some e) =
      (cell ≢ codes "bitcoind only") × IsText cell release e.text × IsVerdict e.text e.outcome

  the_only-ok : (found : List Text) (t : Text) → the_only fullmatch found ≡ ok t → found ≡ t ∷ []
  the_only-ok [] t h = cc h
  the_only-ok (v ∷ []) t h = ap (λ x. x ∷ []) (ok-injective h)
  the_only-ok (v ∷ w ∷ found) t h = cc h

  some_verdict-Expects :
      (cell : Text) (release : Bool) (t : Text) (o : Option Expected)
      → cell ≢ codes "bitcoind only"
      → IsText cell release t
      → some_verdict fullmatch t ≡ ok o
      → Expects cell release o
  unfolding some_verdict
  some_verdict-Expects cell release t o other is h =
      let (e, q, h₁) = >>=-eq-ok (verdict fullmatch t) _ h in
      let (same, v) = verdict-IsVerdict t e q in
      subst (Expects cell release) (ok-injective h₁) (
        other,
        subst (IsText cell release) (sym same) is,
        subst (λ x. IsVerdict x e.outcome) (sym same) v,
      )

  pub expected-Expects :
      (cell : Text) (release : Bool) (o : Option Expected)
      → expected fullmatch cell release ≡ ok o
      → Expects cell release o
  unfolding expected
  expected-Expects cell release o h = elim (Bool-cases (bytes_eq cell (codes "bitcoind only"))) [
    | inl b ↦
        subst (Expects cell release) (ok-injective (rw b at h))
          (bytes_eq→eq cell (codes "bitcoind only") b)
    | inr b ↦
        let other : cell ≢ codes "bitcoind only" =
          λ k. cc (rw k at b, bytes_eq_refl (codes "bitcoind only")) in
        elim (Bool-cases (is_plain fullmatch cell)) [
          | inl p ↦
              some_verdict-Expects cell release cell o other (inl (is_plain-IsPlain cell p, refl))
                (rw (b, p) at h)
          | inr p ↦
              let (found, q, h₁) =
                >>=-eq-ok (found_in fullmatch (split (codes "; ") cell) release) _
                  (rw (b, p) at h) in
              let (t, q₁, h₂) = >>=-eq-ok (the_only fullmatch found) _ h₁ in
              let only =
                subst (Finds release (split (codes "; ") cell)) (the_only-ok found t q₁)
                  (found_in-Finds release (split (codes "; ") cell) found q) in
              some_verdict-Expects cell release t o other
                (inr ((λ k. cc (IsPlain-is_plain cell k, p)), only)) h₂
        ]
  ]

  IsText-expected :
      (cell : Text) (release : Bool) (t : Text)
      → cell ≢ codes "bitcoind only"
      → IsText cell release t
      → expected fullmatch cell release ≡ some_verdict fullmatch t
  unfolding expected
  IsText-expected cell release t other is =
      elim (Bool-cases (bytes_eq cell (codes "bitcoind only"))) [
        | inl b ↦ absurd (other (bytes_eq→eq cell (codes "bitcoind only") b))
        | inr b ↦ elim is [
          | inl (plain, same) ↦
              rw (b, IsPlain-is_plain cell plain) (ap (some_verdict fullmatch) (sym same))
          | inr (parts, only) ↦ elim (Bool-cases (is_plain fullmatch cell)) [
            | inl p ↦ absurd (parts (is_plain-IsPlain cell p))
            | inr p ↦
                rw (b, p) (>>=-ok _ (SaysOnly-found_in release (split (codes "; ") cell) t only))
          ]
        ]
      ]

  pub Expects-expected :
      (cell : Text) (release : Bool) (o : Option Expected)
      → Expects cell release o
      → expected fullmatch cell release ≡ ok o
  unfolding expected
  Expects-expected cell release none same =
      rw (ap (λ c. bytes_eq c (codes "bitcoind only")) same ∙ bytes_eq_refl (codes "bitcoind only"))
        refl
  Expects-expected cell release (some e) (other, is, v) =
      IsText-expected cell release e.text other is ∙ >>=-ok _ (IsVerdict-verdict e.text e.outcome v)
