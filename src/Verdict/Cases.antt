-- ===== src/Verdict/Cases.antt =====
-- The testcases that `moves` of .github/scripts/btclib_node_verdict.py keeps for a row, where no two of
-- the row have one name.
use bitcoin_node_tests.Verdict.{Status}
use bitcoin_node_tests.Verdict.Moves.{put, statuses, sorted}
use bitcoin_node_tests.Verdict.Grouped.{row_name, gathered}
use bitcoin_node_tests.Verdict.Sorted.{AllApart, sorted-AllApart, mem-sorted, mem_of_mem-sorted}
use bitcoin_node_tests.Base.Bytes.{Text, bytes_eq, bytes_eq→eq, bytes_eq_refl}
use bitcoin_node_tests.Base.{
  List, Option, ◌≡◌, ◌≢◌, All, Bool, false, Bool-cases, [], some, ◌∷◌, inl, ◌↔◌, ◌∙◌, ◌⊎◌, ap, inr,
  Option-cases, sym,
}
use mathlib.Core.List.{Memᴰ}

different : (a b : Text) → a ≢ b → bytes_eq a b ≡ false
different a b h = elim (Bool-cases (bytes_eq a b)) [
  | inl e ↦ absurd (h (bytes_eq→eq a b e))
  | inr e ↦ e
]

-- A new name of a row is one more testcase.
of_put-statuses :
    (name : Text) (status s : Status) (cases : List (Text × Status))
    → All (λ c. c.0 ≢ name) cases
    → Memᴰ s (statuses (put name status cases))
    → Memᴰ s (statuses cases) ⊎ (s ≡ status)
unfolding put
of_put-statuses name status s [] fresh (Memᴰ.head e) = inr e
of_put-statuses name status s [] fresh (Memᴰ.tail m) = elim m [ ]
of_put-statuses name status s ((n, s') ∷ cases) (new, fresh) m =
    step (rw (different n name new) at m) (λ k. of_put-statuses name status s cases fresh k)
  where
    step :
        Memᴰ s (s' ∷ statuses (put name status cases))
        → (Memᴰ s (statuses (put name status cases)) → Memᴰ s (statuses cases) ⊎ (s ≡ status))
        → Memᴰ s (s' ∷ statuses cases) ⊎ (s ≡ status)
    step (Memᴰ.head e) later = inl (Memᴰ.head e)
    step (Memᴰ.tail k) later = elim (later k) [ inl j ↦ inl (Memᴰ.tail j) | inr e ↦ inr e ]

put-statuses :
    (name : Text) (status s : Status) (cases : List (Text × Status))
    → All (λ c. c.0 ≢ name) cases
    → Memᴰ s (statuses cases) ⊎ (s ≡ status)
    → Memᴰ s (statuses (put name status cases))
unfolding put
put-statuses name status s [] fresh (inl m) = elim m [ ]
put-statuses name status s [] fresh (inr e) = Memᴰ.head e
put-statuses name status s ((n, s') ∷ cases) (new, fresh) (inr e) =
    rw (different n name new) (Memᴰ.tail (put-statuses name status s cases fresh (inr e)))
put-statuses name status s ((n, s') ∷ cases) (new, fresh) (inl (Memᴰ.head e)) =
    rw (different n name new) (Memᴰ.head e)
put-statuses name status s ((n, s') ∷ cases) (new, fresh) (inl (Memᴰ.tail m)) =
    rw (different n name new) (Memᴰ.tail (put-statuses name status s cases fresh (inl m)))

put-All :
    (name n : Text) (status : Status) (cases : List (Text × Status))
    → name ≢ n
    → All (λ c. c.0 ≢ n) cases
    → All (λ c. c.0 ≢ n) (put name status cases)
unfolding put
put-All name n status [] h all = (h, tt)
put-All name n status ((m, s) ∷ cases) h (k, all) = elim (Bool-cases (bytes_eq m name)) [
  | inl e ↦ rw e (k, all)
  | inr e ↦ rw e (k, put-All name n status cases h all)
]

not_row :
    (r row name n : Text)
    → bytes_eq r row ≡ false
    → ◌≢◌ {A = Option (Text × Text)} (some (r, name)) (some (row, n))
not_row r row name n b e = let same : r ≡ row = cc e in cc (rw same at b, bytes_eq_refl row)

module _ (rows : Text → Option Text) (no_rows : Text → Bool) where
  -- A testcase of the row has the status.
  abbrev pub HasCase : Text → List (Text × Status) → Status → Type 0
  HasCase row items s =
      (key : Text) × (name : Text) × Memᴰ (key, s) items
      × (row_name rows no_rows key ≡ some (row, name))

  -- Two testcases that are not of one row by one name.
  abbrev pub Apart : Text × Status → Text × Status → Type 0
  Apart x y =
      (p : Text × Text) → row_name rows no_rows x.0 ≡ some p → row_name rows no_rows y.0 ≢ some p

  Apart-sym : (x y : Text × Status) → Apart x y → Apart y x
  Apart-sym x y h p k e = h p e k

  -- No two testcases are of one row by one name.
  abbrev pub NoClash : List (Text × Status) → Type 0
  NoClash items = AllApart Apart items

  -- No testcase of the row to come has a name among those passed.
  abbrev Fresh : Text → List (Text × Status) → List (Text × Status) → Type 0
  Fresh row cases items =
      All (λ i. (n : Text) → row_name rows no_rows i.0 ≡ some (row, n) → All (λ c. c.0 ≢ n) cases)
        items

  put-Fresh :
      (row name key : Text) (status : Status) (cases items : List (Text × Status))
      → row_name rows no_rows key ≡ some (row, name)
      → All (Apart (key, status)) items
      → Fresh row cases items
      → Fresh row (put name status cases) items
  put-Fresh row name key status cases [] e far h = tt
  put-Fresh row name key status cases (i ∷ items) e (a, far) (h, more) = (
    (λ n k.
        put-All name n status cases
          (λ same. a (row, name) e (k ∙ ap (λ x. some (row, x)) (sym same))) (h n k)),
    put-Fresh row name key status cases items e far more,
  )

  -- The statuses of a row are those of its testcases.
  abbrev Has : Text → List (Text × Status) → List (Text × Status) → Status → Type 0
  Has row cases items s = Memᴰ s (statuses cases) ⊎ HasCase row items s

  Has-skip :
      (row key : Text) (status s : Status) (cases items : List (Text × Status))
      → ((name : Text) → row_name rows no_rows key ≢ some (row, name))
      → Has row cases ((key, status) ∷ items) s
      → Has row cases items s
  Has-skip row key status s cases items other (inl m) = inl m
  Has-skip row key status s cases items other (inr (k, name, m, e)) = past m
    where
      past : Memᴰ (k, s) ((key, status) ∷ items) → Has row cases items s
      past (Memᴰ.head q) = absurd (other name (ap (λ x. row_name rows no_rows x.0) (sym q) ∙ e))
      past (Memᴰ.tail j) = inr (k, name, j, e)

  Has-cons :
      (row : Text) (item : Text × Status) (s : Status) (cases items : List (Text × Status))
      → Has row cases items s
      → Has row cases (item ∷ items) s
  Has-cons row item s cases items (inl m) = inl m
  Has-cons row item s cases items (inr (k, name, m, e)) = inr (k, name, Memᴰ.tail m, e)

  Has-put :
      (row key name : Text) (status s : Status) (cases items : List (Text × Status))
      → row_name rows no_rows key ≡ some (row, name)
      → All (λ c. c.0 ≢ name) cases
      → Has row (put name status cases) items s ↔ Has row cases ((key, status) ∷ items) s
  Has-put row key name status s cases items e fresh = (there, back)
    where
      there : Has row (put name status cases) items s → Has row cases ((key, status) ∷ items) s
      there (inl m) = elim (of_put-statuses name status s cases fresh m) [
        | inl k ↦ inl k
        | inr q ↦ inr (key, name, Memᴰ.head (ap (λ x. (key, x)) q), e)
      ]
      there (inr (k, n, m, q)) = inr (k, n, Memᴰ.tail m, q)

      past :
          (k n : Text)
          → Memᴰ (k, s) ((key, status) ∷ items)
          → row_name rows no_rows k ≡ some (row, n)
          → Has row (put name status cases) items s
      past k n (Memᴰ.head q) r =
          inl (put-statuses name status s cases fresh (inr (ap (λ x. x.1) q)))
      past k n (Memᴰ.tail m) r = inr (k, n, m, r)

      back : Has row cases ((key, status) ∷ items) s → Has row (put name status cases) items s
      back (inl m) = inl (put-statuses name status s cases fresh (inl m))
      back (inr (k, n, m, q)) = past k n m q

  gathered-Has :
      (row : Text) (s : Status) (cases items : List (Text × Status))
      → NoClash items
      → Fresh row cases items
      → Memᴰ s (statuses (gathered rows no_rows row cases items)) ↔ Has row cases items s
  unfolding gathered
  gathered-Has row s cases [] apart fresh =
      ((λ m. inl m), λ h. elim h [ inl m ↦ m | inr (k, n, m, e) ↦ elim m [ ] ])
  gathered-Has row s cases ((key, status) ∷ items) (far, apart) (new, fresh) =
      elim (Option-cases (row_name rows no_rows key)) [
        | inl e ↦
            let (f, g) = gathered-Has row s cases items apart fresh in
            rw e (
              (λ m. Has-cons row (key, status) s cases items (f m)),
              λ h. g (Has-skip row key status s cases items (λ n q. cc (e, q)) h),
            )
        | inr ((r, name), e) ↦ elim (Bool-cases (bytes_eq r row)) [
          | inr b ↦
              let (f, g) = gathered-Has row s cases items apart fresh in
              let other : (n : Text) → row_name rows no_rows key ≢ some (row, n) =
                λ n q. not_row r row name n b (sym e ∙ q) in
              rw (e, b)
                (
                  (λ m. Has-cons row (key, status) s cases items (f m)),
                  λ h. g (Has-skip row key status s cases items other h),
                )
          | inl b ↦
              let here : row_name rows no_rows key ≡ some (row, name) =
                e ∙ ap (λ x. some (x, name)) (bytes_eq→eq r row b) in
              let (f, g) =
                gathered-Has row s (put name status cases) items apart
                  (put-Fresh row name key status cases items here far fresh) in
              let (p, q) = Has-put row key name status s cases items here (new name here) in
              rw (e, b) ((λ m. p (f m)), λ h. g (q h))
        ]
      ]

  no_names : (row : Text) (items : List (Text × Status)) → Fresh row [] items
  no_names row [] = tt
  no_names row (i ∷ items) = ((λ n k. tt), no_names row items)

  HasCase-sorted :
      (row : Text) (s : Status) (items : List (Text × Status))
      → Has row [] (sorted items) s ↔ HasCase row items s
  HasCase-sorted row s items = (there, back)
    where
      there : Has row [] (sorted items) s → HasCase row items s
      there (inl m) = elim m [ ]
      there (inr (k, n, m, e)) = (k, n, mem_of_mem-sorted items m, e)

      back : HasCase row items s → Has row [] (sorted items) s
      back (k, n, m, e) = inr (k, n, mem-sorted items m, e)

  -- The statuses that moves keeps for a row are those of the row's testcases.
  pub gathered-HasCase :
      (row : Text) (items : List (Text × Status))
      → NoClash items
      → (s : Status)
      → Memᴰ s (statuses (gathered rows no_rows row [] (sorted items))) ↔ HasCase row items s
  gathered-HasCase row items apart s =
      let (f, g) =
        gathered-Has row s [] (sorted items) (sorted-AllApart Apart Apart-sym items apart)
          (no_names row (sorted items)) in
      let (p, q) = HasCase-sorted row s items in ((λ m. p (f m)), λ h. g (q h))
