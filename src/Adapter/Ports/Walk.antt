-- ===== src/Adapter/Ports/Walk.antt =====
-- The ports that a draw of `_PortCursor` answers.
use bitcoin_node_tests.Base.{
  ℕ, zero, suc, ◌+◌, ◌-◌, ◌≤◌, ◌<◌, ◌≡◌, ◌≢◌, refl, ap, ◌∙◌, ◌⊎◌, inl, inr, Bool, true, false, List,
  [], ◌∷◌, ◌++◌, arith, All, Bool-cases, if◌then◌else◌, ◌%◌, ltb, All-append, ltb→lt, length, ◌==◌,
  ==_iff, length-append,
}
use native.Mathlib.Nat.{mod-eq_of_lt, mod_self}
use mathlib.Core.List.Memᴰ
use bitcoin_node_tests.Adapter.Ports.{Ports, PortCursor, advance, walk}
use mathlib.Core.List.{Memᴰ}

-- The place of the walk in its block after some steps.
abbrev pub wrapped : ℕ → ℕ → ℕ → ℕ
wrapped size start steps = if ltb (start + steps) size then start + steps else start + steps - size

lt-suc_cases : (i n : ℕ) → i < suc n → (i < n) ⊎ (i ≡ n)
lt-suc_cases i n h = elim (Bool-cases (ltb i n)) [
  | inl e ↦ inl (ltb→lt i n e)
  | inr e ↦ inr (ground arith)
]

mod-suc : (n size : ℕ) → n < size → (n + 1) % size ≡ (if ltb (n + 1) size then n + 1 else 0)
mod-suc n size h = elim (Bool-cases (ltb (n + 1) size)) [
  | inl e ↦ rw e (mod-eq_of_lt (ltb→lt (n + 1) size e))
  | inr e ↦ let full : n + 1 ≡ size = ground arith in rw (e, full) (mod_self size)
]

wrapped-lt : (size start steps : ℕ) → start < size → steps < size → wrapped size start steps < size
wrapped-lt size start steps h k = ground arith

step-wrapped :
    (size start steps : ℕ)
    → start < size
    → steps < size
    → (wrapped size start steps + 1) % size ≡ wrapped size start (suc steps)
step-wrapped size start steps h k =
    mod-suc (wrapped size start steps) size (wrapped-lt size start steps h k) ∙ wrap_around
  where
    wrap_around :
        (if ltb (wrapped size start steps + 1) size then wrapped size start steps + 1 else 0)
        ≡ wrapped size start (suc steps)
    wrap_around = ground arith

wrapped-injective :
    (size start i j : ℕ)
    → start < size
    → i < j
    → j < size
    → wrapped size start i ≢ wrapped size start j
wrapped-injective size start i j h p q = ground arith

-- no number twice
abbrev pub Different : List ℕ → Type 0
Different [] = Unit
Different (x ∷ xs) = All (λ y. x ≢ y) xs × Different xs

Different-append :
    (xs : List ℕ) (p : ℕ) → Different xs → All (λ x. x ≢ p) xs → Different (xs ++ p ∷ [])
Different-append [] p d h = (tt, tt)
Different-append (x ∷ xs) p (a, d) (n, h) =
    (All-append (λ y. x ≢ y) xs (p ∷ []) a (n, tt), Different-append xs p d h)

module _ {W : Type 0} (bind : ℕ → W → Bool × W) where
  -- a probe of the port that succeeded, one that failed
  abbrev pub Probed : Bool → ℕ → Type 0
  Probed outcome p = (v : W) × ((bind p v).0 ≡ outcome)

  -- the port visited after some steps
  abbrev pub place : Ports → ℕ → ℕ → ℕ
  place block start i = block.first + wrapped block.size start i

  -- What is found once some ports of the block are visited.
  pub record Lap (block : Ports) (start steps : ℕ) (found : List ℕ) : Type 0 where
    pub placed : All (λ p. (i : ℕ) × (i < steps) × (p ≡ place block start i)) found
    pub free : All (Probed true) found
    pub different : Different found
    pub seen :
        (i : ℕ) → i < steps → Memᴰ (place block start i) found ⊎ Probed false (place block start i)

  All-weaken :
      (block : Ports) (start steps : ℕ) (found : List ℕ)
      → All (λ p. (i : ℕ) × (i < steps) × (p ≡ place block start i)) found
      → All (λ p. (i : ℕ) × (i < suc steps) × (p ≡ place block start i)) found
  All-weaken block start steps [] h = tt
  All-weaken block start steps (x ∷ xs) ((i, k, e), h) =
      ((i, omega arith, e), All-weaken block start steps xs h)

  place-fresh :
      (block : Ports) (start steps : ℕ) (found : List ℕ)
      → start < block.size
      → steps < block.size
      → All (λ p. (i : ℕ) × (i < steps) × (p ≡ place block start i)) found
      → All (λ x. x ≢ place block start steps) found
  place-fresh block start steps [] h k l = tt
  place-fresh block start steps (x ∷ xs) h k ((i, j, e), l) = (
    (λ q. wrapped-injective block.size start i steps h j k (omega (arith, q, e))),
    place-fresh block start steps xs h k l,
  )

  Lap-found :
      (block : Ports) (start steps : ℕ) (found : List ℕ)
      → start < block.size
      → steps < block.size
      → Probed true (place block start steps)
      → Lap block start steps found
      → Lap block start (suc steps) (found ++ place block start steps ∷ [])
  Lap-found block start steps found h k probed lap = record {
    placed =
        All-append _ found _ (All-weaken block start steps found lap.placed)
          ((steps, omega arith, refl), tt);
    free = All-append (Probed true) found _ lap.free (probed, tt);
    different =
        Different-append found _ lap.different (place-fresh block start steps found h k lap.placed);
    seen = λ i j. elim (lt-suc_cases i steps j) [
      | inl q ↦ elim (lap.seen i q) [
        | inl m ↦ inl (Memᴰ.append_left (place block start steps ∷ []) m)
        | inr r ↦ inr r
      ]
      | inr e ↦ inl (Memᴰ.append_right found (Memᴰ.head (ap (place block start) e)))
    ];
  }

  Lap-refused :
      (block : Ports) (start steps : ℕ) (found : List ℕ)
      → Probed false (place block start steps)
      → Lap block start steps found
      → Lap block start (suc steps) found
  Lap-refused block start steps found probed lap = record {
    placed = All-weaken block start steps found lap.placed;
    free = lap.free;
    different = lap.different;
    seen =
        λ i j. elim (lt-suc_cases i steps j) [ inl q ↦ lap.seen i q | inr e ↦ inr (rw e probed) ];
  }

  -- How a walk ends: it has found enough, or it has visited the whole block.
  pub record Walked (block : Ports) (start count : ℕ) (r : List ℕ × PortCursor × W) : Type 0 where
    pub steps : ℕ
    pub lap : Lap block start steps r.0
    pub within : steps ≤ block.size
    pub enough : (length r.0 ≡ count) ⊎ (steps ≡ block.size)
    pub bounded : length r.0 ≤ count
    pub cursor : (r.1.block ≡ block) × (r.1.next < block.size)

  unfoldable pub cursor_at : (block : Ports) (start steps : ℕ) → PortCursor
  cursor_at block start steps = record { block = block; next = wrapped block.size start steps }

  advance-cursor_at :
      (block : Ports) (start steps : ℕ)
      → start < block.size
      → steps < block.size
      → advance (cursor_at block start steps) ≡ cursor_at block start (suc steps)
  unfolding cursor_at
  advance-cursor_at block start steps h k =
      ap (λ n. record { block = block; next = n }) (step-wrapped block.size start steps h k)

  cursor_at-lt :
      (block : Ports) (start steps : ℕ)
      → start < block.size
      → steps ≤ block.size
      → wrapped block.size start steps < block.size
  cursor_at-lt block start steps h k = ground arith

  pub walk-Walked :
      (rounds count : ℕ) (found : List ℕ) (block : Ports) (start steps : ℕ) (w : W)
      → start < block.size
      → rounds + steps ≡ block.size
      → length found ≤ count
      → Lap block start steps found
      → Walked block start count (walk bind rounds count found (cursor_at block start steps) w)
  unfolding walk cursor_at
  walk-Walked zero count found block start steps w h e b lap = record {
    steps = steps;
    lap = lap;
    within = omega arith;
    enough = inr (omega arith);
    bounded = b;
    cursor = (refl, cursor_at-lt block start steps h (omega arith));
  }
  walk-Walked (suc rounds) count found block start steps w h e b lap =
      elim (Bool-cases (length found == count)) [
        | inl q ↦ rw q (record {
          steps = steps;
          lap = lap;
          within = omega arith;
          enough = inl ((==_iff (length found) count).0 q);
          bounded = b;
          cursor = (refl, cursor_at-lt block start steps h (omega arith));
        })
        | inr q ↦ elim (Bool-cases (bind (place block start steps) w).0) [
          | inl f ↦
              rw (q, f, step-wrapped block.size start steps h (omega arith))
                (walk-Walked rounds count (found ++ place block start steps ∷ []) block start
                  (suc steps) (bind (place block start steps) w).1 h (omega arith)
                  (ground (arith, length-append found (place block start steps ∷ [])))
                  (Lap-found block start steps found h (omega arith) (w, f) lap))
          | inr f ↦
              rw (q, f, step-wrapped block.size start steps h (omega arith))
                (walk-Walked rounds count found block start (suc steps)
                  (bind (place block start steps) w).1 h (omega arith) b
                  (Lap-refused block start steps found (w, f) lap))
        ]
      ]
