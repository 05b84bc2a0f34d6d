-- ===== src/Adapter/Ports/Draw.antt =====
-- What `take` of `_PortCursor` answers.
use bitcoin_node_tests.Base.{
  ℕ, ◌+◌, ◌-◌, ◌≤◌, ◌<◌, ◌≡◌, refl, ap, ◌⊎◌, inl, inr, Bool, true, false, List, [], ◌∷◌, arith, All,
  Bool-cases, if◌then◌else◌, length, ltb, ltb→lt,
}
use bitcoin_node_tests.Adapter.Ports.{Ports, take_ports, PortCursor, walk}
use bitcoin_node_tests.Adapter.Ports.Walk.{
  wrapped, Lap, place, Different, Walked, Probed, cursor_at, walk-Walked,
}
use bitcoin_node_tests.Base.Exec.{Result, ok, err, runtime_error}
use mathlib.Core.List.{Memᴰ}
use mathlib.Core.Path.{subst}

abbrev pub InBlock : Ports → ℕ → Type 0
InBlock block p = (block.first ≤ p) × (p < block.first + block.size)

wrapped-onto :
    (size start n : ℕ) → start < size → n < size → (i : ℕ) × (i < size) × (wrapped size start i ≡ n)
wrapped-onto size start n h k = elim (Bool-cases (ltb n start)) [
  | inl e ↦ (n + size - start, ground arith, ground arith)
  | inr e ↦ (n - start, ground arith, ground arith)
]

module _ {W : Type 0} (bind : ℕ → W → Bool × W) where
  placed-InBlock :
      (block : Ports) (start steps : ℕ) (found : List ℕ)
      → start < block.size
      → steps ≤ block.size
      → All (λ p. (i : ℕ) × (i < steps) × (p ≡ place bind block start i)) found
      → All (InBlock block) found
  placed-InBlock block start steps [] h k l = tt
  placed-InBlock block start steps (x ∷ xs) h k ((i, j, e), l) =
      ((ground arith, ground arith), placed-InBlock block start steps xs h k l)

  -- fewer ports than asked for, and no free port of the block left out
  pub record Exhausted (block : Ports) (count : ℕ) : Type 0 where
    pub found : List ℕ
    pub fewer : length found < count
    pub lap : (p : ℕ) → InBlock block p → Memᴰ p found ⊎ Probed bind false p

  -- What a draw answers, or how it fails.
  abbrev pub IsDraw : Ports → ℕ → Result (List ℕ) → Type 0
  IsDraw block count (ok ports) =
      (length ports ≡ count)
      × Different ports
      × All (InBlock block) ports
      × All (Probed bind true) ports
  IsDraw block count (err e) = (e ≡ runtime_error) × Exhausted block count

  seen-InBlock :
      (block : Ports) (start steps : ℕ) (found : List ℕ)
      → start < block.size
      → steps ≡ block.size
      → Lap bind block start steps found
      → (p : ℕ) → InBlock block p
      → Memᴰ p found ⊎ Probed bind false p
  seen-InBlock block start steps found h e lap p (a, b) =
      let (i, k, q) = wrapped-onto block.size start (p - block.first) h (omega arith) in
      let same : place bind block start i ≡ p = omega (arith, q) in
      rw (← same) (lap.seen i (omega arith))

  -- the answer of `take`, from where its walk ends
  answer : ℕ → List ℕ → Result (List ℕ)
  answer count found = if ltb (length found) count then err runtime_error else ok found

  answer-IsDraw :
      (block : Ports) (start count : ℕ) (r : List ℕ × PortCursor × W)
      → start < block.size
      → (k : Walked bind block start count r) → IsDraw block count (answer count r.0)
  unfolding answer
  answer-IsDraw block start count r h k = elim (Bool-cases (ltb (length r.0) count)) [
    | inl e ↦ rw e (
      refl,
      record {
        found = r.0;
        fewer = ltb→lt _ _ e;
        lap =
            seen-InBlock block start k.steps r.0 h
              (elim k.enough [ inl q ↦ absurd (omega (arith, ltb→lt _ _ e, q)) | inr q ↦ q ]) k.lap;
      },
    )
    | inr e ↦ rw e (
      ground (arith, k.bounded),
      k.lap.different,
      placed-InBlock block start k.steps r.0 h k.within k.lap.placed,
      k.lap.free,
    )
  ]

  no-Lap : (block : Ports) (start : ℕ) → Lap bind block start 0 []
  no-Lap block start = record {
    placed = tt;
    free = tt;
    different = tt;
    seen = λ i j. absurd (omega (arith, j));
  }

  cursor_at-start : (c : PortCursor) → c.next < c.block.size → cursor_at bind c.block c.next 0 ≡ c
  unfolding cursor_at
  cursor_at-start c h = ap (λ n. record c { next = n }) (start_lem c.block.size c.next h)
    where
      start_lem : (size start : ℕ) → start < size → wrapped size start 0 ≡ start
      start_lem size start k = ground arith

  lap-Walked :
      (count : ℕ) (c : PortCursor) (w : W)
      → c.next < c.block.size
      → Walked bind c.block c.next count (walk bind c.block.size count [] c w)
  lap-Walked count c w h =
      subst (λ d. Walked bind c.block c.next count (walk bind c.block.size count [] d w))
        (cursor_at-start c h)
        (walk-Walked bind c.block.size count [] c.block c.next 0 w h (omega arith) (omega arith)
          (no-Lap c.block c.next))

  -- A draw of ports answers as many as asked for, all different, all in the cursor's block, and
  -- each one that a probe bound; or it raises RuntimeError, and only where it found fewer and a
  -- probe failed on every other port of the block. The cursor stays inside its block, where it
  -- started inside.
  pub take_ports-IsDraw :
      (count : ℕ) (c : PortCursor) (w : W)
      → c.next < c.block.size
      → IsDraw c.block count (take_ports bind count c w).0
        × ((take_ports bind count c w).1.block ≡ c.block)
        × ((take_ports bind count c w).1.next < c.block.size)
  unfolding take_ports answer
  take_ports-IsDraw count c w h =
      let k = lap-Walked count c w h in
      (
        answer-IsDraw c.block c.next count (walk bind c.block.size count [] c w) h k,
        k.cursor.0,
        k.cursor.1,
      )
