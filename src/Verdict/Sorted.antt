-- ===== src/Verdict/Sorted.antt =====
-- `sorted(results.items())` of .github/scripts/btclib_node_verdict.py keeps the items.
use bitcoin_node_tests.Verdict.Moves.{insert_item, sorted, text_le}
use bitcoin_node_tests.Verdict.{Status}
use bitcoin_node_tests.Base.Bytes.{Text}
use bitcoin_node_tests.Base.{List, All, ◌∷◌, All-at, Bool-cases, [], inl, All-of, inr}
use mathlib.Core.List.{Memᴰ}

module _ (P : Text × Status → Type 0) where
  pub insert_item-All :
      (item : Text × Status) (items : List (Text × Status))
      → P item
      → All P items
      → All P (insert_item item items)
  unfolding insert_item
  insert_item-All item [] h all = (h, tt)
  insert_item-All item (other ∷ rest) h (k, all) = elim (Bool-cases (text_le item.0 other.0)) [
    | inl e ↦ rw e (h, (k, all))
    | inr e ↦ rw e (k, insert_item-All item rest h all)
  ]

  All-of_insert_item :
      (item : Text × Status) (items : List (Text × Status))
      → All P (insert_item item items)
      → P item × All P items
  unfolding insert_item
  All-of_insert_item item [] (h, all) = (h, tt)
  All-of_insert_item item (other ∷ rest) h = elim (Bool-cases (text_le item.0 other.0)) [
    | inl e ↦ rw e at h
    | inr e ↦
        let (k, later) = (rw e at h) in
        let (mine, all) = All-of_insert_item item rest later in (mine, (k, all))
  ]

  pub sorted-All : (items : List (Text × Status)) → All P items → All P (sorted items)
  unfolding sorted
  sorted-All [] h = tt
  sorted-All (item ∷ rest) (h, all) = insert_item-All item (sorted rest) h (sorted-All rest all)

  pub All-of_sorted : (items : List (Text × Status)) → All P (sorted items) → All P items
  unfolding sorted
  All-of_sorted [] h = tt
  All-of_sorted (item ∷ rest) h =
      let (k, all) = All-of_insert_item item (sorted rest) h in (k, All-of_sorted rest all)

pub mem-sorted :
    {item : Text × Status} (items : List (Text × Status))
    → Memᴰ item items
    → Memᴰ item (sorted items)
mem-sorted items m =
    All-at (λ x. Memᴰ x (sorted items)) items
      (All-of_sorted (λ x. Memᴰ x (sorted items)) items
        (All-of (λ x. Memᴰ x (sorted items)) (sorted items) (λ x k. k)))
      m

pub mem_of_mem-sorted :
    {item : Text × Status} (items : List (Text × Status))
    → Memᴰ item (sorted items)
    → Memᴰ item items
mem_of_mem-sorted items m =
    All-at (λ x. Memᴰ x items) (sorted items)
      (sorted-All (λ x. Memᴰ x items) items (All-of (λ x. Memᴰ x items) items (λ x k. k))) m

-- Any two items are apart.
abbrev pub AllApart : (Text × Status → Text × Status → Type 0) → List (Text × Status) → Type 0
AllApart Apart [] = Unit
AllApart Apart (x ∷ xs) = All (Apart x) xs × AllApart Apart xs

module _ (Apart : Text × Status → Text × Status → Type 0)
    (apart_sym : (x y : Text × Status) → Apart x y → Apart y x) where
  insert_item-AllApart :
      (item : Text × Status) (items : List (Text × Status))
      → All (Apart item) items
      → AllApart Apart items
      → AllApart Apart (insert_item item items)
  unfolding insert_item
  insert_item-AllApart item [] all h = (tt, tt)
  insert_item-AllApart item (other ∷ rest) (a, all) (far, h) =
      elim (Bool-cases (text_le item.0 other.0)) [
        | inl e ↦ rw e ((a, all), (far, h))
        | inr e ↦ rw e (
          insert_item-All (Apart other) item rest (apart_sym item other a) far,
          insert_item-AllApart item rest all h,
        )
      ]

  pub sorted-AllApart :
      (items : List (Text × Status)) → AllApart Apart items → AllApart Apart (sorted items)
  unfolding sorted
  sorted-AllApart [] h = tt
  sorted-AllApart (item ∷ rest) (far, h) =
      insert_item-AllApart item (sorted rest) (sorted-All (Apart item) rest far)
        (sorted-AllApart rest h)
