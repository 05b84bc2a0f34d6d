-- ===== src/Base/Sorted.antt =====
-- Lists in the order of a relation: each element is related to all those behind it.
use mathlib.Core.Logic.{inl, inr}
use mathlib.Core.Bool.{Bool}
use mathlib.Core.List.{List, [], ◌∷◌, ◌++◌, reverse, reverse-cons, Memᴰ}
use mathlib.Core.List.Memᴰ
use bitcoin_node_tests.Base.Tests.{Bool-cases}
use bitcoin_node_tests.Base.Lists.{All, All-append, keep_if}

abbrev pub IsSortedBy {ℓ κ} : {A : Type ℓ} → (A → A → Type κ) → List A → Type κ
IsSortedBy R [] = Unit
IsSortedBy R (x ∷ xs) = All (R x) xs × IsSortedBy R xs

module _ {ℓ κ} {A : Type ℓ} where
  pub All-keep_if :
      (P : A → Type κ) (keep : A → Bool) (xs : List A) → All P xs → All P (keep_if keep xs)
  All-keep_if P keep [] h = tt
  All-keep_if P keep (x ∷ xs) h = elim (Bool-cases (keep x)) [
    | inl p ↦ rw p (h.0, All-keep_if P keep xs h.1)
    | inr p ↦ rw p (All-keep_if P keep xs h.1)
  ]

  pub All-reverse : (P : A → Type κ) (xs : List A) → All P xs → All P (reverse xs)
  All-reverse P [] h = tt
  All-reverse P (x ∷ xs) h =
      rw reverse-cons (All-append P (reverse xs) (x ∷ []) (All-reverse P xs h.1) (h.0, tt))

  pub keep_if-IsSortedBy :
      (R : A → A → Type κ) (keep : A → Bool) (xs : List A)
      → IsSortedBy R xs
      → IsSortedBy R (keep_if keep xs)
  keep_if-IsSortedBy R keep [] h = tt
  keep_if-IsSortedBy R keep (x ∷ xs) h = elim (Bool-cases (keep x)) [
    | inl p ↦ rw p (All-keep_if (R x) keep xs h.0, keep_if-IsSortedBy R keep xs h.1)
    | inr p ↦ rw p (keep_if-IsSortedBy R keep xs h.1)
  ]

  IsSortedBy-snoc :
      (R : A → A → Type κ) (x : A) (xs : List A)
      → IsSortedBy R xs
      → All (λ y. R y x) xs
      → IsSortedBy R (xs ++ x ∷ [])
  IsSortedBy-snoc R x [] h k = (tt, tt)
  IsSortedBy-snoc R x (y ∷ ys) h k =
      (All-append (R y) ys (x ∷ []) h.0 (k.0, tt), IsSortedBy-snoc R x ys h.1 k.1)

  pub IsSortedBy-append :
      (R : A → A → Type κ) (xs ys : List A)
      → IsSortedBy R xs
      → IsSortedBy R ys
      → All (λ x. All (R x) ys) xs
      → IsSortedBy R (xs ++ ys)
  IsSortedBy-append R [] ys h k c = k
  IsSortedBy-append R (x ∷ xs) ys h k c =
      (All-append (R x) xs ys h.0 c.0, IsSortedBy-append R xs ys h.1 k c.1)

  -- The reversed list is in the reversed order.
  pub reverse-IsSortedBy :
      (R : A → A → Type κ) (xs : List A) → IsSortedBy R xs → IsSortedBy (λ x y. R y x) (reverse xs)
  reverse-IsSortedBy R [] h = tt
  reverse-IsSortedBy R (x ∷ xs) h = rw reverse-cons (
      IsSortedBy-snoc (λ a b. R b a) x (reverse xs) (reverse-IsSortedBy R xs h.1)
        (All-reverse (R x) xs h.0))

module _ {ℓ} {A : Type ℓ} where
  pub mem-reverse : {a : A} (xs : List A) → Memᴰ a xs → Memᴰ a (reverse xs)
  mem-reverse [] m = elim m [ ]
  mem-reverse {a} (x ∷ xs) m = rw reverse-cons (elim (Memᴰ.cases_cons m) [
    | inl e ↦ Memᴰ.append_right (reverse xs) (Memᴰ.head e)
    | inr n ↦ Memᴰ.append_left (x ∷ []) (mem-reverse xs n)
  ])

  pub mem_of_mem-reverse : {a : A} (xs : List A) → Memᴰ a (reverse xs) → Memᴰ a xs
  mem_of_mem-reverse [] m = m
  mem_of_mem-reverse {a} (x ∷ xs) m = elim (Memᴰ.append_cases (reverse xs) (rw reverse-cons at m)) [
    | inl n ↦ Memᴰ.tail (mem_of_mem-reverse xs n)
    | inr n ↦ Memᴰ.head (Memᴰ.eq_of_singleton n)
  ]
