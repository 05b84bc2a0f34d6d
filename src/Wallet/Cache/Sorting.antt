-- ===== src/Wallet/Cache/Sorting.antt =====
-- The sort of `get_utxo`: the cache is put in the order of the key, and nothing else changes.
use mathlib.Core.List.{Perm}
use mathlib.Core.List.Perm
use mathlib.Core.List.Memᴰ
use mathlib.Core.List.{Memᴰ}
use bitcoin_node_tests.Base.Int.{◌≤ℤ◌}
use bitcoin_node_tests.Base.{
  ◌<◌, ◌⊎◌, ◌≡◌, refl, inl, inr, true, false, List, [], ◌∷◌, arith, All, All-map, Bool-cases,
}
use bitcoin_node_tests.Base.Sorted.{IsSortedBy}
use bitcoin_node_tests.Wallet.Cache.{Utxo, key_le, insert_by_key, sort_by_key}

-- A smaller value, or the same value and at least the height.
abbrev pub KeyLe : Utxo → Utxo → Type 0
KeyLe a b = (a.value < b.value) ⊎ ((a.value ≡ b.value) × (b.height ≤ℤ a.height))

abbrev pub IsSorted : List Utxo → Type 0
IsSorted = IsSortedBy KeyLe

pub KeyLe-refl : (a : Utxo) → KeyLe a a
KeyLe-refl a = inr (refl, omega arith)

key_le-KeyLe : (a b : Utxo) → key_le a b ≡ true → KeyLe a b
unfolding key_le
key_le-KeyLe a b h = ground arith

KeyLe-trans : (a b c : Utxo) → KeyLe a b → KeyLe b c → KeyLe a c
KeyLe-trans a b c h k = ground arith

KeyLe-total : (a b : Utxo) → key_le a b ≡ false → KeyLe b a
unfolding key_le
KeyLe-total a b h = ground arith

insert-perm : (u : Utxo) (us : List Utxo) → Perm (insert_by_key u us) (u ∷ us)
unfolding insert_by_key
insert-perm u [] = Perm.refl _
insert-perm u (x ∷ xs) = elim (Bool-cases (key_le u x)) [
  | inl p ↦ rw p (Perm.refl _)
  | inr p ↦ rw p (Perm.trans (Perm.cons x (insert-perm u xs)) (Perm.swap u x xs))
]

-- The sorted cache holds the same coins, each as often.
pub sort-perm : (us : List Utxo) → Perm (sort_by_key us) us
unfolding sort_by_key
sort-perm [] = Perm.refl _
sort-perm (u ∷ us) = Perm.trans (insert-perm u (sort_by_key us)) (Perm.cons u (sort-perm us))

All-insert :
    (P : Utxo → Type 0) (u : Utxo) (us : List Utxo) → P u → All P us → All P (insert_by_key u us)
unfolding insert_by_key
All-insert P u [] pu h = (pu, tt)
All-insert P u (x ∷ xs) pu h = elim (Bool-cases (key_le u x)) [
  | inl p ↦ rw p (pu, h)
  | inr p ↦ rw p (h.0, All-insert P u xs pu h.1)
]

insert-IsSorted : (u : Utxo) (us : List Utxo) → IsSorted us → IsSorted (insert_by_key u us)
unfolding insert_by_key
insert-IsSorted u [] h = (tt, tt)
insert-IsSorted u (x ∷ xs) h = elim (Bool-cases (key_le u x)) [
  | inl p ↦ rw p (
    (key_le-KeyLe u x p, All-map _ _ (λ c q. KeyLe-trans u x c (key_le-KeyLe u x p) q) xs h.0),
    h,
  )
  | inr p ↦ rw p (All-insert (KeyLe x) u xs (KeyLe-total u x p) h.0, insert-IsSorted u xs h.1)
]

-- The sorted cache is in the order of the key.
pub sort-IsSorted : (us : List Utxo) → IsSorted (sort_by_key us)
unfolding sort_by_key
sort-IsSorted [] = tt
sort-IsSorted (u ∷ us) = insert-IsSorted u (sort_by_key us) (sort-IsSorted us)

mem-insert_self : (u : Utxo) (us : List Utxo) → Memᴰ u (insert_by_key u us)
unfolding insert_by_key
mem-insert_self u [] = Memᴰ.head refl
mem-insert_self u (x ∷ xs) = elim (Bool-cases (key_le u x)) [
  | inl p ↦ rw p (Memᴰ.head refl)
  | inr p ↦ rw p (Memᴰ.tail (mem-insert_self u xs))
]

mem-insert_of_mem : (u c : Utxo) (us : List Utxo) → Memᴰ c us → Memᴰ c (insert_by_key u us)
unfolding insert_by_key
mem-insert_of_mem u c [] m = elim m [ ]
mem-insert_of_mem u c (x ∷ xs) m = elim (Bool-cases (key_le u x)) [
  | inl p ↦ rw p (Memᴰ.tail m)
  | inr p ↦ rw p (elim (Memᴰ.cases_cons m) [
    | inl e ↦ Memᴰ.head e
    | inr n ↦ Memᴰ.tail (mem-insert_of_mem u c xs n)
  ])
]

mem_of_mem-insert : (u c : Utxo) (us : List Utxo) → Memᴰ c (insert_by_key u us) → Memᴰ c (u ∷ us)
unfolding insert_by_key
mem_of_mem-insert u c [] m = m
mem_of_mem-insert u c (x ∷ xs) m = elim (Bool-cases (key_le u x)) [
  | inl p ↦ rw p at m
  | inr p ↦ elim (Memᴰ.cases_cons (rw p at m)) [
    | inl e ↦ Memᴰ.tail (Memᴰ.head e)
    | inr n ↦ elim (Memᴰ.cases_cons (mem_of_mem-insert u c xs n)) [
      | inl e ↦ Memᴰ.head e
      | inr k ↦ Memᴰ.tail (Memᴰ.tail k)
    ]
  ]
]

pub mem-sort : (c : Utxo) (us : List Utxo) → Memᴰ c us → Memᴰ c (sort_by_key us)
unfolding sort_by_key
mem-sort c [] m = m
mem-sort c (u ∷ us) m = elim (Memᴰ.cases_cons m) [
  | inl e ↦ Memᴰ.cast e (mem-insert_self u (sort_by_key us))
  | inr n ↦ mem-insert_of_mem u c (sort_by_key us) (mem-sort c us n)
]

pub mem_of_mem-sort : (c : Utxo) (us : List Utxo) → Memᴰ c (sort_by_key us) → Memᴰ c us
unfolding sort_by_key
mem_of_mem-sort c [] m = m
mem_of_mem-sort c (u ∷ us) m = elim (Memᴰ.cases_cons (mem_of_mem-insert u c (sort_by_key us) m)) [
  | inl e ↦ Memᴰ.head e
  | inr n ↦ Memᴰ.tail (mem_of_mem-sort c us n)
]
