-- ===== src/Wallet/Cache/Select.antt =====
-- The candidates of `get_utxo`: the coins of the cache that every filter keeps, in order.
use mathlib.Core.List.{Perm, Memᴰ, reverse}
use mathlib.Core.List.Perm
use mathlib.Core.List.Memᴰ
use bitcoin_node_tests.Base.{
  ℕ, suc, ◌≡◌, refl, sym, ap, inl, inr, Bool, true, false, Option, none, some, List, [], ◌∷◌, ◌==◌,
  Bool-cases, mem-keep_if, mem_of_mem-keep_if, get_elem?,
}
use bitcoin_node_tests.Base.Bytes.{Text}
use bitcoin_node_tests.Base.Int.{ℤ}
use bitcoin_node_tests.Base.Sorted.{
  IsSortedBy, keep_if-IsSortedBy, reverse-IsSortedBy, mem-reverse, mem_of_mem-reverse,
}
use bitcoin_node_tests.Chain.{Btclib}
use bitcoin_node_tests.Wallet.Cache.{
  Utxo, Filters, confirmed, paid_by, is_mature, utxo_eq, utxo_eq_iff, index_of, pop_at, by_txid,
  by_vout, by_confirmed, candidates,
}
use bitcoin_node_tests.Wallet.Cache.Sorting.{KeyLe, IsSorted}

-- `index` finds a coin of the list, and popping there takes that coin out.
pub index_of_mem :
    (u : Utxo) (us : List Utxo)
    → Memᴰ u us
    → (i : ℕ) × (index_of u us ≡ some i) × (get_elem? us i ≡ some u) × Perm (u ∷ pop_at i us) us
unfolding index_of pop_at
index_of_mem u [] m = elim m [ ]
index_of_mem u (x ∷ xs) m = elim (Bool-cases (utxo_eq x u)) [
  | inl p ↦ let e = (utxo_eq_iff x u).0 p in (0, rw p, ap some e, rw (← e) (Perm.refl _))
  | inr p ↦ elim (Memᴰ.cases_cons m) [
    | inl e ↦ cc ((utxo_eq_iff x u).1 (sym e))
    | inr n ↦
        let (i, found, at, perm) = index_of_mem u xs n in
        (suc i, rw (p, found), at, Perm.trans (Perm.swap x u _) (Perm.cons x perm))
  ]
]

module _ {H : Type 0} (lib : Btclib H) where
  -- The filters, as what they ask of a coin.
  abbrev pub names : Option Text → ℤ → Utxo → Bool
  names (some txid) height u = paid_by txid u
  names none height u = is_mature lib height u

  abbrev pub has_vout : Option ℕ → Utxo → Bool
  has_vout (some n) u = u.outpoint.vout == n
  has_vout none u = true

  abbrev pub is_confirmed : Bool → Utxo → Bool
  is_confirmed true u = confirmed u
  is_confirmed false u = true

  pub record Fits (f : Filters) (height : ℤ) (u : Utxo) : Type 0 where
    pub named : names f.txid height u ≡ true
    pub at_vout : has_vout f.vout u ≡ true
    pub in_block : is_confirmed f.confirmed_only u ≡ true

  mem-by_txid :
      (t : Option Text) (h : ℤ) (u : Utxo) (us : List Utxo)
      → Memᴰ u us
      → names t h u ≡ true
      → Memᴰ u (by_txid lib t h us)
  unfolding by_txid
  mem-by_txid none h u us m k = mem-keep_if _ (reverse us) (mem-reverse us m) k
  mem-by_txid (some t) h u us m k = mem-keep_if _ us m k

  mem_of_mem-by_txid :
      (t : Option Text) (h : ℤ) (u : Utxo) (us : List Utxo)
      → Memᴰ u (by_txid lib t h us)
      → Memᴰ u us × (names t h u ≡ true)
  unfolding by_txid
  mem_of_mem-by_txid none h u us m =
      let (n, k) = mem_of_mem-keep_if _ (reverse us) m in (mem_of_mem-reverse us n, k)
  mem_of_mem-by_txid (some t) h u us m = mem_of_mem-keep_if _ us m

  mem-by_vout :
      (v : Option ℕ) (u : Utxo) (us : List Utxo)
      → Memᴰ u us
      → has_vout v u ≡ true
      → Memᴰ u (by_vout v us)
  unfolding by_vout
  mem-by_vout none u us m k = m
  mem-by_vout (some n) u us m k = mem-keep_if _ us m k

  mem_of_mem-by_vout :
      (v : Option ℕ) (u : Utxo) (us : List Utxo)
      → Memᴰ u (by_vout v us)
      → Memᴰ u us × (has_vout v u ≡ true)
  unfolding by_vout
  mem_of_mem-by_vout none u us m = (m, refl)
  mem_of_mem-by_vout (some n) u us m = mem_of_mem-keep_if _ us m

  mem-by_confirmed :
      (c : Bool) (u : Utxo) (us : List Utxo)
      → Memᴰ u us
      → is_confirmed c u ≡ true
      → Memᴰ u (by_confirmed c us)
  unfolding by_confirmed
  mem-by_confirmed false u us m k = m
  mem-by_confirmed true u us m k = mem-keep_if _ us m k

  mem_of_mem-by_confirmed :
      (c : Bool) (u : Utxo) (us : List Utxo)
      → Memᴰ u (by_confirmed c us)
      → Memᴰ u us × (is_confirmed c u ≡ true)
  unfolding by_confirmed
  mem_of_mem-by_confirmed false u us m = (m, refl)
  mem_of_mem-by_confirmed true u us m = mem_of_mem-keep_if _ us m

  pub mem-candidates :
      (f : Filters) (h : ℤ) (u : Utxo) (us : List Utxo)
      → Memᴰ u us
      → Fits f h u
      → Memᴰ u (candidates lib f h us)
  unfolding candidates
  mem-candidates f h u us m k =
      mem-by_confirmed _ u _ (mem-by_vout _ u _ (mem-by_txid _ h u us m k.named) k.at_vout)
        k.in_block

  pub mem_of_mem-candidates :
      (f : Filters) (h : ℤ) (u : Utxo) (us : List Utxo)
      → Memᴰ u (candidates lib f h us)
      → Memᴰ u us × Fits f h u
  unfolding candidates
  mem_of_mem-candidates f h u us m =
      let (m₁, c) = mem_of_mem-by_confirmed _ u _ m in
      let (m₂, v) = mem_of_mem-by_vout _ u _ m₁ in
      let (m₃, t) = mem_of_mem-by_txid _ h u us m₂ in
      (m₃, record { named = t; at_vout = v; in_block = c })

  -- The order in which the candidates stand.
  abbrev pub Before : Option Text → Utxo → Utxo → Type 0
  Before none a b = KeyLe b a
  Before (some t) a b = KeyLe a b

  filtered-IsSortedBy :
      (R : Utxo → Utxo → Type 0) (v : Option ℕ) (c : Bool) (us : List Utxo)
      → IsSortedBy R us
      → IsSortedBy R (by_confirmed c (by_vout v us))
  unfolding by_vout by_confirmed
  filtered-IsSortedBy R none false us h = h
  filtered-IsSortedBy R none true us h = keep_if-IsSortedBy R _ us h
  filtered-IsSortedBy R (some n) false us h = keep_if-IsSortedBy R _ us h
  filtered-IsSortedBy R (some n) true us h = keep_if-IsSortedBy R _ _ (keep_if-IsSortedBy R _ us h)

  by_txid-IsSortedBy :
      (t : Option Text) (h : ℤ) (us : List Utxo)
      → IsSorted us
      → IsSortedBy (Before t) (by_txid lib t h us)
  unfolding by_txid
  by_txid-IsSortedBy none h us s =
      keep_if-IsSortedBy _ _ (reverse us) (reverse-IsSortedBy KeyLe us s)
  by_txid-IsSortedBy (some t) h us s = keep_if-IsSortedBy _ _ us s

  pub candidates-IsSortedBy :
      (f : Filters) (h : ℤ) (us : List Utxo)
      → IsSorted us
      → IsSortedBy (Before f.txid) (candidates lib f h us)
  unfolding candidates
  candidates-IsSortedBy f h us s =
      filtered-IsSortedBy _ f.vout f.confirmed_only _ (by_txid-IsSortedBy f.txid h us s)
