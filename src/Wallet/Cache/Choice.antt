-- ===== src/Wallet/Cache/Choice.antt =====
-- What `get_utxo` answers and leaves in the cache.
use mathlib.Core.List.{Perm, Memᴰ}
use mathlib.Core.List.Memᴰ
use mathlib.Core.List.Perm
use bitcoin_node_tests.Base.{
  none, ℕ, ◌+◌, ◌≡◌, refl, sym, ap, ◌∙◌, ◌↔◌, ◌⊎◌, inl, inr, Bool, true, false, some, List, [], ◌∷◌,
  arith, if◌then◌else◌, All-at, List-cases, get_elem?, sum_by-perm,
}
use bitcoin_node_tests.Base.Exec.{Result, ok, err, lookup_error}
use bitcoin_node_tests.Chain.{Btclib}
use bitcoin_node_tests.Wallet.Cache.{
  Utxo, MiniWallet, Filters, candidates, sort_by_key, index_of, pop_at, get_utxo, get_balance,
}
use bitcoin_node_tests.Wallet.Cache.Sorting.{
  KeyLe-refl, sort-perm, sort-IsSorted, mem-sort, mem_of_mem-sort,
}
use bitcoin_node_tests.Wallet.Cache.Select.{
  Fits, Before, index_of_mem, mem-candidates, mem_of_mem-candidates, candidates-IsSortedBy,
}
use bitcoin_node_tests.Base.{Option}
use bitcoin_node_tests.Wallet.Cache.{Text}

module _ {H : Type 0} (lib : Btclib H) where
  -- A coin `u` chosen from the cache of `w`, which leaves `w'`.
  pub record IsChoice (f : Filters) (mark : Bool) (w : MiniWallet) (u : Utxo) (w' : MiniWallet)
      : Type 0 where
    pub held : Memᴰ u w.utxos
    pub fits : Fits lib f w.height u
    pub first : (c : Utxo) → Memᴰ c w.utxos → Fits lib f w.height c → Before lib f.txid u c
    pub rest : Perm (if mark then u ∷ w'.utxos else w'.utxos) w.utxos
    pub same : record w' { utxos = w.utxos } ≡ w

  after : Bool → ℕ → MiniWallet → MiniWallet
  after true i w = record w { utxos = pop_at i (sort_by_key w.utxos) }
  after false i w = record w { utxos = sort_by_key w.utxos }

  get_utxo_found :
      (f : Filters) (mark : Bool) (w : MiniWallet) (c : Utxo) (others : List Utxo) (i : ℕ)
      → candidates lib f w.height (sort_by_key w.utxos) ≡ c ∷ others
      → index_of c (sort_by_key w.utxos) ≡ some i
      → get_elem? (sort_by_key w.utxos) i ≡ some c
      → get_utxo lib f mark w ≡ (ok c, after mark i w)
  unfolding get_utxo after
  get_utxo_found f true w c others i e found at = rw (e, found, at)
  get_utxo_found f false w c others i e found at = rw (e, found, at)

  get_utxo_none :
      (f : Filters) (mark : Bool) (w : MiniWallet)
      → candidates lib f w.height (sort_by_key w.utxos) ≡ []
      → get_utxo lib f mark w ≡ (err lookup_error, record w { utxos = sort_by_key w.utxos })
  unfolding get_utxo
  get_utxo_none f mark w e = rw e

  Before-refl : (t : Option Text) (u : Utxo) → Before lib t u u
  Before-refl none u = KeyLe-refl u
  Before-refl (some t) u = KeyLe-refl u

  -- The first of the candidates comes before every fitting coin of the cache.
  head_first :
      (f : Filters) (w : MiniWallet) (u : Utxo) (others : List Utxo)
      → candidates lib f w.height (sort_by_key w.utxos) ≡ u ∷ others
      → (c : Utxo) → Memᴰ c w.utxos
      → Fits lib f w.height c
      → Before lib f.txid u c
  head_first f w u others e c m k =
      let n = mem-candidates lib f w.height c _ (mem-sort c w.utxos m) k in
      let s = candidates-IsSortedBy lib f w.height _ (sort-IsSorted w.utxos) in
      elim (Memᴰ.cases_cons (rw e at n)) [
        | inl same ↦ rw same (Before-refl f.txid u)
        | inr behind ↦ All-at (Before lib f.txid u) others (rw e at s).0 behind
      ]

  after-IsChoice :
      (f : Filters) (mark : Bool) (w : MiniWallet) (u : Utxo) (others : List Utxo) (i : ℕ)
      → candidates lib f w.height (sort_by_key w.utxos) ≡ u ∷ others
      → Perm (u ∷ pop_at i (sort_by_key w.utxos)) (sort_by_key w.utxos)
      → IsChoice f mark w u (after mark i w)
  unfolding after
  after-IsChoice f mark w u others i e perm =
      let (m, k) = mem_of_mem-candidates lib f w.height u _ (rw e (Memᴰ.head refl)) in
      record {
        held = mem_of_mem-sort u w.utxos m;
        fits = k;
        first = head_first f w u others e;
        rest = left mark;
        same = unchanged mark;
      }
    where
      left : (b : Bool) → Perm (if b then u ∷ (after b i w).utxos else (after b i w).utxos) w.utxos
      left true = Perm.trans perm (sort-perm w.utxos)
      left false = sort-perm w.utxos

      unchanged : (b : Bool) → record (after b i w) { utxos = w.utxos } ≡ w
      unchanged true = refl
      unchanged false = refl

  -- Either a choice is made, or no coin of the cache fits and only the order of the cache changed.
  pub get_utxo_cases :
      (f : Filters) (mark : Bool) (w : MiniWallet)
      → ((u : Utxo) × (w' : MiniWallet) × (get_utxo lib f mark w ≡ (ok u, w'))
          × IsChoice f mark w u w')
        ⊎ ((get_utxo lib f mark w ≡ (err lookup_error, record w { utxos = sort_by_key w.utxos }))
            × ((c : Utxo) → Memᴰ c w.utxos → ¬ Fits lib f w.height c))
  get_utxo_cases f mark w = elim (List-cases (candidates lib f w.height (sort_by_key w.utxos))) [
    | inl e ↦ inr (
      get_utxo_none f mark w e,
      λ c m k.
          let n = mem-candidates lib f w.height c _ (mem-sort c w.utxos m) k in
          Memᴰ.not-nil (rw e at n),
    )
    | inr (u, others, e) ↦
        let (m, k) = mem_of_mem-candidates lib f w.height u _ (rw e (Memᴰ.head refl)) in
        let (i, found, at, perm) = index_of_mem u _ m in
        inl (
          u,
          after mark i w,
          get_utxo_found f mark w u others i e found at,
          after-IsChoice f mark w u others i e perm,
        )
  ]

  -- A coin that get_utxo returns was in the cache and meets every filter; it comes before every
  -- other such coin, the largest first (of equal values the lowest height) without a txid and the
  -- smallest first with one; the cache keeps the other coins, each as often, and the coin itself
  -- unless it is marked as spent; nothing else of the wallet changes.
  pub get_utxo-IsChoice :
      (f : Filters) (mark : Bool) (w w' : MiniWallet) (u : Utxo)
      → get_utxo lib f mark w ≡ (ok u, w')
      → IsChoice f mark w u w'
  get_utxo-IsChoice f mark w w' u h = elim (get_utxo_cases f mark w) [
    | inl (v, v', e, c) ↦
        let same : Path (Result Utxo × MiniWallet) (ok v, v') (ok u, w') = sym e ∙ h in
        let p : v ≡ u = cc same in let q : v' ≡ w' = ap (λ r. r.1) same in rw (p, q) at c
    | inr (e, none_fits) ↦ cc (e, h)
  ]

  -- get_utxo raises LookupError exactly where no coin of the cache meets the filters, and it raises
  -- nothing else: otherwise it returns a coin.
  pub get_utxo-lookup_error :
      (f : Filters) (mark : Bool) (w : MiniWallet)
      → (((get_utxo lib f mark w).0 ≡ err lookup_error)
          ↔ ((c : Utxo) → Memᴰ c w.utxos → ¬ Fits lib f w.height c))
        × (((u : Utxo) × ((get_utxo lib f mark w).0 ≡ ok u))
            ⊎ ((get_utxo lib f mark w).0 ≡ err lookup_error))
  get_utxo-lookup_error f mark w = elim (get_utxo_cases f mark w) [
    | inl (u, w', e, c) ↦
        rw e (((λ h. cc h), λ unfit. absurd (unfit u c.held c.fits)), inl (u, refl))
    | inr (e, unfit) ↦ rw e (((λ h. unfit), λ h. refl), inr refl)
  ]

  -- Taking a coin by get_utxo lowers the balance by its value; reading one without marking it as
  -- spent leaves the balance.
  pub get_balance-get_utxo :
      (f : Filters) (mark : Bool) (w w' : MiniWallet) (u : Utxo)
      → get_utxo lib f mark w ≡ (ok u, w')
      → get_balance w ≡ get_balance w' + (if mark then u.value else 0)
  unfolding get_balance
  get_balance-get_utxo f true w w' u h =
      omega (arith, sum_by-perm (λ (c : Utxo). c.value) (get_utxo-IsChoice f true w w' u h).rest)
  get_balance-get_utxo f false w w' u h =
      omega (arith, sum_by-perm (λ (c : Utxo). c.value) (get_utxo-IsChoice f false w w' u h).rest)
