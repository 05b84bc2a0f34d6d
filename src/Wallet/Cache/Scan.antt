-- ===== src/Wallet/Cache/Scan.antt =====
-- What `new_utxos` lists and what `_scan_tx` leaves in the cache.
use mathlib.Core.List.Memᴰ
use bitcoin_node_tests.Base.{
  ℕ, zero, suc, ◌+◌, ◌<◌, ◌≡◌, ◌≢◌, refl, ap, ◌∙◌, ◌↔◌, ◌⊎◌, inl, inr, Bool, true, false, some,
  List, [], ◌∷◌, ◌++◌, arith, All, Bool-cases, get_elem?, All-of, mem_of_mem-keep_if, mem-keep_if,
  All-map,
}
use bitcoin_node_tests.Chain.{Btclib, TxOut, Tx, OutPoint}
use bitcoin_node_tests.Wallet.Cache.{
  Utxo, new_utxos, new_utxos_from, pos, scan_tx, MiniWallet, spends, unspent_by,
}
use bitcoin_node_tests.Base.Bytes.{Bytes, bytes_eq}
use bitcoin_node_tests.Base.Sorted.{IsSortedBy, IsSortedBy-append, keep_if-IsSortedBy, All-keep_if}
use mathlib.Core.List.{Memᴰ}
use mathlib.Core.Path.{subst}
use native.Mathlib.Nat.{zero-add}

abbrev pub Differ : Utxo → Utxo → Type 0
Differ a b = a.outpoint ≢ b.outpoint

-- No two coins of the list have one outpoint.
abbrev pub Distinct : List Utxo → Type 0
Distinct = IsSortedBy Differ

module _ {H : Type 0} (lib : Btclib H) where
  -- the coin that an output of a transaction makes
  abbrev pub coin_of : Bytes → ℕ → TxOut → Utxo
  coin_of txid vout out = record {
    outpoint = record { tx_id = txid; vout = vout };
    value = out.value;
    height = pos 0;
    coinbase = false;
  }

  abbrev pub pays_wallet : TxOut → Bool
  pays_wallet out = bytes_eq out.script_pub_key lib.anyone_can_spend

  -- A coin of the list comes from an output that pays the wallet.
  pub record IsPaid (txid : Bytes) (first : ℕ) (outs : List TxOut) (u : Utxo) : Type 0 where
    pub index : ℕ
    pub out : TxOut
    pub at : get_elem? outs index ≡ some out
    pub pays : pays_wallet out ≡ true
    pub coin : u ≡ coin_of txid (first + index) out

  IsPaid-there :
      (txid : Bytes) (k : ℕ) (o : TxOut) (outs : List TxOut) (u : Utxo)
      → IsPaid txid (k + 1) outs u
      → IsPaid txid k (o ∷ outs) u
  IsPaid-there txid k o outs u p = record {
    index = suc p.index;
    out = p.out;
    at = p.at;
    pays = p.pays;
    coin = p.coin ∙ ap (λ n. coin_of txid n p.out) (omega arith);
  }

  IsPaid-of_mem :
      (txid : Bytes) (k : ℕ) (outs : List TxOut) (u : Utxo)
      → Memᴰ u (new_utxos_from lib txid k outs)
      → IsPaid txid k outs u
  unfolding new_utxos_from
  IsPaid-of_mem txid k [] u m = elim m [ ]
  IsPaid-of_mem txid k (o ∷ outs) u m = elim (Bool-cases (pays_wallet o)) [
    | inl p ↦ elim (Memᴰ.cases_cons (rw p at m)) [
      | inl e ↦ record {
        index = 0;
        out = o;
        at = refl;
        pays = p;
        coin = e ∙ ap (λ n. coin_of txid n o) (omega arith);
      }
      | inr n ↦ IsPaid-there txid k o outs u (IsPaid-of_mem txid (k + 1) outs u n)
    ]
    | inr p ↦ IsPaid-there txid k o outs u (IsPaid-of_mem txid (k + 1) outs u (rw p at m))
  ]

  mem_of_IsPaid :
      (txid : Bytes) (k i : ℕ) (outs : List TxOut) (o : TxOut)
      → get_elem? outs i ≡ some o
      → pays_wallet o ≡ true
      → Memᴰ (coin_of txid (k + i) o) (new_utxos_from lib txid k outs)
  unfolding new_utxos_from
  mem_of_IsPaid txid k i [] o at p = cc
  mem_of_IsPaid txid k zero (o' ∷ outs) o at p =
      let e : o' ≡ o = cc at in rw (e, p) (Memᴰ.head (ap (λ n. coin_of txid n o) (omega arith)))
  mem_of_IsPaid txid k (suc i) (o' ∷ outs) o at p =
      let e : (k + 1) + i ≡ k + suc i = omega arith in
      let m = rw e at (mem_of_IsPaid txid (k + 1) i outs o at p) in
      elim (Bool-cases (pays_wallet o')) [ inl q ↦ rw q (Memᴰ.tail m) | inr q ↦ rw q m ]

  later_vout :
      (txid : Bytes) (k : ℕ) (outs : List TxOut) (u : Utxo)
      → Memᴰ u (new_utxos_from lib txid (k + 1) outs)
      → k < u.outpoint.vout
  later_vout txid k outs u m =
      let p = IsPaid-of_mem txid (k + 1) outs u m in
      omega (arith, ap (λ (c : Utxo). c.outpoint.vout) p.coin)

  new_utxos_from-Distinct :
      (txid : Bytes) (k : ℕ) (outs : List TxOut) → Distinct (new_utxos_from lib txid k outs)
  unfolding new_utxos_from
  new_utxos_from-Distinct txid k [] = tt
  new_utxos_from-Distinct txid k (o ∷ outs) = elim (Bool-cases (pays_wallet o)) [
    | inl p ↦ rw p (
      All-of (Differ (coin_of txid k o)) (new_utxos_from lib txid (k + 1) outs) (λ c m e.
          absurd (omega (arith, later_vout txid k outs c m, ap (λ (q : OutPoint). q.vout) e))),
      new_utxos_from-Distinct txid (k + 1) outs,
    )
    | inr p ↦ rw p (new_utxos_from-Distinct txid (k + 1) outs)
  ]

  -- new_utxos lists exactly the outputs that pay the wallet, each with its number among all the
  -- outputs, its value, height 0 and no coinbase mark, and no outpoint twice.
  pub new_utxos_lem :
      (tx : Tx)
      → ((u : Utxo) → Memᴰ u (new_utxos lib tx) → IsPaid (lib.tx_id tx) 0 tx.vout u)
        × ((i : ℕ) (o : TxOut)
            → get_elem? tx.vout i ≡ some o
            → pays_wallet o ≡ true
            → Memᴰ (coin_of (lib.tx_id tx) i o) (new_utxos lib tx))
        × Distinct (new_utxos lib tx)
  unfolding new_utxos
  new_utxos_lem tx = (
    IsPaid-of_mem (lib.tx_id tx) 0 tx.vout,
    λ i o at p.
        subst (λ n. Memᴰ (coin_of (lib.tx_id tx) n o) (new_utxos lib tx)) (zero-add i)
          (mem_of_IsPaid (lib.tx_id tx) 0 i tx.vout o at p),
    new_utxos_from-Distinct (lib.tx_id tx) 0 tx.vout,
  )

  -- The cache after _scan_tx holds exactly the coins that it held and the transaction does not
  -- spend, and the coins that the transaction pays the wallet; the txid joins those scanned, the
  -- answer is new_utxos, and nothing else of the wallet changes.
  pub scan_tx_lem :
      (tx : Tx) (w : MiniWallet)
      → ((c : Utxo)
          → Memᴰ c (scan_tx lib tx w).1.utxos
            ↔ ((Memᴰ c w.utxos × (spends tx c.outpoint ≡ false)) ⊎ Memᴰ c (new_utxos lib tx)))
        × ((scan_tx lib tx w).0 ≡ new_utxos lib tx)
        × ((scan_tx lib tx w).1
            ≡ record w { utxos = (scan_tx lib tx w).1.utxos; scanned = lib.tx_id tx ∷ w.scanned })
  unfolding scan_tx
  scan_tx_lem tx w = (λ c. (kept_or_new c, held c), refl, refl)
    where
      kept_or_new :
          (c : Utxo)
          → Memᴰ c (unspent_by tx w.utxos ++ new_utxos lib tx)
          → (Memᴰ c w.utxos × (spends tx c.outpoint ≡ false)) ⊎ Memᴰ c (new_utxos lib tx)
      kept_or_new c m = elim (Memᴰ.append_cases (unspent_by tx w.utxos) m) [
        | inl n ↦ let (k, e) = mem_of_mem-keep_if _ w.utxos n in inl (k, ground (arith, e))
        | inr n ↦ inr n
      ]

      held :
          (c : Utxo)
          → (Memᴰ c w.utxos × (spends tx c.outpoint ≡ false)) ⊎ Memᴰ c (new_utxos lib tx)
          → Memᴰ c (unspent_by tx w.utxos ++ new_utxos lib tx)
      held c (inl (m, e)) =
          Memᴰ.append_left (new_utxos lib tx) (mem-keep_if _ w.utxos m (ground (arith, e)))
      held c (inr m) = Memᴰ.append_right (unspent_by tx w.utxos) m

  -- Where no cached coin was paid by the transaction's id, _scan_tx keeps the invariant that no two
  -- cached coins have one outpoint.
  pub scan_tx-Distinct :
      (tx : Tx) (w : MiniWallet)
      → All (λ (c : Utxo). c.outpoint.tx_id ≢ lib.tx_id tx) w.utxos
      → Distinct w.utxos
      → Distinct (scan_tx lib tx w).1.utxos
  unfolding scan_tx
  scan_tx-Distinct tx w fresh d =
      IsSortedBy-append Differ _ _ (keep_if-IsSortedBy Differ _ w.utxos d) (new_utxos_lem tx).2
        (All-map _ _ apart _ (All-keep_if _ _ w.utxos fresh))
    where
      apart : (c : Utxo) → c.outpoint.tx_id ≢ lib.tx_id tx → All (Differ c) (new_utxos lib tx)
      apart c other = All-of (Differ c) _ (λ u m e.
          let p = (new_utxos_lem tx).0 u m in
          other (ap (λ (o : OutPoint). o.tx_id) (e ∙ ap (λ (v : Utxo). v.outpoint) p.coin)))
