-- ===== src/Wallet/Rpc/Resync.antt =====
-- What `resync` of src/bitcoin_node_tests/mini_wallet.py changes of the cache.
use mathlib.Core.List.{append_assoc}
use bitcoin_node_tests.Base.{
  ◌≡◌, refl, ap, Bool, true, false, List, [], ◌∷◌, ◌++◌, inl, inr, sym, ◌∙◌, Option, ◌⊎◌, some,
  Bool-cases, none,
}
use bitcoin_node_tests.Chain.{Node, gettxout}
use bitcoin_node_tests.Wallet.Cache.{Utxo}
use bitcoin_node_tests.Base.Int.{ℤ, pos, ltb_ℤ, ◌-ℤ◌, ◌+ℤ◌}
use bitcoin_node_tests.Wallet.Rpc.{
  asked, left_or_asked, coin_height, World, resync_coins, refreshed, resync, read_tip, Tip,
  height_of,
}
use bitcoin_node_tests.Base.Exec.{ok, and_then-eq-ok, outcome_cases, Error, err}
use bitcoin_node_tests.Chain.Json.{Answer, bool, null, int, int_at, float, str, list, dict}
use bitcoin_node_tests.Base.Raise.{ok-injective}
use bitcoin_node_tests.Base.Bytes.{to_hex}

-- The same coin, but for the height of one that no coinbase pays.
pub record SameCoin (u u' : Utxo) : Type 0 where
  pub outpoint : u'.outpoint ≡ u.outpoint
  pub value : u'.value ≡ u.value
  pub coinbase : u'.coinbase ≡ u.coinbase
  pub height : u.coinbase ≡ true → u'.height ≡ u.height

SameCoin-refl : (u : Utxo) → SameCoin u u
SameCoin-refl u = record { outpoint = refl; value = refl; coinbase = refl; height = λ e. refl }

-- the same coins in the same order
abbrev pub SameCoins : List Utxo → List Utxo → Type 0
SameCoins [] [] = Unit
SameCoins (u ∷ us) (u' ∷ us') = SameCoin u u' × SameCoins us us'
SameCoins _ _ = ⊥

SameCoins-refl : (us : List Utxo) → SameCoins us us
SameCoins-refl [] = tt
SameCoins-refl (u ∷ us) = (SameCoin-refl u, SameCoins-refl us)

module _ {N : Type 0} (node : Node N) where
  -- The height of a coin by an answer of `gettxout`: 0 for a spent one, else that of the block with
  -- so many confirmations, the tip's own having one.
  abbrev pub GivesHeight : ℤ → Answer → ℤ → Type 0
  GivesHeight height a z =
      ((a ≡ null) × (z ≡ pos 0))
      ⊎ ((confirmations : ℤ) × (int_at "confirmations" a ≡ some confirmations)
          × (ltb_ℤ confirmations (pos 1) ≡ false)
          × (z ≡ height -ℤ confirmations +ℤ pos 1))

  -- where no coinbase pays the coin, the node was asked for this very output, without its mempool,
  -- and its answer gives the height
  abbrev pub HasHeight : ℤ → Utxo → Type 0
  HasHeight height u =
      u.coinbase ≡ false
      → (v : N) × (v' : N) × (a : Answer) × (node.call
            (gettxout (to_hex u.outpoint.tx_id) u.outpoint.vout false) v
          ≡ (ok a, v'))
        × GivesHeight height a u.height

  height_of-GivesHeight :
      (height : ℤ) (a : Answer) (c : Option ℤ) (z : ℤ)
      → int_at "confirmations" a ≡ c
      → height_of node height c ≡ ok z
      → GivesHeight height a z
  height_of-GivesHeight height a none z e h = cc h
  height_of-GivesHeight height a (some c) z e h = elim (Bool-cases (ltb_ℤ c (pos 1))) [
    | inl k ↦ cc (rw k at h)
    | inr k ↦ inr (c, e, k, sym (ok-injective (rw k at h)))
  ]

  coin_height-GivesHeight :
      (height : ℤ) (a : Answer) (z : ℤ) → coin_height node height a ≡ ok z → GivesHeight height a z
  unfolding coin_height
  coin_height-GivesHeight height null z h = inl (refl, sym (ok-injective h))
  coin_height-GivesHeight height (bool b) z h = height_of-GivesHeight height (bool b) _ z refl h
  coin_height-GivesHeight height (int n) z h = height_of-GivesHeight height (int n) _ z refl h
  coin_height-GivesHeight height (float t) z h = height_of-GivesHeight height (float t) _ z refl h
  coin_height-GivesHeight height (str t) z h = height_of-GivesHeight height (str t) _ z refl h
  coin_height-GivesHeight height (list xs) z h = height_of-GivesHeight height (list xs) _ z refl h
  coin_height-GivesHeight height (dict f) z h = height_of-GivesHeight height (dict f) _ z refl h

  asked-ok :
      (height : ℤ) (u u' : Utxo) (n n' : N)
      → asked node height u n ≡ (ok u', n')
      → (v : N) × (a : Answer) × (z : ℤ) × (node.call
            (gettxout (to_hex u.outpoint.tx_id) u.outpoint.vout false)
            n
          ≡ (ok a, v))
        × (coin_height node height a ≡ ok z)
        × (record u { height = z } ≡ u')
  unfolding asked
  asked-ok height u u' n n' h =
      let (a, n₁, q, h₁) =
        and_then-eq-ok (node.call (gettxout (to_hex u.outpoint.tx_id) u.outpoint.vout false) n) _
          h in
      let (z, n₂, r, h₂) = and_then-eq-ok (coin_height node height a, n₁) _ h₁ in
      (n₁, a, z, q, ap (λ r. r.0) r, ok-injective (ap (λ r. r.0) h₂))

  left_or_asked-ok :
      (b : Bool) (height : ℤ) (u u' : Utxo) (n n' : N)
      → u.coinbase ≡ b
      → left_or_asked node b height u n ≡ (ok u', n')
      → SameCoin u u' × HasHeight height u'
  unfolding left_or_asked
  left_or_asked-ok true height u u' n n' e h =
      let s : u ≡ u' = ok-injective (ap (λ r. r.0) h) in rw (← s) (SameCoin-refl u, λ c. cc (e, c))
  left_or_asked-ok false height u u' n n' e h =
      let (v, a, z, q, r, s) = asked-ok height u u' n n' h in
      rw (← s) (
        record { outpoint = refl; value = refl; coinbase = refl; height = λ c. cc (e, c) },
        λ c. (n, v, a, q, coin_height-GivesHeight height a z r),
      )

  refreshed-ok :
      (height : ℤ) (u u' : Utxo) (n n' : N)
      → refreshed node height u n ≡ (ok u', n')
      → SameCoin u u' × HasHeight height u'
  unfolding refreshed
  refreshed-ok height u u' n n' h = left_or_asked-ok u.coinbase height u u' n n' refl h

  abbrev pub HasHeights : ℤ → List Utxo → Type 0
  HasHeights height [] = Unit
  HasHeights height (u ∷ us) = HasHeight height u × HasHeights height us

  -- What a run of the loop leaves of the coins not passed yet.
  abbrev pub Passes : List Utxo → List Utxo → World N → Type 0
  Passes before rest w =
      (new : List Utxo) × SameCoins rest new
      × ((resync_coins node before rest w).1.wallet ≡ record w.wallet { utxos = before ++ new })
      × ((resync_coins node before rest w).0 ≡ ok tt → HasHeights w.wallet.height new)

  resync_coins-Passes :
      (before rest : List Utxo) (w : World N)
      → w.wallet.utxos ≡ before ++ rest
      → Passes before rest w
  unfolding resync_coins
  resync_coins-Passes before [] w h = ([], tt, rw (← h) refl, λ k. tt)
  resync_coins-Passes before (u ∷ rest) w h =
      elim (outcome_cases (refreshed node w.wallet.height u w.node)) [
        | inl (u', n', e) ↦
            let moved : World N = record {
              wallet = record w.wallet { utxos = before ++ u' ∷ rest };
              node = n';
            } in
            let (new, same, left, heights) =
              resync_coins-Passes (before ++ u' ∷ []) rest moved
                (sym (append_assoc before (u' ∷ []) rest)) in
            let (same_coin, height) = refreshed-ok w.wallet.height u u' w.node n' e in
            rw e (
              u' ∷ new,
              (same_coin, same),
              left ∙ ap (λ us. record w.wallet { utxos = us }) (append_assoc before (u' ∷ []) new),
              λ k. (height, heights k),
            )
        | inr (x, n', e) ↦ rw e (u ∷ rest, SameCoins-refl (u ∷ rest), rw (← h) refl, λ k. cc)
      ]

  -- resync raises what reading the tip raises, with the wallet as it was. Once the tip is read, the
  -- wallet's tip, height and last time are the node's, and its coins are the same in the same order
  -- but for the heights of those that no coinbase pays, whether or not a later call raises; where
  -- resync returns, each of these has the height that the node's answer to a gettxout for the
  -- coin's own output, without the mempool, gives: 0 where the answer is null, and else that of the
  -- block with the answer's confirmations, which are at least 1.
  pub resync-SameCoins :
      (w : World N) (n : N)
      → ((e : Error)
          → read_tip node w.node ≡ (err e, n)
          → resync node w ≡ (err e, record w { node = n }))
        × ((t : Tip)
            → read_tip node w.node ≡ (ok t, n)
            → (new : List Utxo) × SameCoins w.wallet.utxos new
              × ((resync node w).1.wallet ≡ record w.wallet {
                utxos = new;
                tip = t.tip;
                height = t.height;
                last_time = t.median_time;
              })
              × ((resync node w).0 ≡ ok tt → HasHeights t.height new))
  unfolding resync
  resync-SameCoins w n = (
    λ e answered. rw answered refl,
    λ t answered. rw answered (
        resync_coins-Passes [] w.wallet.utxos
          (record {
            wallet = record w.wallet { tip = t.tip; height = t.height; last_time = t.median_time };
            node = n;
          })
          refl),
  )
