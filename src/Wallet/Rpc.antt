-- ===== src/Wallet/Rpc.antt =====
-- src/bitcoin_node_tests/mini_wallet.py: what the wallet asks of the node. A method that talks to the
-- node acts on a `World`, the wallet and the state of the node.
pub mod Send
pub mod Resync
use bitcoin_node_tests.Base.{
  Bool, false, Option, none, some, List, [], ◌∷◌, ◌++◌, map, if◌then◌else◌, true,
}
use bitcoin_node_tests.Base.Bytes.{Bytes, Text, to_hex, from_hex, bytes_eq}
use bitcoin_node_tests.Base.Exec.{
  Result, ok, err, type_error, value_error, Exec, pure, lift, gets, or_raise, modify, require,
  ◌>>=◌, ◌>>◌,
}
use bitcoin_node_tests.Base.Int.{ℤ, pos, ltb_ℤ, ◌+ℤ◌, ◌-ℤ◌}
use bitcoin_node_tests.Chain.{
  OutPoint, TxIn, Tx, Btclib, Node, getbestblockhash, getblockcount, getblockchaininfo,
  getrawmempool, gettxout, getrawtransaction, sendrawtransaction,
}
use bitcoin_node_tests.Chain.Json.{Answer, null, as_str, as_int, as_list, int_at}
use bitcoin_node_tests.Wallet.Cache.{Utxo, MiniWallet, scan_tx}

pub record World (N : Type 0) : Type 0 where
  pub wallet : MiniWallet
  pub node : N

-- The answer of `_read_tip`.
pub record Tip : Type 0 where
  pub tip : Bytes
  pub height : ℤ
  pub median_time : ℤ

module _ {N : Type 0} {A : Type 0} where
  -- an action on the node alone, on the wallet alone
  abbrev pub in_world : Result A × N → World N → Result A × World N
  in_world (r, n) w = (r, record w { node = n })

  abbrev pub on_node : Exec N A → Exec (World N) A
  on_node m w = in_world (m w.node) w

  abbrev pub with_wallet : Result A × MiniWallet → World N → Result A × World N
  with_wallet (r, v) w = (r, record w { wallet = v })

  abbrev pub on_wallet : Exec MiniWallet A → Exec (World N) A
  on_wallet m w = with_wallet (m w.wallet) w

abbrev pub wallet_of : {N : Type 0} → Exec (World N) MiniWallet
wallet_of = gets (λ w. w.wallet)

abbrev pub set_wallet : {N : Type 0} → MiniWallet → Exec (World N) (Unit {0})
set_wallet v = modify (λ w. record w { wallet = v })

module _ {N : Type 0} (node : Node N) where
  -- `_read_tip`
  unfoldable pub read_tip : Exec N Tip
  read_tip = do
    best_hash ← node.call getbestblockhash
    hash ← lift (or_raise (as_str best_hash) type_error)
    count ← node.call getblockcount
    height ← lift (or_raise (as_int count) type_error)
    chain_info ← node.call getblockchaininfo
    median_time ← lift (or_raise (int_at "mediantime" chain_info) type_error)
    tip ← lift (or_raise (from_hex hash) value_error)
    pure (record { tip = tip; height = height; median_time = median_time })

  -- `MiniWallet.__init__`
  unfoldable pub new_wallet : Exec N MiniWallet
  unfolding read_tip
  new_wallet = do
    t ← read_tip
    pure (record {
      utxos = [];
      scanned = [];
      tip = t.tip;
      height = t.height;
      last_time = t.median_time;
    })

  -- `confirmations` of a `gettxout` answer that is an `int` of at least 1, else `TypeError`
  abbrev height_of : ℤ → Option ℤ → Result ℤ
  height_of height none = err type_error
  height_of height (some confirmations) =
      if ltb_ℤ confirmations (pos 1) then err type_error else ok (height -ℤ confirmations +ℤ pos 1)

  -- The height that a `gettxout` answer gives a coin.
  unfoldable pub coin_height : ℤ → Answer → Result ℤ
  coin_height height null = ok (pos 0)
  coin_height height answer = height_of height (int_at "confirmations" answer)

  -- What the node says of a coin that no coinbase pays: the coin with its new height.
  unfoldable pub asked : ℤ → Utxo → Exec N Utxo
  unfolding coin_height
  asked height u = do
    answer ← node.call (gettxout (to_hex u.outpoint.tx_id) u.outpoint.vout false)
    h ← lift (coin_height height answer)
    pure (record u { height = h })

  -- by whether a coinbase pays the coin
  unfoldable pub left_or_asked : Bool → ℤ → Utxo → Exec N Utxo
  left_or_asked true height u = pure u
  left_or_asked false height u = asked height u

  -- One round of the loop of `resync`.
  unfoldable pub refreshed : ℤ → Utxo → Exec N Utxo
  refreshed height u = left_or_asked u.coinbase height u

  -- The loop of `resync`, which has passed the coins `before`. A write is seen also if a later
  -- coin raises.
  unfoldable pub resync_coins : List Utxo → List Utxo → Exec (World N) (Unit {0})
  resync_coins before [] = pure tt
  resync_coins before (u ∷ rest) = do
    w ← wallet_of
    u' ← on_node (refreshed w.height u)
    set_wallet (record w { utxos = before ++ u' ∷ rest })
    resync_coins (before ++ u' ∷ []) rest

  -- `MiniWallet.resync`
  unfoldable pub resync : Exec (World N) (Unit {0})
  resync = do
    t ← on_node read_tip
    w ← wallet_of
    set_wallet (record w { tip = t.tip; height = t.height; last_time = t.median_time })
    resync_coins [] w.utxos

module _ {H N : Type 0} (lib : Btclib H) (node : Node N) where
  -- The loop of `_mempool_spends` over the txids.
  unfoldable pub spends_of : List Answer → Exec N (List OutPoint)
  spends_of [] = pure []
  spends_of (txid ∷ txids) = do
    answer ← node.call (getrawtransaction txid)
    tx_hex ← lift (or_raise (as_str answer) type_error)
    raw ← lift (or_raise (from_hex tx_hex) value_error)
    tx ← lift (lib.tx_parse raw)
    rest ← spends_of txids
    pure (map (λ (i : TxIn). i.prev_out) tx.vin ++ rest)

  -- `MiniWallet._mempool_spends`
  unfoldable pub mempool_spends : Exec N (List OutPoint)
  unfolding spends_of
  mempool_spends = do
    answer ← node.call getrawmempool
    txids ← lift (or_raise (as_list answer) type_error)
    spends_of txids

  -- whether `sendrawtransaction` answered the transaction's own id
  abbrev answers_id : Option Text → Text → Bool
  answers_id none txid = false
  answers_id (some t) txid = bytes_eq t txid

  -- `MiniWallet._send`
  unfoldable pub send : Tx → Exec (World N) Tx
  unfolding scan_tx
  send tx = do
    answer ← on_node (node.call (sendrawtransaction (to_hex (lib.tx_serialize tx)) 0))
    require (answers_id (as_str answer) (to_hex (lib.tx_id tx))) type_error
    w ← wallet_of
    set_wallet (scan_tx lib tx w).1
    pure tx
