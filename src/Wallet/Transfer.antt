-- ===== src/Wallet/Transfer.antt =====
-- src/bitcoin_node_tests/mini_wallet.py: the transactions that a `MiniWallet` builds and sends.
use bitcoin_node_tests.Base.{
  ℕ, zero, suc, Bool, true, false, not, ◌||◌, Option, none, some, List, [], ◌∷◌,
}
use bitcoin_node_tests.Base.Bytes.{Bytes}
use bitcoin_node_tests.Base.Exec.{
  value_error, index_error, Exec, pure, lift, or_raise, require, ◌>>=◌, ◌>>◌,
}
use bitcoin_node_tests.Base.Int.{is_negative}
use bitcoin_node_tests.Chain.{Tx, Btclib, Node}
use bitcoin_node_tests.Wallet.Cache.{Utxo, MiniWallet, Filters, get_utxo, new_utxos}
use bitcoin_node_tests.Wallet.Build.{
  TransferArgs, MultiArgs, default_transfer, spend_one, spend_many, pay_to,
}
use bitcoin_node_tests.Wallet.Rpc.{World, on_wallet, send}
use bitcoin_node_tests.Base.{head?}

-- `get_utxo(confirmed_only=confirmed_only)`
abbrev pub any_coin : Bool → Filters
any_coin confirmed_only = record { txid = none; vout = none; confirmed_only = confirmed_only }

module _ {H : Type 0} (lib : Btclib H) where
  -- the coin given, or the largest matured one
  unfoldable pub coin_or_any : Option Utxo → Bool → Exec MiniWallet Utxo
  coin_or_any (some u) confirmed_only = pure u
  coin_or_any none confirmed_only = get_utxo lib (any_coin confirmed_only) true

  -- `MiniWallet.create_self_transfer`
  unfoldable pub create_self_transfer : TransferArgs → Exec MiniWallet Tx
  unfolding coin_or_any spend_one
  create_self_transfer a = do
    require (not (is_negative a.fee_rate || is_negative a.fee)) value_error
    u ← coin_or_any a.utxo_to_spend a.confirmed_only
    lift (spend_one lib a u)

  coins_or_any : Option (List Utxo) → Bool → Exec MiniWallet (List Utxo)
  coins_or_any (some us) confirmed_only = pure us
  coins_or_any none confirmed_only = do
    u ← get_utxo lib (any_coin confirmed_only) true
    pure (u ∷ [])

  -- `MiniWallet.create_self_transfer_multi`
  unfoldable pub create_self_transfer_multi : MultiArgs → Exec MiniWallet Tx
  unfolding coins_or_any spend_many
  create_self_transfer_multi a = do
    us ← coins_or_any a.utxos_to_spend a.confirmed_only
    lift (spend_many lib a us)

  -- The loop of `create_self_transfer_chain`, with the rounds left.
  unfoldable pub chain_from : ℕ → Option Utxo → Exec MiniWallet (List Tx)
  chain_from zero utxo = pure []
  chain_from (suc rounds) utxo = do
    tx ← create_self_transfer (default_transfer utxo)
    next ← lift (or_raise (head? (new_utxos lib tx)) index_error)
    rest ← chain_from rounds (some next)
    pure (tx ∷ rest)

  -- `MiniWallet.create_self_transfer_chain`
  unfoldable pub create_self_transfer_chain : ℕ → Option Utxo → Exec MiniWallet (List Tx)
  unfolding chain_from
  create_self_transfer_chain chain_length utxo_to_spend = chain_from chain_length utxo_to_spend

  module _ {N : Type 0} (node : Node N) where
    -- `MiniWallet.send_self_transfer`
    unfoldable pub send_self_transfer : TransferArgs → Exec (World N) Tx
    unfolding create_self_transfer send
    send_self_transfer a = do tx ← on_wallet (create_self_transfer a); send lib node tx

    -- `MiniWallet.send_self_transfer_multi`
    unfoldable pub send_self_transfer_multi : MultiArgs → Exec (World N) Tx
    unfolding create_self_transfer_multi send
    send_self_transfer_multi a = do tx ← on_wallet (create_self_transfer_multi a); send lib node tx

    unfoldable pub send_each : List Tx → Exec (World N) (Unit {0})
    unfolding send
    send_each [] = pure tt
    send_each (tx ∷ txs) = do send lib node tx; send_each txs

    -- `MiniWallet.send_self_transfer_chain`
    unfoldable pub send_self_transfer_chain : ℕ → Option Utxo → Exec (World N) (List Tx)
    unfolding create_self_transfer_chain send_each
    send_self_transfer_chain chain_length utxo_to_spend = do
      chain ← on_wallet (create_self_transfer_chain chain_length utxo_to_spend)
      send_each chain
      pure chain

    -- `MiniWallet.send_to`
    unfoldable pub send_to : Bytes → ℕ → Exec (World N) Tx
    unfolding pay_to send get_utxo
    send_to script value = do
      u ← on_wallet (get_utxo lib (any_coin false) true)
      tx ← lift (pay_to lib script value u)
      send lib node tx
