-- ===== src/Chain.antt =====
-- The data that the wallet exchanges with btclib and with a node: transactions, blocks, and the
-- JSON answers of `node.rpc.call`. btclib, the node and the clock are not part of this repository:
-- `Btclib` and `Node` list what `mini_wallet.py` calls of them, as parameters of every definition.
pub mod Json
use bitcoin_node_tests.Base.{
  ℕ, ◌≡◌, ap, ◌↔◌, Bool, true, false, ◌&&◌, Option, List, arith, ◌==◌, ==_iff,
}
use bitcoin_node_tests.Base.Bytes.{Bytes, bytes_eq, bytes_eq_iff, Text}
use bitcoin_node_tests.Base.Exec.{Result}
use bitcoin_node_tests.Base.Int.{ℤ}
use Json.{Answer}

-- btclib's `OutPoint`
pub record OutPoint : Type 0 where
  pub tx_id : Bytes
  pub vout : ℕ

-- `==` on two `OutPoint`s, a comparison of their fields
unfoldable pub outpoint_eq : OutPoint → OutPoint → Bool
outpoint_eq a b = bytes_eq a.tx_id b.tx_id && a.vout == b.vout

pub outpoint_eq_iff : (a b : OutPoint) → (outpoint_eq a b ≡ true) ↔ (a ≡ b)
unfolding outpoint_eq
outpoint_eq_iff a b = ground (arith, bytes_eq_iff a.tx_id b.tx_id)

-- btclib's `TxIn`, `TxOut` and `Tx`
pub record TxIn : Type 0 where
  pub prev_out : OutPoint
  pub script_sig : Bytes
  pub sequence : ℕ
  pub script_witness : List Bytes

pub record TxOut : Type 0 where
  pub value : ℕ
  pub script_pub_key : Bytes

pub record Tx : Type 0 where
  pub version : ℕ
  pub lock_time : ℕ
  pub vin : List TxIn
  pub vout : List TxOut

-- btclib's `Block`, over its header type
pub record Block (H : Type 0) : Type 0 where
  pub header : H
  pub transactions : List Tx

-- One entry of the list that `script_serialize` takes.
pub data ScriptItem : Type 0 where
  op_return op_1 op_true : ScriptItem
  push : Bytes → ScriptItem

-- The functions and constants of btclib that the wallet calls.
pub record Btclib (H : Type 0) : Type 0 where
  -- `Tx.id`, `Tx.vsize`, `Tx.serialize(True)`, `Tx.parse`
  pub tx_id : Tx → Bytes
  pub tx_vsize : Tx → ℕ
  pub tx_serialize : Tx → Bytes
  pub tx_parse : Bytes → Result Tx
  -- `build_coinbase` of a height, a script and a halving interval
  pub build_coinbase : ℤ → Bytes → ℕ → Tx
  -- `build_block` of a tip, transactions, a time, the target's bits and a version
  pub build_block : Bytes → List Tx → ℤ → ℕ → ℕ → Block H
  pub mine : H → Option H
  pub header_hash : H → Bytes
  pub block_serialize : Block H → Bytes
  pub subsidy : ℤ → ℕ → ℕ
  -- `script_serialize`, `tapscript_serialize`, `var_int.serialize`
  pub script_serialize : List ScriptItem → Bytes
  pub tapscript_serialize : List ScriptItem → Bytes
  pub var_int_serialize : ℕ → Bytes
  -- the script of `_ANYONE_CAN_SPEND`, and `input_script_sig(_INTERNAL_PUBKEY, _SCRIPT_TREE, 0)`
  pub anyone_can_spend : Bytes
  pub input_script_sig : List ScriptItem × Bytes
  -- `VERSION`, `REGTEST_POW_LIMIT_BITS`, the regtest `subsidy_halving_interval`, `COINBASE_MATURITY`
  pub block_version : ℕ
  pub pow_limit_bits : ℕ
  pub halving_interval : ℕ
  pub coinbase_maturity : ℕ

-- The calls of `node.rpc.call` that the wallet and the waits make, with their parameters.
pub data Call : Type 0 where
  getbestblockhash getblockcount getblockchaininfo getrawmempool getpeerinfo : Call
  gettxout : Text → ℕ → Bool → Call
  submitblock : Text → Call
  getrawtransaction : Answer → Call
  sendrawtransaction : Text → ℕ → Call
  addnode : Text → Text → Bool → Call
  disconnectnode : Text → Call

-- A node and the wall clock, over their state: a call answers or raises, and may change the state.
pub record Node (N : Type 0) : Type 0 where
  pub call : Call → N → Result Answer × N
  -- `int(datetime.now(UTC).timestamp())`
  pub now : N → ℕ
