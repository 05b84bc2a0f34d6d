-- ===== src/Wallet/Build.antt =====
-- src/bitcoin_node_tests/mini_wallet.py: the transactions that a `MiniWallet` builds around the
-- coins that it spends.
pub mod Padding
pub mod Fees
pub mod Shares
use bitcoin_node_tests.Base.{
  ℕ, zero, suc, ◌+◌, ◌-◌, Bool, false, Option, List, [], ◌∷◌, ◌++◌, if◌then◌else◌, length,
  replicate, sum_by, ltb, leb, ◌==◌,
}
use bitcoin_node_tests.Base.Bytes.{Bytes}
use bitcoin_node_tests.Base.Exec.{Result, ok, err, value_error, zero_division}
use bitcoin_node_tests.Base.Raise.{◌>>=◌}
use bitcoin_node_tests.Base.Int.{ℤ, pos, negsuc, ◌-ℤ◌, ◌*ℤ◌, neg, floor_div}
use bitcoin_node_tests.Chain.{TxIn, TxOut, Tx, Btclib, op_return, op_1}
use bitcoin_node_tests.Wallet.Cache.{Utxo}

-- `sequence`: one number for every input, or one for each.
pub data Sequence : Type 0 where
  all : ℕ → Sequence
  each : List ℕ → Sequence

abbrev pub sequences : Sequence → ℕ → List ℕ
sequences (all n) inputs = replicate inputs n
sequences (each ns) inputs = ns

-- The keyword arguments that the two `create_*` methods share.
pub record TxOptions : Type 0 where
  pub version : ℕ
  pub lock_time : ℕ
  pub sequence : Sequence

-- `FEE`
abbrev pub fee_constant : ℕ
fee_constant = 1000

-- `DEFAULT_FEE_RATE`
abbrev pub default_fee_rate : ℕ
default_fee_rate = 300_000

abbrev pub default_options : TxOptions
default_options = record { version = 2; lock_time = 0; sequence = all 0 }

-- `vout[0] = out` on a list that holds an output
abbrev pub set_first : TxOut → List TxOut → List TxOut
set_first out [] = []
set_first out (o ∷ rest) = out ∷ rest

-- `-(-fee_rate * (target_vsize or tx.vsize) // 1000)`
unfoldable pub fee_at_rate : ℤ → ℕ → ℕ → ℤ
unfolding ◌*ℤ◌ neg floor_div
fee_at_rate fee_rate target_vsize vsize =
    neg (floor_div (neg fee_rate *ℤ pos (if target_vsize == 0 then vsize else target_vsize)) 1000)

-- the fee in force: `fee` where it is not zero
unfoldable pub fee_of : ℤ → ℤ → ℕ → ℕ → ℤ
unfolding fee_at_rate
fee_of (pos zero) fee_rate target_vsize vsize = fee_at_rate fee_rate target_vsize vsize
fee_of fee fee_rate target_vsize vsize = fee

-- `utxo.value - fee`, or the refusal where the fee leaves nothing
unfoldable pub less_fee : ℕ → ℤ → Result ℕ
less_fee value (pos fee) = if leb value fee then err value_error else ok (value - fee)
less_fee value (negsuc n) = ok (value + suc n)

-- `if amount_per_output <= 0: raise ValueError`
unfoldable pub positive : ℤ → Result ℕ
positive (pos (suc amount)) = ok (suc amount)
positive _ = err value_error

-- `(inputs_total - fee_per_output * num_outputs) // num_outputs`, where it is positive
unfoldable pub share : ℕ → ℤ → ℕ → Result ℕ
unfolding ◌*ℤ◌ ◌-ℤ◌ floor_div positive
share inputs_total fee_per_output zero = err zero_division
share inputs_total fee_per_output (suc n) =
    positive (floor_div (pos inputs_total -ℤ fee_per_output *ℤ pos (suc n)) (suc n))

module _ {H : Type 0} (lib : Btclib H) where
  -- `_witness`
  unfoldable pub witness : List Bytes
  witness = lib.tapscript_serialize lib.input_script_sig.0 ∷ lib.input_script_sig.1 ∷ []

  abbrev pub pay_self : ℕ → TxOut
  pay_self value = record { value = value; script_pub_key = lib.anyone_can_spend }

  -- `zip(utxos, sequences, strict=True)` over lists of one length
  unfoldable pub inputs : List Utxo → List ℕ → List TxIn
  inputs (u ∷ us) (s ∷ ss) =
      record { prev_out = u.outpoint; script_sig = []; sequence = s; script_witness = witness }
      ∷ inputs us ss
  inputs _ _ = []

  -- `MiniWallet._self_transfer_tx`
  unfoldable pub self_transfer_tx : List Utxo → ℕ → ℕ → TxOptions → Result Tx
  unfolding inputs witness
  self_transfer_tx utxos amount_per_output num_outputs options =
      let ss = sequences options.sequence (length utxos) in
      if length ss == length utxos
      then ok (record {
        version = options.version;
        lock_time = options.lock_time;
        vin = inputs utxos ss;
        vout = replicate num_outputs (pay_self amount_per_output);
      })
      else err value_error

  abbrev pub padding : ℕ → TxOut
  padding ones = record {
    value = 0;
    script_pub_key = lib.script_serialize (op_return ∷ replicate ones op_1);
  }

  -- a transaction with one output more
  abbrev pub with_output : Tx → TxOut → Tx
  with_output tx out = record tx { vout = tx.vout ++ out ∷ [] }

  -- the opcodes that pad by `deficit`, less the growth of the length prefix past one byte; a
  -- negative count makes no opcode in `["OP_1"] * deficit`
  unfoldable pub padding_ops : ℕ → ℕ
  padding_ops deficit = deficit - (length (lib.var_int_serialize deficit) - 1)

  -- `_pad_to_vsize`: `tx.vsize` is read with the placeholder output in place
  unfoldable pub pad_to_vsize : Tx → ℕ → Result Tx
  unfolding padding_ops
  pad_to_vsize tx target_vsize =
      let vsize = lib.tx_vsize (with_output tx (padding 0)) in
      if ltb target_vsize vsize
      then err value_error
      else ok (with_output tx (padding (padding_ops (target_vsize - vsize))))

  -- `if target_vsize: _pad_to_vsize(tx, target_vsize)`
  unfoldable pub pad_if_asked : Tx → ℕ → Result Tx
  unfolding pad_to_vsize
  pad_if_asked tx zero = ok tx
  pad_if_asked tx (suc n) = pad_to_vsize tx (suc n)

-- The keyword arguments of `create_self_transfer`.
pub record TransferArgs : Type 0 where
  pub fee_rate : ℤ
  pub fee : ℤ
  pub utxo_to_spend : Option Utxo
  pub target_vsize : ℕ
  pub confirmed_only : Bool
  pub options : TxOptions

-- The keyword arguments of `create_self_transfer_multi`.
pub record MultiArgs : Type 0 where
  pub utxos_to_spend : Option (List Utxo)
  pub num_outputs : ℕ
  pub fee_per_output : ℤ
  pub target_vsize : ℕ
  pub confirmed_only : Bool
  pub options : TxOptions

abbrev pub default_transfer : Option Utxo → TransferArgs
default_transfer u = record {
  fee_rate = pos default_fee_rate;
  fee = pos 0;
  utxo_to_spend = u;
  target_vsize = 0;
  confirmed_only = false;
  options = default_options;
}

module _ {H : Type 0} (lib : Btclib H) where
  -- the transaction of `create_self_transfer` around the coin that it spends
  unfoldable pub spend_one : TransferArgs → Utxo → Result Tx
  unfolding self_transfer_tx fee_of less_fee pad_if_asked
  spend_one a u = do
    tx ← self_transfer_tx lib (u ∷ []) 0 1 a.options
    value ← less_fee u.value (fee_of a.fee a.fee_rate a.target_vsize (lib.tx_vsize tx))
    pad_if_asked lib (record tx { vout = set_first (pay_self lib value) tx.vout }) a.target_vsize

  -- the transaction of `create_self_transfer_multi` around the coins that it spends
  unfoldable pub spend_many : MultiArgs → List Utxo → Result Tx
  unfolding share self_transfer_tx pad_if_asked
  spend_many a us = do
    amount ← share (sum_by (λ u. u.value) us) a.fee_per_output a.num_outputs
    tx ← self_transfer_tx lib us amount a.num_outputs a.options
    pad_if_asked lib tx a.target_vsize

  -- the transaction of `send_to` around the coin that it spends
  unfoldable pub pay_to : Bytes → ℕ → Utxo → Result Tx
  unfolding self_transfer_tx
  pay_to script value u = if ltb u.value (value + fee_constant) then err value_error else do
    tx ← self_transfer_tx lib (u ∷ []) (u.value - value - fee_constant) 1 default_options
    ok (with_output lib tx (record { value = value; script_pub_key = script }))
