-- ===== src/Wallet/Examples.antt =====
-- The wallet's theorems at concrete inputs.
use bitcoin_node_tests.Base.{
  ℕ, ◌+◌, ◌≤◌, ◌<◌, ◌≡◌, refl, ◌↔◌, ◌⊎◌, true, false, none, some, List, [], ◌∷◌, ◌++◌, arith,
  replicate, get_elem?,
}
use bitcoin_node_tests.Wallet.Cache.{
  Filters, MiniWallet, get_balance, get_utxo, candidates, sort_by_key, is_mature, key_le, utxo_eq,
  Utxo, index_of, pop_at, scan_tx, new_utxos, spends,
}
use bitcoin_node_tests.Wallet.Cache.Choice.{
  IsChoice, get_balance-get_utxo, get_utxo-IsChoice, get_utxo-lookup_error,
}
use bitcoin_node_tests.Wallet.Sample.{
  payment, lib, wallet, small, unconfirmed, mature, immature, coin, id_of, lib-SizeLaws,
}
use bitcoin_node_tests.Chain.{outpoint_eq, Tx, TxOut, TxIn}
use bitcoin_node_tests.Base.Int.{◌+ℤ◌, ◌-ℤ◌, pos}
use bitcoin_node_tests.Base.Bytes.{bytes_eq}
use bitcoin_node_tests.Base.Exec.{ok, err, lookup_error, value_error}
use bitcoin_node_tests.Wallet.Build.{
  MultiArgs, TransferArgs, pad_to_vsize, pay_to, spend_many, spend_one, default_transfer,
  self_transfer_tx, default_options, fee_constant, pay_self, with_output, padding,
}
use bitcoin_node_tests.Wallet.Cache.Scan.{
  Distinct, scan_tx-Distinct, IsPaid, scan_tx_lem, pays_wallet, coin_of, new_utxos_lem,
}
use mathlib.Core.List.{Memᴰ}
use bitcoin_node_tests.Wallet.Cache.Select.{Fits}
use bitcoin_node_tests.Wallet.Build.Fees.{
  IsFee, output_value, spent_outpoints, priced_size, spend_one-conserves,
}
use bitcoin_node_tests.Wallet.Build.Padding.{misses, owed, vsize-pad_to_vsize}
use bitcoin_node_tests.Wallet.Build.Shares.{pay_to-conserves, spend_many-conserves}

abbrev largest : Filters
largest = record { txid = none; vout = none; confirmed_only = false }

abbrev after_largest : MiniWallet
after_largest = record wallet { utxos = small ∷ mature ∷ immature ∷ [] }

-- The largest matured coin is the one that no block holds, of the two of 5000.
get_largest : get_utxo lib largest true wallet ≡ (ok unconfirmed, after_largest)
unfolding get_utxo candidates sort_by_key is_mature key_le utxo_eq outpoint_eq ◌+ℤ◌ ◌-ℤ◌ bytes_eq
    index_of pop_at
get_largest = refl

get_utxo-IsChoice_example : IsChoice lib largest true wallet unconfirmed after_largest
get_utxo-IsChoice_example =
    get_utxo-IsChoice lib largest true wallet after_largest unconfirmed get_largest

get_balance-get_utxo_example : get_balance wallet ≡ get_balance after_largest + 5000
get_balance-get_utxo_example =
    get_balance-get_utxo lib largest true wallet after_largest unconfirmed get_largest

get_utxo-lookup_error_example :
    (((get_utxo lib largest true wallet).0 ≡ err lookup_error)
      ↔ ((c : Utxo) → Memᴰ c wallet.utxos → ¬ Fits lib largest wallet.height c))
    × (((u : Utxo) × ((get_utxo lib largest true wallet).0 ≡ ok u))
        ⊎ ((get_utxo lib largest true wallet).0 ≡ err lookup_error))
get_utxo-lookup_error_example = get_utxo-lookup_error lib largest true wallet

new_utxos_example :
    ((u : Utxo) → Memᴰ u (new_utxos lib payment) → IsPaid lib (id_of payment) 0 payment.vout u)
    × ((i : ℕ) (o : TxOut)
        → get_elem? payment.vout i ≡ some o
        → pays_wallet lib o ≡ true
        → Memᴰ (coin_of lib (id_of payment) i o) (new_utxos lib payment))
    × Distinct (new_utxos lib payment)
new_utxos_example = new_utxos_lem lib payment

scan_tx_example :
    ((c : Utxo)
      → Memᴰ c (scan_tx lib payment wallet).1.utxos ↔ (
          (Memᴰ c wallet.utxos × (spends payment c.outpoint ≡ false))
          ⊎ Memᴰ c (new_utxos lib payment)))
    × ((scan_tx lib payment wallet).0 ≡ new_utxos lib payment)
    × ((scan_tx lib payment wallet).1 ≡ record wallet {
      utxos = (scan_tx lib payment wallet).1.utxos;
      scanned = id_of payment ∷ [];
    })
scan_tx_example = scan_tx_lem lib payment wallet

scan_tx-Distinct_example : Distinct (scan_tx lib payment wallet).1.utxos
scan_tx-Distinct_example =
    scan_tx-Distinct lib payment wallet
      ((λ e. ground arith), ((λ e. ground arith), ((λ e. ground arith), ((λ e. ground arith), tt))))
      (
        ((λ e. ground arith), ((λ e. ground arith), ((λ e. ground arith), tt))),
        (((λ e. ground arith), ((λ e. ground arith), tt)), (((λ e. ground arith), tt), (tt, tt))),
      )

abbrev transfer : TransferArgs
transfer = default_transfer none

abbrev multi : MultiArgs
multi = record {
  utxos_to_spend = none;
  num_outputs = 2;
  fee_per_output = pos 100;
  target_vsize = 0;
  confirmed_only = false;
  options = default_options;
}

abbrev input_of : Utxo → TxIn
input_of u = record {
  prev_out = u.outpoint;
  script_sig = [];
  sequence = 0;
  script_witness = (0x51 ∷ []) ∷ (7 ∷ []) ∷ [];
}

abbrev own : ℕ → TxOut
own value = record { value = value; script_pub_key = 1 ∷ [] }

abbrev rich : Utxo
rich = coin 8 100_000 20 true

abbrev transfer_tx : Tx
transfer_tx = record { version = 2; lock_time = 0; vin = input_of rich ∷ []; vout = own 75400 ∷ [] }

transfer_tx_lem : spend_one lib transfer rich ≡ ok transfer_tx
unfolding spend_one
transfer_tx_lem = refl

spend_one-conserves_example :
    (base : Tx) × (paid : ℕ) × (self_transfer_tx lib (rich ∷ []) 0 1 default_options ≡ ok base)
    × IsFee lib 0 300_000 (priced_size lib 0 (lib.tx_vsize base)) paid
    × (output_value transfer_tx + paid ≡ 100_000)
    × (0 < output_value transfer_tx)
    × (spent_outpoints transfer_tx ≡ rich.outpoint ∷ [])
spend_one-conserves_example =
    spend_one-conserves lib transfer rich transfer_tx 0 300_000 refl refl transfer_tx_lem

abbrev multi_tx : Tx
multi_tx = record {
  version = 2;
  lock_time = 0;
  vin = input_of small ∷ input_of rich ∷ [];
  vout = own 50250 ∷ own 50250 ∷ [];
}

multi_tx_lem : spend_many lib multi (small ∷ rich ∷ []) ≡ ok multi_tx
unfolding spend_many
multi_tx_lem = refl

spend_many-conserves_example :
    (amount paid : ℕ) × (more : List TxOut) × (0 < amount)
    × (multi_tx.vout ≡ replicate 2 (pay_self lib amount) ++ more)
    × (output_value multi_tx + paid ≡ 100_700)
    × (200 ≤ paid)
    × (paid < 202)
    × (spent_outpoints multi_tx ≡ small.outpoint ∷ rich.outpoint ∷ [])
spend_many-conserves_example =
    spend_many-conserves lib multi (small ∷ rich ∷ []) multi_tx 100 1 refl refl multi_tx_lem

pay_to-conserves_example :
    ((pay_to lib (2 ∷ []) 300 rich ≡ err value_error) ↔ (rich.value < 300 + fee_constant))
    × ((tx : Tx)
        → pay_to lib (2 ∷ []) 300 rich ≡ ok tx
        → (change : ℕ) × (change + 300 + fee_constant ≡ rich.value)
          × (tx.vout ≡ pay_self lib change ∷ record { value = 300; script_pub_key = 2 ∷ [] } ∷ [])
          × (spent_outpoints tx ≡ rich.outpoint ∷ []))
pay_to-conserves_example = pay_to-conserves lib (2 ∷ []) 300 rich

vsize-pad_to_vsize_example :
    ((pad_to_vsize lib transfer_tx 337 ≡ err value_error)
      ↔ (337 < lib.tx_vsize (with_output lib transfer_tx (padding lib 0))))
    × ((tx : Tx)
        → pad_to_vsize lib transfer_tx 337 ≡ ok tx
        → (lib.tx_vsize tx ≡ 337) ↔ (misses lib (owed lib transfer_tx 337) ≡ false))
    × (lib.tx_vsize (with_output lib transfer_tx (padding lib 0)) ≤ 337
        → (tx : Tx) × (pad_to_vsize lib transfer_tx 337 ≡ ok tx))
vsize-pad_to_vsize_example = vsize-pad_to_vsize lib lib-SizeLaws transfer_tx 337 (omega arith)
