-- ===== src/Wallet/Sample.antt =====
-- A concrete btclib for the examples: small functions that meet the laws the theorems assume.
use bitcoin_node_tests.Base.{
  ℕ, zero, suc, ◌+◌, ◌≡◌, refl, ap, Bool, true, false, some, [], ◌∷◌, map, arith, length,
  if◌then◌else◌, replicate, sum_by, sum_by-append, ltb, ◌%◌, ◌/◌,
}
use bitcoin_node_tests.Base.Bytes.{Bytes}
use bitcoin_node_tests.Base.Int.{ℤ, pos, pos_part}
use bitcoin_node_tests.Chain.{Btclib, ScriptItem, Tx, TxOut, push, op_1, op_return, op_true}
use bitcoin_node_tests.Wallet.Build.Padding.{SizeLaws}
use bitcoin_node_tests.Wallet.Cache.{MiniWallet, Utxo}
use bitcoin_node_tests.Base.Exec.{err, value_error}

-- A header names the block before it and the block's time; its hash is made of both.
pub record Header : Type 0 where
  pub previous : Bytes
  pub time : ℤ

abbrev pub compact_size : ℕ → Bytes
compact_size n =
    if ltb n 0xfd
    then n ∷ []
    else if ltb n 0x10000
    then 0xfd ∷ n % 256 ∷ n / 256 ∷ []
    else 0xfe ∷ n % 256 ∷ n / 256 % 256 ∷ n / 65536 % 256 ∷ n / 16777216 ∷ []

abbrev pub opcode : ScriptItem → ℕ
opcode op_return = 0x6a
opcode op_1 = 0x51
opcode op_true = 0x51
opcode (push b) = 0

abbrev pub script_size : TxOut → ℕ
script_size o = length (compact_size (length o.script_pub_key)) + length o.script_pub_key

abbrev pub id_of : Tx → Bytes
id_of tx = tx.lock_time ∷ length tx.vin ∷ length tx.vout ∷ []

abbrev pub coinbase_tx : ℤ → Bytes → ℕ → Tx
coinbase_tx height script interval = record {
  version = 2;
  lock_time = pos_part height;
  vin = [];
  vout = record { value = 5000; script_pub_key = script } ∷ [];
}

abbrev pub lib : Btclib Header
lib = record {
  tx_id = id_of;
  tx_vsize = λ tx. 80 + sum_by script_size tx.vout;
  tx_serialize = id_of;
  tx_parse = λ b. err value_error;
  build_coinbase = coinbase_tx;
  build_block = λ tip txs time bits version. record {
    header = record { previous = tip; time = time };
    transactions = txs;
  };
  mine = λ h. some h;
  header_hash = λ h. pos_part h.time ∷ h.previous;
  block_serialize = λ b. pos_part b.header.time ∷ b.header.previous;
  subsidy = λ height interval. 5000;
  script_serialize = map opcode;
  tapscript_serialize = map opcode;
  var_int_serialize = compact_size;
  anyone_can_spend = 1 ∷ [];
  input_script_sig = (op_true ∷ [], 7 ∷ []);
  block_version = 4;
  pow_limit_bits = 0;
  halving_interval = 150;
  coinbase_maturity = 100;
}

length-opcodes : (n : ℕ) → length (map opcode (replicate n op_1)) ≡ n
length-opcodes zero = refl
length-opcodes (suc n) = ap suc (length-opcodes n)

pub lib-SizeLaws : SizeLaws lib
lib-SizeLaws = record {
  script_length = λ n. ap suc (length-opcodes n);
  prefix_1 = λ n h. ground arith;
  prefix_3 = λ n h k. ground arith;
  prefix_5 = λ n h k. ground arith;
  vsize_output = λ tx v s t. omega (
    arith,
    sum_by-append script_size tx.vout (record { value = v; script_pub_key = s } ∷ []),
    sum_by-append script_size tx.vout (record { value = v; script_pub_key = t } ∷ []),
  );
}

-- Coins of a wallet at height 200.
abbrev pub coin : ℕ → ℕ → ℕ → Bool → Utxo
coin id value height coinbase = record {
  outpoint = record { tx_id = id ∷ []; vout = 0 };
  value = value;
  height = pos height;
  coinbase = coinbase;
}

abbrev pub immature : Utxo
immature = coin 1 9000 150 true

abbrev pub mature : Utxo
mature = coin 2 5000 50 true

abbrev pub unconfirmed : Utxo
unconfirmed = coin 3 5000 0 false

abbrev pub small : Utxo
small = coin 4 700 120 false

abbrev pub wallet : MiniWallet
wallet = record {
  utxos = small ∷ immature ∷ unconfirmed ∷ mature ∷ [];
  scanned = [];
  tip = 9 ∷ [];
  height = pos 200;
  last_time = pos 1000;
}

-- One transaction that spends the small coin and pays the wallet 600 and another script 50.
abbrev pub payment : Tx
payment = record {
  version = 2;
  lock_time = 77;
  vin =
      record { prev_out = small.outpoint; script_sig = []; sequence = 0; script_witness = [] } ∷ [];
  vout =
      record { value = 50; script_pub_key = 2 ∷ [] }
      ∷ record { value = 600; script_pub_key = 1 ∷ [] }
      ∷ [];
}
