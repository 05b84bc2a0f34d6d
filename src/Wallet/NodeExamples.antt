-- ===== src/Wallet/NodeExamples.antt =====
-- The theorems on what the wallet asks of a node, at concrete inputs.
use bitcoin_node_tests.Base.{
  ℕ, zero, suc, ◌+◌, ◌-◌, ◌*◌, ◌≤◌, ◌<◌, ◌≡◌, ◌≢◌, refl, sym, ap, ◌∙◌, ◌↔◌, ◌⊎◌, inl, inr, Bool,
  true, false, not, ◌&&◌, ◌||◌, Option, none, some, List, [], ◌∷◌, ◌++◌, map, arith, All,
  Bool-cases, length,
}
use bitcoin_node_tests.Base.Bytes.{Bytes, to_hex}
use bitcoin_node_tests.Base.Exec.{ok}
use bitcoin_node_tests.Chain.{
  getblockcount, getblockchaininfo, getrawmempool, gettxout, submitblock, getrawtransaction,
  sendrawtransaction, Block, Call, Node, getbestblockhash,
}
use bitcoin_node_tests.Wallet.Cache.{Utxo, scan_tx}
use bitcoin_node_tests.Wallet.Mining.{
  Mined, build_fork, generate, generate_block, mine_one, defaults,
}
use bitcoin_node_tests.Wallet.Mining.Fork.{HeaderLaws, IsFork, build_fork-IsFork}
use bitcoin_node_tests.Wallet.Rpc.{Tip, World, read_tip, send, resync}
use bitcoin_node_tests.Wallet.Sample.{payment, Header, lib, wallet, coinbase_tx}
use bitcoin_node_tests.Base.Int.{pos, ℤ, ◌+ℤ◌}
use bitcoin_node_tests.Chain.Json.{Answer, str, int, dict, field, end, list, nil, null, bool}
use bitcoin_node_tests.Wallet.Mining.Generate.{IsRun, generate-IsRun}
use bitcoin_node_tests.Wallet.Rpc.Resync.{SameCoins, HasHeights, resync-SameCoins}
use bitcoin_node_tests.Wallet.Rpc.Send.{send_outcomes}

-- A node at height 200 that accepts every block and every transaction; its state is the clock.
abbrev answer_of : Call → Answer
answer_of getbestblockhash = str (to_hex (9 ∷ []))
answer_of getblockcount = int (pos 200)
answer_of getblockchaininfo = dict (field "mediantime" (int (pos 1000)) end)
answer_of getrawmempool = list nil
answer_of (gettxout txid vout mempool) = dict (field "confirmations" (int (pos 3)) end)
answer_of (submitblock block) = null
answer_of (getrawtransaction txid) = null
answer_of (sendrawtransaction tx rate) = str tx
answer_of _ = null

abbrev node : Node ℕ
node = record { call = λ c n. (ok (answer_of c), n); now = λ n. n }

abbrev world : World ℕ
world = record { wallet = wallet; node = 900 }

abbrev previous : Header → Bytes
previous h = h.previous

abbrev time : Header → ℤ
time h = h.time

header_laws : HeaderLaws lib previous time
header_laws = record {
  built = λ tip txs t bits version. (refl, refl);
  mined = λ h h' e. let same : h ≡ h' = cc e in (ap previous (sym same), ap time (sym same));
}

abbrev tip_read : Tip
tip_read = record { tip = 9 ∷ []; height = pos 200; median_time = pos 1000 }

abbrev fork_block : Bytes → ℕ → ℕ → Block Header
fork_block tip t height = record {
  header = record { previous = tip; time = pos t };
  transactions = coinbase_tx (pos height) (3 ∷ []) 150 ∷ [];
}

abbrev fork_blocks : List (Block Header)
fork_blocks = fork_block (9 ∷ []) 1001 201 ∷ fork_block (1001 ∷ 9 ∷ []) 1002 202 ∷ []

tip_lem : read_tip node 900 ≡ (ok tip_read, 900)
unfolding read_tip bitcoin_node_tests.Chain.Json.int_at bitcoin_node_tests.Base.Bytes.from_hex
    to_hex bitcoin_node_tests.Base.Bytes.is_space bitcoin_node_tests.Base.Bytes.hex_digit
    bitcoin_node_tests.Base.Bytes.digit_value
tip_lem = refl

fork_lem : build_fork lib node (3 ∷ []) 2 900 ≡ (ok fork_blocks, 900)
unfolding build_fork read_tip bitcoin_node_tests.Chain.Json.int_at
    bitcoin_node_tests.Base.Bytes.from_hex to_hex bitcoin_node_tests.Base.Bytes.is_space
    bitcoin_node_tests.Base.Bytes.hex_digit bitcoin_node_tests.Base.Bytes.digit_value mine_one
    bitcoin_node_tests.Base.Int.◌+ℤ◌
fork_lem = refl

build_fork-IsFork_example :
    (length fork_blocks ≡ 2)
    × IsFork lib node previous time (9 ∷ []) (pos 1000) fork_blocks
    × ◌≡◌ {A = ℕ} 900 900
build_fork-IsFork_example =
    build_fork-IsFork lib node previous time header_laws (3 ∷ []) 2 900 900 900 tip_read fork_blocks
      tip_lem fork_lem

send_outcomes_example :
    send lib node payment world
    ≡ (ok payment, record world { wallet = (scan_tx lib payment wallet).1 })
send_outcomes_example = (send_outcomes lib node payment world 900).1 refl

abbrev hashes : List Bytes
hashes = (1001 ∷ 9 ∷ []) ∷ (1002 ∷ 1001 ∷ 9 ∷ []) ∷ []

generate_lem : (generate lib node 2 (payment ∷ []) world).0 ≡ ok hashes
unfolding generate generate_block mine_one bitcoin_node_tests.Wallet.Mining.settle
    bitcoin_node_tests.Wallet.Cache.new_utxos bitcoin_node_tests.Base.Bytes.bytes_eq
    bitcoin_node_tests.Wallet.Rpc.mempool_spends bitcoin_node_tests.Base.Int.◌+ℤ◌
generate_lem = refl

generate-IsRun_example :
    (length hashes ≡ 2)
    × IsRun lib node previous time hashes world (generate lib node 2 (payment ∷ []) world).1
    × ((generate lib node 2 (payment ∷ []) world).1.wallet.height ≡ pos 200 +ℤ pos 2)
generate-IsRun_example =
    generate-IsRun lib node previous time header_laws 2 (payment ∷ []) world
      (generate lib node 2 (payment ∷ []) world).1 hashes
      (ap (λ r. (r, (generate lib node 2 (payment ∷ []) world).1)) generate_lem)

resync-SameCoins_example :
    (new : List Utxo) × SameCoins wallet.utxos new
    × ((resync node world).1.wallet
        ≡ record wallet { utxos = new; tip = 9 ∷ []; height = pos 200; last_time = pos 1000 })
    × ((resync node world).0 ≡ ok tt → HasHeights node (pos 200) new)
resync-SameCoins_example = (resync-SameCoins node world 900).1 tip_read tip_lem
