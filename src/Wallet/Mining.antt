-- ===== src/Wallet/Mining.antt =====
-- src/bitcoin_node_tests/mini_wallet.py: `_mine_one`, `build_fork`, `build_next_block` and
-- `MiniWallet.generate`.
pub mod Fork
pub mod Generate
use bitcoin_node_tests.Base.{
  ℕ, zero, suc, Bool, true, not, Option, none, some, List, [], ◌∷◌, ◌++◌, any, map, if◌then◌else◌,
  keep_if, head?,
}
use bitcoin_node_tests.Base.Bytes.{Bytes, bytes_eq, to_hex}
use bitcoin_node_tests.Base.Exec.{
  Result, ok, err, type_error, runtime_error, index_error, Exec, pure, lift, or_raise, require,
  ◌>>=◌, ◌>>◌,
}
use bitcoin_node_tests.Base.Int.{ℤ, pos, ltb_ℤ, ◌+ℤ◌}
use bitcoin_node_tests.Chain.{OutPoint, outpoint_eq, Tx, Block, Btclib, Node, submitblock}
use bitcoin_node_tests.Chain.Json.{Answer, is_null}
use bitcoin_node_tests.Wallet.Cache.{Utxo, MiniWallet, unspent_by, scan_tx}
use bitcoin_node_tests.Wallet.Rpc.{World, on_node, wallet_of, set_wallet, read_tip, mempool_spends}

abbrev max_ℤ : ℤ → ℤ → ℤ
max_ℤ a b = if ltb_ℤ a b then b else a

-- The keyword arguments of `_mine_one` past `extra_transactions`.
pub record BlockOptions : Type 0 where
  pub version : ℕ
  pub extra_output_script : Option Bytes
  pub block_time : Option ℤ

-- A block and the time it carries.
pub record Mined (H : Type 0) : Type 0 where
  pub block : Block H
  pub time : ℤ

module _ {H : Type 0} (lib : Btclib H) where
  abbrev pub defaults : BlockOptions
  defaults = record { version = lib.block_version; extra_output_script = none; block_time = none }

  -- `coinbase.vout.append(TxOut(0, extra_output_script))` where a script is given
  with_extra_output : Option Bytes → Tx → Tx
  with_extra_output none coinbase = coinbase
  with_extra_output (some script) coinbase = record coinbase {
    vout = coinbase.vout ++ record { value = 0; script_pub_key = script } ∷ [];
  }

  -- the time as given, or the clock's, past `min_time`
  time_of : Option ℤ → ℤ → ℕ → ℤ
  time_of (some time) min_time now = time
  time_of none min_time now = max_ℤ (pos now) (min_time +ℤ pos 1)

  solved_block : Option H → Block H → ℤ → Result (Mined H)
  solved_block none candidate time = err runtime_error
  solved_block (some header) candidate time =
      ok (record { block = record candidate { header = header }; time = time })

  module _ {N : Type 0} (node : Node N) where
    -- `_mine_one`
    unfoldable pub mine_one : Bytes → ℤ → ℤ → Bytes → List Tx → BlockOptions → Exec N (Mined H)
    unfolding with_extra_output time_of solved_block
    mine_one tip height min_time script extra_transactions options n =
        let coinbase =
          with_extra_output options.extra_output_script
            (lib.build_coinbase height script lib.halving_interval) in
        let time = time_of options.block_time min_time (node.now n) in
        let candidate =
          lib.build_block tip (coinbase ∷ extra_transactions) time lib.pow_limit_bits
            options.version in
        (solved_block (lib.mine candidate.header) candidate time, n)

    -- The loop of `build_fork`, with the rounds left.
    unfoldable pub fork_from : Bytes → ℕ → Bytes → ℤ → ℤ → Exec N (List (Block H))
    fork_from script zero tip height last_time = pure []
    fork_from script (suc rounds) tip height last_time = do
      m ← mine_one tip (height +ℤ pos 1) last_time script [] defaults
      rest ← fork_from script rounds (lib.header_hash m.block.header) (height +ℤ pos 1) m.time
      pure (m.block ∷ rest)

    -- `build_fork`
    unfoldable pub build_fork : Bytes → ℕ → Exec N (List (Block H))
    unfolding fork_from
    build_fork script length = do
      t ← read_tip node
      fork_from script length t.tip t.height t.median_time

    -- `build_next_block`
    unfoldable pub build_next_block : Bytes → List Tx → BlockOptions → Exec N (Block H)
    build_next_block script transactions options = do
      t ← read_tip node
      m ← mine_one t.tip (t.height +ℤ pos 1) t.median_time script transactions options
      pure m.block

  -- membership in a `set[OutPoint]`
  abbrev pub has : List OutPoint → OutPoint → Bool
  has set o = any (outpoint_eq o) set

  -- The loop of `generate` over the transactions that a block confirms: the cache after it, and the
  -- outpoints that the scans added.
  unfoldable pub scan_confirmed : List Tx → MiniWallet → List OutPoint × MiniWallet
  unfolding scan_tx
  scan_confirmed [] w = ([], w)
  scan_confirmed (tx ∷ txs) w =
      let known = any (bytes_eq (lib.tx_id tx)) w.scanned in
      let (new, scanned) = scan_tx lib tx w in
      let now = if known then record w { utxos = unspent_by tx w.utxos } else scanned in
      let (added, last) = scan_confirmed txs now in
      ((if known then [] else map (λ (u : Utxo). u.outpoint) new) ++ added, last)

  -- every cached coin that one of the transactions pays takes the block's height
  unfoldable pub at_height : ℤ → List Tx → Utxo → Utxo
  at_height height txs u =
      if any (λ tx. bytes_eq u.outpoint.tx_id (lib.tx_id tx)) txs
      then record u { height = height }
      else u

  -- `[u for u in self._utxos if u.outpoint not in spent]`
  abbrev pub without : List OutPoint → List Utxo → List Utxo
  without spent us = keep_if (λ u. not (has spent u.outpoint)) us

  -- the coin that the block's coinbase pays
  unfoldable pub coinbase_coin : ℤ → Tx → Utxo
  coinbase_coin height tx = record {
    outpoint = record { tx_id = lib.tx_id tx; vout = 0 };
    value = lib.subsidy height lib.halving_interval;
    height = height;
    coinbase = true;
  }

  -- The cache once a block at `height` has confirmed the transactions.
  unfoldable pub confirm_at : ℤ → List Tx → MiniWallet → List OutPoint × MiniWallet
  unfolding scan_confirmed at_height
  confirm_at height txs w =
      let (added, scanned) = scan_confirmed txs w in
      (added, record scanned { utxos = map (at_height height txs) scanned.utxos })

  -- The cache and the tip once everything else of a round of `generate` is done.
  unfoldable pub extend_by : Bytes → ℤ → ℤ → Utxo → MiniWallet → MiniWallet
  extend_by tip height time coin w = record w {
    utxos = w.utxos ++ coin ∷ [];
    tip = tip;
    height = height;
    last_time = time;
  }

  module _ {N : Type 0} (node : Node N) where
    -- `if added:` the scanned coins that the mempool spends leave the cache
    unfoldable pub drop_spent : List OutPoint → Exec (World N) (Unit {0})
    drop_spent [] = pure tt
    drop_spent (o ∷ os) = do
      spends ← on_node (mempool_spends lib node)
      w ← wallet_of
      set_wallet (record w { utxos = without (keep_if (has spends) (o ∷ os)) w.utxos })

    -- The end of a round: the block's coinbase joins the cache, and the wallet moves on to the block.
    unfoldable pub move_on : ℤ → Mined H → Exec (World N) Bytes
    unfolding coinbase_coin extend_by
    move_on height m = do
      first ← lift (or_raise (head? m.block.transactions) index_error)
      current ← wallet_of
      let tip = lib.header_hash m.block.header
      set_wallet (extend_by tip height m.time (coinbase_coin height first) current)
      pure tip

    -- What follows the answer of `submitblock`.
    unfoldable pub settle : ℤ → List Tx → Mined H → Answer → Exec (World N) Bytes
    unfolding confirm_at drop_spent move_on
    settle height txs m answer = do
      require (is_null answer) type_error
      w ← wallet_of
      set_wallet (confirm_at height txs w).1
      drop_spent (confirm_at height txs w).0
      move_on height m

    -- One round of `generate`: a block that confirms the transactions, and its hash.
    unfoldable pub generate_block : List Tx → Exec (World N) Bytes
    generate_block txs = do
      w ← wallet_of
      let height = w.height +ℤ pos 1
      m ← on_node (mine_one node w.tip height w.last_time lib.anyone_can_spend txs defaults)
      answer ← on_node (node.call (submitblock (to_hex (lib.block_serialize m.block))))
      settle height txs m answer

    -- The loop of `generate`: the transactions to confirm go into the first block alone.
    unfoldable pub generate_from : ℕ → List Tx → Exec (World N) (List Bytes)
    generate_from zero confirm = pure []
    generate_from (suc rounds) confirm = do
      hash ← generate_block confirm
      rest ← generate_from rounds []
      pure (hash ∷ rest)

    -- `MiniWallet.generate`
    unfoldable pub generate : ℕ → List Tx → Exec (World N) (List Bytes)
    unfolding generate_from
    generate count confirm = generate_from count confirm
