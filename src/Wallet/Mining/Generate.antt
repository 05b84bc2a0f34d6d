-- ===== src/Wallet/Mining/Generate.antt =====
-- What `generate` mines, and what it leaves of the wallet where a block is refused.
use bitcoin_node_tests.Base.Exec.{◌>>=◌, ok, and_then-eq-ok, Result, Exec, and_then, err}
use bitcoin_node_tests.Base.{
  ℕ, zero, suc, ◌≡◌, refl, sym, ap, ◌∙◌, inl, inr, true, List, [], ◌∷◌, ◌++◌, arith, Bool-cases,
  List-cases, length,
}
use bitcoin_node_tests.Chain.{Btclib, Node, Tx, submitblock}
use bitcoin_node_tests.Base.Bytes.{Bytes, to_hex}
use bitcoin_node_tests.Base.Int.{ℤ, ◌+ℤ◌, pos, +ℤ-zero, +ℤ-one}
use bitcoin_node_tests.Chain.Json.{Answer, is_null, null}
use bitcoin_node_tests.Wallet.Mining.{
  generate_block, Mined, mine_one, defaults, coinbase_coin, move_on, settle, drop_spent, confirm_at,
  generate, generate_from,
}
use bitcoin_node_tests.Wallet.Rpc.{World, on_node, in_world}
use bitcoin_node_tests.Wallet.Mining.Fork.{HeaderLaws, IsNext, mine_one-IsNext}
use bitcoin_node_tests.Wallet.Cache.{Utxo}
use bitcoin_node_tests.Base.Raise.{ok-injective}

module _ {H N : Type 0} (lib : Btclib H) (node : Node N) (previous : H → Bytes) (time : H → ℤ) where
  -- the coin that a block's coinbase at a height pays, its first output
  abbrev pub paid_by : ℤ → Tx → Utxo
  paid_by height coinbase = record {
    outpoint = record { tx_id = lib.tx_id coinbase; vout = 0 };
    value = lib.subsidy height lib.halving_interval;
    height = height;
    coinbase = true;
  }

  -- One round of `generate` that returned a hash: a block on the wallet's tip, later than the last
  -- time, that the node accepted; the wallet moves on to it, and its newest coin is that of
  -- the block's first transaction.
  pub record Extended (w : World N) (hash : Bytes) (w' : World N) : Type 0 where
    pub mined : Mined H
    pub next : IsNext lib node previous time w.wallet.tip w.wallet.last_time mined
    pub n₁ : N
    pub n₂ : N
    pub accepted :
        node.call (submitblock (to_hex (lib.block_serialize mined.block))) n₁ ≡ (ok null, n₂)
    pub named : hash ≡ lib.header_hash mined.block.header
    pub tip : w'.wallet.tip ≡ hash
    pub height : w'.wallet.height ≡ w.wallet.height +ℤ pos 1
    pub last_time : w'.wallet.last_time ≡ mined.time
    pub older : List Utxo
    pub first : Tx
    pub others : List Tx
    pub opens : mined.block.transactions ≡ first ∷ others
    pub coins : w'.wallet.utxos ≡ older ++ paid_by (w.wallet.height +ℤ pos 1) first ∷ []

  -- the steps of a round, once its block is mined
  abbrev send_block : ℤ → List Tx → Mined H → Exec (World N) Bytes
  send_block height txs m = do
    answer ← on_node (node.call (submitblock (to_hex (lib.block_serialize m.block))))
    settle lib node height txs m answer

  -- An action on the node that returned, and what follows it.
  next_step :
      {A B : Type 0} (r : Result A × N) (f : A → Exec (World N) B) (w : World N) {b : B}
      {w' : World N}
      → and_then (in_world r w) f ≡ (ok b, w')
      → (a : A) × (n : N) × (r ≡ (ok a, n)) × (f a (record w { node = n }) ≡ (ok b, w'))
  next_step (ok a, n) f w h = (a, n, refl, h)
  next_step (err e, n) f w h = cc (ap (λ r. r.0) h)

  is_null→null : (a : Answer) → is_null a ≡ true → a ≡ null
  is_null→null a h = ground (arith, h)

  -- What the last two steps of a round leave.
  record Moved (height : ℤ) (m : Mined H) (hash : Bytes) (w' : World N) : Type 0 where
    named : hash ≡ lib.header_hash m.block.header
    tip : w'.wallet.tip ≡ hash
    at_height : w'.wallet.height ≡ height
    last_time : w'.wallet.last_time ≡ m.time
    older : List Utxo
    first : Tx
    others : List Tx
    opens : m.block.transactions ≡ first ∷ others
    coins : w'.wallet.utxos ≡ older ++ paid_by height first ∷ []

  move_on-Moved :
      (height : ℤ) (m : Mined H) (w w' : World N) (hash : Bytes)
      → move_on lib node height m w ≡ (ok hash, w')
      → Moved height m hash w'
  unfolding move_on coinbase_coin
  move_on-Moved height m w w' hash h = elim (List-cases m.block.transactions) [
    | inl e ↦ cc (ap (λ r. r.0) (rw e at h))
    | inr (first, rest, e) ↦
        let same = rw e at h in
        let p = ok-injective (ap (λ r. r.0) same) in
        let q = ap (λ (r : Result Bytes × World N). r.1) same in
        rw (← q) (record {
          named = sym p;
          tip = p;
          at_height = refl;
          last_time = refl;
          older = w.wallet.utxos;
          first = first;
          others = rest;
          opens = e;
          coins = refl;
        })
  ]

  settle-Moved :
      (height : ℤ) (txs : List Tx) (m : Mined H) (a : Answer) (w w' : World N) (hash : Bytes)
      → settle lib node height txs m a w ≡ (ok hash, w')
      → (a ≡ null) × Moved height m hash w'
  unfolding settle
  settle-Moved height txs m a w w' hash h = elim (Bool-cases (is_null a)) [
    | inl e ↦
        let c = confirm_at lib height txs w.wallet in
        let (_u, v, dropped, h₁) =
          and_then-eq-ok (drop_spent lib node c.0 (record w { wallet = c.1 }))
            (λ _. move_on lib node height m) (rw e at h) in
        (is_null→null a e, move_on-Moved height m v w' hash h₁)
    | inr e ↦ cc (ap (λ r. r.0) (rw e at h))
  ]

  extended :
      (w : World N) (m : Mined H) (n₁ n₂ : N) (a : Answer) (hash : Bytes) (w' : World N)
      → IsNext lib node previous time w.wallet.tip w.wallet.last_time m
      → node.call (submitblock (to_hex (lib.block_serialize m.block))) n₁ ≡ (ok a, n₂)
      → (a ≡ null) × Moved (w.wallet.height +ℤ pos 1) m hash w'
      → Extended w hash w'
  extended w m n₁ n₂ a hash w' next answered (accepted, moved) = record {
    mined = m;
    next = next;
    n₁ = n₁;
    n₂ = n₂;
    accepted = answered ∙ ap (λ b. (ok b, n₂)) accepted;
    named = moved.named;
    tip = moved.tip;
    height = moved.at_height;
    last_time = moved.last_time;
    older = moved.older;
    first = moved.first;
    others = moved.others;
    opens = moved.opens;
    coins = moved.coins;
  }

  generate_block-Extended :
      (laws : HeaderLaws lib previous time) (txs : List Tx) (w w' : World N) (hash : Bytes)
      → generate_block lib node txs w ≡ (ok hash, w')
      → Extended w hash w'
  unfolding generate_block
  generate_block-Extended laws txs w w' hash h =
      let height = w.wallet.height +ℤ pos 1 in
      let mining =
        mine_one lib node w.wallet.tip height w.wallet.last_time lib.anyone_can_spend txs
          (defaults lib) w.node in
      let (m, n₁, mined, h₁) = next_step mining (λ m. send_block height txs m) w h in
      let (a, n₂, answered, h₂) =
        next_step (node.call (submitblock (to_hex (lib.block_serialize m.block))) n₁)
          (settle lib node height txs m) (record w { node = n₁ }) h₁ in
      extended w m n₁ n₂ a hash w'
        (mine_one-IsNext lib node previous time laws w.wallet.tip height w.wallet.last_time
          lib.anyone_can_spend txs w.node n₁ m mined).0
        answered (settle-Moved height txs m a (record w { node = n₂ }) w' hash h₂)

  -- A run of blocks, each on the one before it.
  abbrev pub IsRun : List Bytes → World N → World N → Type 0
  IsRun [] w w' = w' ≡ w
  IsRun (hash ∷ hashes) w w' = (mid : World N) × Extended w hash mid × IsRun hashes mid w'

  height-IsRun :
      (hashes : List Bytes) (w w' : World N)
      → IsRun hashes w w'
      → w'.wallet.height ≡ w.wallet.height +ℤ pos (length hashes)
  height-IsRun [] w w' e = ap (λ (v : World N). v.wallet.height) e ∙ sym (+ℤ-zero w.wallet.height)
  height-IsRun (hash ∷ hashes) w w' (mid, x, run) =
      height-IsRun hashes mid w' run
      ∙ ap (λ z. z +ℤ pos (length hashes)) x.height
      ∙ +ℤ-one w.wallet.height (length hashes)

  generate_from-IsRun :
      (laws : HeaderLaws lib previous time) (count : ℕ) (confirm : List Tx) (w w' : World N)
      (hashes : List Bytes)
      → generate_from lib node count confirm w ≡ (ok hashes, w')
      → (length hashes ≡ count) × IsRun hashes w w'
  unfolding generate_from
  generate_from-IsRun laws zero confirm w w' hashes h =
      rw (← ok-injective (ap (λ r. r.0) h)) (refl, sym (ap (λ r. r.1) h))
  generate_from-IsRun laws (suc count) confirm w w' hashes h =
      let (hash, mid, first, h₁) = and_then-eq-ok (generate_block lib node confirm w) _ h in
      let (rest, last, more, h₂) = and_then-eq-ok (generate_from lib node count [] mid) _ h₁ in
      let (len, run) = generate_from-IsRun laws count [] mid last rest more in
      let q : last ≡ w' = ap (λ r. r.1) h₂ in
      rw (← ok-injective (ap (λ r. r.0) h₂))
        (ap suc len, (mid, generate_block-Extended laws confirm w mid hash first, rw (← q) run))

  -- generate that returns hashes returned count of them, and mined a run of blocks: each names the
  -- block before it, the first the wallet's tip, carries a time later than the one before, and was
  -- accepted by the node; after each the wallet's tip, height and last time are the block's, and
  -- the newest coin is the first output of the block's own first transaction. The wallet's height
  -- grows by count. btclib is assumed to write the tip and the time into a header, and to leave
  -- both when it mines.
  pub generate-IsRun :
      (laws : HeaderLaws lib previous time) (count : ℕ) (confirm : List Tx) (w w' : World N)
      (hashes : List Bytes)
      → generate lib node count confirm w ≡ (ok hashes, w')
      → (length hashes ≡ count)
        × IsRun hashes w w'
        × (w'.wallet.height ≡ w.wallet.height +ℤ pos count)
  unfolding generate
  generate-IsRun laws count confirm w w' hashes h =
      let (len, run) = generate_from-IsRun laws count confirm w w' hashes h in
      (len, run, rw (← len) (height-IsRun hashes w w' run))
