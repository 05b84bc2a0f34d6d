-- ===== src/Wallet/Mining/Fork.antt =====
-- The blocks that `_mine_one` and `build_fork` make: each names the one before it, and carries a later
-- time.
use bitcoin_node_tests.Base.{
  ℕ, zero, suc, ◌≡◌, refl, sym, ap, ◌∙◌, true, Option, none, some, List, [], ◌∷◌, arith, length,
}
use bitcoin_node_tests.Chain.{Btclib, Node, Tx, Block}
use bitcoin_node_tests.Base.Bytes.{Bytes}
use bitcoin_node_tests.Base.Int.{◌+ℤ◌, ℤ, ltb_ℤ, pos}
use bitcoin_node_tests.Wallet.Mining.{
  Mined, mine_one, defaults, max_ℤ, solved_block, fork_from, build_fork,
}
use bitcoin_node_tests.Base.Exec.{ok, and_then-eq-ok}
use mathlib.Core.Path.{subst}
use bitcoin_node_tests.Base.Raise.{ok-injective}
use bitcoin_node_tests.Wallet.Rpc.{Tip, read_tip}

module _ {H : Type 0} (lib : Btclib H) where
  -- What btclib documents of a header: `build_block` writes the tip and the time into it, and `mine`
  -- changes the nonce alone.
  pub record HeaderLaws (previous : H → Bytes) (time : H → ℤ) : Type 0 where
    pub built :
        (tip : Bytes) (txs : List Tx) (t : ℤ) (bits version : ℕ)
        → (previous (lib.build_block tip txs t bits version).header ≡ tip)
          × (time (lib.build_block tip txs t bits version).header ≡ t)
    pub mined : (h h' : H) → lib.mine h ≡ some h' → (previous h' ≡ previous h) × (time h' ≡ time h)

  solved_block-eq-ok :
      (o : Option H) (b : Block H) (t : ℤ) (m : Mined H)
      → solved_block lib o b t ≡ ok m
      → (o ≡ some m.block.header) × (m.block.transactions ≡ b.transactions) × (m.time ≡ t)
  unfolding solved_block
  solved_block-eq-ok none b t m h = cc
  solved_block-eq-ok (some header) b t m h = ground (arith, h)

  max_ℤ-lt : (a b : ℤ) → ltb_ℤ b (max_ℤ a (b +ℤ pos 1)) ≡ true
  unfolding ◌+ℤ◌
  max_ℤ-lt a b = ground arith

  module _ {N : Type 0} (node : Node N) (previous : H → Bytes) (time : H → ℤ) where
    -- a solved block on a tip, later than a time
    pub record IsNext (tip : Bytes) (min_time : ℤ) (m : Mined H) : Type 0 where
      pub links : previous m.block.header ≡ tip
      pub carries : time m.block.header ≡ m.time
      pub later : ltb_ℤ min_time m.time ≡ true

    pub mine_one-IsNext :
        (laws : HeaderLaws previous time) (tip : Bytes) (height min_time : ℤ) (script : Bytes)
        (txs : List Tx) (n n' : N) (m : Mined H)
        → mine_one lib node tip height min_time script txs (defaults lib) n ≡ (ok m, n')
        → IsNext tip min_time m × (n' ≡ n)
    unfolding mine_one
    mine_one-IsNext laws tip height min_time script txs n n' m h =
        let (found, same, at) = solved_block-eq-ok _ _ _ m (ap (λ r. r.0) h) in
        let (p, q) = laws.mined _ _ found in
        let (p', q') = laws.built tip _ _ lib.pow_limit_bits lib.block_version in
        (
          record {
            links = p ∙ p';
            carries = q ∙ q' ∙ sym at;
            later = ap (ltb_ℤ min_time) at ∙ max_ℤ-lt (pos (node.now n)) min_time;
          },
          sym (ap (λ r. r.1) h),
        )

    -- Each block names the one before it, from `tip` on, and carries a later time, from `min_time` on.
    abbrev pub IsFork : Bytes → ℤ → List (Block H) → Type 0
    IsFork tip min_time [] = Unit
    IsFork tip min_time (b ∷ rest) =
        (previous b.header ≡ tip)
        × (ltb_ℤ min_time (time b.header) ≡ true)
        × IsFork (lib.header_hash b.header) (time b.header) rest

    IsFork-cons :
        (tip : Bytes) (min_time : ℤ) (m : Mined H) (rest : List (Block H)) (rounds : ℕ)
        → IsNext tip min_time m
        → length rest ≡ rounds
        → IsFork (lib.header_hash m.block.header) m.time rest
        → (length (m.block ∷ rest) ≡ suc rounds) × IsFork tip min_time (m.block ∷ rest)
    IsFork-cons tip min_time m rest rounds next len fork = (
      ap suc len,
      (
        next.links,
        rw next.carries next.later,
        subst (λ t. IsFork (lib.header_hash m.block.header) t rest) (sym next.carries) fork,
      ),
    )

    fork_from-IsFork :
        (laws : HeaderLaws previous time) (script : Bytes) (rounds : ℕ) (tip : Bytes)
        (height min_time : ℤ) (n n' : N) (blocks : List (Block H))
        → fork_from lib node script rounds tip height min_time n ≡ (ok blocks, n')
        → (length blocks ≡ rounds) × IsFork tip min_time blocks × (n' ≡ n)
    unfolding fork_from
    fork_from-IsFork laws script zero tip height min_time n n' [] h =
        (refl, tt, sym (ap (λ r. r.1) h))
    fork_from-IsFork laws script zero tip height min_time n n' (b ∷ bs) h = cc h
    fork_from-IsFork laws script (suc rounds) tip height min_time n n' blocks h =
        let (m, n₁, mined, h₁) =
          and_then-eq-ok
            (mine_one lib node tip (height +ℤ pos 1) min_time script [] (defaults lib) n) _ h in
        let (rest, n₂, more, h₂) =
          and_then-eq-ok
            (fork_from lib node script rounds (lib.header_hash m.block.header) (height +ℤ pos 1)
              m.time n₁)
            _ h₁ in
        let same : m.block ∷ rest ≡ blocks = ok-injective (ap (λ r. r.0) h₂) in
        let stay : n₂ ≡ n' = ap (λ r. r.1) h₂ in
        let (next, e) = mine_one-IsNext laws tip _ min_time script [] n n₁ m mined in
        let (len, fork, e') = fork_from-IsFork laws script rounds _ _ m.time n₁ n₂ rest more in
        let (all_len, all_fork) = IsFork-cons tip min_time m rest rounds next len fork in
        rw (← same, ← stay) (all_len, all_fork, e' ∙ e)

    -- build_fork that returns blocks returned as many as asked for, each naming the one before it,
    -- the first the node's tip, and each with a later time than the one before, the first later
    -- than the node's median time; after the tip was read, no more is asked of the node. btclib is
    -- assumed to write the tip and the time into a header, and to leave both when it mines.
    pub build_fork-IsFork :
        (laws : HeaderLaws previous time) (script : Bytes) (count : ℕ) (n n₁ n' : N) (t : Tip)
        (blocks : List (Block H))
        → read_tip node n ≡ (ok t, n₁)
        → build_fork lib node script count n ≡ (ok blocks, n')
        → (length blocks ≡ count) × IsFork t.tip t.median_time blocks × (n' ≡ n₁)
    unfolding build_fork
    build_fork-IsFork laws script count n n₁ n' t blocks r h =
        fork_from-IsFork laws script count t.tip t.height t.median_time n₁ n' blocks (rw r at h)
