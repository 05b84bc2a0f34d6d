-- ===== src/Network/Sync.antt =====
-- What `sync_all` of src/bitcoin_node_tests/node.py has seen when it ends.
use bitcoin_node_tests.Base.{
  ℕ, ◌≡◌, refl, ap, ◌⊎◌, inl, inr, Bool, true, false, not, some, List, [], ◌∷◌, All, any,
  Bool-cases, sym, ◌∙◌, ◌+◌,
}
use bitcoin_node_tests.Base.Exec.{
  Result, ok, err, and_then-eq-ok, outcome_cases, Error, err-parts, ok-parts, Result-cases,
  and_then_lift-eq-ok, and_then, pure, timeout_error,
}
use mathlib.Core.List.{Memᴰ}
use bitcoin_node_tests.Network.{Network}
use bitcoin_node_tests.Network.Peers.{once_true}
use bitcoin_node_tests.Chain.{Call, getbestblockhash, getrawmempool}
use bitcoin_node_tests.Chain.Json.{Answer, answer_eq}
use bitcoin_node_tests.Network.Agree.{
  answers_of, is_one, as_hash, as_pool, pool_eq, sync_all, wait_until_tips_agree,
  wait_until_mempools_agree, tips_agree, mempools_agree,
}
use bitcoin_node_tests.Adapter.Polling.{PollLaws, PollEnd, poll_until, poll_until-PollEnd}
use bitcoin_node_tests.Adapter.Host.{scaled}

is_one-All :
    {A : Type 0} (eq : A → A → Bool) (x : A) (xs : List A)
    → not (any (λ y. not (eq x y)) xs) ≡ true
    → All (λ y. eq x y ≡ true) xs
is_one-All eq x [] h = tt
is_one-All eq x (y ∷ ys) h = elim (Bool-cases (eq x y)) [
  | inl e ↦ (e, is_one-All eq x ys (rw e at h))
  | inr e ↦ cc (rw e at h)
]

is_one_cases :
    {A : Type 0} (eq : A → A → Bool) (xs : List A)
    → is_one eq xs ≡ true
    → (x : A) × (rest : List A) × (xs ≡ x ∷ rest) × All (λ y. eq x y ≡ true) rest
unfolding is_one
is_one_cases eq [] h = cc h
is_one_cases eq (x ∷ xs) h = (x, xs, refl, is_one-All eq x xs h)

once_true-some : (b : Bool) → once_true b ≡ some tt → b ≡ true
once_true-some true h = refl
once_true-some false h = cc h

module _ {W : Type 0} (net : Network W) where
  module _ {A : Type 0} (c : Call) (read : Answer → Result A) where
    -- The nodes answered, one after the other, from one state to another, and the answers read as `xs`.
    abbrev pub Answered : List ℕ → List A → W → W → Type 0
    Answered [] [] w t = w ≡ t
    Answered (n ∷ ns) (x ∷ xs) w t =
        (answer : Answer) × (v : W) × (net.call n c w ≡ (ok answer, v))
        × (read answer ≡ ok x)
        × Answered ns xs v t
    Answered _ _ w t = ⊥

    -- A node raised, or answered what cannot be read.
    abbrev pub Raised : List ℕ → Error → W → Type 0
    Raised nodes e t =
        (n : ℕ) × Memᴰ n nodes
        × (v : W) × ((net.call n c v ≡ (err e, t))
            ⊎ ((answer : Answer) × (net.call n c v ≡ (ok answer, t)) × (read answer ≡ err e)))

    answers_of-Answered :
        (nodes : List ℕ) (xs : List A) (w t : W)
        → answers_of net c read nodes w ≡ (ok xs, t)
        → Answered nodes xs w t
    unfolding answers_of
    answers_of-Answered [] [] w t h = ap (λ (r : Result (List A) × W). r.1) h
    answers_of-Answered [] (x ∷ xs) w t h = cc (ap (λ (r : Result (List A) × W). r.0) h)
    answers_of-Answered (n ∷ ns) xs w t h =
        let (answer, v, called, h₁) = and_then-eq-ok (net.call n c w) _ h in
        let (a, k, h₂) = and_then_lift-eq-ok (read answer) v _ h₁ in
        let (rest, t', later, h₃) = and_then-eq-ok (answers_of net c read ns v) _ h₂ in
        let (q, p) = ok-parts h₃ in
        rw (sym q, sym p) (answer, v, called, k, answers_of-Answered ns rest v t' later)

    Raised-tail : {n : ℕ} {ns : List ℕ} {e : Error} {t : W} → Raised ns e t → Raised (n ∷ ns) e t
    Raised-tail (m, later, v, rest) = (m, Memᴰ.tail later, v, rest)

    answers_of-Raised :
        (nodes : List ℕ) (e : Error) (w t : W)
        → answers_of net c read nodes w ≡ (err e, t)
        → Raised nodes e t
    unfolding answers_of
    answers_of-Raised [] e w t h = cc (ap (λ (r : Result (List A) × W). r.0) h)
    answers_of-Raised (n ∷ ns) e w t h = elim (outcome_cases (net.call n c w)) [
      | inr (x, v, q) ↦
          let (d, p) = err-parts (rw q at h) in (n, Memᴰ.head refl, w, inl (rw (sym d, sym p) q))
      | inl (answer, v, q) ↦ elim (Result-cases (read answer)) [
        | inr (x, k) ↦
            let (d, p) = err-parts (rw (q, k) at h) in
            (n, Memᴰ.head refl, w, inr (answer, rw (sym p) q, k ∙ ap err d))
        | inl (a, k) ↦ elim (outcome_cases (answers_of net c read ns v)) [
          | inl (rest, t', l) ↦ cc (ap (λ r. r.0) (rw (q, k, l) at h))
          | inr (x, t', l) ↦
              let (d, p) = err-parts (rw (q, k, l) at h) in
              rw (sym d, sym p) (Raised-tail (answers_of-Raised ns x v t' l))
        ]
      ]
    ]

  -- A round of tips in which all the nodes answered one.
  abbrev pub TipsAgreed : List ℕ → W → Type 0
  TipsAgreed nodes t =
      (tip : Answer) × (tips : List Answer) × (v : W) × Answered getbestblockhash as_hash nodes
        (tip ∷ tips) v t
      × All (λ y. answer_eq tip y ≡ true) tips

  -- A round of mempools in which all the nodes answered one, as a set.
  abbrev pub PoolsAgreed : List ℕ → W → Type 0
  PoolsAgreed nodes t =
      (pool : List Answer) × (pools : List (List Answer)) × (v : W) × Answered getrawmempool as_pool
        nodes (pool ∷ pools) v t
      × All (λ y. pool_eq pool y ≡ true) pools

  one_answer :
      {A : Type 0} (c : Call) (read : Answer → Result A) (eq : A → A → Bool) (nodes : List ℕ)
      (w t : W)
      (found : and_then (answers_of net c read nodes w) (λ xs. pure (once_true (is_one eq xs)))
        ≡ (ok (some tt), t))
      → (x : A) × (xs : List A) × Answered c read nodes (x ∷ xs) w t × All (λ y. eq x y ≡ true) xs
  unfolding is_one
  one_answer c read eq nodes w t found =
      let (xs, v, q, h) = and_then-eq-ok (answers_of net c read nodes w) _ found in
      let (one, same) = ok-parts h in
      let (x, rest, e, all) = is_one_cases eq xs (once_true-some (is_one eq xs) one) in
      (x, rest, rw (sym e, sym same) (answers_of-Answered c read nodes xs w v q), all)

  not_asked :
      {A : Type 0} (c : Call) (read : Answer → Result A) (eq : A → A → Bool) (nodes : List ℕ)
      (w t : W) (e : Error)
      (failed : and_then (answers_of net c read nodes w) (λ xs. pure (once_true (is_one eq xs)))
        ≡ (err e, t))
      → Raised c read nodes e t
  not_asked c read eq nodes w t e failed = elim (outcome_cases (answers_of net c read nodes w)) [
    | inl (xs, v, q) ↦ cc (ap (λ r. r.0) (rw q at failed))
    | inr (x, v, q) ↦
        let (d, p) = err-parts (rw q at failed) in
        rw (sym d, sym p) (answers_of-Raised c read nodes x w v q)
  ]

  -- What an end of `sync_all` stands for.
  abbrev pub SyncEnd : List ℕ → ℕ → Result (Unit {0}) × W → Type 0
  SyncEnd nodes timeout (ok u, w') =
      (t : W) × TipsAgreed nodes t
      × (wait_until_mempools_agree net nodes timeout t ≡ (ok u, w'))
      × PoolsAgreed nodes w'
  SyncEnd nodes timeout (err e, w') =
      (e ≡ timeout_error)
      ⊎ Raised getbestblockhash as_hash nodes e w'
      ⊎ Raised getrawmempool as_pool nodes e w'

  -- What an end of one of the two waits stands for.
  abbrev TipsEnd : List ℕ → Result (Unit {0}) × W → Type 0
  TipsEnd nodes (ok u, t) = TipsAgreed nodes t
  TipsEnd nodes (err e, t) = (e ≡ timeout_error) ⊎ Raised getbestblockhash as_hash nodes e t

  abbrev PoolsEnd : List ℕ → Result (Unit {0}) × W → Type 0
  PoolsEnd nodes (ok u, t) = PoolsAgreed nodes t
  PoolsEnd nodes (err e, t) = (e ≡ timeout_error) ⊎ Raised getrawmempool as_pool nodes e t

  PollEnd-TipsEnd :
      (nodes : List ℕ) (deadline : ℕ) (r : Result (Unit {0}) × W)
      → PollEnd net.clock (tips_agree net nodes) deadline r
      → TipsEnd nodes r
  unfolding tips_agree
  PollEnd-TipsEnd nodes deadline (ok tt, t) (v, h) =
      let (x, xs, answered, all) = one_answer getbestblockhash as_hash answer_eq nodes v t h in
      (x, xs, v, answered, all)
  PollEnd-TipsEnd nodes deadline (err e, t) (inl h) = inl h.0
  PollEnd-TipsEnd nodes deadline (err e, t) (inr (v, h)) =
      inr (not_asked getbestblockhash as_hash answer_eq nodes v t e h)

  PollEnd-PoolsEnd :
      (nodes : List ℕ) (deadline : ℕ) (r : Result (Unit {0}) × W)
      → PollEnd net.clock (mempools_agree net nodes) deadline r
      → PoolsEnd nodes r
  unfolding mempools_agree
  PollEnd-PoolsEnd nodes deadline (ok tt, t) (v, h) =
      let (x, xs, answered, all) = one_answer getrawmempool as_pool pool_eq nodes v t h in
      (x, xs, v, answered, all)
  PollEnd-PoolsEnd nodes deadline (err e, t) (inl h) = inl h.0
  PollEnd-PoolsEnd nodes deadline (err e, t) (inr (v, h)) =
      inr (not_asked getrawmempool as_pool pool_eq nodes v t e h)

  -- The clock runs forward through a round of answers, and past each pause.
  pub record SyncLaws (nodes : List ℕ) : Type 0 where
    pub tips : PollLaws net.clock (tips_agree net nodes)
    pub pools : PollLaws net.clock (mempools_agree net nodes)

  tips_end :
      (nodes : List ℕ) (laws : SyncLaws nodes) (timeout : ℕ) (w : W)
      → TipsEnd nodes (wait_until_tips_agree net nodes timeout w)
  unfolding wait_until_tips_agree scaled
  tips_end nodes laws timeout w =
      let deadline = net.clock.monotonic w + scaled net.clock.factor timeout in
      PollEnd-TipsEnd nodes deadline (poll_until net.clock (tips_agree net nodes) deadline w)
        (poll_until-PollEnd net.clock (tips_agree net nodes) laws.tips deadline w)

  pools_end :
      (nodes : List ℕ) (laws : SyncLaws nodes) (timeout : ℕ) (w : W)
      → PoolsEnd nodes (wait_until_mempools_agree net nodes timeout w)
  unfolding wait_until_mempools_agree scaled
  pools_end nodes laws timeout w =
      let deadline = net.clock.monotonic w + scaled net.clock.factor timeout in
      PollEnd-PoolsEnd nodes deadline (poll_until net.clock (mempools_agree net nodes) deadline w)
        (poll_until-PollEnd net.clock (mempools_agree net nodes) laws.pools deadline w)

  then_pools :
      (nodes : List ℕ) (timeout : ℕ) (t : W) (agreed : TipsAgreed nodes t)
      (r : Result (Unit {0}) × W)
      → wait_until_mempools_agree net nodes timeout t ≡ r
      → PoolsEnd nodes r
      → SyncEnd nodes timeout r
  then_pools nodes timeout t agreed (ok tt, w') q h = (t, agreed, q, h)
  then_pools nodes timeout t agreed (err e, w') q (inl h) = inl h
  then_pools nodes timeout t agreed (err e, w') q (inr h) = inr (inr h)

  then_sync :
      (nodes : List ℕ) (laws : SyncLaws nodes) (timeout : ℕ) (r : Result (Unit {0}) × W)
      → TipsEnd nodes r
      → SyncEnd nodes timeout (and_then r (λ _. wait_until_mempools_agree net nodes timeout))
  then_sync nodes laws timeout (ok tt, t) h =
      then_pools nodes timeout t h (wait_until_mempools_agree net nodes timeout t) refl
        (pools_end nodes laws timeout t)
  then_sync nodes laws timeout (err e, t) (inl h) = inl h
  then_sync nodes laws timeout (err e, t) (inr h) = inr (inl h)

  -- sync_all that returns has had a round in which every node, one after the other, answered one
  -- tip; the wait for the mempools went on from the state behind it, and its last round had every
  -- node answer one mempool, as a set. Otherwise it raises TimeoutError, or what a node raised in a
  -- round, or the TypeError of an answer that is no hash or no mempool. The clock is assumed to run
  -- forward through a round and past each pause.
  pub sync_all-SyncEnd :
      (nodes : List ℕ) (laws : SyncLaws nodes) (timeout : ℕ) (w : W)
      → SyncEnd nodes timeout (sync_all net nodes timeout w)
  unfolding sync_all
  sync_all-SyncEnd nodes laws timeout w =
      then_sync nodes laws timeout (wait_until_tips_agree net nodes timeout w)
        (tips_end nodes laws timeout w)
