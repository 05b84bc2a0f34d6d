-- ===== src/Network/Agree.antt =====
-- src/bitcoin_node_tests/node.py: `wait_until_tips_agree`, `wait_until_mempools_agree` and `sync_all`.
use bitcoin_node_tests.Base.{
  ℕ, Bool, false, not, ◌&&◌, Option, List, [], ◌∷◌, map, any, if◌then◌else◌,
}
use bitcoin_node_tests.Chain.{Call, getbestblockhash, getrawmempool}
use bitcoin_node_tests.Base.Exec.{◌>>=◌, ◌>>◌, Exec, Result, ok, and_then, pure, err, type_error}
use bitcoin_node_tests.Chain.Json.{
  Answer, Fields, field, is_in, list, str, as_set, hashable, answer_eq, end, items, dict,
}
use bitcoin_node_tests.Network.{Network, deadline_in}
use bitcoin_node_tests.Adapter.Polling.{poll_until}
use bitcoin_node_tests.Base.Bytes.{codes}
use bitcoin_node_tests.Network.Peers.{once_true}

-- `frozenset(answer)`, as a list: the items of a list, the characters of a string, the keys of a dict
abbrev keys : Fields → List Answer
keys end = []
keys (field k a rest) = str (codes k) ∷ keys rest

unfoldable pub as_pool : Answer → Result (List Answer)
as_pool (list xs) = as_set (items xs)
as_pool (str t) = ok (map (λ c. str (c ∷ [])) t)
as_pool (dict fields) = ok (keys fields)
as_pool _ = err type_error

-- `==` on two frozensets
abbrev pub all_in : List Answer → List Answer → Bool
all_in xs ys = not (any (λ a. not (is_in a ys)) xs)

unfoldable pub pool_eq : List Answer → List Answer → Bool
pool_eq xs ys = all_in xs ys && all_in ys xs

-- `len({...}) == 1`, under an equality
unfoldable pub is_one {ℓ} : {A : Type ℓ} → (A → A → Bool) → List A → Bool
is_one eq [] = false
is_one eq (x ∷ xs) = not (any (λ y. not (eq x y)) xs)

-- a node's hash, which goes into a set
unfoldable pub as_hash : Answer → Result Answer
as_hash a = if hashable a then ok a else err type_error

module _ {W : Type 0} (net : Network W) where
  -- The answers of some nodes, each read as it arrives.
  unfoldable pub answers_of :
      {A : Type 0} → Call → (Answer → Result A) → List ℕ → W → Result (List A) × W
  answers_of c read [] w = (ok [], w)
  answers_of c read (n ∷ ns) w = and_then (net.call n c w) (λ answer v.
      and_then (read answer, v)
        (λ a u. and_then (answers_of c read ns u) (λ rest t. (ok (a ∷ rest), t))))

  unfoldable pub tips_agree : List ℕ → Exec W (Option (Unit {0}))
  unfolding answers_of is_one as_hash
  tips_agree nodes = do
    hashes ← answers_of getbestblockhash as_hash nodes
    pure (once_true (is_one answer_eq hashes))

  unfoldable pub mempools_agree : List ℕ → Exec W (Option (Unit {0}))
  unfolding answers_of is_one as_pool
  mempools_agree nodes = do
    pools ← answers_of getrawmempool as_pool nodes
    pure (once_true (is_one pool_eq pools))

  -- `wait_until_tips_agree`
  unfoldable pub wait_until_tips_agree : List ℕ → ℕ → Exec W (Unit {0})
  unfolding tips_agree
  wait_until_tips_agree nodes timeout = do
    deadline ← deadline_in net timeout
    poll_until net.clock (tips_agree nodes) deadline

  -- `wait_until_mempools_agree`
  unfoldable pub wait_until_mempools_agree : List ℕ → ℕ → Exec W (Unit {0})
  unfolding mempools_agree
  wait_until_mempools_agree nodes timeout = do
    deadline ← deadline_in net timeout
    poll_until net.clock (mempools_agree nodes) deadline

  -- `sync_all`
  unfoldable pub sync_all : List ℕ → ℕ → Exec W (Unit {0})
  sync_all nodes timeout = do
    wait_until_tips_agree nodes timeout
    wait_until_mempools_agree nodes timeout
