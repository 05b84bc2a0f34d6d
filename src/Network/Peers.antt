-- ===== src/Network/Peers.antt =====
-- src/bitcoin_node_tests/node.py: what the waits read in an answer of `getpeerinfo`.
use bitcoin_node_tests.Base.{
  Bool, true, false, not, ◌&&◌, Option, none, some, List, [], ◌∷◌, if◌then◌else◌,
}
use bitcoin_node_tests.Base.Raise.{◌>>=◌}
use bitcoin_node_tests.Chain.Json.{
  int, Answer, dict, float, list, answer_eq, as_int, at_key, get_field, is_dict, items, truthy,
  as_set, get, hashable, is_in, str,
}
use bitcoin_node_tests.Base.Bytes.{Text}
use bitcoin_node_tests.Base.Exec.{Result, ok, err, type_error}
use bitcoin_node_tests.Base.Int.{ℤ, pos, ltb_ℤ}

-- something, where a test holds
abbrev pub once_true : Bool → Option (Unit {0})
once_true true = some tt
once_true false = none

-- `[peer["id"] for peer in peers if isinstance(peer, dict)]`
unfoldable pub ids_of : List Answer → Result (List Answer)
ids_of [] = ok []
ids_of (peer ∷ peers) =
    if is_dict peer
    then (at_key "id" peer >>= λ id. ids_of peers >>= λ ids. ok (id ∷ ids))
    else ids_of peers

-- `_peer_ids`
unfoldable pub peer_ids : Answer → Result (List Answer)
unfolding ids_of
peer_ids (list peers) = ids_of (items peers) >>= λ ids. as_set ids
peer_ids _ = ok []

-- `peer["addr"]` of every peer
unfoldable pub addrs_of : List Answer → Result (List Answer)
addrs_of [] = ok []
addrs_of (peer ∷ peers) = at_key "addr" peer >>= λ a. addrs_of peers >>= λ rest. ok (a ∷ rest)

-- The first peer of a list that is a dict and meets a test, which may raise.
unfoldable pub first_match : (Answer → Result Bool) → List Answer → Result (Option Answer)
first_match test [] = ok none
first_match test (peer ∷ peers) =
    let rest = first_match test peers in
    if is_dict peer then (test peer >>= λ b. if b then ok (some peer) else rest) else rest

-- The attempt of `_wait_for_peer` on an answer of `getpeerinfo`.
unfoldable pub match_in : (Answer → Result Bool) → Answer → Result (Option Answer)
unfolding first_match
match_in test (list peers) = first_match test (items peers)
match_in test _ = ok none

-- `peer.get("addr") == address and not peer.get("inbound")`
unfoldable pub is_outbound_to : Text → Answer → Result Bool
is_outbound_to address peer =
    ok (answer_eq (get "addr" peer) (str address) && not (truthy (get "inbound" peer)))

-- `bool(peer.get("inbound")) and peer.get("id") not in before`
unfoldable pub is_new_inbound : List Answer → Answer → Result Bool
is_new_inbound before peer =
    if truthy (get "inbound" peer)
    then (if hashable (get "id" peer)
        then ok (not (is_in (get "id" peer) before))
        else err type_error)
    else ok false

-- whether an answer of `getpeerinfo` names no peer at an address
unfoldable pub is_gone : Text → Answer → Result (Option (Unit {0}))
is_gone address (list peers) = addrs_of (items peers) >>= λ found.
    as_set found >>= λ addrs. ok (if is_in (str address) addrs then none else some tt)
is_gone address _ = ok none

module _ (float_at_least : Text → ℤ → Bool) where
  -- `counters.get("pong", 0) >= 29`
  abbrev pub at_least : Answer → ℤ → Result Bool
  at_least (float t) n = ok (float_at_least t n)
  at_least a n = elim (as_int a) [ some m ↦ ok (not (ltb_ℤ m n)) | none ↦ err type_error ]

  abbrev pub pong_of : Option Answer → Answer
  pong_of none = int (pos 0)
  pong_of (some a) = a

  -- Whether an entry of `getpeerinfo` is that of a peer past its handshake: without the counters of
  -- received bytes, it is; with them, a whole `pong` was received.
  unfoldable pub is_past_handshake : Answer → Result Bool
  is_past_handshake (dict counters) = at_least (pong_of (get_field "pong" counters)) (pos 29)
  is_past_handshake _ = ok true

  -- the entry of a peer, and whether it is past its handshake
  unfoldable pub handshake_in : Answer → List Answer → Result (Option (Unit {0}))
  unfolding is_past_handshake
  handshake_in id [] = ok none
  handshake_in id (peer ∷ peers) =
      let rest = handshake_in id peers in
      if is_dict peer && answer_eq (get "id" peer) id
      then (is_past_handshake (get "bytesrecv_per_msg" peer) >>= λ b. ok (once_true b))
      else rest

  abbrev pub handshake_among : Answer → Answer → Result (Option (Unit {0}))
  handshake_among id (list peers) = handshake_in id (items peers)
  handshake_among id _ = ok none
