-- ===== src/Network/Examples.antt =====
-- The theorems on several nodes at a small network.
use bitcoin_node_tests.Base.{
  ℕ, zero, suc, ◌+◌, ◌*◌, ◌<◌, ◌≡◌, refl, Bool, true, false, Option, none, some, List, [], ◌∷◌,
  arith, leb,
}
use bitcoin_node_tests.Base.Exec.{Result, ok}
use bitcoin_node_tests.Adapter.Polling.{Clock}
use bitcoin_node_tests.Base.Bytes.{Text}
use bitcoin_node_tests.Chain.{Call, disconnectnode, getpeerinfo, getrawmempool}
use bitcoin_node_tests.Chain.Json.{Answer, dict, list, field, nil, null, cons, int, str, bool, end}
use bitcoin_node_tests.Network.{Network, connect_nodes, disconnect_nodes}
use bitcoin_node_tests.Network.Agree.{
  tips_agree, mempools_agree, sync_all, answers_of, as_hash, as_pool,
}
use bitcoin_node_tests.Network.Connect.{Connected, connect_nodes-Connected}
use bitcoin_node_tests.Network.Sync.{SyncEnd, sync_all-SyncEnd, SyncLaws}
use bitcoin_node_tests.Base.Int.{pos}
use bitcoin_node_tests.Network.Disconnect.{Dropped, disconnect_nodes-Dropped}

-- Two nodes, and the time: whether the first dialled the second.
record State : Type 0 where
  time : ℕ
  linked : Bool

abbrev text_of : ℕ → Text
text_of n = (48 + n) ∷ []

abbrev entry : ℕ → Bool → Answer
entry peer inbound = dict (
    field "id" (int (pos 3)) (
      field "addr" (str (text_of peer)) (
        field "inbound" (bool inbound)
          (field "bytesrecv_per_msg" (dict (field "pong" (int (pos 32)) end)) end))))

abbrev peers_of : ℕ → Bool → Answer
peers_of n false = list nil
peers_of zero true = list (cons (entry 1 false) nil)
peers_of (suc n) true = list (cons (entry 0 true) nil)

abbrev answer_of : ℕ → Call → State → Result Answer × State
answer_of n getpeerinfo s = (ok (peers_of n s.linked), s)
answer_of n (disconnectnode a) s = (ok null, record { time = s.time; linked = false })
answer_of n getrawmempool s = (ok (list (cons (str (8 ∷ [])) nil)), s)
answer_of n _ s = (ok (str (7 ∷ [])), s)

abbrev state_clock : Clock State
state_clock = record {
  monotonic = λ s. s.time;
  sleep = λ n s. record { time = s.time + n; linked = s.linked };
  factor = 1;
}

abbrev two_nodes : Network State
two_nodes = record {
  clock = state_clock;
  call = answer_of;
  dial = λ n a v2 s. (ok tt, record { time = s.time; linked = true });
  address = text_of;
  float_at_least = λ t n. false;
}

abbrev apart : State
apart = record { time = 5; linked = false }

abbrev linked_up : State
linked_up = record { time = 5; linked = true }

connected : connect_nodes two_nodes 0 1 60 true apart ≡ (ok tt, linked_up)
unfolding connect_nodes bitcoin_node_tests.Network.Peers.peer_ids
    bitcoin_node_tests.Chain.Json.all_hashable bitcoin_node_tests.Network.wait_for_peer
    bitcoin_node_tests.Adapter.Polling.poll_until bitcoin_node_tests.Network.Peers.match_in
    bitcoin_node_tests.Network.Peers.is_outbound_to bitcoin_node_tests.Chain.Json.answer_eq
    bitcoin_node_tests.Chain.Json.get bitcoin_node_tests.Base.Bytes.bytes_eq
    bitcoin_node_tests.Chain.Json.truthy bitcoin_node_tests.Network.Peers.is_new_inbound
    bitcoin_node_tests.Chain.Json.at_key bitcoin_node_tests.Network.wait_for_handshake
    bitcoin_node_tests.Network.Peers.handshake_in
connected = refl

connect_nodes-Connected_example : Connected two_nodes 0 1 60 true apart linked_up
connect_nodes-Connected_example =
    connect_nodes-Connected two_nodes 0 1 60 true apart linked_up connected

disconnected : disconnect_nodes two_nodes 0 1 60 linked_up ≡ (ok tt, apart)
unfolding disconnect_nodes bitcoin_node_tests.Adapter.Polling.poll_until
    bitcoin_node_tests.Network.Peers.is_gone bitcoin_node_tests.Network.Peers.addrs_of
    bitcoin_node_tests.Chain.Json.all_hashable
disconnected = refl

disconnect_nodes-Dropped_example : Dropped two_nodes 0 1 60 linked_up apart
disconnect_nodes-Dropped_example =
    disconnect_nodes-Dropped two_nodes 0 1 60 linked_up apart disconnected

sync_laws : SyncLaws two_nodes (0 ∷ 1 ∷ [])
unfolding tips_agree mempools_agree answers_of as_hash as_pool
    bitcoin_node_tests.Chain.Json.all_hashable
sync_laws = record {
  tips = record { asked = λ w. omega arith; slept = λ n w. omega arith };
  pools = record { asked = λ w. omega arith; slept = λ n w. omega arith };
}

sync_all-SyncEnd_example :
    SyncEnd two_nodes (0 ∷ 1 ∷ []) 60 (sync_all two_nodes (0 ∷ 1 ∷ []) 60 apart)
sync_all-SyncEnd_example = sync_all-SyncEnd two_nodes (0 ∷ 1 ∷ []) sync_laws 60 apart
