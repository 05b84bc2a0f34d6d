-- ===== src/Network.antt =====
-- src/bitcoin_node_tests/node.py: what is asked of several nodes at once, `_peer_ids` to `sync_all`. A
-- node is a number; the nodes and the clock share one state.
pub mod Peers
pub mod Agree
pub mod Entries
pub mod Connect
pub mod Disconnect
pub mod Sync
mod Examples
use bitcoin_node_tests.Base.{
  ℕ, zero, suc, ◌+◌, ◌-◌, ◌*◌, ◌≤◌, ◌<◌, ◌≡◌, ◌≢◌, refl, sym, ap, ◌∙◌, ◌↔◌, ◌⊎◌, inl, inr, Bool,
  true, false, not, ◌&&◌, ◌||◌, Option, none, some, List, [], ◌∷◌, ◌++◌, map, arith, All,
  Bool-cases,
}
use bitcoin_node_tests.Base.Exec.{◌>>=◌, ◌>>◌, Exec, Result, gets, lift, pure}
use bitcoin_node_tests.Adapter.Host.{scaled}
use bitcoin_node_tests.Adapter.Polling.{Clock, poll_until}
use bitcoin_node_tests.Base.Bytes.{Text, codes}
use bitcoin_node_tests.Chain.Json.{Answer, at_key}
use bitcoin_node_tests.Base.Int.{ℤ}
use bitcoin_node_tests.Network.Peers.{
  handshake_among, is_gone, match_in, peer_ids, is_outbound_to, is_new_inbound,
}
use bitcoin_node_tests.Chain.{Call, addnode, disconnectnode, getpeerinfo}

pub record Network (W : Type 0) : Type 0 where
  pub clock : Clock W
  pub call : ℕ → Call → Exec W Answer
  -- `dial`, which an adapter may override
  pub dial : ℕ → Text → Bool → Exec W (Unit {0})
  -- `p2p_address`, as `host:port`
  pub address : ℕ → Text
  -- whether a number that is no `int` is at least another
  pub float_at_least : Text → ℤ → Bool

module _ {W : Type 0} (net : Network W) where
  abbrev pub ask : ℕ → Call → Exec W Answer
  ask n c = net.call n c

  -- `_wait_for_peer`
  unfoldable pub wait_for_peer : ℕ → (Answer → Result Bool) → ℕ → Exec W Answer
  wait_for_peer node test deadline =
      poll_until net.clock (do peers ← ask node getpeerinfo; lift (match_in test peers)) deadline

  -- `_wait_for_handshake`
  unfoldable pub wait_for_handshake : ℕ → Answer → ℕ → Exec W (Unit {0})
  wait_for_handshake node id deadline =
      poll_until net.clock
        (do peers ← ask node getpeerinfo; lift (handshake_among net.float_at_least id peers))
        deadline

  -- `NodeAdapter.dial`
  unfoldable pub dial_once : ℕ → Text → Bool → Exec W (Unit {0})
  dial_once node address v2transport = do
    ask node (addnode address (codes "onetry") v2transport)
    pure tt

  abbrev pub deadline_in : ℕ → Exec W ℕ
  deadline_in timeout = gets (λ w. net.clock.monotonic w + scaled net.clock.factor timeout)

  -- `connect_nodes`
  unfoldable pub connect_nodes : ℕ → ℕ → ℕ → Bool → Exec W (Unit {0})
  unfolding scaled
  connect_nodes first second timeout v2transport = do
    peers ← ask second getpeerinfo
    before ← lift (peer_ids peers)
    net.dial first (net.address second) v2transport
    deadline ← deadline_in timeout
    first_peer ← wait_for_peer first (is_outbound_to (net.address second)) deadline
    second_peer ← wait_for_peer second (is_new_inbound before) deadline
    first_id ← lift (at_key "id" first_peer)
    wait_for_handshake first first_id deadline
    second_id ← lift (at_key "id" second_peer)
    wait_for_handshake second second_id deadline

  -- `wait_until_disconnected`
  unfoldable pub wait_until_disconnected : ℕ → ℕ → ℕ → Exec W (Unit {0})
  unfolding scaled
  wait_until_disconnected node peer timeout = do
    deadline ← deadline_in timeout
    poll_until net.clock (do peers ← ask node getpeerinfo; lift (is_gone (net.address peer) peers))
        deadline

  -- `disconnect_nodes`
  unfoldable pub disconnect_nodes : ℕ → ℕ → ℕ → Exec W (Unit {0})
  unfolding wait_until_disconnected
  disconnect_nodes first second timeout = do
    ask first (disconnectnode (net.address second))
    wait_until_disconnected first second timeout
