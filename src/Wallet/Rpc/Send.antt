-- ===== src/Wallet/Rpc/Send.antt =====
-- The outcomes of `_send`.
use bitcoin_node_tests.Base.{◌≡◌, ◌≢◌, ◌↔◌, inl, inr, true, arith, Bool-cases}
use bitcoin_node_tests.Chain.{Btclib, Node, Tx, Call, sendrawtransaction}
use bitcoin_node_tests.Chain.Json.{Answer, as_str, str}
use bitcoin_node_tests.Wallet.Rpc.{send, World, answers_id}
use bitcoin_node_tests.Base.Bytes.{Text, to_hex, bytes_eq_iff, bytes_eq_refl}
use bitcoin_node_tests.Base.Exec.{Error, err, ok, type_error}
use bitcoin_node_tests.Wallet.Cache.{scan_tx}

module _ {H N : Type 0} (lib : Btclib H) (node : Node N) where
  -- the call that broadcasts a transaction
  abbrev pub broadcast : Tx → Call
  broadcast tx = sendrawtransaction (to_hex (lib.tx_serialize tx)) 0

  answers_id_iff :
      (a : Answer) (id : Text) → (answers_id lib node (as_str a) id ≡ true) ↔ (a ≡ str id)
  answers_id_iff (str t) id = ground (arith, bytes_eq_iff t id)
  answers_id_iff _ id = ground arith

  -- _send raises what the broadcast raises, and TypeError where the node answers anything but the
  -- transaction's id, with the wallet as it was; where it answers the id, _send returns the
  -- transaction and the wallet has scanned it.
  pub send_outcomes :
      (tx : Tx) (w : World N) (n : N)
      → ((e : Error)
          → node.call (broadcast tx) w.node ≡ (err e, n)
          → send lib node tx w ≡ (err e, record w { node = n }))
        × (node.call (broadcast tx) w.node ≡ (ok (str (to_hex (lib.tx_id tx))), n)
            → send lib node tx w
              ≡ (ok tx, record { wallet = (scan_tx lib tx w.wallet).1; node = n }))
        × ((a : Answer)
            → node.call (broadcast tx) w.node ≡ (ok a, n)
            → a ≢ str (to_hex (lib.tx_id tx))
            → send lib node tx w ≡ (err type_error, record w { node = n }))
  unfolding send
  send_outcomes tx w n = (
    λ e answered. rw answered,
    λ answered. rw (answered, bytes_eq_refl (to_hex (lib.tx_id tx))),
    λ a answered other. elim (Bool-cases (answers_id lib node (as_str a) (to_hex (lib.tx_id tx)))) [
      | inl p ↦ absurd (other ((answers_id_iff a _).0 p))
      | inr p ↦ rw (answered, p)
    ],
  )
