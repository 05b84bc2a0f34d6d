-- ===== src/Peer/Examples.antt =====
-- The theorems on a peer at a small connection.
use bitcoin_node_tests.Base.{◌+◌, ◌≡◌, refl, none, some, [], ◌∷◌, ◌++◌, arith, List, true, ℕ}
use bitcoin_node_tests.Peer.Exchange.{wait_for, wait_time, handshake}
use bitcoin_node_tests.Peer.Garbage.{GarbageEnd, take_garbage-GarbageEnd}
use bitcoin_node_tests.Peer.Octets.{TakeEnd, take_octets-TakeEnd}
use bitcoin_node_tests.Peer.Opening.{adopt}
use bitcoin_node_tests.Peer.Packets.{receive_message}
use bitcoin_node_tests.Peer.Reading.{take_garbage, take_octets}
use bitcoin_node_tests.Peer.Sample.{
  Line, lib, line_socket, hello, peer_at, frame, line_laws, frames, name_of,
}
use bitcoin_node_tests.Peer.Waits.{WaitWithin, wait_for-WaitEnd}
use bitcoin_node_tests.Base.Bytes.{Bytes, codes}
use bitcoin_node_tests.Peer.{
  version, Session, Payload, ping, wtxid_relay, send_addr_v2, verack, pong,
}
use bitcoin_node_tests.Peer.Inbox.{FramedEnd, receive_message-FramedEnd}
use bitcoin_node_tests.Base.Exec.{ok, Result}

abbrev stream_of : Line → Bytes
stream_of w = w.left

abbrev framed : Session Line (Unit {0})
unfolding adopt
framed = peer_at (frame (7 ∷ []) hello ++ 9 ∷ [])

receive_message-FramedEnd_example :
    FramedEnd lib line_socket stream_of hello
      (9 ∷ [])
      framed
      (receive_message lib line_socket 20 (some 30) framed)
unfolding adopt
receive_message-FramedEnd_example =
    receive_message-FramedEnd lib line_socket stream_of line_laws 20 framed frames (omega arith)
      hello (9 ∷ []) refl refl (some 30)

take_octets-TakeEnd_example :
    TakeEnd line_socket stream_of 3 framed (take_octets line_socket 3 framed)
take_octets-TakeEnd_example = take_octets-TakeEnd line_socket stream_of line_laws 3 framed

take_garbage-GarbageEnd_example :
    GarbageEnd line_socket stream_of
      (1 ∷ 2 ∷ [])
      framed
      (take_garbage line_socket (1 ∷ 2 ∷ []) framed)
take_garbage-GarbageEnd_example =
    take_garbage-GarbageEnd line_socket stream_of line_laws (1 ∷ 2 ∷ []) framed

wait_for-WaitEnd_example :
    WaitWithin lib line_socket 20
      (codes "ab")
      none
      (framed.world.now + wait_time line_socket framed.peer none)
      3
      framed
      (wait_for lib line_socket 20 3 (codes "ab") none none framed)
wait_for-WaitEnd_example = wait_for-WaitEnd lib line_socket 20 3 (codes "ab") none none framed

-- The runs end in what they are to read.
garbage_taken : (take_garbage line_socket (1 ∷ 2 ∷ []) framed).0 ≡ ok (7 ∷ 2 ∷ 3 ∷ 97 ∷ 98 ∷ [])
unfolding take_garbage framed
garbage_taken = refl

message_received : (receive_message lib line_socket 20 (some 30) framed).0 ≡ ok hello
unfolding receive_message framed
message_received = refl

message_awaited : (wait_for lib line_socket 20 3 (codes "ab") none none framed).0 ≡ ok hello
unfolding wait_for framed
message_awaited = refl

abbrev out_of : Line → List Bytes
out_of w = w.out

abbrev named : Payload → Bytes
named p = frame (7 ∷ []) (record { command = name_of p; payload = [] })

-- The node sends its version, a ping and its verack.
abbrev greeted : Session Line (Unit {0})
unfolding adopt
greeted = peer_at (named (version 0 0) ++ named (ping 3) ++ named verack)

abbrev shaken : Result (ℕ × ℕ) × Session Line (Unit {0})
unfolding handshake
shaken = handshake lib line_socket 100 30 9 true true greeted

frames_sent :
    shaken.1.world.out
    ≡ named (version 9 0)
      ∷ named wtxid_relay
      ∷ named send_addr_v2
      ∷ named verack
      ∷ named (pong 0)
      ∷ []
unfolding shaken greeted
frames_sent = refl
