-- ===== src/Peer/Opening.antt =====
-- src/bitcoin_node_tests/peer.py: how a `Peer` begins and ends: `__init__`, `_accepted`, `_adopt`, the v2
-- handshake, `is_connected`, `close`, and `Listener.accept`.
use bitcoin_node_tests.Base.{
  ℕ, zero, suc, ◌+◌, ◌-◌, Bool, true, false, none, some, List, [], ◌∷◌, ◌++◌, length, if◌then◌else◌,
  replicate,
}
use bitcoin_node_tests.Base.Exec.{
  ◌>>=◌, ◌>>◌, Exec, Result, err, lift, ok, pure, and_then, raise, unfinished, blocking_io_error,
  connection_error,
}
use bitcoin_node_tests.Base.Bytes.{Bytes, Text}
use bitcoin_node_tests.Peer.{
  P2p, Socket, Session, of_peer, draw, max_decoy_len, max_garbage_len, on_world, ell_size,
  max_decoys, set_peer,
}
use bitcoin_node_tests.Adapter.Host.{scaled}
use bitcoin_node_tests.Peer.Packets.{receive_packet, with_state}
use bitcoin_node_tests.Peer.Reading.{opens_with_v1_version, take_octets, take_garbage}

-- `b"".join(parts)`
unfoldable pub joined : List Bytes → Bytes
joined [] = []
joined (b ∷ rest) = b ++ joined rest

-- `_adopt`
unfoldable pub adopt : {W C : Type 0} → Socket W → Bytes → ℕ → Bool → W → Session W C
adopt sock magic timeout dialled w = record {
  peer = record {
    magic = magic;
    timeout = timeout;
    dialled = dialled;
    buffer = [];
    cipher = none;
    contents_len = none;
    aad = [];
    message_count = λ c. 0;
    last_message = λ c. none;
  };
  world = sock.settimeout timeout w;
}

module _ {W C : Type 0} (lib : P2p C) (sock : Socket W) where
  abbrev drawn : {A : Type 0} → (W → A × W) → Exec W A
  drawn f w = let r = f w in (ok r.0, r.1)

  -- The decoys and the version packet, and what the cipher is after them: the first packet
  -- authenticates the garbage.
  unfoldable pub opening_packets : ℕ → Bytes → C → Exec W (List Bytes × C)
  opening_packets zero aad c = do
    packet ← lift (with_state (lib.encrypt [] aad false c))
    pure (packet.0 ∷ [], packet.1)
  opening_packets (suc decoys) aad c = do
    size ← drawn (sock.randbelow max_decoy_len)
    packet ← lift (with_state (lib.encrypt (replicate (size + 1) 0) aad true c))
    rest ← opening_packets decoys [] packet.1
    pure (packet.0 ∷ rest.0, rest.1)

  -- the node's decoys, then its version packet
  abbrev unless_decoy : Bool → Exec (Session W C) (Unit {0}) → Exec (Session W C) (Unit {0})
  unless_decoy true next = next
  unless_decoy false next = pure tt

  unfoldable pub skip_decoys : ℕ → C → Exec (Session W C) (Unit {0})
  unfolding receive_packet
  skip_decoys zero c = raise unfinished
  skip_decoys (suc more) c = do
    packet ← receive_packet lib sock c
    unless_decoy packet.1 (skip_decoys more packet.2)

  -- `close`
  abbrev pub close_peer : Session W C → Session W C
  close_peer s = record s { world = sock.close s.world }

module _ {W C : Type 0} (lib : P2p C) (sock : Socket W) (reads : ℕ) where
  -- `_v2_handshake`, but for the test for a v1 `version`
  unfoldable pub v2_exchange : Exec (Session W C) (Unit {0})
  unfolding opening_packets skip_decoys take_octets take_garbage joined
  v2_exchange = do
    drawn_key ← draw (sock.randbelow (lib.order - 1))
    let prv_key = drawn_key + 1
    let ell_ours = lib.create prv_key
    size ← draw (sock.randbelow (max_garbage_len + 1))
    garbage ← draw (sock.token_bytes size)
    on_world (sock.sendall (ell_ours ++ garbage))
    ell_theirs ← take_octets sock ell_size
    dialled ← of_peer (λ p. p.dialled)
    magic ← of_peer (λ p. p.magic)
    cipher ← lift (lib.new_cipher prv_key ell_ours ell_theirs dialled magic)
    decoys ← draw (sock.randbelow (max_decoys + 1))
    packets ← on_world (opening_packets lib sock decoys garbage cipher)
    on_world (sock.sendall (joined (lib.send_garbage_terminator cipher ∷ packets.0)))
    set_peer (λ p. record p { cipher = some packets.1 })
    aad ← take_garbage sock (lib.recv_garbage_terminator packets.1)
    set_peer (λ p. record p { aad = aad })
    buffer ← of_peer (λ p. p.buffer)
    skip_decoys lib sock (length buffer + reads) packets.1

  abbrev opens_v1 : Bool → Exec (Session W C) Bool
  unfolding opens_with_v1_version
  opens_v1 true = pure false
  opens_v1 false = opens_with_v1_version sock lib.serialize

  -- `_v2_handshake`: a connection that the node opens with a v1 `version` stays one
  unfoldable pub v2_handshake : Exec (Session W C) (Unit {0})
  unfolding v2_exchange opens_with_v1_version
  v2_handshake = do
    dialled ← of_peer (λ p. p.dialled)
    v1 ← opens_v1 dialled
    if v1 then pure tt else v2_exchange

  abbrev or_closed : Result (Unit {0}) × Session W C → Result (Session W C) × W
  or_closed (ok u, s) = (ok s, s.world)
  or_closed (err e, s) = (err e, sock.close s.world)

  -- `_v2_handshake_or_close`
  abbrev pub opened : Bool → Session W C → Result (Session W C) × W
  unfolding v2_handshake
  opened true s = or_closed (v2_handshake s)
  opened false s = (ok s, s.world)

  -- `__init__`
  unfoldable pub new_peer : Text → Bytes → ℕ → Bool → W → Result (Session W C) × W
  unfolding v2_handshake adopt scaled
  new_peer address magic timeout v2 w =
      and_then (sock.create_connection address (scaled sock.factor timeout) w)
        (λ u v. opened v2 (adopt sock magic (scaled sock.factor timeout) true v))

  -- `Listener.accept`, and `_accepted`
  unfoldable pub accept_peer : Bytes → ℕ → Bool → W → Result (Session W C) × W
  unfolding v2_handshake adopt
  accept_peer magic timeout v2 w =
      and_then (sock.accept w) (λ u v. opened v2 (adopt sock magic timeout false v))

module _ {W C : Type 0} (sock : Socket W) where
  -- `while chunk := self._socket.recv(4096)`, until the reading ends, with what it says of the connection
  abbrev held_chunk :
      Session W C → Exec (Session W C) Bool → Result Bytes × W → Result Bool × Session W C
  held_chunk s go_on (ok [], v) = (ok false, record s { world = v })
  held_chunk s go_on (ok (x ∷ chunk), v) =
      go_on (record { peer = record s.peer { buffer = s.peer.buffer ++ x ∷ chunk }; world = v })
  held_chunk s go_on (err blocking_io_error, v) = (ok true, record s { world = v })
  held_chunk s go_on (err connection_error, v) = (ok false, record s { world = v })
  held_chunk s go_on (err e, v) = (err e, record s { world = v })

  unfoldable pub drain_socket : ℕ → Exec (Session W C) Bool
  drain_socket zero s = (err unfinished, s)
  drain_socket (suc more) s = held_chunk s (drain_socket more) (sock.recv s.world)

  -- `is_connected`
  abbrev with_timeout : ℕ → Result Bool × Session W C → Result Bool × Session W C
  with_timeout timeout (r, s) = (r, record s { world = sock.settimeout timeout s.world })

  unfoldable pub is_connected : ℕ → Exec (Session W C) Bool
  unfolding drain_socket
  is_connected reads s =
      if sock.is_open s.world
      then with_timeout (sock.gettimeout s.world)
          (drain_socket reads (record s { world = sock.settimeout 0 s.world }))
      else (ok false, s)
