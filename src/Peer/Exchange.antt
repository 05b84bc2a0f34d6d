-- ===== src/Peer/Exchange.antt =====
-- src/bitcoin_node_tests/peer.py: what a test does with a `Peer`: `wait_for`, `wait_for_disconnect`,
-- `sync_with_ping`, `handshake` and `is_connected`.
use bitcoin_node_tests.Base.{
  ℕ, zero, suc, ◌+◌, ◌-◌, Bool, true, false, Option, none, some, ◌==◌, if◌then◌else◌, ltb, ◌^◌,
}
use bitcoin_node_tests.Base.Exec.{
  ◌>>=◌, ◌>>◌, Result, Exec, ok, err, assertion_error, lift, pure, unfinished, connection_error,
  timeout_error,
}
use bitcoin_node_tests.Peer.{
  Message, P2p, Socket, Peer, Payload, Session, version, draw, pong, of_peer, ping, wtxid_relay,
  send_addr_v2, verack,
}
use bitcoin_node_tests.Adapter.Host.{scaled}
use bitcoin_node_tests.Base.Bytes.{Text, bytes_eq, codes}
use bitcoin_node_tests.Peer.Packets.{receive_message, send_payload}

-- `predicate is None or predicate(message)`
abbrev pub passes : Option (Message → Result Bool) → Message → Result Bool
passes none m = ok true
passes (some predicate) m = predicate m

-- whether a message is the one waited for; the predicate is asked last
unfoldable pub is_wanted : Text → Option (Message → Result Bool) → Message → Result Bool
unfolding bytes_eq
is_wanted command predicate m = if bytes_eq m.command command then passes predicate m else ok false

module _ {W C : Type 0} (sock : Socket W) where
  -- the deadline of a wait, with the peer's own wait where none is given
  unfoldable pub wait_time : Peer C → Option ℕ → ℕ
  unfolding scaled
  wait_time p none = p.timeout
  wait_time p (some timeout) = scaled sock.factor timeout

module _ {W C : Type 0} (lib : P2p C) (sock : Socket W) where
  -- the answer to a message: a `pong` with its nonce to a `ping`
  unfoldable pub answer_ping : Message → Exec (Session W C) (Unit {0})
  unfolding send_payload bytes_eq
  answer_ping message =
      if bytes_eq message.command (codes "ping")
      then (lift (lib.ping_nonce message.payload) >>= λ nonce.
          send_payload lib sock (pong nonce) true false)
      else pure tt

  unfoldable pub send_if : Bool → Payload → Exec (Session W C) (Unit {0})
  unfolding send_payload
  send_if asked payload = if asked then send_payload lib sock payload true false else pure tt

module _ {W C : Type 0} (lib : P2p C) (sock : Socket W) (reads : ℕ) where
  -- One turn of `wait_for`: receive, answer, and look; `go_on` is the rest of the loop.
  abbrev pub turn :
      Text
      → Option (Message → Result Bool)
      → Exec (Session W C) Message
      → Result Message × Session W C
      → Result Message × Session W C
  turn command predicate go_on (err e, s) = (err e, s)
  turn command predicate go_on (ok m, s) =
      (do
        answer_ping lib sock m
        wanted ← lift (is_wanted command predicate m)
        if wanted then pure m else go_on)
        s

  -- `wait_for` up to a deadline, for at most so many turns
  unfoldable pub wait_rounds_for :
      Text → Option (Message → Result Bool) → ℕ → ℕ → Exec (Session W C) Message
  unfolding receive_message is_wanted answer_ping
  wait_rounds_for command predicate deadline zero s = (err unfinished, s)
  wait_rounds_for command predicate deadline (suc more) s =
      if ltb (sock.monotonic s.world) deadline
      then turn command predicate (wait_rounds_for command predicate deadline more)
          (receive_message lib sock reads (some (deadline - sock.monotonic s.world)) s)
      else (err timeout_error, s)

  -- The loop of `wait_for_disconnect`.
  abbrev drained :
      Exec (Session W C) (Unit {0}) → Result Message × Session W C → Result (Unit {0}) × Session W C
  drained go_on (ok m, s) = go_on s
  drained go_on (err connection_error, s) = (ok tt, s)
  drained go_on (err timeout_error, s) = (err assertion_error, s)
  drained go_on (err e, s) = (err e, s)

  unfoldable pub drain_rounds : ℕ → ℕ → Exec (Session W C) (Unit {0})
  unfolding receive_message
  drain_rounds deadline zero s = (err unfinished, s)
  drain_rounds deadline (suc more) s =
      if ltb (sock.monotonic s.world) deadline
      then drained (drain_rounds deadline more)
          (receive_message lib sock reads (some (deadline - sock.monotonic s.world)) s)
      else (err assertion_error, s)

-- At most so many reads for a message, and so many messages for a wait.
module _ {W C : Type 0} (lib : P2p C) (sock : Socket W) (reads turns : ℕ) where
  -- `wait_for`
  unfoldable pub wait_for :
      Text → Option (Message → Result Bool) → Option ℕ → Exec (Session W C) Message
  unfolding wait_rounds_for wait_time
  wait_for command predicate timeout s =
      let deadline = sock.monotonic s.world + wait_time sock s.peer timeout in
      wait_rounds_for lib sock reads command predicate deadline turns s

  -- `wait_for_disconnect`
  unfoldable pub wait_for_disconnect : Option ℕ → Exec (Session W C) (Unit {0})
  unfolding drain_rounds wait_time
  wait_for_disconnect timeout s =
      let deadline = sock.monotonic s.world + wait_time sock s.peer timeout in
      drain_rounds lib sock reads deadline turns s

  -- the test of `sync_with_ping` on a `pong`
  abbrev pub is_pong_of : ℕ → Message → Result Bool
  is_pong_of nonce m = elim (lib.pong_nonce m.payload) [ ok n ↦ ok (n == nonce) | err e ↦ err e ]

  -- `sync_with_ping`
  unfoldable pub sync_with_ping : Option ℕ → Exec (Session W C) (Unit {0})
  unfolding wait_for send_payload
  sync_with_ping timeout = do
    drawn ← draw (sock.randbelow (2 ^ 64 - 1))
    send_payload lib sock (ping 0) true false
    send_payload lib sock (ping (drawn + 1)) true false
    wait_for (codes "pong") (some (is_pong_of (drawn + 1))) timeout
    pure tt

  -- the `version`s of the two sides, the one that dialled first
  unfoldable pub exchange_versions : Bool → Payload → Exec (Session W C) Message
  unfolding wait_for send_payload
  exchange_versions true ours = do
    send_payload lib sock ours true false
    wait_for (codes "version") none none
  exchange_versions false ours = do
    theirs ← wait_for (codes "version") none none
    send_payload lib sock ours true false
    pure theirs

  -- `handshake`
  unfoldable pub handshake : ℕ → Bool → Bool → Exec (Session W C) (ℕ × ℕ)
  unfolding exchange_versions send_if wait_for send_payload
  handshake services addrv2 wtxidrelay = do
    nonce ← draw (sock.randbelow (2 ^ 64))
    dialled ← of_peer (λ p. p.dialled)
    theirs ← exchange_versions dialled (version services nonce)
    send_if lib sock wtxidrelay wtxid_relay
    send_if lib sock addrv2 send_addr_v2
    send_payload lib sock verack true false
    wait_for (codes "verack") none none
    lift (lib.parse_version theirs.payload)
