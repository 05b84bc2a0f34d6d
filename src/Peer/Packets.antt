-- ===== src/Peer/Packets.antt =====
-- src/bitcoin_node_tests/peer.py: `_receive_packet`, `_receive_v1`, `_receive_v2`, `receive`, `send` and
-- `send_raw`. `reads` bounds the receptions of one call, as what is still to arrive does.
use bitcoin_node_tests.Base.{
  ℕ, zero, suc, ◌+◌, Bool, true, false, not, ◌&&◌, Option, none, some, [], length, take, ◌==◌,
  if◌then◌else◌,
}
use bitcoin_node_tests.Base.Exec.{
  ◌>>=◌, ◌>>◌, Exec, Result, ok, err, pure, raise, require, lift, unfinished, value_error,
}
use bitcoin_node_tests.Base.Bytes.{bytes_eq, Bytes, Text}
use bitcoin_node_tests.Peer.{
  P2p, Parsed, Message, Session, Socket, Payload, of_peer, on_world, whole, header_len, length_len,
  refused, set_peer, incomplete, tag_len,
}
use bitcoin_node_tests.Peer.Reading.{read_until, take_octets}

-- What `_receive_v1` looks for in the buffer: a message with this magic.
abbrev pub parsed_look : Parsed → Result (Option (Message × ℕ))
parsed_look (whole m n) = ok (some (m, n))
parsed_look incomplete = ok none
parsed_look (refused e) = err e

unfoldable pub v1_look : Bytes → (Bytes → Parsed) → Bytes → Result (Option (Message × ℕ))
unfolding bytes_eq
v1_look magic parse b =
    let head = take (length magic) b in
    if length head == length magic && not (bytes_eq head magic)
    then err value_error
    else parsed_look (parse b)

abbrev pub with_state : {A C : Type 0} → Result A × C → Result (A × C)
with_state (ok a, c) = ok (a, c)
with_state (err e, c) = err e

module _ {W C : Type 0} where
  -- A call of the cipher, which the peer holds as well.
  abbrev pub run_cipher : {A : Type 0} → C → Exec C A → Exec (Session W C) (A × C)
  run_cipher c m s =
      let r = m c in (with_state r, record s { peer = record s.peer { cipher = some r.1 } })

module _ {W C : Type 0} (lib : P2p C) (sock : Socket W) where
  -- the length of the packet being read, decrypted once
  unfoldable pub packet_size : C → Option ℕ → Exec (Session W C) (ℕ × C)
  unfolding take_octets
  packet_size c (some n) = pure (n, c)
  packet_size c none = do
    head ← take_octets sock length_len
    size ← run_cipher c (lib.decrypt_length head)
    set_peer (λ p. record p { contents_len = some size.0 })
    pure size

  -- `_receive_packet`
  unfoldable pub receive_packet : C → Exec (Session W C) (Bytes × Bool × C)
  unfolding take_octets packet_size
  receive_packet c = do
    known ← of_peer (λ p. p.contents_len)
    size ← packet_size c known
    ciphertext ← take_octets sock (header_len + size.0 + tag_len)
    aad ← of_peer (λ p. p.aad)
    set_peer (λ p. record p { contents_len = none; aad = [] })
    r ← run_cipher size.1 (lib.decrypt ciphertext aad)
    pure (r.0.0, r.0.1, r.1)

-- the tally of a message
abbrev pub tallied : Text → (Text → ℕ) → Text → ℕ
tallied command count c = if bytes_eq c command then suc (count c) else count c

abbrev pub latest : Message → (Text → Option Message) → Text → Option Message
latest m last c = if bytes_eq c m.command then some m else last c

module _ {W C : Type 0} where
  abbrev pub note : Message → Exec (Session W C) (Unit {0})
  note message = set_peer (λ p. record p {
    message_count = tallied message.command p.message_count;
    last_message = latest message p.last_message;
  })

module _ {W C : Type 0} (sock : Socket W) where
  -- `try: ... finally: self._socket.settimeout(self._timeout)`
  abbrev pub with_default : {A : Type 0} → Result A × Session W C → Result A × Session W C
  with_default (r, s) = (r, record s { world = sock.settimeout s.peer.timeout s.world })

module _ {W C : Type 0} (lib : P2p C) (sock : Socket W) (reads : ℕ) where
  -- `_receive_v1`
  unfoldable pub receive_v1 : Exec (Session W C) Message
  unfolding v1_look read_until
  receive_v1 = do magic ← of_peer (λ p. p.magic); read_until sock (v1_look magic lib.parse) reads

  -- a packet's message: a decoy, and one whose type is refused, give way to the next packet
  abbrev pub message_or : Bytes → Bool → Exec (Session W C) Message → Exec (Session W C) Message
  message_or contents true next = next
  message_or contents false next = elim (lib.message_from_contents contents) [
    | some m ↦ pure m
    | none ↦ next
  ]

  -- `_receive_v2`
  unfoldable pub receive_v2 : ℕ → C → Exec (Session W C) Message
  unfolding receive_packet
  receive_v2 zero c = raise unfinished
  receive_v2 (suc more) c = do
    r ← receive_packet lib sock c
    message_or r.0 r.1 (receive_v2 more r.2)

  unfoldable pub receive_by : Option C → Exec (Session W C) Message
  unfolding receive_v1 receive_v2
  receive_by none = receive_v1
  receive_by (some c) = do buffer ← of_peer (λ p. p.buffer); receive_v2 (length buffer + reads) c

  -- `_receive`
  unfoldable pub receive_now : Exec (Session W C) Message
  unfolding receive_by receive_v1 receive_v2 bytes_eq
  receive_now = do
    cipher ← of_peer (λ p. p.cipher)
    message ← receive_by cipher
    note message
    pure message

  -- `receive`
  unfoldable pub receive_message : Option ℕ → Exec (Session W C) Message
  unfolding receive_now
  receive_message none s = receive_now s
  receive_message (some timeout) s =
      with_default sock (receive_now (record s { world = sock.settimeout timeout s.world }))

module _ {W C : Type 0} (lib : P2p C) (sock : Socket W) where
  -- `send`
  abbrev pub send_by : Option C → Bytes → Message → Bool → Exec (Session W C) (Unit {0})
  send_by none magic message is_decoy = do
    require (not is_decoy) value_error
    on_world (sock.sendall (lib.serialize magic message))
  send_by (some c) magic message is_decoy = do
    packet ←
        run_cipher c
          (lib.encrypt (lib.contents_from_message message.command message.payload) [] is_decoy)
    on_world (sock.sendall packet.0)

  unfoldable pub send_payload : Payload → Bool → Bool → Exec (Session W C) (Unit {0})
  send_payload payload check_validity is_decoy = do
    magic ← of_peer (λ p. p.magic)
    message ← lift (lib.to_message payload magic check_validity)
    cipher ← of_peer (λ p. p.cipher)
    send_by cipher magic message is_decoy

  -- `send_raw`
  abbrev pub send_raw : Bytes → Exec (Session W C) (Unit {0})
  send_raw data_octets = on_world (sock.sendall data_octets)
