-- ===== src/Peer.antt =====
-- src/bitcoin_node_tests/peer.py: what a `Peer` holds, and what it uses of btclib, of its socket and of
-- the clock, as parameters. A call of the socket acts on the outer world; a method of the peer acts on
-- a `Session`, the peer and the world.
pub mod Reading
pub mod Stream
pub mod Octets
pub mod Garbage
pub mod Packets
pub mod Exchange
pub mod Opening
pub mod Framing
pub mod Inbox
pub mod Waits
pub mod Quiet
pub mod Sending
pub mod Handshake
mod Sample
mod Examples
use bitcoin_node_tests.Base.{
  ℕ, zero, suc, ◌+◌, ◌-◌, ◌*◌, ◌≤◌, ◌<◌, ◌≡◌, ◌≢◌, refl, sym, ap, ◌∙◌, ◌↔◌, ◌⊎◌, inl, inr, Bool,
  true, false, not, ◌&&◌, ◌||◌, Option, none, some, List, [], ◌∷◌, ◌++◌, map, arith, All,
  Bool-cases,
}
use bitcoin_node_tests.Base.Bytes.{Bytes, Text}
use bitcoin_node_tests.Base.Exec.{Error, Exec, Result, modify, ok}

-- `btclib.p2p.Message`; the magic is that of the connection
pub record Message : Type 0 where
  pub command : Text
  pub payload : Bytes

-- The payloads that a peer builds itself, and all others.
pub data Payload : Type 0 where
  version : ℕ → ℕ → Payload
  verack wtxid_relay send_addr_v2 : Payload
  ping pong : ℕ → Payload
  other : Text → Bytes → Payload

-- `Message.parse` of a stream: a message and where it ends, `IncompleteMessageError`, or another error
pub data Parsed : Type 0 where
  whole : Message → ℕ → Parsed
  incomplete : Parsed
  refused : Error → Parsed

-- What is used of btclib. A cipher `C` moves on with each packet.
pub record P2p (C : Type 0) : Type 0 where
  pub parse : Bytes → Parsed
  pub serialize : Bytes → Message → Bytes
  pub to_message : Payload → Bytes → Bool → Result Message
  pub ping_nonce : Bytes → Result ℕ
  pub pong_nonce : Bytes → Result ℕ
  -- `Version.parse`, as the services and the nonce
  pub parse_version : Bytes → Result (ℕ × ℕ)
  pub contents_from_message : Text → Bytes → Bytes
  -- `none` is its `BTClibValueError`
  pub message_from_contents : Bytes → Option Message
  -- `secp256k1.n`, and `ellswift.create`
  pub order : ℕ
  pub create : ℕ → Bytes
  pub new_cipher : ℕ → Bytes → Bytes → Bool → Bytes → Result C
  pub send_garbage_terminator : C → Bytes
  pub recv_garbage_terminator : C → Bytes
  pub encrypt : Bytes → Bytes → Bool → Exec C Bytes
  pub decrypt_length : Bytes → Exec C ℕ
  pub decrypt : Bytes → Bytes → Exec C (Bytes × Bool)

-- The socket of one connection, the clock and `secrets`.
pub record Socket (W : Type 0) : Type 0 where
  pub create_connection : Text → ℕ → Exec W (Unit {0})
  pub accept : Exec W (Unit {0})
  -- `recv(4096)`: no octet where the other side closed the connection
  pub recv : Exec W Bytes
  pub sendall : Bytes → Exec W (Unit {0})
  pub settimeout : ℕ → W → W
  pub gettimeout : W → ℕ
  pub is_open : W → Bool
  pub close : W → W
  pub monotonic : W → ℕ
  pub factor : ℕ
  pub randbelow : ℕ → W → ℕ × W
  pub token_bytes : ℕ → W → Bytes × W

-- The fields of `Peer`; the socket is the world's.
pub record Peer (C : Type 0) : Type 0 where
  pub magic : Bytes
  pub timeout : ℕ
  pub dialled : Bool
  pub buffer : Bytes
  pub cipher : Option C
  pub contents_len : Option ℕ
  pub aad : Bytes
  pub message_count : Text → ℕ
  pub last_message : Text → Option Message

pub record Session (W C : Type 0) : Type 0 where
  pub peer : Peer C
  pub world : W

-- constants of peer.py, and of btclib.p2p.bip324
abbrev pub max_garbage_len : ℕ
max_garbage_len = 4095

abbrev pub max_decoys : ℕ
max_decoys = 10

abbrev pub max_decoy_len : ℕ
max_decoy_len = 100

abbrev pub ell_size : ℕ
ell_size = 64

abbrev pub length_len : ℕ
length_len = 3

abbrev pub header_len : ℕ
header_len = 1

abbrev pub tag_len : ℕ
tag_len = 16

module _ {W C : Type 0} where
  abbrev pub on_world : {A : Type 0} → Exec W A → Exec (Session W C) A
  on_world m s = let r = m s.world in (r.0, record s { world = r.1 })

  abbrev pub draw : {A : Type 0} → (W → A × W) → Exec (Session W C) A
  draw f s = let r = f s.world in (ok r.0, record s { world = r.1 })

  abbrev pub of_peer : {A : Type 0} → (Peer C → A) → Exec (Session W C) A
  of_peer f s = (ok (f s.peer), s)

  abbrev pub set_world : (W → W) → Exec (Session W C) (Unit {0})
  set_world f = modify (λ s. record s { world = f s.world })

  abbrev pub set_peer : (Peer C → Peer C) → Exec (Session W C) (Unit {0})
  set_peer f = modify (λ s. record s { peer = f s.peer })

  abbrev pub set_buffer : Bytes → Exec (Session W C) (Unit {0})
  set_buffer b = set_peer (λ p. record p { buffer = b })
