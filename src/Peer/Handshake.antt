-- ===== src/Peer/Handshake.antt =====
-- What `handshake` of src/bitcoin_node_tests/peer.py sends over the v1 transport, and in which order.
use bitcoin_node_tests.Base.{ℕ, ◌≡◌, Bool, true, false, List, [], ◌∷◌, ◌++◌}
use bitcoin_node_tests.Peer.{
  P2p, Socket, Payload, wtxid_relay, Session, send_addr_v2, Message, verack,
}
use bitcoin_node_tests.Base.Bytes.{Bytes}
use bitcoin_node_tests.Peer.Sending.{IsFrame, Answers, Heard}

module _ {W C : Type 0} (lib : P2p C) (sock : Socket W) (reads : ℕ) (sent : W → List Bytes) where
  -- The frames of an exchange of versions from one state to another: our `version`, ahead of the
  -- answers to what is heard where the peer dialled and behind them where the node did.
  abbrev pub OpeningFrames :
      Bool → Bytes → Payload → Session W C → Session W C → List Bytes → Type 0
  OpeningFrames true magic ours s t frames =
      (b : Bytes) × (u : Session W C) × (ms : List Message) × (pongs : List Bytes) × IsFrame lib
        sent magic ours b
      × Heard lib sock reads sent u ms t
      × Answers lib sent magic ms pongs
      × (frames ≡ b ∷ pongs)
  OpeningFrames false magic ours s t frames =
      (b : Bytes) × (u : Session W C) × (ms : List Message) × (pongs : List Bytes) × IsFrame lib
        sent magic ours b
      × Heard lib sock reads sent s ms u
      × Answers lib sent magic ms pongs
      × (frames ≡ pongs ++ b ∷ [])

  abbrev pub FrameIf : Bool → Bytes → Payload → List Bytes → Type 0
  FrameIf true magic p frames = (b : Bytes) × IsFrame lib sent magic p b × (frames ≡ b ∷ [])
  FrameIf false magic p frames = frames ≡ []

  -- All that a handshake from one state to another sends, in order.
  abbrev pub HandshakeFrames :
      Bool → Bytes → Payload → Bool → Bool → Session W C → Session W C → List Bytes → Type 0
  HandshakeFrames dialled magic ours wtxidrelay addrv2 s t frames =
      (opened : Session W C) × (waiting : Session W C) × (ms : List Message) × (a : List Bytes)
      × (b : List Bytes) × (c : List Bytes) × (d : Bytes) × (e : List Bytes) × OpeningFrames dialled
          magic ours s opened a
      × FrameIf wtxidrelay magic wtxid_relay b
      × FrameIf addrv2 magic send_addr_v2 c
      × IsFrame lib sent magic verack d
      × Heard lib sock reads sent waiting ms t
      × Answers lib sent magic ms e
      × (frames ≡ a ++ b ++ c ++ d ∷ [] ++ e)
