-- ===== src/Peer/Inbox.antt =====
-- `receive` of src/bitcoin_node_tests/peer.py over the v1 transport: it reads back what a node framed,
-- however it arrives.
use bitcoin_node_tests.Base.{
  ℕ, ◌<◌, ◌≡◌, refl, sym, ap, ◌∙◌, inl, inr, Option, none, some, ◌++◌, arith, length, drop,
  length-append,
}
use bitcoin_node_tests.Base.Exec.{◌>>◌, Result, ok, and_then, err, pure}
use bitcoin_node_tests.Peer.{P2p, Socket, Message, Session, Peer}
use bitcoin_node_tests.Base.Bytes.{Bytes}
use bitcoin_node_tests.Peer.Stream.{StreamLaws, unread, ReadEnd, SamePeer, read_until-ReadEnd}
use bitcoin_node_tests.Peer.Framing.{FramingLaws, v1_look-framed, v1_look-Stable}
use bitcoin_node_tests.Peer.Packets.{
  tallied, latest, receive_now, receive_v1, v1_look, note, receive_message, with_default,
  receive_by,
}
use bitcoin_node_tests.Base.Slices.{drop-length}
use bitcoin_node_tests.Peer.Reading.{read_until}
use mathlib.Core.Path.{subst}

module _ {W C : Type 0} (lib : P2p C) (sock : Socket W) (stream : W → Bytes) where
  -- The peer has counted and kept a message, and the buffer is all else that differs.
  abbrev pub Noted : Message → Session W C → Session W C → Type 0
  Noted m s t = t.peer ≡ record s.peer {
    buffer = t.peer.buffer;
    message_count = tallied m.command s.peer.message_count;
    last_message = latest m s.peer.last_message;
  }

  -- What an end of `receive` stands for, with a message ahead of the rest of the stream.
  abbrev pub FramedEnd : Message → Bytes → Session W C → Result Message × Session W C → Type 0
  FramedEnd m rest s (ok got, t) = (got ≡ m) × (unread stream t ≡ rest) × Noted m s t
  FramedEnd m rest s (err e, t) =
      SamePeer s t
      × (unread stream t ≡ unread stream s)
      × ((v : W) × (v' : W) × (sock.recv v ≡ (err e, v')))

  -- The same of `_receive_v1`, which does not note the message.
  abbrev ReadMessage : Message → Bytes → Session W C → Result Message × Session W C → Type 0
  ReadMessage m rest s (ok got, t) = (got ≡ m) × (unread stream t ≡ rest) × SamePeer s t
  ReadMessage m rest s (err e, t) = FramedEnd m rest s (err e, t)

  module _ (laws : StreamLaws sock stream) (reads : ℕ) (s : Session W C)
      (framing : FramingLaws s.peer.magic lib.parse lib.serialize)
      (all_read : length (stream s.world) < reads) (m : Message) (rest : Bytes)
      (ahead : unread stream s ≡ lib.serialize s.peer.magic m ++ rest) where
    look_ahead :
        v1_look s.peer.magic lib.parse (unread stream s)
        ≡ ok (some (m, length (lib.serialize s.peer.magic m)))
    look_ahead =
        ap (v1_look s.peer.magic lib.parse) ahead
        ∙ v1_look-framed s.peer.magic lib.parse lib.serialize framing m rest

    read_message :
        (r : Result Message × Session W C)
        → ReadEnd sock stream (v1_look s.peer.magic lib.parse) s r
        → ReadMessage m rest s r
    read_message (ok got, t) (same, n, found, left) =
        let both = sym found ∙ look_ahead in
        let k : n ≡ length (lib.serialize s.peer.magic m) = cc both in
        (
          cc both,
          left
              ∙ ap (λ i. drop i (unread stream s)) k
              ∙ ap (drop (length (lib.serialize s.peer.magic m))) ahead
              ∙ drop-length (lib.serialize s.peer.magic m) rest,
          same,
        )
    read_message (err e, t) (same, left, inl k) = cc (k, look_ahead)
    read_message (err e, t) (same, left, inr (inl (k, which, over))) = cc (k, look_ahead)
    read_message (err e, t) (same, left, inr (inr (v, q))) = (same, left, (v, t.world, q))

    receive_v1-ReadMessage : ReadMessage m rest s (receive_v1 lib sock reads s)
    unfolding receive_v1
    receive_v1-ReadMessage =
        read_message (read_until sock (v1_look s.peer.magic lib.parse) reads s) (
          read_until-ReadEnd sock stream (v1_look s.peer.magic lib.parse)
            (v1_look-Stable s.peer.magic lib.parse lib.serialize framing) laws reads s
            (λ b more split far. absurd (
              omega (
                arith,
                far,
                all_read,
                ap length split,
                length-append b more,
                length-append s.peer.buffer (stream s.world),
              ))))

    abbrev noted_peer : Message → Peer C → Peer C
    noted_peer message p = record p {
      message_count = tallied message.command p.message_count;
      last_message = latest message p.last_message;
    }

    noted_now :
        (r : Result Message × Session W C)
        → ReadMessage m rest s r
        → FramedEnd m rest s (and_then r (λ message. note message >> pure message))
    noted_now (ok got, t) (k, left, same) = rw k (refl, left, sym (ap (noted_peer m) same))
    noted_now (err e, t) h = h

    receive_now-FramedEnd : s.peer.cipher ≡ none → FramedEnd m rest s (receive_now lib sock reads s)
    unfolding receive_now
    receive_now-FramedEnd v1 =
        subst
          (λ o.
            FramedEnd m rest s
              (and_then (receive_by lib sock reads o s) (λ message. note message >> pure message)))
          (sym v1) (noted_now (receive_v1 lib sock reads s) receive_v1-ReadMessage)

  -- The time out of a socket is no part of what an end stands for.
  reset :
      (laws : StreamLaws sock stream) (m : Message) (rest : Bytes) (s : Session W C) (n : ℕ)
      (r : Result Message × Session W C)
      → FramedEnd m rest (record s { world = sock.settimeout n s.world }) r
      → FramedEnd m rest s (with_default sock r)
  reset laws m rest s n (ok got, t) (k, left, noted) =
      (k, ap (λ b. t.peer.buffer ++ b) (laws.kept t.peer.timeout t.world) ∙ left, noted)
  reset laws m rest s n (err e, t) (same, left, why) = (
    same,
    ap (λ b. t.peer.buffer ++ b) (laws.kept t.peer.timeout t.world)
        ∙ left
        ∙ ap (λ b. s.peer.buffer ++ b) (laws.kept n s.world),
    why,
  )

  -- receive over v1 reads back what the node framed: where a serialized message with the peer's
  -- magic is ahead in the stream, in pieces of any size, receive returns this message, leaves what
  -- follows it unread, and counts and keeps it by its command; or it raises what a reception
  -- raised, with nothing taken, counted or kept. btclib is assumed to parse what it serializes and
  -- to wait for whole messages, a reception to answer the next octets, and all that is still to
  -- arrive to be shorter than the bound on the receptions.
  pub receive_message-FramedEnd :
      (laws : StreamLaws sock stream) (reads : ℕ) (s : Session W C)
      (framing : FramingLaws s.peer.magic lib.parse lib.serialize)
      (all_read : length (stream s.world) < reads) (m : Message) (rest : Bytes)
      (ahead : unread stream s ≡ lib.serialize s.peer.magic m ++ rest) (v1 : s.peer.cipher ≡ none)
      (timeout : Option ℕ)
      → FramedEnd m rest s (receive_message lib sock reads timeout s)
  unfolding receive_message
  receive_message-FramedEnd laws reads s framing all_read m rest ahead v1 none =
      receive_now-FramedEnd laws reads s framing all_read m rest ahead v1
  receive_message-FramedEnd laws reads s framing all_read m rest ahead v1 (some n) =
      let started : Session W C = record s { world = sock.settimeout n s.world } in
      reset laws m rest s n (receive_now lib sock reads started) (
        receive_now-FramedEnd laws reads started framing (rw (laws.kept n s.world) all_read) m rest
          (ap (λ b. s.peer.buffer ++ b) (laws.kept n s.world) ∙ ahead) v1)
