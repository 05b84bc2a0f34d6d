-- ===== src/Peer/Sending.antt =====
-- What `send` and `wait_for` of src/bitcoin_node_tests/peer.py send over the v1 transport.
use bitcoin_node_tests.Base.{
  ℕ, ◌+◌, ◌-◌, ◌≡◌, refl, sym, ap, ◌∙◌, inl, inr, Bool, true, false, Option, none, List, [], ◌∷◌,
  ◌++◌, ◌≢◌, some, ◌⊎◌,
}
use bitcoin_node_tests.Base.Exec.{Result, ok, and_then_lift-eq-ok, err}
use mathlib.Core.List.{append-nil, append_assoc}
use bitcoin_node_tests.Peer.{P2p, Socket, Payload, Session, pong, Message, on_world}
use bitcoin_node_tests.Base.Bytes.{Bytes, Text, codes}
use bitcoin_node_tests.Peer.Quiet.{SendLaws, Quiet, receive_message-Quiet}
use bitcoin_node_tests.Peer.Exchange.{wait_for, wait_time}
use bitcoin_node_tests.Peer.Packets.{send_payload, send_by, receive_message}
use bitcoin_node_tests.Peer.Waits.{
  Passed, Turn, passed, none_yet, wait_for-WaitEnd, WaitWithin, IsAnswered,
}
use mathlib.Core.Path.{subst}

module _ {W C : Type 0} (lib : P2p C) (sent : W → List Bytes) where
  -- A v1 connection stays one, with its magic and its side, and some frames went out.
  pub record Sends (s t : Session W C) (frames : List Bytes) : Type 0 where
    pub v1 : t.peer.cipher ≡ none
    pub magic : t.peer.magic ≡ s.peer.magic
    pub side : t.peer.dialled ≡ s.peer.dialled
    pub out : sent t.world ≡ sent s.world ++ frames

  pub Sends-none : (s t : Session W C) → Quiet sent s t → Sends s t []
  Sends-none s t (a, b, c, d) = record {
    v1 = a;
    magic = b;
    side = c;
    out = d ∙ sym (append-nil (sent s.world));
  }

  pub Sends-append :
      (s t u : Session W C) (a b : List Bytes) → Sends s t a → Sends t u b → Sends s u (a ++ b)
  Sends-append s t u a b h k = record {
    v1 = k.v1;
    magic = k.magic ∙ h.magic;
    side = k.side ∙ h.side;
    out = k.out ∙ ap (λ x. x ++ b) h.out ∙ append_assoc (sent s.world) a b;
  }

  -- the frame of a payload
  abbrev pub IsFrame : Bytes → Payload → Bytes → Type 0
  IsFrame magic p b =
      (m : Message) × (lib.to_message p magic true ≡ ok m) × (b ≡ lib.serialize magic m)

  -- The frames that answer some messages: for each `ping`, in order, a `pong` with its nonce.
  abbrev pub Answers : Bytes → List Message → List Bytes → Type 0
  Answers magic [] frames = frames ≡ []
  Answers magic (m ∷ ms) frames =
      ((m.command ≢ codes "ping") × Answers magic ms frames)
      ⊎ ((nonce : ℕ) × (b : Bytes) × (rest : List Bytes) × (m.command ≡ codes "ping")
          × (lib.ping_nonce m.payload ≡ ok nonce)
          × IsFrame magic (pong nonce) b
          × (frames ≡ b ∷ rest)
          × Answers magic ms rest)

  Answers-append :
      (magic : Bytes) (ms ns : List Message) (a b : List Bytes)
      → Answers magic ms a
      → Answers magic ns b
      → Answers magic (ms ++ ns) (a ++ b)
  Answers-append magic [] ns a b h k = rw h k
  Answers-append magic (m ∷ ms) ns a b (inl (other, h)) k =
      inl (other, Answers-append magic ms ns a b h k)
  Answers-append magic (m ∷ ms) ns a b (inr (nonce, x, rest, e, q, frame, same, h)) k = inr (
    nonce,
    x,
    rest ++ b,
    e,
    q,
    frame,
    ap (λ f. f ++ b) same,
    Answers-append magic ms ns rest b h k,
  )

module _ {W C : Type 0} (lib : P2p C) (sock : Socket W) (reads : ℕ) (sent : W → List Bytes) where
  -- Messages received one after the other, each within a time out, and answered.
  pub data Heard : Session W C → List Message → Session W C → Type 0 where
    heard_none : {s : Session W C} → Heard s [] s
    heard :
        {s t u : Session W C} {m : Message} {ms : List Message}
        → (n : ℕ) (came : Session W C) → receive_message lib sock reads (some n) s ≡ (ok m, came)
        → IsAnswered lib sock m came t
        → Heard t ms u
        → Heard s (m ∷ ms) u

  Heard-append :
      (s t u : Session W C) (ms ns : List Message)
      → Heard s ms t
      → Heard t ns u
      → Heard s (ms ++ ns) u
  Heard-append s t u ms ns heard_none k = k
  Heard-append s t u ms ns (heard {t = v} {ms = rest} n came q a h) k =
      heard n came q a (Heard-append v t u rest ns h k)

  -- Messages were received, and nothing but the answers to them went out.
  abbrev pub Pongs : Session W C → Session W C → Type 0
  Pongs s t =
      (ms : List Message) × (frames : List Bytes) × Heard s ms t
      × Answers lib sent s.peer.magic ms frames
      × Sends lib sent s t frames

  Pongs-trans : (s t u : Session W C) → Pongs s t → Pongs t u → Pongs s u
  Pongs-trans s t u (ms, a, heard_a, all_a, h) (ns, b, heard_b, all_b, k) = (
    ms ++ ns,
    a ++ b,
    Heard-append s t u ms ns heard_a heard_b,
    Answers-append lib sent s.peer.magic ms ns a b all_a
        (subst (λ magic. Answers lib sent magic ns b) h.magic all_b),
    Sends-append lib sent s t u a b h k,
  )

module _ {W C : Type 0} (lib : P2p C) (sock : Socket W) (reads : ℕ) (sent : W → List Bytes)
    (laws : SendLaws sock sent) where
  sendall-Sends :
      (s t : Session W C) (b : Bytes)
      → s.peer.cipher ≡ none
      → on_world (sock.sendall b) s ≡ (ok tt, t)
      → Sends lib sent s t (b ∷ [])
  sendall-Sends s t b v1 h = go (sock.sendall b s.world) refl h
    where
      go :
          (r : Result (Unit {0}) × W)
          → sock.sendall b s.world ≡ r
          → ◌≡◌ {A = Result (Unit {0}) × Session W C} (r.0, record s { world = r.1 }) (ok tt, t)
          → Sends lib sent s t (b ∷ [])
      go (ok tt, v) q k =
          let same : record s { world = v } ≡ t = ap (λ p. p.1) k in
          rw (sym same)
            (record { v1 = v1; magic = refl; side = refl; out = laws.added b s.world v q })
      go (err e, v) q k = cc (ap (λ p. p.0) k)

  pub send_payload-Sends :
      (p : Payload) (s t : Session W C)
      → s.peer.cipher ≡ none
      → send_payload lib sock p true false s ≡ (ok tt, t)
      → (b : Bytes) × IsFrame lib sent s.peer.magic p b × Sends lib sent s t (b ∷ [])
  unfolding send_payload
  send_payload-Sends p s t v1 h =
      let (m, k, h₁) = and_then_lift-eq-ok (lib.to_message p s.peer.magic true) s _ h in
      let b = lib.serialize s.peer.magic m in
      (
        b,
        (m, k, refl),
        sendall-Sends s t b v1
            (subst (λ o. send_by lib sock o s.peer.magic m false s ≡ (ok tt, t)) v1 h₁),
      )

  -- What is sent while answering one message: nothing, or a `pong` with the nonce of a `ping`.
  IsAnswered-Sends :
      (m : Message) (s t : Session W C)
      → s.peer.cipher ≡ none
      → IsAnswered lib sock m s t
      → (frames : List Bytes) × Answers lib sent s.peer.magic (m ∷ []) frames
        × Sends lib sent s t frames
  IsAnswered-Sends m s t v1 (inl (other, same)) =
      ([], inl (other, refl), rw (sym same) (Sends-none lib sent s s (v1, refl, refl, refl)))
  IsAnswered-Sends m s t v1 (inr (nonce, is_ping, k, h)) =
      let (b, frame, sends) = send_payload-Sends (pong nonce) s t v1 h in
      (b ∷ [], inr (nonce, b, [], is_ping, k, frame, refl, refl), sends)

  module _ (command : Text) (predicate : Option (Message → Result Bool)) (deadline : ℕ) where
    Turn-Sends :
        (m : Message) (s t : Session W C)
        → s.peer.cipher ≡ none
        → Turn lib sock reads command predicate deadline m s t
        → Pongs lib sock reads sent s t
    Turn-Sends m s t v1 here =
        let left = deadline - sock.monotonic s.world in
        let q =
          subst (λ r. Quiet sent s r.1) here.message
            (receive_message-Quiet lib sock reads sent laws left s v1) in
        let (frames, answers, sends) = IsAnswered-Sends m here.came t q.0 here.answered in
        (
          m ∷ [],
          frames,
          heard left here.came here.message here.answered heard_none,
          subst (λ magic. Answers lib sent magic (m ∷ []) frames) q.1 answers,
          Sends-append lib sent s here.came t [] frames (Sends-none lib sent s here.came q) sends,
        )

    Passed-Sends :
        (n : ℕ) (s t : Session W C)
        → s.peer.cipher ≡ none
        → Passed lib sock reads command predicate deadline n s t
        → Pongs lib sock reads sent s t
    Passed-Sends n s t v1 none_yet =
        ([], [], heard_none, refl, Sends-none lib sent s s (v1, refl, refl, refl))
    Passed-Sends n s t v1 (passed {n = more} {t = u} {m = m} here other later) =
        let first = Turn-Sends m s u v1 here in
        Pongs-trans lib sock reads sent s u t first (Passed-Sends more u t first.4.v1 later)

    WaitWithin-ok :
        (turns : ℕ) (s t : Session W C) (m : Message)
        → s.peer.cipher ≡ none
        → WaitWithin lib sock reads command predicate deadline turns s (ok m, t)
        → Pongs lib sock reads sent s t
    WaitWithin-ok turns s t m v1 (inr (u, e, past)) = cc (ap (λ r. r.0) e)
    WaitWithin-ok turns s t m v1 (inl (n, u, past, last, met)) =
        let before = Passed-Sends n s u v1 past in
        Pongs-trans lib sock reads sent s u t before (Turn-Sends m u t before.4.v1 last)

  pub wait_for-Sends :
      (turns : ℕ) (command : Text) (s t : Session W C) (m : Message)
      → s.peer.cipher ≡ none
      → wait_for lib sock reads turns command none none s ≡ (ok m, t)
      → Pongs lib sock reads sent s t
  wait_for-Sends turns command s t m v1 h =
      let deadline = sock.monotonic s.world + wait_time sock s.peer none in
      WaitWithin-ok command none deadline turns s t m v1 (
        subst (WaitWithin lib sock reads command none deadline turns s) h
          (wait_for-WaitEnd lib sock reads turns command none none s))
