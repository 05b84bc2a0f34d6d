-- ===== src/Peer/Stream.antt =====
-- What the reading methods of src/bitcoin_node_tests/peer.py make of a connection, as a stream of octets
-- that may arrive in pieces of any size.
use mathlib.Core.List.{append-nil, append_assoc}
use bitcoin_node_tests.Base.{
  ℕ, zero, suc, ◌+◌, ◌≤◌, ◌<◌, ◌≡◌, ◌≢◌, refl, sym, ap, ◌∙◌, ◌⊎◌, inl, inr, Option, none, some, [],
  ◌∷◌, ◌++◌, arith, length, drop, length-append,
}
use bitcoin_node_tests.Peer.{Socket, Session, Peer}
use bitcoin_node_tests.Base.Bytes.{Bytes}
use bitcoin_node_tests.Base.Exec.{Result, Exec, ok, err, connection_error, unfinished, raise, ◌>>◌}
use bitcoin_node_tests.Peer.Reading.{decided, read_until, recv_more}
use bitcoin_node_tests.Base.Slices.{drop-append}

-- A look that has decided keeps to it when more arrives, and takes no more than there is.
abbrev pub Stable : {A : Type 0} → (Bytes → Result (Option (A × ℕ))) → Type 0
Stable {A} look =
    (b more : Bytes)
    → (look b ≡ ok none)
      ⊎ ((look (b ++ more) ≡ look b) × ((a : A) (n : ℕ) → look b ≡ ok (some (a, n)) → n ≤ length b))

module _ {W : Type 0} (sock : Socket W) (stream : W → Bytes) where
  -- What a reception may do: the chunk is the front of what the other side has still to send; none is
  -- received only at its end.
  abbrev pub Received : Bytes → Result Bytes × W → Type 0
  Received sent (ok [], v) = (sent ≡ []) × (stream v ≡ [])
  Received sent (ok (x ∷ chunk), v) = sent ≡ (x ∷ chunk) ++ stream v
  Received sent (err e, v) = (stream v ≡ sent) × (e ≢ unfinished)

  pub record StreamLaws : Type 0 where
    pub received : (w : W) → Received (stream w) (sock.recv w)
    pub kept : (n : ℕ) (w : W) → stream (sock.settimeout n w) ≡ stream w

module _ {W C : Type 0} where
  -- The sessions differ in what was received alone.
  abbrev pub SamePeer : Session W C → Session W C → Type 0
  SamePeer s t = record s.peer { buffer = t.peer.buffer } ≡ t.peer

module _ {W C : Type 0} (stream : W → Bytes) where
  -- The octets that the peer has not taken: those of its buffer, and those still to arrive.
  abbrev pub unread : Session W C → Bytes
  unread s = s.peer.buffer ++ stream s.world

module _ {W C : Type 0} (sock : Socket W) (stream : W → Bytes) where
  -- A read is the look at the whole stream, however it arrives; one that raises has taken nothing.
  abbrev pub ReadEnd :
      {A : Type 0}
      → (Bytes → Result (Option (A × ℕ)))
      → Session W C
      → Result A × Session W C
      → Type 0
  ReadEnd look s (ok a, t) =
      SamePeer s t
      × (n : ℕ) × (look (unread stream s) ≡ ok (some (a, n)))
      × (unread stream t ≡ drop n (unread stream s))
  ReadEnd look s (err e, t) =
      SamePeer s t
      × (unread stream t ≡ unread stream s)
      × ((look (unread stream s) ≡ err e)
          ⊎ ((look (unread stream s) ≡ ok none) × (e ≡ connection_error) × (stream t.world ≡ []))
          ⊎ ((v : W) × (sock.recv v ≡ (err e, t.world))))

  -- So many receptions, of one octet each, make a look decide, or exceed what is to arrive.
  abbrev pub Enough : {A : Type 0} → (Bytes → Result (Option (A × ℕ))) → ℕ → Session W C → Type 0
  Enough look rounds s =
      (b more : Bytes)
      → unread stream s ≡ b ++ more
      → rounds + length s.peer.buffer ≤ length b
      → look b ≢ ok none

  module _ {A : Type 0} (look : Bytes → Result (Option (A × ℕ))) (stable : Stable look) where
    ReadEnd-trans :
        (s t : Session W C) (r : Result A × Session W C)
        → SamePeer s t
        → unread stream t ≡ unread stream s
        → ReadEnd look t r
        → ReadEnd look s r
    ReadEnd-trans s t (ok a, u) same left (same', n, found, taken) = (
      ap {A = Peer C} {B = Peer C} (λ p. record p { buffer = u.peer.buffer }) same ∙ same',
      n,
      rw (sym left) found,
      rw (sym left) taken,
    )
    ReadEnd-trans s t (err e, u) same left (same', taken, why) = (
      ap {A = Peer C} {B = Peer C} (λ p. record p { buffer = u.peer.buffer }) same ∙ same',
      taken ∙ left,
      rw (sym left) why,
    )

    decided-ReadEnd :
        (s : Session W C) (r : Result (Option (A × ℕ))) (go_on : Exec (Session W C) A)
        → look s.peer.buffer ≡ r
        → (r ≡ ok none → ReadEnd look s (go_on s))
        → ReadEnd look s (decided s.peer.buffer r go_on s)
    decided-ReadEnd s (ok none) go_on q rest = rest refl
    decided-ReadEnd s (err e) go_on q rest = elim (stable s.peer.buffer (stream s.world)) [
      | inl k ↦ cc (k, q)
      | inr k ↦ (refl, refl, inl (k.0 ∙ q))
    ]
    decided-ReadEnd s (ok (some (a, n))) go_on q rest =
        elim (stable s.peer.buffer (stream s.world)) [
          | inl k ↦ cc (k, q)
          | inr k ↦ (refl, n, k.0 ∙ q, drop-append n s.peer.buffer (stream s.world) (k.1 a n q))
        ]

    Enough-more :
        (s t : Session W C) (rounds : ℕ)
        → unread stream t ≡ unread stream s
        → length s.peer.buffer < length t.peer.buffer
        → Enough look (suc rounds) s
        → Enough look rounds t
    Enough-more s t rounds left longer enough b more split far =
        enough b more (sym left ∙ split) (omega (arith, longer, far))

    received_then :
        (s : Session W C) (r : Result Bytes × W) (go_on : Exec (Session W C) A)
        → sock.recv s.world ≡ r
        → Received sock stream (stream s.world) r
        → look s.peer.buffer ≡ ok none
        → ((t : Session W C)
            → SamePeer s t
            → unread stream t ≡ unread stream s
            → length s.peer.buffer < length t.peer.buffer
            → ReadEnd look t (go_on t))
        → ReadEnd look s ((recv_more sock >> go_on) s)
    unfolding recv_more
    received_then s (err e, v) go_on q h none_yet rest =
        rw q (refl, ap (λ x. s.peer.buffer ++ x) h.0, inr (inr (s.world, q)))
    received_then s (ok [], v) go_on q h none_yet rest = rw q (
      refl,
      ap (λ x. s.peer.buffer ++ x) (h.1 ∙ sym h.0),
      inr (
          inl (
            ap look (ap (λ x. s.peer.buffer ++ x) h.0 ∙ append-nil s.peer.buffer) ∙ none_yet,
            refl,
            h.1,
          )),
    )
    received_then s (ok (x ∷ chunk), v) go_on q h none_yet rest =
        let t : Session W C = record {
          peer = record s.peer { buffer = s.peer.buffer ++ x ∷ chunk };
          world = v;
        } in
        let left =
          append_assoc s.peer.buffer (x ∷ chunk) (stream v)
          ∙ ap (λ y. s.peer.buffer ++ y) (sym h) in
        rw q (
          ReadEnd-trans s t (go_on t) refl left
            (rest t refl left (omega (arith, length-append s.peer.buffer (x ∷ chunk)))))

    pub read_until-ReadEnd :
        (laws : StreamLaws sock stream) (rounds : ℕ) (s : Session W C)
        → Enough look rounds s
        → ReadEnd look s (read_until sock look rounds s)
    unfolding read_until
    read_until-ReadEnd laws zero s enough =
        decided-ReadEnd s (look s.peer.buffer) (raise unfinished) refl
          (λ k. absurd (enough s.peer.buffer (stream s.world) refl (omega arith) k))
    read_until-ReadEnd laws (suc rounds) s enough =
        decided-ReadEnd s (look s.peer.buffer) _ refl (λ k.
          received_then s (sock.recv s.world) _ refl (laws.received s.world) k
            (λ t same left longer.
              read_until-ReadEnd laws rounds t (Enough-more s t rounds left longer enough)))
