-- ===== src/Peer/Octets.antt =====
-- Reads of a counted number of octets, of src/bitcoin_node_tests/peer.py: `_take`, as what it takes of the
-- whole stream.
use bitcoin_node_tests.Base.{
  ℕ, ◌≤◌, ◌<◌, ◌≡◌, refl, sym, ap, ◌∙◌, ◌⊎◌, inl, inr, none, some, [], ◌++◌, arith, Bool-cases,
  length, drop, take, ltb, length-append,
}
use bitcoin_node_tests.Base.Bytes.{Bytes}
use bitcoin_node_tests.Peer.{Socket, Session}
use bitcoin_node_tests.Peer.Stream.{
  Stable, StreamLaws, SamePeer, unread, ReadEnd, read_until-ReadEnd,
}
use bitcoin_node_tests.Peer.Reading.{take_look, take_octets}
use bitcoin_node_tests.Base.Exec.{Result, ok, err, connection_error}
use bitcoin_node_tests.Base.Slices.{take-append}

take_look_cases :
    (size : ℕ) (b : Bytes)
    → ((length b < size) × (take_look size b ≡ ok none))
      ⊎ ((size ≤ length b) × (take_look size b ≡ ok (some (take size b, size))))
take_look_cases size b = elim (Bool-cases (ltb (length b) size)) [
  | inl e ↦ inl (ground (arith, e), rw e refl)
  | inr e ↦ inr (ground (arith, e), rw e refl)
]

take_look-found :
    (size : ℕ) (b taken : Bytes) (n : ℕ)
    → take_look size b ≡ ok (some (taken, n))
    → (size ≤ length b) × (taken ≡ take size b) × (n ≡ size)
take_look-found size b taken n h = elim (take_look_cases size b) [
  | inl (short, q) ↦ cc (q, h)
  | inr (long, q) ↦ let same = sym h ∙ q in (long, cc same, cc same)
]

take_look-none : (size : ℕ) (b : Bytes) → take_look size b ≡ ok none → length b < size
take_look-none size b h = elim (take_look_cases size b) [
  | inl (short, q) ↦ short
  | inr (long, q) ↦ cc (q, h)
]

take_look-Stable : (size : ℕ) → Stable (take_look size)
take_look-Stable size b more = elim (take_look_cases size b) [
  | inl (short, q) ↦ inl q
  | inr (long, q) ↦ elim (take_look_cases size (b ++ more)) [
    | inl (short, _k) ↦ absurd (omega (arith, length-append b more, short, long))
    | inr (_l, k) ↦ inr (
      k ∙ ap (λ t. ok (some (t, size))) (take-append size b more long) ∙ sym q,
      λ a n e. rw (take_look-found size b a n e).2 long,
    )
  ]
]

module _ {W C : Type 0} (sock : Socket W) (stream : W → Bytes) where
  -- What an end of `_take` stands for.
  abbrev pub TakeEnd : ℕ → Session W C → Result Bytes × Session W C → Type 0
  TakeEnd size s (ok taken, t) =
      SamePeer s t
      × (taken ≡ take size (unread stream s))
      × (size ≤ length (unread stream s))
      × (unread stream t ≡ drop size (unread stream s))
  TakeEnd size s (err e, t) =
      SamePeer s t
      × (unread stream t ≡ unread stream s)
      × (((length (unread stream s) < size) × (e ≡ connection_error) × (stream t.world ≡ []))
          ⊎ ((v : W) × (sock.recv v ≡ (err e, t.world))))

  take_end :
      (laws : StreamLaws sock stream) (size : ℕ) (s : Session W C) (r : Result Bytes × Session W C)
      → ReadEnd sock stream (take_look size) s r
      → TakeEnd size s r
  take_end laws size s (ok taken, t) (same, n, found, left) =
      let (long, q, k) = take_look-found size (unread stream s) taken n found in
      (same, q, long, left ∙ ap (λ m. drop m (unread stream s)) k)
  take_end laws size s (err e, t) (same, left, inl k) =
      elim (take_look_cases size (unread stream s)) [
        | inl (short, q) ↦ cc (k, q)
        | inr (long, q) ↦ cc (k, q)
      ]
  take_end laws size s (err e, t) (same, left, inr (inl (k, which, over))) =
      (same, left, inl (take_look-none size (unread stream s) k, which, over))
  take_end laws size s (err e, t) (same, left, inr (inr k)) = (same, left, inr k)

  -- _take of a size refines a read of the plain stream of octets, however the socket cuts it into
  -- pieces: it returns the first octets of what is unread, of that size, and leaves the rest
  -- unread; or it raises with nothing taken, either ConnectionError at the end of the stream, with
  -- fewer octets unread, or what a reception raised. Nothing of the peer but its buffer changes. A
  -- reception is assumed to answer the next octets, none only at the end, and to lose none where it
  -- raises.
  pub take_octets-TakeEnd :
      (laws : StreamLaws sock stream) (size : ℕ) (s : Session W C)
      → TakeEnd size s (take_octets sock size s)
  unfolding take_octets
  take_octets-TakeEnd laws size s = take_end laws size s (take_octets sock size s) (
      read_until-ReadEnd sock stream (take_look size) (take_look-Stable size) laws size s
        (λ b more split far e. omega (arith, take_look-none size b e, far)))
