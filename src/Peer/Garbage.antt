-- ===== src/Peer/Garbage.antt =====
-- The garbage ahead of a BIP324 handshake, of src/bitcoin_node_tests/peer.py: `_take_garbage`, as what
-- it takes of the whole stream.
use bitcoin_node_tests.Base.{
  ℕ, ◌+◌, ◌-◌, ◌≤◌, ◌<◌, ◌≡◌, refl, sym, ap, ◌∙◌, ◌⊎◌, inl, inr, false, none, some, [], ◌++◌, arith,
  Bool-cases, length, drop, take, leb, Option-cases, length-append,
}
use bitcoin_node_tests.Base.Bytes.{Bytes}
use bitcoin_node_tests.Peer.{max_garbage_len, Socket, Session}
use bitcoin_node_tests.Peer.Reading.{garbage_look, take_garbage}
use bitcoin_node_tests.Peer.Stream.{
  Stable, StreamLaws, SamePeer, unread, ReadEnd, read_until-ReadEnd,
}
use bitcoin_node_tests.Base.Exec.{ok, err, value_error, Result, connection_error}
use bitcoin_node_tests.Base.Search.{
  starts_with-take, find-IsFirst, find-append, IsFirst, find-none, find, starts_with,
}
use bitcoin_node_tests.Base.Slices.{
  take-append, drop-take, length-take_le, take-over, le_length-take, take_all,
}

module _ (terminator : Bytes) where
  abbrev pub limit : ℕ
  limit = max_garbage_len + length terminator

  -- A place inside the bound shows the same in the octets up to the bound.
  at_bounded :
      (i : ℕ) (b : Bytes)
      → i ≤ max_garbage_len
      → starts_with (drop i (take limit b)) terminator ≡ starts_with (drop i b) terminator
  at_bounded i b h =
      ap (λ t. starts_with t terminator) (drop-take i limit b (omega arith))
      ∙ starts_with-take (limit - i) (drop i b) terminator (omega arith)

  garbage_look_cases :
      (b : Bytes)
      → ((n : ℕ) × (find terminator (take limit b) ≡ some n)
          × (garbage_look terminator b ≡ ok (some (take n b, n + length terminator))))
        ⊎ ((find terminator (take limit b) ≡ none)
            × (limit ≤ length b)
            × (garbage_look terminator b ≡ err value_error))
        ⊎ ((find terminator (take limit b) ≡ none)
            × (length b < limit)
            × (garbage_look terminator b ≡ ok none))
  unfolding garbage_look
  garbage_look_cases b = elim (Option-cases (find terminator (take limit b))) [
    | inr (n, e) ↦ inl (n, e, rw e refl)
    | inl e ↦ elim (Bool-cases (leb limit (length b))) [
      | inl k ↦ inr (inl (e, ground (arith, k), rw (e, k) refl))
      | inr k ↦ inr (inr (e, ground (arith, k), rw (e, k) refl))
    ]
  ]

  found_further :
      (b more : Bytes) (n : ℕ)
      → find terminator (take limit b) ≡ some n
      → find terminator (take limit (b ++ more)) ≡ some n
  found_further b more n h = elim (Bool-cases (leb limit (length b))) [
    | inl k ↦ ap (find terminator) (take-append limit b more (ground (arith, k))) ∙ h
    | inr k ↦
        let short : length b ≤ limit = ground (arith, k) in
        let (m, e) = take-over limit b more short in
        ap (find terminator) e
        ∙ find-append terminator b (take m more) n
            (sym (ap (find terminator) (take_all limit b short)) ∙ h)
  ]

  found_look :
      (b : Bytes) (n : ℕ)
      → find terminator (take limit b) ≡ some n
      → garbage_look terminator b ≡ ok (some (take n b, n + length terminator))
  unfolding garbage_look
  found_look b n h = rw h refl

  found_inside :
      (b : Bytes) (n : ℕ)
      → find terminator (take limit b) ≡ some n
      → (n ≤ max_garbage_len) × (n + length terminator ≤ length b)
  found_inside b n h =
      let (first, inside) = find-IsFirst terminator (take limit b) n h in
      let (short, shorter) = length-take_le limit b in
      (omega (arith, inside, short), omega (arith, inside, shorter))

  garbage_look-Stable : Stable (garbage_look terminator)
  garbage_look-Stable b more = elim (garbage_look_cases b) [
    | inl (n, e, q) ↦ inr (
      found_look (b ++ more) n (found_further b more n e)
          ∙ ap (λ t. ok (some (t, n + length terminator)))
              (take-append n b more (omega (arith, (found_inside b n e).1)))
          ∙ sym q,
      λ a m h.
          let same : n + length terminator ≡ m = cc (q, h) in
          omega (arith, same, (found_inside b n e).1),
    )
    | inr (inr (e, short, q)) ↦ inl q
    | inr (inl (e, long, q)) ↦ elim (garbage_look_cases (b ++ more)) [
      | inr (inl (e', long', q')) ↦ inr (q' ∙ sym q, λ a m h. cc (q, h))
      | inr (inr (e', short, q')) ↦ absurd (omega (arith, short, long, length-append b more))
      | inl (n, e', q') ↦ cc (e, ap (find terminator) (take-append limit b more long), e')
    ]
  ]

-- The terminator stands nowhere within the bound on the garbage.
abbrev pub NoTerminator : Bytes → Bytes → Type 0
NoTerminator terminator b =
    (i : ℕ) → i ≤ max_garbage_len → i ≤ length b → starts_with (drop i b) terminator ≡ false

IsFirst-there :
    (terminator b : Bytes) (n : ℕ)
    → find terminator (take (limit terminator) b) ≡ some n
    → IsFirst terminator b n
IsFirst-there terminator b n h =
    let ((here, before), _s) = find-IsFirst terminator (take (limit terminator) b) n h in
    let (small, _l) = found_inside terminator b n h in
    (
      sym (at_bounded terminator n b small) ∙ here,
      λ i l. sym (at_bounded terminator i b (omega (arith, l, small))) ∙ before i l,
    )

nowhere :
    (terminator b : Bytes)
    → find terminator (take (limit terminator) b) ≡ none
    → NoTerminator terminator b
nowhere terminator b h i small inside =
    sym (at_bounded terminator i b small)
    ∙ find-none terminator (take (limit terminator) b) h i
        (le_length-take i (limit terminator) b (omega (arith, small)) inside)

module _ {W C : Type 0} (sock : Socket W) (stream : W → Bytes) where
  -- What an end of `_take_garbage` stands for.
  abbrev pub GarbageEnd : Bytes → Session W C → Result Bytes × Session W C → Type 0
  GarbageEnd terminator s (ok garbage, t) =
      SamePeer s t
      × (n : ℕ) × (n ≤ max_garbage_len)
      × (garbage ≡ take n (unread stream s))
      × IsFirst terminator (unread stream s) n
      × (unread stream t ≡ drop (n + length terminator) (unread stream s))
  GarbageEnd terminator s (err e, t) =
      SamePeer s t
      × (unread stream t ≡ unread stream s)
      × (((e ≡ value_error)
            × (max_garbage_len + length terminator ≤ length (unread stream s))
            × NoTerminator terminator (unread stream s))
          ⊎ ((e ≡ connection_error)
              × (stream t.world ≡ [])
              × (length (unread stream s) < max_garbage_len + length terminator)
              × NoTerminator terminator (unread stream s))
          ⊎ ((v : W) × (sock.recv v ≡ (err e, t.world))))

  garbage_end :
      (terminator : Bytes) (s : Session W C) (r : Result Bytes × Session W C)
      → ReadEnd sock stream (garbage_look terminator) s r
      → GarbageEnd terminator s r
  garbage_end terminator s (ok garbage, t) (same, n, found, left) =
      elim (garbage_look_cases terminator (unread stream s)) [
        | inl (m, e, q) ↦
            let both = sym found ∙ q in
            let length_of : n ≡ m + length terminator = cc both in
            (
              same,
              m,
              (found_inside terminator (unread stream s) m e).0,
              cc both,
              IsFirst-there terminator (unread stream s) m e,
              left ∙ ap (λ k. drop k (unread stream s)) length_of,
            )
        | inr (inl (e, long, q)) ↦ cc (q, found)
        | inr (inr (e, short, q)) ↦ cc (q, found)
      ]
  garbage_end terminator s (err e, t) (same, left, inl k) =
      elim (garbage_look_cases terminator (unread stream s)) [
        | inl (m, d, q) ↦ cc (q, k)
        | inr (inl (d, long, q)) ↦
            let both = sym k ∙ q in
            (same, left, inl (cc both, long, nowhere terminator (unread stream s) d))
        | inr (inr (d, short, q)) ↦ cc (q, k)
      ]
  garbage_end terminator s (err e, t) (same, left, inr (inl (k, which, over))) =
      elim (garbage_look_cases terminator (unread stream s)) [
        | inl (m, d, q) ↦ cc (q, k)
        | inr (inl (d, long, q)) ↦ cc (q, k)
        | inr (inr (d, short, q)) ↦
            (same, left, inr (inl (which, over, short, nowhere terminator (unread stream s) d)))
      ]
  garbage_end terminator s (err e, t) (same, left, inr (inr k)) = (same, left, inr (inr k))

  -- _take_garbage returns the octets ahead of the first terminator of the stream, at most 4095 of
  -- them, and takes the terminator as well; or it raises with nothing taken: ValueError where 4095
  -- octets and a terminator's length have arrived and no terminator begins at any of the places up
  -- to 4095, ConnectionError where the stream ends before with none, or what a reception raised. A
  -- reception is assumed to answer the next octets, none only at the end.
  pub take_garbage-GarbageEnd :
      (laws : StreamLaws sock stream) (terminator : Bytes) (s : Session W C)
      → GarbageEnd terminator s (take_garbage sock terminator s)
  unfolding take_garbage
  take_garbage-GarbageEnd laws terminator s =
      garbage_end terminator s (take_garbage sock terminator s) (
        read_until-ReadEnd sock stream (garbage_look terminator) (garbage_look-Stable terminator)
          laws (limit terminator) s
          (λ b more split far e. elim (garbage_look_cases terminator b) [
            | inl (m, d, q) ↦ cc (q, e)
            | inr (inl (d, long, q)) ↦ cc (q, e)
            | inr (inr (d, short, q)) ↦ absurd (omega (arith, far, short))
          ]))
