-- ===== src/Peer/Framing.antt =====
-- Messages of the v1 transport of src/bitcoin_node_tests/peer.py: `receive` reads back what a node framed.
use bitcoin_node_tests.Base.{
  ℕ, ◌≤◌, ◌<◌, ◌≡◌, refl, sym, ap, ◌∙◌, ◌⊎◌, inl, inr, true, false, none, some, ◌++◌, arith,
  Bool-cases, length, take, ◌==◌, leb, length-append,
}
use bitcoin_node_tests.Base.Bytes.{Bytes, bytes_eq, bytes_eq_refl}
use bitcoin_node_tests.Peer.{Parsed, Message, whole, incomplete, refused}
use bitcoin_node_tests.Peer.Packets.{v1_look, parsed_look}
use bitcoin_node_tests.Peer.Stream.{Stable}
use bitcoin_node_tests.Base.Exec.{ok, err, value_error}
use bitcoin_node_tests.Base.Slices.{take-append, take_all, length-take}

-- What `Message.parse` does, as far as the peer relies on it: it reads a message back and leaves what
-- follows; a message that is not whole is incomplete, and what is decided stays so when more follows.
pub record FramingLaws (magic : Bytes) (parse : Bytes → Parsed)
    (serialize : Bytes → Message → Bytes) : Type 0 where
  pub parsed :
      (m : Message) (rest : Bytes)
      → parse (serialize magic m ++ rest) ≡ whole m (length (serialize magic m))
  pub opens : (m : Message) (rest : Bytes) → take (length magic) (serialize magic m ++ rest) ≡ magic
  pub short : (b : Bytes) → length b < length magic → parse b ≡ incomplete
  pub stable :
      (b more : Bytes)
      → (parse b ≡ incomplete)
        ⊎ ((parse (b ++ more) ≡ parse b)
            × ((m : Message) (n : ℕ) → parse b ≡ whole m n → n ≤ length b))

module _ (magic : Bytes) (parse : Bytes → Parsed) (serialize : Bytes → Message → Bytes)
    (laws : FramingLaws magic parse serialize) where
  unequal : (a b : ℕ) → a < b → (a == b) ≡ false
  unequal a b h = ground arith

  equal : (a : ℕ) → (a == a) ≡ true
  equal a = ground arith

  v1_look_cases :
      (b : Bytes)
      → ((length b < length magic) × (v1_look magic parse b ≡ ok none))
        ⊎ ((length magic ≤ length b)
            × (bytes_eq (take (length magic) b) magic ≡ false)
            × (v1_look magic parse b ≡ err value_error))
        ⊎ ((length magic ≤ length b)
            × (bytes_eq (take (length magic) b) magic ≡ true)
            × (v1_look magic parse b ≡ parsed_look (parse b)))
  unfolding v1_look
  v1_look_cases b = elim (Bool-cases (leb (length magic) (length b))) [
    | inr k ↦
        let fewer : length b < length magic = ground (arith, k) in
        inl (
          fewer,
          rw
              (
                ap length (take_all (length magic) b (omega (arith, fewer))),
                unequal (length b) (length magic) fewer,
              )
              (ap parsed_look (laws.short b fewer)),
        )
    | inl k ↦
        let enough : length magic ≤ length b = ground (arith, k) in
        let same =
          ap (λ n. n == length magic) (length-take (length magic) b enough)
          ∙ equal (length magic) in
        elim (Bool-cases (bytes_eq (take (length magic) b) magic)) [
          | inr e ↦ inr (inl (enough, e, rw (same, e) refl))
          | inl e ↦ inr (inr (enough, e, rw (same, e) refl))
        ]
  ]

  parsed-Stable :
      (b more : Bytes)
      → (parsed_look (parse b) ≡ ok none)
        ⊎ ((parsed_look (parse (b ++ more)) ≡ parsed_look (parse b))
            × ((m : Message) (n : ℕ) → parsed_look (parse b) ≡ ok (some (m, n)) → n ≤ length b))
  parsed-Stable b more = elim (laws.stable b more) [
    | inl e ↦ inl (ap parsed_look e)
    | inr (e, inside) ↦ inr (ap parsed_look e, λ m n h. inside m n (found (parse b) m n h))
  ]
    where
      found : (p : Parsed) (m : Message) (n : ℕ) → parsed_look p ≡ ok (some (m, n)) → p ≡ whole m n
      found (whole m' n') m n h = cc h
      found incomplete m n h = cc h
      found (refused e) m n h = cc h

  pub v1_look-Stable : Stable (v1_look magic parse)
  v1_look-Stable b more = elim (v1_look_cases b) [
    | inl (fewer, q) ↦ inl q
    | inr (inl (enough, e, q)) ↦ elim (v1_look_cases (b ++ more)) [
      | inl (fewer, q') ↦ absurd (omega (arith, fewer, enough, length-append b more))
      | inr (inl (enough', e', q')) ↦ inr (q' ∙ sym q, λ m n h. cc (q, h))
      | inr (inr (enough', e', q')) ↦
          cc (e, e', ap (λ t. bytes_eq t magic) (take-append (length magic) b more enough))
    ]
    | inr (inr (enough, e, q)) ↦ elim (v1_look_cases (b ++ more)) [
      | inl (fewer, q') ↦ absurd (omega (arith, fewer, enough, length-append b more))
      | inr (inl (enough', e', q')) ↦
          cc (e, e', ap (λ t. bytes_eq t magic) (take-append (length magic) b more enough))
      | inr (inr (enough', e', q')) ↦ elim (parsed-Stable b more) [
        | inl p ↦ inl (q ∙ p)
        | inr (p, inside) ↦ inr (q' ∙ p ∙ sym q, λ m n h. inside m n (sym q ∙ h))
      ]
    ]
  ]

  pub v1_look-framed :
      (m : Message) (rest : Bytes)
      → v1_look magic parse (serialize magic m ++ rest) ≡ ok (some (m, length (serialize magic m)))
  v1_look-framed m rest =
      let b = serialize magic m ++ rest in
      let it = ap parsed_look (laws.parsed m rest) in
      elim (v1_look_cases b) [
        | inl (fewer, q) ↦ cc (laws.short b fewer, laws.parsed m rest)
        | inr (inl (enough, e, q)) ↦
            cc (e, ap (λ t. bytes_eq t magic) (laws.opens m rest), bytes_eq_refl magic)
        | inr (inr (enough, e, q)) ↦ q ∙ it
      ]
