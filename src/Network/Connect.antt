-- ===== src/Network/Connect.antt =====
-- What `connect_nodes` and `disconnect_nodes` of src/bitcoin_node_tests/node.py have seen when they
-- return.
use bitcoin_node_tests.Base.Raise.{◌>>=◌}
use bitcoin_node_tests.Base.{
  ℕ, ◌+◌, ◌≡◌, refl, ap, ◌⊎◌, inl, inr, Bool, true, false, ◌&&◌, Option, some, List, [], ◌∷◌, arith,
  Bool-cases, if◌then◌else◌, ◌*◌, ◌∙◌,
}
use bitcoin_node_tests.Base.Exec.{
  Result, ok, and_then-eq-ok, err, and_then_lift-eq-ok, result-parts,
}
use bitcoin_node_tests.Chain.Json.{
  Answer, Answers, answer_eq, get, list, is_dict, items, bool, float, str, dict, int, null, truthy,
  is_in, at_key, hashable,
}
use bitcoin_node_tests.Network.{Network, wait_for_peer, connect_nodes, wait_for_handshake}
use bitcoin_node_tests.Network.Peers.{
  first_match, match_in, is_past_handshake, is_new_inbound, is_outbound_to, peer_ids,
  handshake_among, handshake_in, once_true,
}
use bitcoin_node_tests.Chain.{getpeerinfo}
use bitcoin_node_tests.Adapter.Polling.{poll_until-ok}
use mathlib.Core.List.{Memᴰ}
use bitcoin_node_tests.Base.Bytes.{Text}
use bitcoin_node_tests.Base.Int.{ℤ}
use bitcoin_node_tests.Adapter.Host.{scaled}
use bitcoin_node_tests.Network.Entries.{
  IsNewId, IsPast, answer_eq-text, is_past_handshake-IsPast, peer_ids-IsNewId,
}

-- `peer` is an entry of an answer of `getpeerinfo`.
abbrev pub IsEntry : Answer → Answer → Type 0
IsEntry peers peer =
    (xs : Answers) × (peers ≡ list xs) × Memᴰ peer (items xs) × (is_dict peer ≡ true)

tested-ok :
    (r : Result Bool) (peer : Answer) (rest : Result (Option Answer)) (found : Answer)
    → (r >>= λ b. if b then ok (some peer) else rest) ≡ ok (some found)
    → ((r ≡ ok true) × (found ≡ peer)) ⊎ (rest ≡ ok (some found))
tested-ok (err e) peer rest found h = cc h
tested-ok (ok true) peer rest found h = inl (refl, cc h)
tested-ok (ok false) peer rest found h = inr h

first_match-some :
    (test : Answer → Result Bool) (peers : List Answer) (found : Answer)
    → first_match test peers ≡ ok (some found)
    → Memᴰ found peers × (is_dict found ≡ true) × (test found ≡ ok true)
unfolding first_match
first_match-some test [] found h = cc h
first_match-some test (peer ∷ peers) found h = elim (Bool-cases (is_dict peer)) [
  | inr e ↦ let (m, d, t) = first_match-some test peers found (rw e at h) in (Memᴰ.tail m, d, t)
  | inl e ↦ elim (tested-ok (test peer) peer (first_match test peers) found (rw e at h)) [
    | inl (t, same) ↦ rw same (Memᴰ.head refl, e, t)
    | inr later ↦ let (m, d, t) = first_match-some test peers found later in (Memᴰ.tail m, d, t)
  ]
]

match_in-some :
    (test : Answer → Result Bool) (peers found : Answer)
    → match_in test peers ≡ ok (some found)
    → IsEntry peers found × (test found ≡ ok true)
unfolding match_in
match_in-some test (list xs) found h =
    let (m, d, t) = first_match-some test (items xs) found h in ((xs, refl, m, d), t)
match_in-some test null found h = cc h
match_in-some test (bool b) found h = cc h
match_in-some test (int n) found h = cc h
match_in-some test (float t) found h = cc h
match_in-some test (str t) found h = cc h
match_in-some test (dict fields) found h = cc h

shook-ok : (r : Result Bool) → (r >>= λ b. ok (once_true b)) ≡ ok (some tt) → r ≡ ok true
shook-ok (err e) h = cc h
shook-ok (ok true) h = refl
shook-ok (ok false) h = cc h

module _ (float_at_least : Text → ℤ → Bool) where
  handshake_in-some :
      (id : Answer) (peers : List Answer)
      → handshake_in float_at_least id peers ≡ ok (some tt)
      → (peer : Answer) × Memᴰ peer peers
        × (is_dict peer ≡ true)
        × (answer_eq (get "id" peer) id ≡ true)
        × (is_past_handshake float_at_least (get "bytesrecv_per_msg" peer) ≡ ok true)
  unfolding handshake_in
  handshake_in-some id [] h = cc h
  handshake_in-some id (peer ∷ peers) h =
      elim (Bool-cases (is_dict peer && answer_eq (get "id" peer) id)) [
        | inr e ↦
            let (p, m, d, q, k) = handshake_in-some id peers (rw e at h) in
            (p, Memᴰ.tail m, d, q, k)
        | inl e ↦ (
          peer,
          Memᴰ.head refl,
          ground (arith, e),
          ground (arith, e),
          shook-ok (is_past_handshake float_at_least (get "bytesrecv_per_msg" peer)) (rw e at h),
        )
      ]

  handshake_among-some :
      (id peers : Answer)
      → handshake_among float_at_least id peers ≡ ok (some tt)
      → (peer : Answer) × IsEntry peers peer
        × (answer_eq (get "id" peer) id ≡ true)
        × (is_past_handshake float_at_least (get "bytesrecv_per_msg" peer) ≡ ok true)
  handshake_among-some id (list xs) h =
      let (p, m, d, q, k) = handshake_in-some id (items xs) h in (p, (xs, refl, m, d), q, k)
  handshake_among-some id null h = cc h
  handshake_among-some id (bool b) h = cc h
  handshake_among-some id (int n) h = cc h
  handshake_among-some id (float t) h = cc h
  handshake_among-some id (str t) h = cc h
  handshake_among-some id (dict fields) h = cc h

module _ {W : Type 0} (net : Network W) where
  -- A node listed the entry in an answer that left the state `u`.
  abbrev pub Listed : ℕ → Answer → W → Type 0
  Listed n peer u =
      (v : W) × (peers : Answer) × (net.call n getpeerinfo v ≡ (ok peers, u)) × IsEntry peers peer

  -- A node listed a peer by its `id`, past its handshake.
  abbrev pub Shook : ℕ → Answer → W → Type 0
  Shook n id u =
      (peer : Answer) × Listed n peer u
      × (answer_eq (get "id" peer) id ≡ true)
      × IsPast net.float_at_least (get "bytesrecv_per_msg" peer)

  wait_for_peer-Listed :
      (n deadline : ℕ) (test : Answer → Result Bool) (w w' : W) (peer : Answer)
      → wait_for_peer net n test deadline w ≡ (ok peer, w')
      → Listed n peer w' × (test peer ≡ ok true)
  unfolding wait_for_peer
  wait_for_peer-Listed n deadline test w w' peer h =
      let (v, found) = poll_until-ok net.clock _ deadline w w' peer h in
      let (peers, u, answered, k) = and_then-eq-ok (net.call n getpeerinfo v) _ found in
      let (entry, met) = match_in-some test peers peer (result-parts k).0 in
      ((v, peers, answered ∙ ap (λ x. (ok peers, x)) (result-parts k).1, entry), met)

  wait_for_handshake-Shook :
      (n deadline : ℕ) (id : Answer) (w w' : W)
      → wait_for_handshake net n id deadline w ≡ (ok tt, w')
      → Shook n id w'
  unfolding wait_for_handshake
  wait_for_handshake-Shook n deadline id w w' h =
      let (v, found) = poll_until-ok net.clock _ deadline w w' tt h in
      let (peers, u, answered, k) = and_then-eq-ok (net.call n getpeerinfo v) _ found in
      let (p, entry, same, past) =
        handshake_among-some net.float_at_least id peers (result-parts k).0 in
      (
        p,
        (v, peers, answered ∙ ap (λ x. (ok peers, x)) (result-parts k).1, entry),
        same,
        is_past_handshake-IsPast net.float_at_least (get "bytesrecv_per_msg" p) past,
      )

  -- What two nodes have shown, one state after the other, once the first is connected to the second.
  pub record Connected (first second timeout : ℕ) (v2transport : Bool) (w w' : W) : Type 0 where
    pub known : Answer
    pub before : List Answer
    pub ids_before : peer_ids known ≡ ok before
    pub asked : W
    pub listed_before : net.call second getpeerinfo w ≡ (ok known, asked)
    pub dialled : W
    pub dial : net.dial first (net.address second) v2transport asked ≡ (ok tt, dialled)
    pub deadline : ℕ
    pub deadline_set : deadline ≡ net.clock.monotonic dialled + timeout * net.clock.factor
    pub outbound : Answer
    pub seen_out : W
    pub outbound_wait :
        wait_for_peer net first (is_outbound_to (net.address second)) deadline dialled
        ≡ (ok outbound, seen_out)
    pub outbound_listed : Listed first outbound seen_out
    pub outbound_address : get "addr" outbound ≡ str (net.address second)
    pub outbound_kind : truthy (get "inbound" outbound) ≡ false
    pub inbound : Answer
    pub seen_in : W
    pub inbound_wait :
        wait_for_peer net second (is_new_inbound before) deadline seen_out ≡ (ok inbound, seen_in)
    pub inbound_listed : Listed second inbound seen_in
    pub inbound_kind : truthy (get "inbound" inbound) ≡ true
    pub inbound_new : IsNewId (get "id" inbound) known
    pub first_id : Answer
    pub first_id_of : at_key "id" outbound ≡ ok first_id
    pub settled : W
    pub outbound_settled : wait_for_handshake net first first_id deadline seen_in ≡ (ok tt, settled)
    pub outbound_shook : Shook first first_id settled
    pub second_id : Answer
    pub second_id_of : at_key "id" inbound ≡ ok second_id
    pub inbound_settled : wait_for_handshake net second second_id deadline settled ≡ (ok tt, w')
    pub inbound_shook : Shook second second_id w'

  outbound-ok :
      (address : Text) (peer : Answer)
      → is_outbound_to address peer ≡ ok true
      → (get "addr" peer ≡ str address) × (truthy (get "inbound" peer) ≡ false)
  unfolding is_outbound_to
  outbound-ok address peer h =
      (answer_eq-text (get "addr" peer) address (ground (arith, h)), ground (arith, h))

  inbound-ok :
      (before : List Answer) (peer : Answer)
      → is_new_inbound before peer ≡ ok true
      → (truthy (get "inbound" peer) ≡ true)
        × (hashable (get "id" peer) ≡ true)
        × (is_in (get "id" peer) before ≡ false)
  unfolding is_new_inbound
  inbound-ok before peer h = ground (arith, h)

  -- Where connect_nodes returns, it went through these states, one after the other: the second node
  -- listed its peers, and the dial of its address by the first returned; up to one deadline, the
  -- first node listed a peer at that address that is no inbound one, the second an inbound peer
  -- whose id is none of those in its list before, the first its peer by its id past the handshake,
  -- and the second its own so. A peer is past the handshake where its counters show 29 octets of
  -- pong at least, or are no dict.
  pub connect_nodes-Connected :
      (first second timeout : ℕ) (v2transport : Bool) (w w' : W)
      → connect_nodes net first second timeout v2transport w ≡ (ok tt, w')
      → Connected first second timeout v2transport w w'
  unfolding connect_nodes scaled
  connect_nodes-Connected first second timeout v2transport w w' h =
      let (known, w₁, q₁, h₁) = and_then-eq-ok (net.call second getpeerinfo w) _ h in
      let (before, q₂, h₂) = and_then_lift-eq-ok (peer_ids known) w₁ _ h₁ in
      let (_u, w₃, q₃, h₃) =
        and_then-eq-ok (net.dial first (net.address second) v2transport w₁) _ h₂ in
      let deadline = net.clock.monotonic w₃ + scaled net.clock.factor timeout in
      let (outbound, w₄, q₄, h₄) =
        and_then-eq-ok (wait_for_peer net first (is_outbound_to (net.address second)) deadline w₃) _
          h₃ in
      let (inbound, w₅, q₅, h₅) =
        and_then-eq-ok (wait_for_peer net second (is_new_inbound before) deadline w₄) _ h₄ in
      let (first_id, q₆, h₆) = and_then_lift-eq-ok (at_key "id" outbound) w₅ _ h₅ in
      let (_v, w₇, q₇, h₇) =
        and_then-eq-ok (wait_for_handshake net first first_id deadline w₅) _ h₆ in
      let (second_id, q₈, h₈) = and_then_lift-eq-ok (at_key "id" inbound) w₇ _ h₇ in
      let (out_listed, out_met) = wait_for_peer-Listed first deadline _ w₃ w₄ outbound q₄ in
      let (in_listed, in_met) = wait_for_peer-Listed second deadline _ w₄ w₅ inbound q₅ in
      record {
        known = known;
        before = before;
        asked = w₁;
        listed_before = q₁;
        ids_before = q₂;
        dialled = w₃;
        dial = q₃;
        deadline = deadline;
        deadline_set = refl;
        outbound = outbound;
        seen_out = w₄;
        outbound_wait = q₄;
        outbound_listed = out_listed;
        outbound_address = (outbound-ok (net.address second) outbound out_met).0;
        outbound_kind = (outbound-ok (net.address second) outbound out_met).1;
        inbound = inbound;
        seen_in = w₅;
        inbound_wait = q₅;
        inbound_listed = in_listed;
        inbound_kind = (inbound-ok before inbound in_met).0;
        inbound_new =
            let (_k, hashed, new) = inbound-ok before inbound in_met in
            peer_ids-IsNewId (get "id" inbound) known before hashed q₂ new;
        first_id = first_id;
        first_id_of = q₆;
        settled = w₇;
        outbound_settled = q₇;
        outbound_shook = wait_for_handshake-Shook first deadline first_id w₅ w₇ q₇;
        second_id = second_id;
        second_id_of = q₈;
        inbound_settled = h₈;
        inbound_shook = wait_for_handshake-Shook second deadline second_id w₇ w' h₈;
      }
