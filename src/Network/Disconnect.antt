-- ===== src/Network/Disconnect.antt =====
-- What `disconnect_nodes` of src/bitcoin_node_tests/node.py has seen when it returns.
use bitcoin_node_tests.Base.{
  ℕ, ◌≡◌, refl, ap, inl, inr, false, some, List, Bool-cases, ◌∙◌, All, sym, true, ◌∷◌, ◌≢◌, ◌||◌,
  arith, [],
}
use bitcoin_node_tests.Base.Bytes.{Text, bytes_eq_refl}
use bitcoin_node_tests.Network.{Network, disconnect_nodes, wait_until_disconnected}
use bitcoin_node_tests.Network.Peers.{is_gone, addrs_of}
use bitcoin_node_tests.Chain.Json.{
  Answer, Answers, list, items, as_set, is_in, str, bool, int, float, dict, null, answer_eq, at_key,
}
use bitcoin_node_tests.Base.Exec.{ok, and_then-eq-ok, result-parts}
use bitcoin_node_tests.Chain.{disconnectnode, getpeerinfo}
use bitcoin_node_tests.Adapter.Polling.{poll_until-ok}
use bitcoin_node_tests.Base.Raise.{>>=-eq-ok, ok-injective}
use mathlib.Core.Path.{subst}
use bitcoin_node_tests.Network.Entries.{as_set-ok}

-- A peer has an address, and it is another.
abbrev IsElsewhere : Text → Answer → Type 0
IsElsewhere address peer = (a : Answer) × (at_key "addr" peer ≡ ok a) × (a ≢ str address)

-- `peers` is a list of peers, each of which has another address.
abbrev IsGone : Text → Answer → Type 0
IsGone address peers = (xs : Answers) × (peers ≡ list xs) × All (IsElsewhere address) (items xs)

answer_eq_text : (t : Text) → answer_eq (str t) (str t) ≡ true
unfolding answer_eq
answer_eq_text t = bytes_eq_refl t

other_text : (t : Text) (a : Answer) → answer_eq (str t) a ≡ false → a ≢ str t
other_text t a h e = cc (rw e at h, answer_eq_text t)

addrs_of-IsElsewhere :
    (address : Text) (xs addrs : List Answer)
    → addrs_of xs ≡ ok addrs
    → is_in (str address) addrs ≡ false
    → All (IsElsewhere address) xs
unfolding addrs_of
addrs_of-IsElsewhere address [] addrs h k = tt
addrs_of-IsElsewhere address (x ∷ xs) addrs h k =
    let (a, q, h₁) = >>=-eq-ok (at_key "addr" x) _ h in
    let (rest, q₁, h₂) = >>=-eq-ok (addrs_of xs) _ h₁ in
    let n : (answer_eq (str address) a || is_in (str address) rest) ≡ false =
      rw (sym (ok-injective h₂)) at k in
    (
      (a, q, other_text address a (ground (arith, n))),
      addrs_of-IsElsewhere address xs rest q₁ (ground (arith, n)),
    )

is_gone-IsGone :
    (address : Text) (peers : Answer) → is_gone address peers ≡ ok (some tt) → IsGone address peers
unfolding is_gone
is_gone-IsGone address (list xs) h =
    let (addrs, q, h₁) = >>=-eq-ok (addrs_of (items xs)) _ h in
    let (known, k, h₂) = >>=-eq-ok (as_set addrs) _ h₁ in
    elim (Bool-cases (is_in (str address) known)) [
      | inl e ↦ cc (rw e at h₂)
      | inr e ↦ (
        xs,
        refl,
        addrs_of-IsElsewhere address (items xs) addrs q
            (subst (λ s. is_in (str address) s ≡ false) (sym (as_set-ok addrs known k)) e),
      )
    ]
is_gone-IsGone address null h = cc h
is_gone-IsGone address (bool b) h = cc h
is_gone-IsGone address (int n) h = cc h
is_gone-IsGone address (float t) h = cc h
is_gone-IsGone address (str t) h = cc h
is_gone-IsGone address (dict fields) h = cc h

module _ {W : Type 0} (net : Network W) where
  -- A node was told to drop another, and the last answer of the wait after that is a list of peers that
  -- does not name it.
  abbrev pub Dropped : ℕ → ℕ → ℕ → W → W → Type 0
  Dropped first second timeout w w' =
      (answer : Answer) × (told : W) × (net.call first (disconnectnode (net.address second)) w
        ≡ (ok answer, told))
      × (wait_until_disconnected net first second timeout told ≡ (ok tt, w'))
      × (peers : Answer) × (v : W) × (net.call first getpeerinfo v ≡ (ok peers, w'))
      × IsGone (net.address second) peers

  wait-IsGone :
      (node peer timeout : ℕ) (w w' : W)
      → wait_until_disconnected net node peer timeout w ≡ (ok tt, w')
      → (peers : Answer) × (v : W) × (net.call node getpeerinfo v ≡ (ok peers, w'))
        × IsGone (net.address peer) peers
  unfolding wait_until_disconnected
  wait-IsGone node peer timeout w w' h =
      let (v, found) = poll_until-ok net.clock _ _ w w' tt h in
      let (peers, u, answered, k) = and_then-eq-ok (net.call node getpeerinfo v) _ found in
      (
        peers,
        v,
        answered ∙ ap (λ x. (ok peers, x)) (result-parts k).1,
        is_gone-IsGone (net.address peer) peers (result-parts k).0,
      )

  -- Where disconnect_nodes returns, the first node was told to drop the second's address, and the
  -- wait from there returned with an answer of the first node, the last of all, that is a list of
  -- peers, each with an address that is another one.
  pub disconnect_nodes-Dropped :
      (first second timeout : ℕ) (w w' : W)
      → disconnect_nodes net first second timeout w ≡ (ok tt, w')
      → Dropped first second timeout w w'
  unfolding disconnect_nodes
  disconnect_nodes-Dropped first second timeout w w' h =
      let (answer, told, q, h₁) =
        and_then-eq-ok (net.call first (disconnectnode (net.address second)) w) _ h in
      let (peers, v, answered, gone) = wait-IsGone first second timeout told w' h₁ in
      (answer, told, q, h₁, peers, v, answered, gone)
