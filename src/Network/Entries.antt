-- ===== src/Network/Entries.antt =====
-- Entries of an answer of `getpeerinfo`, read without the waits of src/bitcoin_node_tests/node.py.
use bitcoin_node_tests.Chain.Json.{
  Answer, Answers, Fields, list, items, null, bool, int, float, str, dict, answer_eq, is_dict,
  hashable, at_key, get_field, as_int, is_in, as_set, all_hashable,
}
use bitcoin_node_tests.Base.{
  ℕ, ◌≤◌, ◌≡◌, ◌≢◌, refl, sym, Bool, true, false, List, [], ◌∷◌, All, some, none, inl, inr, ◌⊎◌,
  Bool-cases, arith, Option, ap, not, ◌||◌,
}
use bitcoin_node_tests.Base.Bytes.{Text, bytes_eq_refl, bytes_eq→eq}
use bitcoin_node_tests.Base.Exec.{ok}
use bitcoin_node_tests.Base.Int.{ℤ, pos, ◌==ℤ◌, ltb_ℤ, negsuc}
use bitcoin_node_tests.Network.Peers.{ids_of, peer_ids, at_least, is_past_handshake, pong_of}
use bitcoin_node_tests.Base.Raise.{>>=-eq-ok, ok-injective}
use mathlib.Core.Path.{subst}

-- An id that no entry has: each entry, where it is a dict, has another one under `id`, which does
-- not compare equal to it either.
abbrev pub IsOther : Answer → Answer → Type 0
IsOther id peer =
    is_dict peer ≡ true
    → (other : Answer) × (at_key "id" peer ≡ ok other) × (answer_eq id other ≡ false) × (id ≢ other)

abbrev pub IsNewId : Answer → Answer → Type 0
IsNewId id peers = (xs : Answers) → peers ≡ list xs → All (IsOther id) (items xs)

int_eq_refl : (n : ℤ) → (n ==ℤ n) ≡ true
int_eq_refl n = ground arith

answer_eq_refl : (a : Answer) → hashable a ≡ true → answer_eq a a ≡ true
unfolding answer_eq
answer_eq_refl null h = refl
answer_eq_refl (bool true) h = refl
answer_eq_refl (bool false) h = refl
answer_eq_refl (int n) h = int_eq_refl n
answer_eq_refl (float t) h = bytes_eq_refl t
answer_eq_refl (str t) h = bytes_eq_refl t
answer_eq_refl (list xs) h = cc h
answer_eq_refl (dict fields) h = cc h

not_same : (id other : Answer) → hashable id ≡ true → answer_eq id other ≡ false → id ≢ other
not_same id other h k e = cc (rw (sym e) at k, answer_eq_refl id h)

ids_of-IsOther :
    (id : Answer) (xs ids : List Answer)
    → hashable id ≡ true
    → ids_of xs ≡ ok ids
    → is_in id ids ≡ false
    → All (IsOther id) xs
unfolding ids_of
ids_of-IsOther id [] ids h q k = tt
ids_of-IsOther id (x ∷ xs) ids h q k = elim (Bool-cases (is_dict x)) [
  | inr e ↦ ((λ d. cc (d, e)), ids_of-IsOther id xs ids h (rw e at q) k)
  | inl e ↦
      let (i, q₀, h₁) = >>=-eq-ok (at_key "id" x) _ (rw e at q) in
      let (rest, q₁, h₂) = >>=-eq-ok (ids_of xs) _ h₁ in
      let n : (answer_eq id i || is_in id rest) ≡ false = rw (sym (ok-injective h₂)) at k in
      let other : answer_eq id i ≡ false = ground (arith, n) in
      (
        (λ d. (i, q₀, other, not_same id i h other)),
        ids_of-IsOther id xs rest h q₁ (ground (arith, n)),
      )
]

pub as_set-ok : (xs ys : List Answer) → as_set xs ≡ ok ys → xs ≡ ys
as_set-ok xs ys h = elim (Bool-cases (all_hashable xs)) [
  | inl e ↦ ok-injective (rw e at h)
  | inr e ↦ cc (rw e at h)
]

list-ids :
    (id : Answer) (ys : Answers) (before : List Answer)
    → hashable id ≡ true
    → peer_ids (list ys) ≡ ok before
    → is_in id before ≡ false
    → All (IsOther id) (items ys)
unfolding peer_ids
list-ids id ys before h q k =
    let (ids, q₁, h₁) = >>=-eq-ok (ids_of (items ys)) _ q in
    ids_of-IsOther id (items ys) ids h q₁
      (subst (λ s. is_in id s ≡ false) (sym (as_set-ok ids before h₁)) k)

pub peer_ids-IsNewId :
    (id peers : Answer) (before : List Answer)
    → hashable id ≡ true
    → peer_ids peers ≡ ok before
    → is_in id before ≡ false
    → IsNewId id peers
peer_ids-IsNewId id peers before h q k xs e =
    list-ids id xs before h (subst (λ p. peer_ids p ≡ ok before) e q) k

-- A text is compared as it is.
pub answer_eq-text : (a : Answer) (t : Text) → answer_eq a (str t) ≡ true → a ≡ str t
unfolding answer_eq
answer_eq-text (str s) t h = ap str (bytes_eq→eq s t h)
answer_eq-text null t h = cc h
answer_eq-text (bool true) t h = cc h
answer_eq-text (bool false) t h = cc h
answer_eq-text (int n) t h = cc h
answer_eq-text (float s) t h = cc h
answer_eq-text (list xs) t h = cc h
answer_eq-text (dict fields) t h = cc h

module _ (float_at_least : Text → ℤ → Bool) where
  -- At least 29 octets of `pong`, as an integer or as another number.
  abbrev IsWhole : Answer → Type 0
  IsWhole pong =
      ((n : ℕ) × (as_int pong ≡ some (pos n)) × 29 ≤ n)
      ⊎ ((t : Text) × (pong ≡ float t) × (float_at_least t (pos 29) ≡ true))

  -- The counters of received octets show a whole `pong`, or are no dict.
  abbrev pub IsPast : Answer → Type 0
  IsPast counters =
      (is_dict counters ≡ false)
      ⊎ ((fields : Fields) × (pong : Answer) × (counters ≡ dict fields)
          × (get_field "pong" fields ≡ some pong)
          × IsWhole pong)

  count_ok : (n : ℤ) → ok (not (ltb_ℤ n (pos 29))) ≡ ok true → (k : ℕ) × (n ≡ pos k) × 29 ≤ k
  count_ok (pos k) h = (k, refl, ground (arith, ok-injective h))
  count_ok (negsuc k) h = absurd (ground (arith, ok-injective h))

  at_least-IsWhole :
      (pong : Answer) → at_least float_at_least pong (pos 29) ≡ ok true → IsWhole pong
  at_least-IsWhole (float t) h = inr (t, refl, ok-injective h)
  at_least-IsWhole (int n) h = let (k, e, l) = count_ok n h in inl (k, ap some e, l)
  at_least-IsWhole (bool true) h = cc h
  at_least-IsWhole (bool false) h = cc h
  at_least-IsWhole null h = cc h
  at_least-IsWhole (str t) h = cc h
  at_least-IsWhole (list xs) h = cc h
  at_least-IsWhole (dict fields) h = cc h

  counters-IsPast :
      (fields : Fields) (o : Option Answer)
      → get_field "pong" fields ≡ o
      → at_least float_at_least (pong_of float_at_least o) (pos 29) ≡ ok true
      → IsPast (dict fields)
  counters-IsPast fields none e h = cc h
  counters-IsPast fields (some pong) e h = inr (fields, pong, refl, e, at_least-IsWhole pong h)

  pub is_past_handshake-IsPast :
      (counters : Answer) → is_past_handshake float_at_least counters ≡ ok true → IsPast counters
  unfolding is_past_handshake
  is_past_handshake-IsPast (dict fields) h = counters-IsPast fields (get_field "pong" fields) refl h
  is_past_handshake-IsPast null h = inl refl
  is_past_handshake-IsPast (bool b) h = inl refl
  is_past_handshake-IsPast (int n) h = inl refl
  is_past_handshake-IsPast (float t) h = inl refl
  is_past_handshake-IsPast (str t) h = inl refl
  is_past_handshake-IsPast (list xs) h = inl refl
