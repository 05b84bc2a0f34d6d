-- ===== src/Base/Search.antt =====
-- Python's `startswith` and `find`, on byte strings and texts, and what `find` answers: the first place.
use bitcoin_node_tests.Base.{
  ℕ, zero, suc, ◌+◌, ◌≤◌, ◌<◌, ◌≡◌, refl, sym, ap, ◌∙◌, inl, inr, Bool, true, false, ◌&&◌, Option,
  none, some, [], ◌∷◌, ◌++◌, arith, Bool-cases, length, drop, take, ◌==◌, if◌then◌else◌,
}
use bitcoin_node_tests.Base.Bytes.{Bytes}

-- `b.startswith(prefix)`
unfoldable pub starts_with : Bytes → Bytes → Bool
starts_with b [] = true
starts_with [] (y ∷ ys) = false
starts_with (x ∷ xs) (y ∷ ys) = x == y && starts_with xs ys

-- `b.find(part)`, `none` for -1
abbrev pub one_more : Option ℕ → Option ℕ
one_more none = none
one_more (some n) = some (suc n)

unfoldable pub find : Bytes → Bytes → Option ℕ
unfolding starts_with
find part [] = if starts_with [] part then some 0 else none
find part (x ∷ xs) = if starts_with (x ∷ xs) part then some 0 else one_more (find part xs)

-- The first place of a part: it stands there, and nowhere before.
abbrev pub IsFirst : Bytes → Bytes → ℕ → Type 0
IsFirst part b n =
    (starts_with (drop n b) part ≡ true) × ((i : ℕ) → i < n → starts_with (drop i b) part ≡ false)

starts_with-length : (b part : Bytes) → starts_with b part ≡ true → length part ≤ length b
unfolding starts_with
starts_with-length b [] h = omega arith
starts_with-length [] (y ∷ ys) h = cc h
starts_with-length (x ∷ xs) (y ∷ ys) h = ground (arith, starts_with-length xs ys)

starts_with-append :
    (b part more : Bytes)
    → length part ≤ length b
    → starts_with (b ++ more) part ≡ starts_with b part
unfolding starts_with
starts_with-append b [] more h = refl
starts_with-append [] (y ∷ ys) more h = absurd (omega arith)
starts_with-append (x ∷ xs) (y ∷ ys) more h =
    ap (λ t. x == y && t) (starts_with-append xs ys more (omega arith))

pub starts_with-take :
    (k : ℕ) (b part : Bytes) → length part ≤ k → starts_with (take k b) part ≡ starts_with b part
unfolding starts_with
starts_with-take k b [] h = refl
starts_with-take zero b (y ∷ ys) h = absurd (omega arith)
starts_with-take (suc k) [] (y ∷ ys) h = refl
starts_with-take (suc k) (x ∷ xs) (y ∷ ys) h =
    ap (λ t. x == y && t) (starts_with-take k xs ys (omega arith))

one_more-some : (o : Option ℕ) (n : ℕ) → one_more o ≡ some n → (m : ℕ) × (o ≡ some m) × (n ≡ suc m)
one_more-some none n h = cc h
one_more-some (some m) n h = (m, refl, cc h)

one_more-none : (o : Option ℕ) → one_more o ≡ none → o ≡ none
one_more-none none h = refl
one_more-none (some m) h = cc h

pub find-IsFirst :
    (part b : Bytes) (n : ℕ)
    → find part b ≡ some n
    → IsFirst part b n × (n + length part ≤ length b)
unfolding find
find-IsFirst part [] n h = elim (Bool-cases (starts_with [] part)) [
  | inl e ↦
      let z : 0 ≡ n = cc (rw e at h) in
      rw (sym z)
        ((e, λ i l. absurd (omega (arith, l))), omega (arith, starts_with-length [] part e))
  | inr e ↦ cc (rw e at h)
]
find-IsFirst part (x ∷ xs) n h = elim (Bool-cases (starts_with (x ∷ xs) part)) [
  | inl e ↦
      let z : 0 ≡ n = cc (rw e at h) in
      rw (sym z)
        ((e, λ i l. absurd (omega (arith, l))), omega (arith, starts_with-length (x ∷ xs) part e))
  | inr e ↦
      let (m, k, z) = one_more-some (find part xs) n (rw e at h) in
      let (first, short) = find-IsFirst part xs m k in
      rw z ((first.0, earlier m e first.1), omega (arith, short))
]
  where
    earlier :
        (m : ℕ)
        → starts_with (x ∷ xs) part ≡ false
        → ((i : ℕ) → i < m → starts_with (drop i xs) part ≡ false)
        → (i : ℕ) → i < suc m
        → starts_with (drop i (x ∷ xs)) part ≡ false
    earlier m e f zero l = e
    earlier m e f (suc i) l = f i (omega (arith, l))

pub find-none :
    (part b : Bytes)
    → find part b ≡ none
    → (i : ℕ) → i ≤ length b
    → starts_with (drop i b) part ≡ false
unfolding find
find-none part [] h zero l = elim (Bool-cases (starts_with [] part)) [
  | inl e ↦ cc (rw e at h)
  | inr e ↦ e
]
find-none part [] h (suc i) l = absurd (omega arith)
find-none part (x ∷ xs) h zero l = elim (Bool-cases (starts_with (x ∷ xs) part)) [
  | inl e ↦ cc (rw e at h)
  | inr e ↦ e
]
find-none part (x ∷ xs) h (suc i) l = elim (Bool-cases (starts_with (x ∷ xs) part)) [
  | inl e ↦ cc (rw e at h)
  | inr e ↦ find-none part xs (one_more-none (find part xs) (rw e at h)) i (omega (arith, l))
]

-- A part that has been found stays where it is when more comes behind it.
pub find-append :
    (part b more : Bytes) (n : ℕ) → find part b ≡ some n → find part (b ++ more) ≡ some n
unfolding find starts_with
find-append part [] more n h = elim (Bool-cases (starts_with [] part)) [
  | inl e ↦ rw (find_nil part more e) (rw e at h)
  | inr e ↦ cc (rw e at h)
]
  where
    find_nil : (part more : Bytes) → starts_with [] part ≡ true → find part more ≡ some 0
    find_nil [] [] e = refl
    find_nil [] (x ∷ xs) e = refl
    find_nil (y ∷ ys) more e = cc e
find-append part (x ∷ xs) more n h = elim (Bool-cases (starts_with (x ∷ xs) part)) [
  | inl e ↦
      rw (starts_with-append (x ∷ xs) part more (starts_with-length (x ∷ xs) part e) ∙ e)
        (rw e at h)
  | inr e ↦
      let (m, k, z) = one_more-some (find part xs) n (rw e at h) in
      let (first, short) = find-IsFirst part xs m k in
      rw
        (
          starts_with-append (x ∷ xs) part more (omega (arith, short)) ∙ e,
          find-append part xs more m k,
        )
        (ap some (sym z))
]
