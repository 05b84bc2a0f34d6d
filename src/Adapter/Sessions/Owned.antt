-- ===== src/Adapter/Sessions/Owned.antt =====
-- The invariant of `_ThreadSessions` of src/bitcoin_node_tests/node.py: an open connection is that of a
-- running thread, and is listed.
use bitcoin_node_tests.Base.{
  ℕ, suc, ◌<◌, ◌≡◌, refl, sym, ap, ◌∙◌, ◌⊎◌, inl, inr, Bool, true, false, Option, none, some, List,
  [], ◌∷◌, ◌++◌, map, arith, All, Bool-cases, ◌==◌, All-append, All-map, Memᴰ-any, All-at,
}
use mathlib.Core.List.{Memᴰ}
use mathlib.Core.List.Memᴰ
use bitcoin_node_tests.Adapter.Sessions.{
  ThreadSessions, mark, remove, retired, session_of, without_thread, called, Reached, call_from,
  close_sessions, end_thread, stepped, Step, begun, calls, ends, closes,
}
use bitcoin_node_tests.Base.Sorted.{IsSortedBy, IsSortedBy-append}
use mathlib.Core.Path.{subst}

abbrev session_at : ℕ × ℕ → ℕ
session_at p = p.1

abbrev Other : ℕ × ℕ → ℕ × ℕ → Type 0
Other p q = (p.0 == q.0) ≡ false

-- Each thread has one session, all different and listed in the order in which they were built; what is
-- connected is listed.
pub record Owned (w : ThreadSessions) : Type 0 where
  pub same : map session_at w.local ≡ w.sessions
  pub one_each : IsSortedBy Other w.local
  pub rising : IsSortedBy ◌<◌ w.sessions
  pub fresh : All (λ s. s < w.next) w.sessions
  pub listed : (s : ℕ) → w.connected s ≡ true → Memᴰ s w.sessions

equal : (a b : ℕ) → (a == b) ≡ true → a ≡ b
equal a b h = ground (arith, h)

unequal : (a b : ℕ) → a < b → (a == b) ≡ false
unequal a b h = ground (arith, h)

session_of-some :
    (t s : ℕ) (local : List (ℕ × ℕ)) → session_of t local ≡ some s → Memᴰ s (map session_at local)
unfolding session_of
session_of-some t s [] h = cc h
session_of-some t s ((t', s') ∷ local) h = elim (Bool-cases (t' == t)) [
  | inl e ↦ Memᴰ.head (cc (rw e at h))
  | inr e ↦ Memᴰ.tail (session_of-some t s local (rw e at h))
]

session_of-none :
    (t s : ℕ) (local : List (ℕ × ℕ))
    → session_of t local ≡ none
    → All (λ p. All (Other p) ((t, s) ∷ [])) local
unfolding session_of
session_of-none t s [] h = tt
session_of-none t s ((t', s') ∷ local) h = elim (Bool-cases (t' == t)) [
  | inl e ↦ cc (rw e at h)
  | inr e ↦ ((e, tt), session_of-none t s local (rw e at h))
]

All-remove :
    (P : ℕ → Type 0) (s : ℕ) (sessions : List ℕ) → All P sessions → All P (remove s sessions)
unfolding remove
All-remove P s [] h = tt
All-remove P s (x ∷ xs) (h, all) = elim (Bool-cases (x == s)) [
  | inl e ↦ rw e all
  | inr e ↦ rw e (h, All-remove P s xs all)
]

remove-IsSortedBy :
    (s : ℕ) (sessions : List ℕ) → IsSortedBy ◌<◌ sessions → IsSortedBy ◌<◌ (remove s sessions)
unfolding remove
remove-IsSortedBy s [] h = tt
remove-IsSortedBy s (x ∷ xs) (h, rest) = elim (Bool-cases (x == s)) [
  | inl e ↦ rw e rest
  | inr e ↦ rw e (All-remove (λ y. x < y) s xs h, remove-IsSortedBy s xs rest)
]

mem-remove :
    (x s : ℕ) (sessions : List ℕ) → (x == s) ≡ false → Memᴰ x sessions → Memᴰ x (remove s sessions)
unfolding remove
mem-remove x s [] d m = elim m [ ]
mem-remove x s (y ∷ ys) d m = elim (Bool-cases (y == s)) [
  | inl e ↦
      rw e (elim (Memᴰ.cases_cons m) [
        | inl same ↦ cc (ap (λ n. n == s) same, e, d)
        | inr later ↦ later
      ])
  | inr e ↦ rw e (elim (Memᴰ.cases_cons m) [
    | inl same ↦ Memᴰ.head same
    | inr later ↦ Memᴰ.tail (mem-remove x s ys d later)
  ])
]

All-without_thread :
    (P : ℕ × ℕ → Type 0) (t : ℕ) (local : List (ℕ × ℕ))
    → All P local
    → All P (without_thread t local)
unfolding without_thread
All-without_thread P t [] h = tt
All-without_thread P t ((t', s) ∷ local) (h, all) = elim (Bool-cases (t' == t)) [
  | inl e ↦ rw e all
  | inr e ↦ rw e (h, All-without_thread P t local all)
]

without_thread-IsSortedBy :
    (t : ℕ) (local : List (ℕ × ℕ))
    → IsSortedBy Other local
    → IsSortedBy Other (without_thread t local)
unfolding without_thread
without_thread-IsSortedBy t [] h = tt
without_thread-IsSortedBy t ((t', s) ∷ local) (h, rest) = elim (Bool-cases (t' == t)) [
  | inl e ↦ rw e rest
  | inr e ↦
      rw e (All-without_thread (Other (t', s)) t local h, without_thread-IsSortedBy t local rest)
]

-- Dropping a thread drops its session from the list.
map-without_thread :
    (t s : ℕ) (local : List (ℕ × ℕ))
    → session_of t local ≡ some s
    → IsSortedBy ◌<◌ (map session_at local)
    → map session_at (without_thread t local) ≡ remove s (map session_at local)
unfolding session_of without_thread remove
map-without_thread t s [] h sorted_by = cc h
map-without_thread t s ((t', s') ∷ local) h (less, rest) = elim (Bool-cases (t' == t)) [
  | inl e ↦ let own : s' ≡ s = cc (rw e at h) in rw (e, ap (λ x. x == s) own ∙ reflexive s) refl
  | inr e ↦
      let later = (rw e at h) in
      let differs =
        unequal s' s
          (All-at (λ x. s' < x) (map session_at local) less (session_of-some t s local later)) in
      rw (e, differs) (ap (λ x. s' ∷ x) (map-without_thread t s local later rest))
]
  where
    reflexive : (n : ℕ) → (n == n) ≡ true
    reflexive n = ground arith

map-snoc :
    (xs : List (ℕ × ℕ)) (x : ℕ × ℕ)
    → map session_at (xs ++ x ∷ []) ≡ map session_at xs ++ session_at x ∷ []
map-snoc [] x = refl
map-snoc (y ∷ ys) x = ap (λ l. session_at y ∷ l) (map-snoc ys x)

marked :
    (session : ℕ) (held : Bool) (connected : ℕ → Bool) (s : ℕ)
    → mark session held connected s ≡ true
    → ((s ≡ session) × (held ≡ true)) ⊎ (((s == session) ≡ false) × (connected s ≡ true))
marked session held connected s h = elim (Bool-cases (s == session)) [
  | inl e ↦ inl (equal s session e, rw e at h)
  | inr e ↦ inr (e, rw e at h)
]

called-Owned :
    (o : Option ℕ) (thread : ℕ) (held : Bool) (w : ThreadSessions)
    → session_of thread w.local ≡ o
    → Owned w
    → Owned (called o thread held w)
called-Owned (some s) thread held w q inv = record {
  same = inv.same;
  one_each = inv.one_each;
  rising = inv.rising;
  fresh = inv.fresh;
  listed = λ x h. elim (marked s held w.connected x h) [
    | inl (own, _h) ↦
        subst (λ y. Memᴰ y w.sessions) (sym own)
          (subst (Memᴰ s) inv.same (session_of-some thread s w.local q))
    | inr (other, on) ↦ inv.listed x on
  ];
}
called-Owned none thread held w q inv = record {
  same = map-snoc w.local (thread, w.next) ∙ ap (λ l. l ++ w.next ∷ []) inv.same;
  one_each =
      IsSortedBy-append Other w.local ((thread, w.next) ∷ []) inv.one_each (tt, tt)
        (session_of-none thread w.next w.local q);
  rising =
      IsSortedBy-append ◌<◌ w.sessions (w.next ∷ []) inv.rising (tt, tt)
        (All-map (λ s. s < w.next) (λ s. All (λ x. s < x) (w.next ∷ [])) (λ s l. (l, tt)) w.sessions
          inv.fresh);
  fresh =
      All-append (λ s. s < suc w.next) w.sessions (w.next ∷ [])
        (All-map (λ s. s < w.next) (λ s. s < suc w.next) (λ s l. omega (arith, l)) w.sessions
          inv.fresh)
        (omega arith, tt);
  listed = λ x h. elim (marked w.next held w.connected x h) [
    | inl (own, _h) ↦ Memᴰ.append_right w.sessions (Memᴰ.head own)
    | inr (other, on) ↦ Memᴰ.append_left (w.next ∷ []) (inv.listed x on)
  ];
}

retired-Owned :
    (o : Option ℕ) (thread : ℕ) (w : ThreadSessions)
    → session_of thread w.local ≡ o
    → Owned w
    → Owned (retired o thread w)
unfolding retired
retired-Owned none thread w q inv = inv
retired-Owned (some s) thread w q inv = record {
  same =
      map-without_thread thread s w.local q (subst (IsSortedBy ◌<◌) (sym inv.same) inv.rising)
      ∙ ap (remove s) inv.same;
  one_each = without_thread-IsSortedBy thread w.local inv.one_each;
  rising = remove-IsSortedBy s w.sessions inv.rising;
  fresh = All-remove (λ x. x < w.next) s w.sessions inv.fresh;
  listed = λ x h. elim (marked s false w.connected x h) [
    | inl (own, never) ↦ cc never
    | inr (other, on) ↦ mem-remove x s w.sessions other (inv.listed x on)
  ];
}

closed-Owned : (w : ThreadSessions) → Owned w → Owned (close_sessions w)
unfolding close_sessions
closed-Owned w inv = record {
  same = inv.same;
  one_each = inv.one_each;
  rising = inv.rising;
  fresh = inv.fresh;
  listed = λ s h. inv.listed s (ground (arith, h));
}

stepped-Owned : {w v : ThreadSessions} → Step w v → Owned w → Owned v
unfolding call_from end_thread
stepped-Owned (calls thread held w) inv =
    called-Owned (session_of thread w.local) thread held w refl inv
stepped-Owned (ends thread w) inv = retired-Owned (session_of thread w.local) thread w refl inv
stepped-Owned (closes w) inv = closed-Owned w inv

nothing_left : (w : ThreadSessions) → Owned w → (s : ℕ) → (close_sessions w).connected s ≡ false
unfolding close_sessions
nothing_left w inv s = elim (Bool-cases (w.connected s)) [
  | inr e ↦ rw e refl
  | inl e ↦ rw (e, Memᴰ-any (λ x. x == s) w.sessions (inv.listed s e) (same_number s)) refl
]
  where
    same_number : (n : ℕ) → (n == n) ≡ true
    same_number n = ground arith

-- Whatever order threads call in, end in and the adapter closes in: each running thread that has
-- called has one session, all different, and the list holds exactly these, in the order in which
-- they were built; a session that holds an open connection is listed, so none outlives its thread;
-- and closing leaves no session connected. Each of these steps is taken whole.
pub Reached-Owned :
    (w : ThreadSessions) → Reached w → Owned w × ((s : ℕ) → (close_sessions w).connected s ≡ false)
Reached-Owned w reached = let inv = kept reached in (inv, nothing_left w inv)
  where
    kept : {v : ThreadSessions} → Reached v → Owned v
    kept begun = record {
      same = refl;
      one_each = tt;
      rising = tt;
      fresh = tt;
      listed = λ s h. cc h;
    }
    kept (stepped before step) = stepped-Owned step (kept before)
