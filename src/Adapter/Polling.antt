-- ===== src/Adapter/Polling.antt =====
-- src/bitcoin_node_tests/node.py: `wait_until`, and the loop on the clock that it shares with the waits
-- of Network. Times are in milliseconds.
use bitcoin_node_tests.Base.{
  ℕ, zero, suc, ◌+◌, ◌-◌, ◌*◌, ◌≤◌, ◌<◌, ◌≡◌, refl, sym, ap, ◌∙◌, ◌⊎◌, inl, inr, Bool, true, false,
  arith, Bool-cases, ltb, ◌/◌, if◌then◌else◌, Option, none, some,
}
use native.Mathlib.Nat.{div-add-mod', mod-lt}
use bitcoin_node_tests.Adapter.Host.{scaled}
use bitcoin_node_tests.Base.Raise.{◌>>=◌}
use bitcoin_node_tests.Base.Exec.{Result, err, ok, timeout_error, unfinished, Exec, Error}

-- `time.monotonic` and `time.sleep`, and the factor of `timeout_factor`
pub record Clock (W : Type 0) : Type 0 where
  pub monotonic : W → ℕ
  pub sleep : ℕ → W → W
  pub factor : ℕ

-- `rpc_client_timeout`: `int(scaled(_RPC_TIMEOUT)) // 2`, in seconds
unfoldable pub rpc_client_timeout : ℕ → ℕ
unfolding scaled
rpc_client_timeout factor = scaled factor 60 / 2

module _ {W A : Type 0} (clock : Clock W) (attempt : Exec W (Option A)) where
  abbrev pub attempted : Result (Option A) × W → (W → Result A × W) → Result A × W
  attempted (err e, v) go_on = (err e, v)
  attempted (ok (some a), v) go_on = (ok a, v)
  attempted (ok none, v) go_on = go_on v

  -- `while time.monotonic() < deadline`, for at most so many rounds: attempts, with a pause after
  -- each that answers nothing.
  unfoldable pub poll_rounds : ℕ → ℕ → W → Result A × W
  poll_rounds zero deadline w = (err unfinished, w)
  poll_rounds (suc rounds) deadline w =
      if ltb (clock.monotonic w) deadline
      then attempted (attempt w) (λ v. poll_rounds rounds deadline (clock.sleep 100 v))
      else (err timeout_error, w)

  -- as many rounds as pauses fit before the deadline, and two more
  unfoldable pub poll_until : ℕ → W → Result A × W
  unfolding poll_rounds
  poll_until deadline w = poll_rounds (suc (suc ((deadline - clock.monotonic w) / 100))) deadline w

  attempted-ok :
      (r : Result (Option A) × W) (go_on : W → Result A × W) (a : A) (w : W)
      → attempted r go_on ≡ (ok a, w)
      → (r ≡ (ok (some a), w)) ⊎ (go_on r.1 ≡ (ok a, w))
  attempted-ok (err e, v) go_on a w h = cc (ap (λ r. r.0) h)
  attempted-ok (ok none, v) go_on a w h = inr h
  attempted-ok (ok (some b), v) go_on a w h =
      inl (ap (λ (r : Result A × W). (r.0 >>= λ c. ok (some c), r.1)) h)

  poll_rounds-ok :
      (rounds deadline : ℕ) (w w' : W) (a : A)
      → poll_rounds rounds deadline w ≡ (ok a, w')
      → (v : W) × (attempt v ≡ (ok (some a), w'))
  unfolding poll_rounds
  poll_rounds-ok zero deadline w w' a h = cc (ap (λ r. r.0) h)
  poll_rounds-ok (suc rounds) deadline w w' a h =
      elim (Bool-cases (ltb (clock.monotonic w) deadline)) [
        | inr e ↦ cc (ap (λ r. r.0) (rw e at h))
        | inl e ↦ elim (attempted-ok (attempt w) _ a w' (rw e at h)) [
          | inl found ↦ (w, found)
          | inr later ↦ poll_rounds-ok rounds deadline (clock.sleep 100 (attempt w).1) w' a later
        ]
      ]

  -- A wait that returned had an attempt that answered, and nothing was done after it.
  pub poll_until-ok :
      (deadline : ℕ) (w w' : W) (a : A)
      → poll_until deadline w ≡ (ok a, w')
      → (v : W) × (attempt v ≡ (ok (some a), w'))
  unfolding poll_until
  poll_until-ok deadline w w' a h =
      poll_rounds-ok (suc (suc ((deadline - clock.monotonic w) / 100))) deadline w w' a h

  -- The clock runs forward through an attempt, and past each pause.
  pub record PollLaws : Type 0 where
    pub asked : (w : W) → clock.monotonic w ≤ clock.monotonic (attempt w).1
    pub slept : (n : ℕ) (w : W) → clock.monotonic w + n ≤ clock.monotonic (clock.sleep n w)

  -- What an end of the wait stands for: an attempt answered, the deadline passed, or one raised.
  abbrev pub PollEnd : ℕ → Result A × W → Type 0
  PollEnd deadline (ok a, w) = (v : W) × (attempt v ≡ (ok (some a), w))
  PollEnd deadline (err e, w) =
      ((e ≡ timeout_error) × (deadline ≤ clock.monotonic w)) ⊎ ((v : W) × (attempt v ≡ (err e, w)))

  attempted-PollEnd :
      (deadline : ℕ) (w : W) (go_on : W → Result A × W)
      → ((v : W) → v ≡ (attempt w).1 → PollEnd deadline (go_on v))
      → PollEnd deadline (attempted (attempt w) go_on)
  attempted-PollEnd deadline w go_on rest = go (attempt w) refl
    where
      go : (r : Result (Option A) × W) → attempt w ≡ r → PollEnd deadline (attempted r go_on)
      go (err e, v) q = inr (w, q)
      go (ok (some a), v) q = (w, q)
      go (ok none, v) q = rest v (sym (ap (λ r. r.1) q))

  late : (now deadline : ℕ) → deadline ≤ now + zero * 100 → ltb now deadline ≡ false
  late now deadline h = ground arith

  poll_rounds-PollEnd :
      (laws : PollLaws) (more deadline : ℕ) (w : W)
      → deadline ≤ clock.monotonic w + more * 100
      → PollEnd deadline (poll_rounds (suc more) deadline w)
  unfolding poll_rounds
  poll_rounds-PollEnd laws zero deadline w h =
      rw (late (clock.monotonic w) deadline h) (inl (refl, omega arith))
  poll_rounds-PollEnd laws (suc more) deadline w h =
      elim (Bool-cases (ltb (clock.monotonic w) deadline)) [
        | inr e ↦ rw e (inl (refl, ground arith))
        | inl e ↦ rw e (
            attempted-PollEnd deadline w (λ v. poll_rounds (suc more) deadline (clock.sleep 100 v))
              (λ v p.
                poll_rounds-PollEnd laws more deadline (clock.sleep 100 v)
                  (omega (arith, h, laws.slept 100 v, laws.asked w, ap clock.monotonic p))))
      ]

  enough : (now deadline : ℕ) → deadline ≤ now + suc ((deadline - now) / 100) * 100
  enough now deadline =
      omega
        (arith, div-add-mod' (deadline - now) 100, mod-lt (deadline - now) {m = 100} (omega arith))

  pub poll_until-PollEnd :
      (laws : PollLaws) (deadline : ℕ) (w : W) → PollEnd deadline (poll_until deadline w)
  unfolding poll_until
  poll_until-PollEnd laws deadline w =
      poll_rounds-PollEnd laws (suc ((deadline - clock.monotonic w) / 100)) deadline w
        (enough (clock.monotonic w) deadline)

  -- `v` is where the wait stands after some attempts before the deadline that answered nothing.
  abbrev pub Pending : ℕ → ℕ → W → W → Type 0
  Pending deadline zero w v = w ≡ v
  Pending deadline (suc k) w v =
      (clock.monotonic w < deadline)
      × ((attempt w).0 ≡ ok none)
      × Pending deadline k (clock.sleep 100 (attempt w).1) v

  attempted-none :
      (r : Result (Option A) × W) (go_on : W → Result A × W)
      → r.0 ≡ ok none
      → attempted r go_on ≡ go_on r.1
  attempted-none (ok none, v) go_on e = refl
  attempted-none (ok (some a), v) go_on e = cc e
  attempted-none (err x, v) go_on e = cc e

  before : (a b : ℕ) → a < b → ltb a b ≡ true
  before a b h = ground arith

  poll_rounds-finds :
      (laws : PollLaws) (k more deadline : ℕ) (w v u : W) (a : A)
      → deadline ≤ clock.monotonic w + more * 100
      → Pending deadline k w v
      → clock.monotonic v < deadline
      → attempt v ≡ (ok (some a), u)
      → poll_rounds (suc more) deadline w ≡ (ok a, u)
  unfolding poll_rounds
  poll_rounds-finds laws zero more deadline w v u a h same soon found =
      rw (same, before (clock.monotonic v) deadline soon, found) refl
  poll_rounds-finds laws (suc k) zero deadline w v u a h (now, quiet, later) soon found =
      absurd (omega arith)
  poll_rounds-finds laws (suc k) (suc more) deadline w v u a h (now, quiet, later) soon found =
      rw (before (clock.monotonic w) deadline now) (
        attempted-none (attempt w) _ quiet
        ∙ poll_rounds-finds laws k more deadline (clock.sleep 100 (attempt w).1) v u a
            (omega (arith, h, laws.slept 100 (attempt w).1, laws.asked w)) later soon found)

  -- A wait on the clock returns the first answer that an attempt before the deadline gives: where
  -- the attempts before it answered nothing, each before the deadline, and the next is before the
  -- deadline and answers, the wait answers the same and ends where that attempt did. The clock is
  -- assumed to run forward through an attempt and past each pause.
  pub poll_until-finds :
      (laws : PollLaws) (k deadline : ℕ) (w v u : W) (a : A)
      → Pending deadline k w v
      → clock.monotonic v < deadline
      → attempt v ≡ (ok (some a), u)
      → poll_until deadline w ≡ (ok a, u)
  unfolding poll_until
  poll_until-finds laws k deadline w v u a later soon found =
      poll_rounds-finds laws k (suc ((deadline - clock.monotonic w) / 100)) deadline w v u a
        (enough (clock.monotonic w) deadline) later soon found

module _ {W : Type 0} (clock : Clock W) (predicate : Exec W Bool) where
  abbrev pub held : Result Bool × W → Result (Option (Unit {0})) × W
  held (err e, w) = (err e, w)
  held (ok true, w) = (ok (some tt), w)
  held (ok false, w) = (ok none, w)

  abbrev pub asks : Exec W (Option (Unit {0}))
  asks w = held (predicate w)

  -- `wait_until`
  unfoldable pub wait_until : ℕ → W → Result (Unit {0}) × W
  unfolding poll_until scaled
  wait_until timeout w = poll_until clock asks (clock.monotonic w + scaled clock.factor timeout) w

  -- What an end of `wait_until` stands for.
  abbrev pub IsEnd : ℕ → Result (Unit {0}) × W → Type 0
  IsEnd deadline (ok u, w) = (v : W) × (predicate v ≡ (ok true, w))
  IsEnd deadline (err e, w) =
      ((e ≡ timeout_error) × (deadline ≤ clock.monotonic w))
      ⊎ ((v : W) × (predicate v ≡ (err e, w)))

  held-true : (r : Result Bool × W) (w : W) → held r ≡ (ok (some tt), w) → r ≡ (ok true, w)
  held-true (ok true, v) w h =
      ap (λ u. (ok true, u)) (ap (λ (r : Result (Option (Unit {0})) × W). r.1) h)
  held-true (ok false, v) w h = cc (ap (λ r. r.0) h)
  held-true (err x, v) w h = cc (ap (λ r. r.0) h)

  held-err : (r : Result Bool × W) (e : Error) (w : W) → held r ≡ (err e, w) → r ≡ (err e, w)
  held-err (ok true, v) e w h = cc (ap (λ r. r.0) h)
  held-err (ok false, v) e w h = cc (ap (λ r. r.0) h)
  held-err (err x, v) e w h = cc h

  PollEnd-IsEnd :
      (deadline : ℕ) (r : Result (Unit {0}) × W) → PollEnd clock asks deadline r → IsEnd deadline r
  PollEnd-IsEnd deadline (ok tt, w) (v, h) = (v, held-true (predicate v) w h)
  PollEnd-IsEnd deadline (err e, w) (inl h) = inl h
  PollEnd-IsEnd deadline (err e, w) (inr (v, h)) = inr (v, held-err (predicate v) e w h)

  -- wait_until ends within the rounds given to it: it returns after the predicate answered true,
  -- and raises TimeoutError with the clock at the deadline or past it, or what the predicate
  -- raised. The clock is assumed to run forward while the predicate is asked, and past each pause.
  pub wait_until-IsEnd :
      (laws : PollLaws clock asks) (timeout : ℕ) (w : W)
      → IsEnd (clock.monotonic w + timeout * clock.factor) (wait_until timeout w)
  unfolding wait_until scaled
  wait_until-IsEnd laws timeout w =
      let deadline = clock.monotonic w + timeout * clock.factor in
      PollEnd-IsEnd deadline (poll_until clock asks deadline w)
        (poll_until-PollEnd clock asks laws deadline w)
