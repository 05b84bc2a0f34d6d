-- ===== src/Adapter/Lifecycle/Ending.antt =====
-- What `stop` of src/bitcoin_node_tests/node.py leaves of an adapter and of its process.
use bitcoin_node_tests.Base.{
  ℕ, ◌≡◌, ◌≢◌, refl, ap, ◌↔◌, ◌⊎◌, inl, inr, Bool, false, Option, none, some, Bool-cases,
}
use bitcoin_node_tests.Adapter.Host.{Host, Machine, scaled}
use bitcoin_node_tests.Adapter.Lifecycle.{
  abandon, holding, wait_bound, stop, stop_held, terminate, wait_until_stopped, wait_held,
}
use bitcoin_node_tests.Base.Exec.{Error, Result, err, timeout_expired, ok, timeout_error}
use bitcoin_node_tests.Base.Int.{ℤ, pos, ◌==ℤ◌, eq_of_==ℤ}

module _ {P W : Type 0} (host : Host P W) where
  -- A process that was waited for has exited, and closing the RPC connections starts none.
  pub record ProcessLaws (alive : P → W → Bool) : Type 0 where
    pub waited :
        (p : P) (n : ℕ) (w w' : W) (code : ℤ)
        → host.wait p n w ≡ (some code, w')
        → alive p w' ≡ false
    pub closed : (p : P) (w : W) → alive p w ≡ false → alive p (host.close_sessions w) ≡ false

  wait_cases :
      (r : Option ℤ × W)
      → ((code : ℤ) × (w : W) × (r ≡ (some code, w))) ⊎ ((w : W) × (r ≡ (none, w)))
  wait_cases (some code, w) = inl (code, w, refl)
  wait_cases (none, w) = inr (w, refl)

  not_zero : {A : Type 0} (code : ℤ) → (code ==ℤ pos 0) ≡ false → some code ≡ some (pos 0) → A
  not_zero code z h = let e : code ≡ pos 0 = cc h in cc (rw e at z)

  -- The adapter holds no process, and the process has exited, unless the wait after a kill expired.
  pub record Ended (alive : P → W → Bool) {A : Type 0} (p : P) (m : Machine P W)
      (r : Result A × Machine P W) : Type 0 where
    pub adapter : r.1.adapter ≡ holding host none m.adapter
    pub dead : r.0 ≢ err timeout_expired → alive p r.1.world ≡ false

  module _ (alive : P → W → Bool) (laws : ProcessLaws alive) where
    pub abandon-Ended :
        (p : P) (e : Error) (m : Machine P W)
        → Ended alive p m (abandon host p e m)
          × (((abandon host p e m).0 ≡ err e) ⊎ ((abandon host p e m).0 ≡ err timeout_expired))
    unfolding abandon
    abandon-Ended p e m = elim (wait_cases (host.wait p (wait_bound host) (host.kill p m.world))) [
      | inl (code, w, h) ↦ rw h (
        record { adapter = refl; dead = λ k. laws.closed p w (laws.waited p _ _ w code h) },
        inl refl,
      )
      | inr (w, h) ↦ rw h (record { adapter = refl; dead = λ k. absurd (k refl) }, inr refl)
    ]

    -- The exit code that ends a wait of `terminate`.
    abbrev pub exit : P → W → Option ℤ × W
    exit p w = host.wait p (wait_bound host) (host.terminate p (host.poll p w).1)

    -- stop of an adapter that holds a process leaves it holding none, with the process exited
    -- unless TimeoutExpired was raised; it returns exactly where the first wait gave the exit code
    -- 0, and a second stop returns and only closes the connections. A wait that returned a code is
    -- assumed to leave its process dead, and closing connections to start none.
    pub stop-Ended :
        (p : P) (m : Machine P W)
        → m.adapter.running ≡ some p
        → Ended alive p m (stop host m)
          × (((stop host m).0 ≡ ok tt) ↔ ((w : W) × (exit p m.world ≡ (some (pos 0), w))))
          × ((stop host (stop host m).1) ≡ (
            ok tt,
            record (stop host m).1 { world = host.close_sessions (stop host m).1.world },
          ))
    unfolding stop stop_held terminate
    stop-Ended p m held = elim (wait_cases (exit p m.world)) [
      | inl (code, w, h) ↦ elim (Bool-cases (code ==ℤ pos 0)) [
        | inl z ↦
            rw (held, h, z)
              (
                record { adapter = refl; dead = λ k. laws.closed p w (laws.waited p _ _ w code h) },
                ((λ k. (w, ap (λ c. (some c, w)) (eq_of_==ℤ code (pos 0) z))), λ x. refl),
                refl,
              )
        | inr z ↦
            rw (held, h, z)
              (
                record { adapter = refl; dead = λ k. laws.closed p w (laws.waited p _ _ w code h) },
                ((λ k. cc k), λ (v, q). not_zero code z (ap (λ r. r.0) q)),
                refl,
              )
      ]
      | inr (w, h) ↦ elim (wait_cases (host.wait p (wait_bound host) (host.kill p w))) [
        | inl (code, v, k) ↦
            rw (held, h, k)
              (
                record {
                  adapter = refl;
                  dead = λ _u. laws.closed p v (laws.waited p _ _ v code k);
                },
                ((λ j. cc j), λ (x, q). cc (ap (λ r. r.0) q)),
                refl,
              )
        | inr (v, k) ↦
            rw (held, h, k)
              (
                record { adapter = refl; dead = λ j. absurd (j refl) },
                ((λ j. cc j), λ (x, q). cc (ap (λ r. r.0) q)),
                refl,
              )
      ]
    ]

  -- wait_until_stopped of an adapter that holds a process raises TimeoutError where the wait
  -- expires, with the process still held; otherwise it returns the exit code, the adapter holds no
  -- process, and a stop then returns and leaves the adapter as it is.
  pub wait_until_stopped-stop :
      (timeout : ℕ) (p : P) (m : Machine P W) (answer : Option ℤ) (w : W)
      → m.adapter.running ≡ some p
      → host.wait p (scaled host.factor timeout) m.world ≡ (answer, w)
      → ((answer ≡ none)
          × (wait_until_stopped host timeout m ≡ (err timeout_error, record m { world = w })))
        ⊎ ((code : ℤ) × (m' : Machine P W) × (answer ≡ some code)
            × (wait_until_stopped host timeout m ≡ (ok code, m'))
            × (m'.adapter ≡ holding host none m.adapter)
            × ((stop host m').0 ≡ ok tt)
            × ((stop host m').1.adapter ≡ m'.adapter))
  unfolding wait_until_stopped wait_held stop stop_held
  wait_until_stopped-stop timeout p m none w held answered = inl (refl, rw (held, answered) refl)
  wait_until_stopped-stop timeout p m (some code) w held answered = inr (
    code,
    record { adapter = holding host none m.adapter; world = host.close_sessions w },
    refl,
    rw (held, answered) refl,
    refl,
    refl,
    refl,
  )
