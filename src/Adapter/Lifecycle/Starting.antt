-- ===== src/Adapter/Lifecycle/Starting.antt =====
-- What `start` and `restart` of src/bitcoin_node_tests/node.py do.
use bitcoin_node_tests.Base.{
  ℕ, ◌+◌, ◌≡◌, ◌≢◌, refl, ap, ◌∙◌, ◌⊎◌, inl, inr, Bool, none, some, List, ◌++◌, All,
}
use bitcoin_node_tests.Adapter.Host.{Host, Subclass, NodeAdapter, Machine}
use bitcoin_node_tests.Adapter.Lifecycle.{
  out_of_rounds, Outcome, wait_for_rpc, ready, start, wait_bound, start_held, raised, start_with,
  holding, exited, refused, timed_out, abandon, restart, stop, finish_start, restart_with,
  restart_args,
}
use bitcoin_node_tests.Adapter.Lifecycle.Ending.{ProcessLaws, Ended, abandon-Ended}
use bitcoin_node_tests.Base.Bytes.{Text}
use bitcoin_node_tests.Adapter.Lifecycle.Waiting.{ClockLaws, Shows, wait_for_rpc-Shows}
use bitcoin_node_tests.Base.Exec.{
  ◌>>◌, Error, err, ok, runtime_error, timeout_error, timeout_expired, value_error, Result,
}
use bitcoin_node_tests.Adapter.Options.Reserved.{IsAllowed, check_extra_args_lem}
use bitcoin_node_tests.Adapter.Options.{check_extra_args}

module _ {P W : Type 0} (host : Host P W) (sub : Subclass) where
  -- the command line of a start
  abbrev pub argv : List Text → NodeAdapter P → List Text
  argv args a = sub.command a.config ++ args

  -- the wait of a start, from its first test of the clock
  abbrev pub wait_of : P → W → Outcome × W
  wait_of p w = wait_for_rpc host p (wait_bound host) w

  raised-Shows :
      (p : P) (deadline : ℕ) (o : Outcome) (w : W)
      → Shows host p deadline o w
      → o ≢ ready
      → (e : Error) × (raised o ≡ err e) × ((e ≡ runtime_error) ⊎ (e ≡ timeout_error))
  raised-Shows p deadline ready w s h = absurd (h refl)
  raised-Shows p deadline exited w s h = (runtime_error, refl, inl refl)
  raised-Shows p deadline refused w s h = (runtime_error, refl, inl refl)
  raised-Shows p deadline timed_out w s h = (timeout_error, refl, inr refl)
  raised-Shows p deadline out_of_rounds w s h = absurd s

  -- the machine once the wait of a start is over
  abbrev waited_for : NodeAdapter P → P → W → Machine P W
  waited_for a p w = record { adapter = holding host (some p) a; world = (wait_of p w).1 }

  start-finish_start :
      (m : Machine P W) (p : P) (w v : W) (r : Result (Unit {0}))
      → m.adapter.running ≡ none
      → host.spawn (argv m.adapter.extra_args m.adapter) m.world ≡ (ok p, w)
      → host.rpc_client w ≡ (ok tt, v)
      → raised (wait_of p v).0 ≡ r
      → start host sub m ≡ finish_start host p r (waited_for m.adapter p v)
  unfolding start start_held start_with
  start-finish_start m p w v r free spawned built q = rw (free, spawned, built, q) refl

  start-abandon :
      (m : Machine P W) (p : P) (w v : W) (e : Error)
      → m.adapter.running ≡ none
      → host.spawn (argv m.adapter.extra_args m.adapter) m.world ≡ (ok p, w)
      → host.rpc_client w ≡ (err e, v)
      → start host sub m
        ≡ abandon host p e (record { adapter = holding host (some p) m.adapter; world = v })
  unfolding start start_held start_with
  start-abandon m p w v e free spawned built = rw (free, spawned, built) refl

  module _ (alive : P → W → Bool) (laws : ProcessLaws host alive) (clock : ClockLaws host) where
    -- the same end, of a machine with another process held
    Ended-as :
        (p : P) (e : Error) (m left : Machine P W)
        → holding host none left.adapter ≡ holding host none m.adapter
        → (e ≡ runtime_error) ⊎ (e ≡ timeout_error)
        → Ended host alive p left (abandon host p e left)
          × (((abandon host p e left).0 ≡ err e)
              ⊎ ((abandon host p e left).0 ≡ err timeout_expired))
        → Ended host alive p m (abandon host p e left)
          × (((abandon host p e left).0 ≡ err runtime_error)
              ⊎ ((abandon host p e left).0 ≡ err timeout_error)
              ⊎ ((abandon host p e left).0 ≡ err timeout_expired))
    Ended-as p e m left same kind (ended, outcome) = (
      record { adapter = ended.adapter ∙ same; dead = ended.dead },
      elim outcome [
        | inr x ↦ inr (inr x)
        | inl x ↦ elim kind [ inl k ↦ inl (x ∙ ap err k) | inr k ↦ inr (inl (x ∙ ap err k)) ]
      ],
    )

    -- A start whose process was spawned by an adapter that holds none, and whose RPC client was
    -- built, returns and holds that process where the RPC became ready. Otherwise it raises
    -- RuntimeError, TimeoutError or, where the killed process does not exit in time either,
    -- TimeoutExpired. Where building the client raised, it raises the same, or TimeoutExpired. Of a
    -- start that raised, the adapter holds no process, and but for TimeoutExpired the process has
    -- exited. A wait that returned a code is assumed to leave its process dead, closing connections
    -- to start none, and the clock to run forward and past each pause.
    pub start-Ended :
        (m : Machine P W) (p : P) (w v : W)
        → m.adapter.running ≡ none
        → host.spawn (argv m.adapter.extra_args m.adapter) m.world ≡ (ok p, w)
        → (host.rpc_client w ≡ (ok tt, v)
            → ((wait_of p v).0 ≡ ready
                → start host sub m ≡ (
                  ok tt,
                  record { adapter = holding host (some p) m.adapter; world = (wait_of p v).1 },
                ))
              × ((wait_of p v).0 ≢ ready
                  → Ended host alive p m (start host sub m)
                    × (((start host sub m).0 ≡ err runtime_error)
                        ⊎ ((start host sub m).0 ≡ err timeout_error)
                        ⊎ ((start host sub m).0 ≡ err timeout_expired))))
          × ((e : Error)
              → host.rpc_client w ≡ (err e, v)
              → Ended host alive p m (start host sub m)
                × (((start host sub m).0 ≡ err e) ⊎ ((start host sub m).0 ≡ err timeout_expired)))
    start-Ended m p w v free spawned = (
      λ built. (
        (λ r. start-finish_start m p w v (ok tt) free spawned built (ap raised r)),
        λ failed.
            let (e, q, kind) =
              raised-Shows p (host.monotonic v + wait_bound host) (wait_of p v).0 (wait_of p v).1
                (wait_for_rpc-Shows host clock p (wait_bound host) v) failed in
            let left = waited_for m.adapter p v in
            rw (start-finish_start m p w v (err e) free spawned built q)
              (Ended-as p e m left refl kind (abandon-Ended host alive laws p e left)),
      ),
      λ e built.
          let left : Machine P W = record {
            adapter = holding host (some p) m.adapter;
            world = v;
          } in
          let (ended, outcome) = abandon-Ended host alive laws p e left in
          rw (start-abandon m p w v e free spawned built)
            (record { adapter = ended.adapter; dead = ended.dead }, outcome),
    )

  checked :
      (args : List Text) (a : NodeAdapter P) (r : Result (Unit {0}))
      → check_extra_args (sub.command a.config) args ≡ r
      → restart_args host sub (some args) a ≡ elim r [ ok u ↦ ok args | err e ↦ err e ]
  checked args a r e =
      ap
        (λ (r : Result (Unit {0})). elim r as (λ _. Result (List Text)) [
          | ok u ↦ ok args
          | err e ↦ err e
        ])
        e

  restart-stop :
      (args : List Text) (m : Machine P W)
      → check_extra_args (sub.command m.adapter.config) args ≡ ok tt
      → restart host sub (some args) m ≡ (stop host >> start_with host sub args) m
  unfolding restart restart_with
  restart-stop args m e = ap (λ r. restart_with host sub r m) (checked args m.adapter (ok tt) e)

  restart-refused :
      (args : List Text) (m : Machine P W)
      → check_extra_args (sub.command m.adapter.config) args ≡ err value_error
      → restart host sub (some args) m ≡ (err value_error, m)
  unfolding restart restart_with
  restart-refused args m e =
      ap (λ r. restart_with host sub r m) (checked args m.adapter (err value_error) e)

  -- A restart with arguments of its own raises ValueError, with nothing stopped or changed, where
  -- one of them sets a reserved option; where none does, it stops and then starts with these
  -- arguments, and raises what stop raises, with nothing started.
  pub restart_outcomes :
      (args : List Text) (m : Machine P W)
      → (¬ All (IsAllowed (sub.command m.adapter.config)) args
          → restart host sub (some args) m ≡ (err value_error, m))
        × (All (IsAllowed (sub.command m.adapter.config)) args
            → ((m' : Machine P W)
                → stop host m ≡ (ok tt, m')
                → restart host sub (some args) m ≡ start_with host sub args m')
              × ((e : Error) (m' : Machine P W)
                  → stop host m ≡ (err e, m')
                  → restart host sub (some args) m ≡ (err e, m')))
  restart_outcomes args m = elim (check_extra_args_lem (sub.command m.adapter.config) args) [
    | inl (e, h) ↦ (
      λ k. absurd (k h),
      λ k. (
        (λ m' stopped. restart-stop args m e ∙ rw stopped refl),
        λ x m' stopped. restart-stop args m e ∙ rw stopped refl,
      ),
    )
    | inr (e, h) ↦ ((λ k. restart-refused args m e), λ k. absurd (h k))
  ]
