-- ===== src/Adapter/Lifecycle.antt =====
-- src/bitcoin_node_tests/node.py: `_wait_for_rpc`, and the start, stop and restart of `NodeAdapter`.
pub mod Waiting
pub mod Ending
pub mod Starting
use bitcoin_node_tests.Base.{
  ℕ, zero, suc, ◌+◌, ◌-◌, ◌*◌, ◌≤◌, ◌<◌, ◌≡◌, ◌≢◌, refl, sym, ap, ◌∙◌, ◌↔◌, ◌⊎◌, inl, inr, Bool,
  true, false, not, ◌&&◌, ◌||◌, Option, none, some, List, [], ◌∷◌, ◌++◌, map, arith, All,
  Bool-cases, if◌then◌else◌, ◌/◌, ltb, ◌==◌,
}
use bitcoin_node_tests.Adapter.Host.{
  other_failure, Host, NodeAdapter, Probe, Subclass, scaled, Machine, answered, rpc_failure, Config,
  http_failure,
}
use bitcoin_node_tests.Base.Exec.{
  ◌>>=◌, ◌>>◌, Result, Exec, ok, Error, err, modify, pure, raise, runtime_error, timeout_error,
  unfinished, value_error, gets, lift, require, or_raise, timeout_expired,
}
use bitcoin_node_tests.Base.Int.{ℤ, ◌==ℤ◌, pos}
use bitcoin_node_tests.Adapter.Options.{check_extra_args, has_name}
use bitcoin_node_tests.Base.Bytes.{Text}

-- `_STARTUP_TIMEOUT`, `_PROC_WAIT_TIMEOUT` and the pause between two probes
abbrev pub startup_timeout : ℕ
startup_timeout = 30_000

abbrev pub proc_wait_timeout : ℕ
proc_wait_timeout = 60_000

abbrev pub probe_pause : ℕ
probe_pause = 100

-- How `_wait_for_rpc` ends.
pub data Outcome : Type 0 where
  ready exited refused timed_out out_of_rounds : Outcome

-- what it raises, if anything
abbrev pub raised : Outcome → Result (Unit {0})
raised ready = ok tt
raised exited = err runtime_error
raised refused = err runtime_error
raised timed_out = err timeout_error
raised out_of_rounds = err unfinished

module _ {P W : Type 0} (host : Host P W) where
  -- whether waiting longer cannot turn a failure into an answer
  unfoldable pub is_refusal : Probe → Bool
  is_refusal answered = false
  is_refusal (rpc_failure code) = not (code ==ℤ host.in_warmup)
  is_refusal (http_failure status) = status == 401 || status == 403
  is_refusal other_failure = false

  -- What a probe settles, if anything.
  abbrev pub settles : Probe → Option Outcome
  settles answered = some ready
  settles p = if is_refusal p then some refused else none

  abbrev pub after_probe : Probe × W → (W → Outcome × W) → Outcome × W
  after_probe (p, v) go_on = elim (settles p) [ none ↦ go_on v | some o ↦ (o, v) ]

  abbrev pub after_poll : Option ℤ × W → (W → Outcome × W) → Outcome × W
  after_poll (some code, v) go_on = (exited, v)
  after_poll (none, v) go_on = go_on v

  -- The loop of `_wait_for_rpc`, for at most so many rounds.
  unfoldable pub wait_rounds : ℕ → P → ℕ → W → Outcome × W
  wait_rounds zero process deadline w = (out_of_rounds, w)
  wait_rounds (suc rounds) process deadline w =
      if ltb (host.monotonic w) deadline
      then after_poll (host.poll process w) (λ v.
        after_probe (host.probe v)
          (λ u. wait_rounds rounds process deadline (host.sleep probe_pause u)))
      else (timed_out, w)

  -- `_wait_for_rpc`: a pause in each round, so the rounds are as many as pauses fit in the wait, and
  -- two more.
  unfoldable pub wait_for_rpc : P → ℕ → W → Outcome × W
  unfolding wait_rounds
  wait_for_rpc process timeout w =
      wait_rounds (suc (suc (timeout / probe_pause))) process (host.monotonic w + timeout) w

  -- Steps of a method: a change of the machine, what the machine shows, and the process held.
  abbrev pub perform : (W → W) → Exec (Machine P W) (Unit {0})
  perform f = modify (λ m. record m { world = f m.world })

  abbrev pub observe : {A : Type 0} → (W → A × W) → Exec (Machine P W) A
  observe f m = let (a, w) = f m.world in (ok a, record m { world = w })

  abbrev pub attempt : {A : Type 0} → (W → Result A × W) → Exec (Machine P W) A
  attempt f m = let (r, w) = f m.world in (r, record m { world = w })

  abbrev pub holding : Option P → NodeAdapter P → NodeAdapter P
  holding p a = record a { running = p }

  abbrev pub hold : Option P → Exec (Machine P W) (Unit {0})
  hold p = modify (λ m. record m { adapter = holding p m.adapter })

  -- `try: ... finally: self._sessions.close()`
  abbrev pub finally_close : {A : Type 0} → Exec (Machine P W) A → Exec (Machine P W) A
  finally_close body m =
      let (r, m') = body m in (r, record m' { world = host.close_sessions m'.world })

  abbrev pub wait_bound : ℕ
  wait_bound = scaled host.factor startup_timeout

  -- `process.wait(timeout=...)`
  abbrev pub await : P → Exec (Machine P W) ℤ
  await process = do
    code ← observe (host.wait process wait_bound)
    lift (or_raise code timeout_expired)

  -- `except BaseException:` of `_start`: the process is forgotten and killed, and the error raised again
  unfoldable pub abandon : P → Error → Exec (Machine P W) (Unit {0})
  unfolding scaled
  abandon process e = do
    hold none
    finally_close (do perform (host.kill process); await process)
    raise e

  abbrev pub finish_start : P → Result (Unit {0}) → Exec (Machine P W) (Unit {0})
  finish_start process (ok u) = pure tt
  finish_start process (err e) = abandon process e

  -- `NodeAdapter._terminate`: the exit code
  unfoldable pub terminate : P → Exec (Machine P W) ℤ
  unfolding scaled
  terminate process = do
    observe (host.poll process)
    perform (host.terminate process)
    code ← observe (host.wait process wait_bound)
    elim code [
      | some c ↦ pure c
      | none ↦ (do perform (host.kill process); await process; raise timeout_error)
    ]

  -- `NodeAdapter.stop`, by the process held
  unfoldable pub stop_held : Option P → Exec (Machine P W) (Unit {0})
  unfolding terminate
  stop_held none = perform host.close_sessions
  stop_held (some process) = do
    hold none
    code ← finally_close (terminate process)
    require (code ==ℤ pos 0) runtime_error

  unfoldable pub stop : Exec (Machine P W) (Unit {0})
  unfolding stop_held
  stop m = stop_held m.adapter.running m

  -- `NodeAdapter.wait_until_stopped`, by the process held
  unfoldable pub wait_held : ℕ → Option P → Exec (Machine P W) ℤ
  unfolding scaled
  wait_held timeout none = raise runtime_error
  wait_held timeout (some process) = do
    answer ← observe (host.wait process (scaled host.factor timeout))
    code ← lift (or_raise answer timeout_error)
    hold none
    perform host.close_sessions
    pure code

  unfoldable pub wait_until_stopped : ℕ → Exec (Machine P W) ℤ
  unfolding wait_held
  wait_until_stopped timeout m = wait_held timeout m.adapter.running m

module _ {P W : Type 0} (host : Host P W) (sub : Subclass) where
  -- `NodeAdapter.__init__`
  unfoldable pub new_adapter : Config → List Text → Result (NodeAdapter P)
  unfolding check_extra_args
  new_adapter config extra_args =
      if has_name config.chain sub.chains
      then elim (check_extra_args (sub.command config) extra_args) [
        | ok u ↦ ok (record { config = config; extra_args = extra_args; running = none })
        | err e ↦ err e
      ]
      else err value_error

  -- The `try` of `_start`: what building the client raises, or else what the wait for the RPC does.
  abbrev pub try_rpc : P → Result (Unit {0}) → Exec (Machine P W) (Result (Unit {0}))
  try_rpc process (err e) = pure (err e)
  try_rpc process (ok client) = do
    outcome ← observe host (wait_for_rpc host process (wait_bound host))
    pure (raised outcome)

  -- `NodeAdapter._start`
  unfoldable pub start_with : List Text → Exec (Machine P W) (Unit {0})
  unfolding wait_for_rpc
  start_with args = do
    m ← gets (λ m. m)
    process ← attempt host (host.spawn (sub.command m.adapter.config ++ args))
    hold host (some process)
    client ← observe host host.rpc_client
    answer ← try_rpc process client
    finish_start host process answer

  -- `NodeAdapter.start`, by the process held
  unfoldable pub start_held : Option P → Exec (Machine P W) (Unit {0})
  unfolding start_with
  start_held (some process) m = (err runtime_error, m)
  start_held none m = start_with m.adapter.extra_args m

  unfoldable pub start : Exec (Machine P W) (Unit {0})
  unfolding start_held
  start m = start_held m.adapter.running m

  -- the arguments of a restart: the constructor's own where none are given
  abbrev pub restart_args : Option (List Text) → NodeAdapter P → Result (List Text)
  restart_args none a = ok a.extra_args
  restart_args (some args) a = elim (check_extra_args (sub.command a.config) args) [
    | ok u ↦ ok args
    | err e ↦ err e
  ]

  -- `NodeAdapter.restart`, by its arguments
  unfoldable pub restart_with : Result (List Text) → Exec (Machine P W) (Unit {0})
  unfolding start_with
  restart_with (err e) m = (err e, m)
  restart_with (ok args) m = (stop host >> start_with args) m

  unfoldable pub restart : Option (List Text) → Exec (Machine P W) (Unit {0})
  unfolding restart_with
  restart extra_args m = restart_with (restart_args extra_args m.adapter) m
