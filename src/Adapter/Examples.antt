-- ===== src/Adapter/Examples.antt =====
-- The adapter's theorems at concrete inputs.
use bitcoin_node_tests.Base.{
  ℕ, ◌+◌, ◌≡◌, ◌≢◌, refl, sym, ap, ◌↔◌, ◌⊎◌, Bool, true, false, Option, none, some, [], ◌∷◌, arith,
  All,
}
use bitcoin_node_tests.Adapter.Host.{
  Config, Host, Machine, Probe, Subclass, answered, http_failure, scaled,
}
use bitcoin_node_tests.Adapter.Lifecycle.{
  stop, wait_for_rpc, restart, start, start_with, Outcome, refused, ready, wait_until_stopped,
  holding,
}
use bitcoin_node_tests.Adapter.Lifecycle.Ending.{
  Ended, ProcessLaws, exit, stop-Ended, wait_until_stopped-stop,
}
use bitcoin_node_tests.Adapter.Lifecycle.Waiting.{Shows, ClockLaws, wait_for_rpc-Shows}
use bitcoin_node_tests.Adapter.Options.{check_extra_args}
use bitcoin_node_tests.Base.Bytes.{Text}
use bitcoin_node_tests.Base.Int.{ℤ, pos, negsuc}
use bitcoin_node_tests.Base.Exec.{
  ok, err, runtime_error, value_error, timeout_error, timeout_expired,
}
use bitcoin_node_tests.Adapter.Options.Reserved.{IsAllowed, check_extra_args_lem}
use bitcoin_node_tests.Adapter.Lifecycle.Starting.{restart_outcomes, start-Ended}

-- `-d`, `-nod` and `--e=1`
abbrev token_d : Text
token_d = 45 ∷ 100 ∷ []

abbrev token_nod : Text
token_nod = 45 ∷ 110 ∷ 111 ∷ 100 ∷ []

abbrev token_e : Text
token_e = 45 ∷ 45 ∷ 101 ∷ 61 ∷ 49 ∷ []

check_extra_args_example :
    ((check_extra_args (token_d ∷ []) (token_e ∷ token_nod ∷ []) ≡ ok tt)
      × All (IsAllowed (token_d ∷ [])) (token_e ∷ token_nod ∷ []))
    ⊎ ((check_extra_args (token_d ∷ []) (token_e ∷ token_nod ∷ []) ≡ err value_error)
        × ¬ All (IsAllowed (token_d ∷ [])) (token_e ∷ token_nod ∷ []))
check_extra_args_example = check_extra_args_lem (token_d ∷ []) (token_e ∷ token_nod ∷ [])

-- One process, which exits once it is told to, on a machine with a clock.
record Clocked : Type 0 where
  clock : ℕ
  running : Bool

wait_one : ℕ → Bool → ℕ → Option ℤ × Clocked
wait_one n true clock = (none, record { clock = clock + n; running = true })
wait_one n false clock = (some (pos 0), record { clock = clock; running = false })

-- a machine whose node answers each probe so
host_of : Probe → Host ℕ Clocked
host_of probe = record {
  spawn = λ argv w. (ok 7, record w { running = true });
  poll = λ p w. (none, w);
  terminate = λ p w. record w { running = false };
  kill = λ p w. record w { running = false };
  wait = λ p n w. wait_one n w.running w.clock;
  rpc_client = λ w. (ok tt, w);
  probe = λ w. (probe, w);
  sleep = λ n w. record w { clock = w.clock + n };
  monotonic = λ w. w.clock;
  close_sessions = λ w. w;
  in_warmup = negsuc 27;
  factor = 1;
}

abbrev alive : ℕ → Clocked → Bool
alive p w = w.running

wait_one-some :
    (n : ℕ) (running : Bool) (clock : ℕ) (w : Clocked) (code : ℤ)
    → wait_one n running clock ≡ (some code, w)
    → w.running ≡ false
unfolding wait_one
wait_one-some n true clock w code h = cc (ap (λ r. r.0) h)
wait_one-some n false clock w code h = ap (λ (r : Option ℤ × Clocked). r.1.running) (sym h)

process_laws : (probe : Probe) → ProcessLaws (host_of probe) alive
unfolding host_of
process_laws probe = record {
  waited = λ p n w w' code h. wait_one-some n w.running w.clock w' code h;
  closed = λ p w h. h;
}

clock_laws : (probe : Probe) → ClockLaws (host_of probe)
unfolding host_of
clock_laws probe = record {
  poll = λ p w. omega arith;
  probe = λ w. omega arith;
  sleep = λ n w. omega arith;
}

abbrev config : Config
config = record {
  executable = [];
  datadir = [];
  rpc_port = 26000;
  p2p_port = 26001;
  rpc_auth = none;
  trace_rpc = false;
  chain = [];
}

abbrev subclass : Subclass
subclass = record { chains = [] ∷ []; command = λ c. token_d ∷ [] }

abbrev idle : Machine ℕ Clocked
idle = record {
  adapter = record { config = config; extra_args = token_e ∷ []; running = none };
  world = record { clock = 5; running = false };
}

abbrev started : Machine ℕ Clocked
started = record {
  adapter = record { config = config; extra_args = token_e ∷ []; running = some 7 };
  world = record { clock = 5; running = true };
}

abbrev answering : Host ℕ Clocked
answering = host_of answered

abbrev refusing : Host ℕ Clocked
refusing = host_of (http_failure 401)

wait_for_rpc-Shows_example :
    Shows refusing 7 2005
      (wait_for_rpc refusing 7 2000 started.world).0
      (wait_for_rpc refusing 7 2000 started.world).1
unfolding host_of
wait_for_rpc-Shows_example =
    wait_for_rpc-Shows refusing (clock_laws (http_failure 401)) 7 2000 started.world

refused-ne : (o : Outcome) → o ≡ refused → o ≢ ready
refused-ne o p q = cc (p, q)

refused_lem : (wait_for_rpc refusing 7 30_000 started.world).0 ≡ refused
unfolding host_of wait_for_rpc bitcoin_node_tests.Adapter.Lifecycle.is_refusal
refused_lem = refl

start-Ended_example :
    Ended refusing alive 7 idle (start refusing subclass idle)
    × (((start refusing subclass idle).0 ≡ err runtime_error)
        ⊎ ((start refusing subclass idle).0 ≡ err timeout_error)
        ⊎ ((start refusing subclass idle).0 ≡ err timeout_expired))
unfolding host_of scaled
start-Ended_example =
    ((start-Ended refusing subclass alive (process_laws (http_failure 401))
          (clock_laws (http_failure 401)) idle 7 started.world started.world refl refl).0
        refl).1
      (refused-ne _ refused_lem)

stop-Ended_example :
    Ended answering alive 7 started (stop answering started)
    × (((stop answering started).0 ≡ ok tt) ↔ (
        (w : Clocked) × (exit answering alive (process_laws answered) 7 started.world
          ≡ (some (pos 0), w))))
    × (stop answering (stop answering started).1 ≡ (
      ok tt,
      record (stop answering started).1 {
        world = answering.close_sessions (stop answering started).1.world;
      },
    ))
stop-Ended_example = stop-Ended answering alive (process_laws answered) 7 started refl

restart_outcomes_example :
    restart answering subclass (some []) idle ≡ start_with answering subclass [] idle
unfolding host_of stop
restart_outcomes_example = ((restart_outcomes answering subclass [] idle).1 tt).0 idle refl

-- the process still runs when the wait is over
abbrev still_running : Machine ℕ Clocked
still_running = record started { world = record { clock = 1005; running = true } }

abbrev no_code : Option ℤ
no_code = none

wait_until_stopped-stop_example :
    ((no_code ≡ none)
      × (wait_until_stopped answering 1000 started ≡ (err timeout_error, still_running)))
    ⊎ ((code : ℤ) × (m' : Machine ℕ Clocked) × (no_code ≡ some code)
        × (wait_until_stopped answering 1000 started ≡ (ok code, m'))
        × (m'.adapter ≡ holding answering none started.adapter)
        × ((stop answering m').0 ≡ ok tt)
        × ((stop answering m').1.adapter ≡ m'.adapter))
unfolding host_of wait_one scaled
wait_until_stopped-stop_example =
    wait_until_stopped-stop answering 1000 7 started no_code still_running.world refl refl
