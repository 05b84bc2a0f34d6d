-- ===== src/Adapter/Host.antt =====
-- src/bitcoin_node_tests/node.py: what an adapter is, and what it uses of the operating system and of
-- its node. Times are in milliseconds.
use bitcoin_node_tests.Base.{ℕ, ◌*◌, Bool, Option, List}
use bitcoin_node_tests.Base.Bytes.{Text}
use bitcoin_node_tests.Base.Int.{ℤ}
use bitcoin_node_tests.Base.Exec.{Result}

-- How one RPC call of `_wait_for_rpc` ends: an answer, an `RpcError` with its code, an `HttpError`
-- with its status, or another exception.
pub data Probe : Type 0 where
  answered : Probe
  rpc_failure : ℤ → Probe
  http_failure : ℕ → Probe
  other_failure : Probe

-- `subprocess`, the clock and the RPC connections, over the state `W` of the machine. A process of
-- type `P` is polled and waited for: none where it is still running, else its exit code.
pub record Host (P W : Type 0) : Type 0 where
  pub spawn : List Text → W → Result P × W
  pub poll : P → W → Option ℤ × W
  pub terminate : P → W → W
  pub kill : P → W → W
  pub wait : P → ℕ → W → Option ℤ × W
  -- `_rpc_client` of the subclass, and what it raises
  pub rpc_client : W → Result (Unit {0}) × W
  -- `rpc.call("getblockchaininfo")`
  pub probe : W → Probe × W
  pub sleep : ℕ → W → W
  -- `time.monotonic()`
  pub monotonic : W → ℕ
  -- `_ThreadSessions.close`
  pub close_sessions : W → W
  -- `RPCErrorCode.IN_WARMUP`
  pub in_warmup : ℤ
  -- what `timeout_factor.scaled` multiplies a wait by
  pub factor : ℕ

-- The configuration an adapter is built with.
pub record Config : Type 0 where
  pub executable : Text
  pub datadir : Text
  pub rpc_port : ℕ
  pub p2p_port : ℕ
  pub rpc_auth : Option (Text × Text)
  pub trace_rpc : Bool
  pub chain : Text

-- A subclass: the chains it starts, and the command line of a configuration.
pub record Subclass : Type 0 where
  pub chains : List Text
  pub command : Config → List Text

-- An adapter: what `__init__` stores, and the process that it holds.
pub record NodeAdapter (P : Type 0) : Type 0 where
  pub config : Config
  pub extra_args : List Text
  pub running : Option P

-- an adapter and the machine
pub record Machine (P W : Type 0) : Type 0 where
  pub adapter : NodeAdapter P
  pub world : W

-- `scaled`
unfoldable pub scaled : ℕ → ℕ → ℕ
scaled factor wait = wait * factor
