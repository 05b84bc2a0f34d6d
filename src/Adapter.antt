-- ===== src/Adapter.antt =====
-- src/bitcoin_node_tests/node.py: how an adapter draws its ports, checks its options, starts, stops and
-- restarts its node, and keeps its RPC sessions; and btcd.py: how btcd's adapter checks its options.
pub mod Options
pub mod Ports
pub mod Host
pub mod Lifecycle
pub mod Polling
pub mod Sessions
pub mod Btcd
mod Examples
mod PortExamples
