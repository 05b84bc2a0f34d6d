-- ===== src/Wallet.antt =====
-- src/bitcoin_node_tests/mini_wallet.py: `MiniWallet` and the functions beside it.
pub mod Cache
pub mod Rpc
pub mod Mining
pub mod Build
pub mod Transfer
mod Sample
mod Examples
mod NodeExamples
