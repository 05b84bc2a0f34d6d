-- ===== src/Lib.antt =====
-- bitcoin-node-tests: a framework of functional tests for Bitcoin nodes, and a model of the parts of it
-- that have a logic of their own. The library follows src/bitcoin_node_tests/ of the repository.
--
-- A test starts a node through a `NodeAdapter` (node.py), which draws ports, checks the options it is
-- given and spawns a process; asks the node over RPC, often through a `MiniWallet` (mini_wallet.py),
-- which keeps a cache of coins, builds transactions and mines blocks; and points it at a `Socks5Proxy`
-- (socks5.py), which records the connections that the node asks for. It connects nodes and waits for
-- them to agree (node.py), and speaks the p2p protocol with one through a `Peer` (peer.py). A run's
-- outcomes are compared with a ledger by a script of .github/scripts.
--
-- Files:
--   Base             numbers, lists, bytes and texts as lists of numbers, signed integers; `Exec` is a
--                    method that changes a state and may raise, where what was written before a raise
--                    stays; `Raise` is a pure step that may raise
--   Chain            the data that btclib and the node exchange with the wallet; `Btclib` and `Node` are
--                    what mini_wallet.py calls of btclib and of `node.rpc.call`
--   Wallet/Cache     mini_wallet.py: `get_balance`, `_is_mature`, `get_utxo`, `get_utxos`, `new_utxos`,
--                    `_scan_tx`
--   Wallet/Rpc       `_read_tip`, `__init__`, `resync`, `_mempool_spends`, `_send`
--   Wallet/Mining    `_mine_one`, `build_fork`, `build_next_block`, `generate`
--   Wallet/Build     `_pad_to_vsize`, `_self_transfer_tx`, and the pure parts of `create_self_transfer`,
--                    `create_self_transfer_multi` and `send_to`
--   Wallet/Transfer  these methods with their calls of the cache and of the node, and the chain
--   Adapter/Ports    node.py: `_worker_block`, `_PortCursor`, `free_ports`, `free_port`
--   Adapter/Options  `_option_name` to `_check_extra_args`
--   Adapter/Host     what an adapter is, and what it uses of the operating system
--   Adapter/Lifecycle  `_wait_for_rpc`, and `__init__`, `start`, `stop`, `wait_until_stopped` and
--                    `restart` of `NodeAdapter`; `_rpc_client` is a parameter, with what it raises
--   Adapter/Polling  `wait_until`, the loop on the clock that it shares with the waits of Network, and
--                    `rpc_client_timeout` of timeout_factor.py
--   Adapter/Sessions  `_ThreadSessions`
--   Adapter/Btcd     btcd.py: `_check_short_aliases`
--   Network          node.py: `_peer_ids`, `_wait_for_peer`, `_wait_for_handshake`, `connect_nodes`,
--                    `disconnect_nodes`, `wait_until_tips_agree`, `wait_until_mempools_agree`, `sync_all`
--   Peer             peer.py: what a `Peer` holds, and what it uses of btclib and of its socket
--   Peer/Reading     `_recv_more`, `_take`, `_opens_with_v1_version`, `_take_garbage`
--   Peer/Packets     `_receive_packet`, `_receive_v1`, `_receive_v2`, `receive`, `send`
--   Peer/Exchange    `wait_for`, `wait_for_disconnect`, `sync_with_ping`, `handshake`
--   Peer/Opening     `__init__`, `_v2_handshake`, `is_connected`, `close`, `Listener.accept`
--   Socks5           socks5.py: `_receive`, `_check_version`, `_negotiate`
--   Verdict          .github/scripts/btclib_node_verdict.py: `_verdict`, `expected`, `locate`, `row_of`;
--                    Verdict/Report has `parse_junit`, Verdict/Ledger `ledger_cells`, Verdict/Moves `moves`
-- Beside the definitions stand the modules of their theorems, and Examples modules with the theorems
-- at concrete inputs; Wallet/Sample has a small btclib for these.
--
-- A method of the wallet that talks to the node acts on a `World`, the wallet and the node's state; one
-- of an adapter acts on a `Machine`, the adapter and the state of the operating system; one of a peer
-- acts on a `Session`, the peer and the world of its socket. A `Network` is several nodes, by their
-- numbers, over one state. btclib, the
-- node, `subprocess` and the clock are parameters, and what a theorem assumes of them is a record of
-- laws among its arguments.
--
-- Numbers: satoshis, sizes, ports, octets and times in milliseconds are natural numbers; heights,
-- confirmations and times of blocks are signed integers; no number has a bound. A text is the list of its
-- code points. The factor of timeout_factor.py, which is a float there, is a natural number.
--
-- Bounds: the loops that wait on the clock take rounds, two more than pauses fit in the wait; those of a
-- `Peer`, which have no pause, take `turns` of them, which is enough where fewer messages that are not
-- waited for arrive before the deadline. A read of a counted number of octets, of garbage or of a prefix takes as many
-- receptions as it can need, each of one octet; a read of whole messages takes `reads` of them, enough
-- where less is still to arrive. The other loops end by their own data.
--
-- Not modelled: the texts of the exceptions, of logs and of printed lines, and files; the threads of the
-- proxy, and what interleaves inside a step of the sessions; signals, and an interrupt of a wait; a
-- timeout of a SOCKS5 client; capability.py, feature_block.py, mempool_util.py, debug_log.py, the rest of
-- the adapters of the single nodes and the other scripts of .github/scripts.
pub mod Base
pub mod Chain
pub mod Adapter
pub mod Network
pub mod Peer
pub mod Socks5
pub mod Verdict
pub mod Wallet
