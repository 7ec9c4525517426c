-- ===== src/Lib.antt =====
-- snarkops: the program logic of the workspace in crates/, as definitions that run and theorems
-- about them.
--
-- Parts. The control plane (crates/controlplane) keeps environments of nodes, assigns agents to
-- the nodes, and follows the transactions that cannons send. Control plane and agents share the
-- types and formats of crates/common: binary formats that carry versions, the texts of nodes and
-- of targets, and the events with the filters that clients subscribe with. What the control plane
-- knows of its environments, agents and storages is kept in a database in these formats.
-- crates/checkpoint says which checkpoints of a ledger stay.
--
-- Files.
-- Common: names of the library, lists, results, integers, texts as lists of character codes, and
--   hash maps as lists of pairs (Dict), indexed sets and maps with their order (Index), and
--   decimal numbers (Decimal).
-- Format: crates/common/src/format. Trait has `DataFormat` with its default methods as a record of
--   functions; a reader is a function from the bytes that are left, a write is the bytes it
--   appends and the count it returns. Ints, Packed and Collections are impl_ints.rs,
--   packed_int.rs, and impl_collections.rs with its neighbours, Maps the sets and maps of that
--   file, Net is impl_net.rs, Headers the headers that are one or two bytes. Laws states what an
--   implementation promises.
-- Database: crates/common/src/db/tree.rs. The operations of a tree over a tree of sled, which is
--   the interface `Sled` with its laws `IsSled`; Refinement compares it with a map.
-- State: crates/common/src/state, node_targets.rs, key_source.rs (KeySource) and binaries.rs
--   (Binaries). NetworkId is network.rs, NodeState is node_state.rs and agent_state.rs. NodeType,
--   NodeKey, NodeTarget, InternedId, AgentMode, HeightRequest, PortConfig and TransactionSendState
--   are the files of these names, Reconcile is reconcile.rs, BlockInfo and TransferStatus are
--   `LatestBlockInfo` and the transfers of agent_status.rs; a regular expression is the function
--   that finds its groups.
-- Agent: Reconcile is the state machine of crates/agent/src/reconcile/agent.rs, with Node (the
--   node and environment it reads) and Parts (the reconcilers it runs, as an interface); Order and
--   Running are its theorems; Loop is loop_forever, a round at a time. Transfers is
--   crates/agent/src/transfers.rs, the monitor of transfers; Follows puts it together with the
--   calls in Controlplane.Rpc (crates/controlplane/src/server/rpc.rs), with the messages in
--   flight, which may overtake each other or be lost; Traced and Run are its theorems.
-- Checkpoint: Manager, Header and Ledger are crates/checkpoint/src/manager.rs and header.rs, over
--   a ledger of snarkVM; what happens to files is told by their paths. Retention is
--   crates/checkpoint/src/retention.rs, Formats is impl_checkpoint.rs of the formats. A time is a
--   number of nanoseconds. `reject_with_time` keeps the variables of the loops in the record
--   `Walk`, a round of the outer loop is `round`, the inner loop is `next_rule`.
-- Events: crates/common/src/events. Models and Filter are models.rs, filter.rs and filter_ops.rs;
--   Parse is filter_parse.rs, the lexer and the parser.
-- Controlplane: Transactions and Tracking are crates/controlplane/src/state/transactions.rs, the
--   transactions that are due and what a round of the task does with them; Tracker is the attempts
--   of cannon/tracker.rs in the database. Nodes is the nodes of schema/nodes.rs with their
--   formats, Agents is state/agent.rs, and Persist is persist/, in Cannons, Node, Env, Storage and
--   Agent. Environment is what `Environment::apply` of env/mod.rs does with a nodes document:
--   Replicas flattens the replicas, Paired and Pairs give agents to the incoming nodes, Merging
--   and Peers change the states and the peers, Consistent, Merged and Effect say what is left. Env
--   is crates/controlplane/src/env/set.rs, with the masks of state/agent_flags.rs and
--   schema/nodes.rs: Mask the masks, Claim the threads that claim an agent, Pairing
--   `pair_with_nodes`. Cache is env/cache.rs: the blocks, transactions and peers that are known of
--   a network.
-- Tests: runs of the definitions, a set of peers as the log of its changes (PeerLog), and the
--   theorems at concrete inputs.
--
-- Bounds and fuel. A usize has 64 bits; decimal numbers have fuel for 20 digits, which every u64
-- fits. The replicas of a node are at most 10000, as in the code. Integers are natural numbers
-- with the bound of their width as a hypothesis where it matters. The loop of `reject_with_time`
-- has fuel for one round more than there are rules and times, and each round uses up a time or a
-- rule. The lexer and the parser of filters have as much fuel as there are characters and tokens.
-- `leading_zeros` counts 64 bits.
--
-- Parameters. `is_utf8` is the validation of a string, `is_time` which times the crate chrono
-- accepts, `WildMatch` and `BitSet` the crates wildmatch and fixedbitset with the laws that the
-- code relies on, `ask` what a node answers for a transaction, `Ledger` what is read of a ledger,
-- `Sled` a tree of the crate sled, whose writes are read back at their keys, and `BiMap` a map of
-- the crate bimap, with its laws `IsBiMap` for the peers of an environment. `parse_url` is the
-- parser of the crate url. A key of an external node in a nodes document is not also that of an
-- internal one, and no internal node was external before, where the consistency of an environment
-- is stated.
--
-- Claims. A thread in `AgentMapping::claim` goes from one read or write of the strong count to the
-- next, and the threads interleave in any order; the memory order of the reads is not modelled.
-- `pair_with_nodes` takes the nodes in any order, a claim after the other. The ids of transfers
-- come from a counter that does not wrap, and the id of a transfer is drawn when the monitor
-- handles its begin.
--
-- Conditions. Flow info and scope of an IPv6 address are not written, and `Many` of fewer than two
-- targets is not read back, so the round trips of what holds them leave these out.
--
-- Not modelled: serde, axum, the RPC transports, processes and files, ledgers and transactions of
-- snarkVM, the command line, the metrics, and short writes of a writer. Of environments, the order
-- in which an iteration of a map yields its entries is that of `entries`, and the storage, the
-- cannons and the reconciliation of agents that `Environment::apply` ends with are left out; so
-- are the conversions between environments and what is kept of them, the encoded values of the
-- formats, and the files of agents.
pub mod Common
pub mod Format
pub mod State
pub mod Checkpoint
pub mod Events
pub mod Database
pub mod Agent
pub mod Controlplane
pub mod Tests
