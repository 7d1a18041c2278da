-- ===== src/Lib.antt =====
-- A replicated, sharded key-value store: the Raft peer, the key-value state machines that run on it,
-- and the shard groups with their handover of shards. Paths below are from the repository's root.
--
-- The program's parts. A Raft peer (src/raft/raft.go) keeps a replicated log and sends committed
-- entries up. The layer above it (src/kvraft/rsm/rsm.go) executes them on a state machine and
-- answers the submissions that wait for them. The state machine is the replicated key-value server
-- (src/kvraft/server.go) or a server of a shard group (src/shardkv/shardgrp/server.go), which holds
-- some of the twelve shards and hands them over to other groups. A configuration
-- (src/shardkv/shardcfg/shardcfg.go) says which group has which shard. The single server
-- (src/kvsrv/server.go) is the same without replication, and src/models/kv.go is the specification
-- that recorded histories are checked against. Clients reach each of them through a clerk, which
-- sends a request until it is answered. The shard controller
-- (src/shardkv/shardctrler/shardctrler.go) keeps the current and the next configuration in a single
-- server, and moves the shards from one to the other through the clerks of the groups. A console
-- (shardkv-demo/cluster) runs such a cluster: it starts, kills and isolates the processes of its
-- groups (src/tester/group.go), by hand or by a monkey that kills them at random.
--
-- The files.
--   Common          tests on numbers, lists, Go maps as association lists (Assoc)
--   Raft.Types      the `Raft` struct and the RPC messages; the disk of the persister
--   Raft.Log        lastLogIndex, lastLogTerm, sliceIndex, persist, becomeFollowerWithTerm
--   Raft.Append     the AppendEntries handler; Total, Merge, Success and Refusal are proofs
--   Raft.Vote       RequestVote, startElection and the handling of one vote
--   Raft.Snapshot   Snapshot and InstallSnapshot
--   Raft.Leader     Start, replicateToFollower, advanceCommitIndex; Count, Commit,
--                   Highest, Stale and BackOff are proofs, and Refused has the refusal of a follower together with
--                   what the leader makes of it
--   Raft.Applier    the two critical sections of a round of the applier
--   Raft.Boot       Make and readPersist
--   Raft.Invariant  well-formed peers, and the handlers that keep them so
--   Raft.Terms      what each critical section does to the term and the vote
--   Raft.Steps      a peer's life as a relation, and what holds over it; Delivery has what the
--                   applier sends in it
--   Raft.Cluster    a group of peers over a network; Quorum, Votes and Elections are proofs
--   Raft.Replicas   a group of peers that replicate their logs without snapshots; Matching proves that
--                   logs match, its other modules are lemmas
--   Kv.Api          rpcapi.go, and the versioned read and conditional write
--   Kv.Server       src/kvsrv/server.go
--   Kv.Replica      src/kvraft/server.go: DoOp, Snapshot, Restore and the RPC wrappers
--   Kv.Model        src/models/kv.go, and how the server implements it; Once proves what a version
--                   is worth
--   Clerk           the clerks of src/kvsrv/client.go (Single), of src/kvraft/client.go and
--                   src/shardkv/shardgrp/client.go (Group), and of src/shardkv/client.go (Sharded)
--   ShardGrp        src/shardkv/shardgrp/server.go: Types, Transfer (marshallShardState,
--                   installShardState), Ops (DoOp), Saved (Snapshot, Restore), Invariant, Migration
--   ShardCfg        src/shardkv/shardcfg/shardcfg.go: Rebalance, and Join and Leave (Membership);
--                   Count, Load and Stable are proofs
--   ShardCtrl       src/shardkv/shardctrler/shardctrler.go: the two configurations in the config store
--                   and the steps of the controllers; Cells and Order are proofs. Migrate has
--                   migrateShards: its list of moves, the three loops for one shard, its end, and
--                   the clerks that it uses; Moves, Route, Steps, Arrival, Overtaken and
--                   Unassigned are proofs
--   Rsm             src/kvraft/rsm/rsm.go: Submit and readApply; Results proves their answers
--   Net             src/rpc/rpc.go: the simulated network and its calls (Calls), and one request in it
--                   (Request); Once, Progress and Disabled are proofs
--   Tester          src/tester/group.go and src/tester/srv.go: which ends of the network between the
--                   servers of a group are enabled (Group); its Ends, Parts, Wired and Members are
--                   proofs
--   Demo            shardkv-demo/cluster/manager.go (Manager) and shardkv-demo/cluster/chaosmonkey.go
--                   (Chaos); the others are proofs
--   Tests           concrete runs
--
-- How the code is read. A function of the model is one critical section, between a lock and its
-- unlock; the goroutines and the network are arbitrary sequences of them with arbitrary messages.
-- In Raft.Cluster the messages of an election are those that the peers send, in Raft.Replicas also
-- the AppendEntries messages are those that a leader sends, and all others are
-- arbitrary; a reply may come late or never, and each is counted once. In Clerk and ShardCtrl a
-- call is lost before the server runs it, or after, or comes through. `none` in a result of a
-- critical section is a Go panic or `log.Fatal`; in Rsm it is also a send that blocks, or a receive
-- that still waits. The clock is an argument. Terms and indices are natural numbers, since they
-- start at 0 and grow; they are not bounded by the 63 bits of an `int`. Versions are `uint64` and
-- wrap. The -1 of `VotedFor` and `ConflictTerm` is `none`. Slices are lists and a read out of range
-- is a panic; entries are immutable, and the code copies them before it sends them. The servers'
-- arrays over the shards are functions, and those of a configuration are lists. A group id is an
-- `int`, since -1 is used.
--
-- Bounds and fuel. Every loop of the modelled code is a structural recursion over a list or an
-- index that counts down, except the loop of Rebalance that moves shards. It takes 67 rounds of
-- fuel: each move lowers the number of pairs of shards in one group, and twelve shards have at most
-- 66 pairs. The search of NewGid takes one round more than there are groups.
--
-- What is a parameter. The encoder (labgob over encoding/gob) is a `Codec` with the law that an
-- encoding decodes to its value, and the text of a configuration (encoding/json) a `ConfigText` with
-- the same law; the hash of Key2Shard is any function. What the persister stores is kept as values.
-- What the servers of a group answer to a clerk is any function of the attempt and the server.
--
-- What is not modelled: the wait of migrateShards for the goroutines of all shards, whose steps
-- ShardCtrl and ShardCtrl.Migrate have apart; goroutines of one clerk that fetch the configuration
-- together; the length of delays, the counters of calls and bytes and the dispatch by reflection in
-- src/rpc/rpc.go; the transport over sockets (src/tester/sockrpc, src/tester/demux), the checks of the
-- test harness and logging, which keep no state of the store; of the console, what only formats or
-- forwards (the web handlers, Status). Whether a daemon starts is an argument.
pub mod Common
pub mod Raft
pub mod Kv
pub mod Clerk
pub mod Rsm
pub mod ShardCfg
pub mod ShardCtrl
pub mod ShardGrp
pub mod Net
pub mod Tester
pub mod Demo
pub mod Tests
