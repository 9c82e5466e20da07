-- ===== src/Lib.antt =====
-- The core of multipipelinehs, a pipelined HotStuff that is written in Go: votes, certificates and the
-- block tree, the pacemaker, and the protocol that stands on them.
--
-- A replica (replica/replica.go) proposes transactions from a pool (mempool/). It takes blocks, votes and
-- timeout messages, which its node (node/node.go) receives from a socket (socket/socket.go) and gives to
-- its handlers, and its loops hand them to the protocol.
-- The protocol (mhotstuff/mhotstuff.go, or its variant
-- mthotstuff/mthotstuff.go) stores blocks in a block chain (blockchain/blockchain.go), which is a tree
-- by levels (blockchain/leveled_forrest.go) with a vote collector (blockchain/quorum.go). It asks an
-- election (election/) who leads a view, checks signatures (crypto/sign.go), and moves its view by the
-- pacemaker (pacemaker/pacemaker.go), which also collects timeout messages
-- (pacemaker/timeoutController.go). The key-value store (db/) stands apart, and nothing calls it yet.
--
-- Prelude: library names, Boolean tests, lists, Go maps as association lists (Maps), counting of
--   distinct elements and keys (Count), signed differences (Int).
-- Types: the data that the packages share, and calls that may panic (`Result`).
-- Identity: node ids in decimal (identity/identity.go); RoundTrip holds proofs.
-- Crypto: crypto/sign.go and crypto/ecdsa.go with ECDSA as the parameter `Ecdsa`; Certificates
--   holds proofs. Keys: how `SetKeys` makes the keys, with its proofs.
-- Election: the interface of election/election.go, Rotation and Static. SHA-1 is a parameter.
-- Quorum: blockchain/quorum.go; `add` is `Add`, `super_majority` is `superMajority`. Votes, Build, Once
--   and Intersection hold proofs.
-- Forest: blockchain/leveled_forrest.go, vertex.go and container.go; `add_vertex` is `AddVertex`. Prune:
--   `PruneUpToLevel`; Iterator: `VertexIterator` and the methods that give one; Verify: `VerifyVertex`.
--   Heap, Store, Level and Pruned hold proofs.
-- BlockChain: blockchain/blockchain.go; `commit_block` is `CommitBlock`. Commit, Termination and
--   Children hold proofs.
-- Pacemaker: pacemaker/; Wrap: `AdvanceView` on 64-bit ints that wrap, with its proofs. Views, Timeouts and
--   Once hold proofs.
-- Env: what the protocol takes from the rest of a replica, `MakeBlock` and `MakeVote`. The hash of a
--   block is the parameter `make_id`.
-- MHotStuff: the state of mhotstuff/mhotstuff.go and its rules. Certificate: `processCertificate` and
--   `processTC`; Blocks: `ProcessBlock`; Votes: `ProcessVote`; Timeouts: `ProcessRemoteTmo` and
--   `ProcessLocalTmo`; Proposal: `MakeProposal`. Moves, Handlers, ChainMoves, BlockMoves, MessageMoves,
--   Reach, Buffered, Pending, Bound, Forgery and Signals hold proofs.
-- MtHotStuff: mthotstuff/mthotstuff.go, over the state and the steps that it shares with the other
--   protocol. Certificate and Blocks as there; Messages: votes, timeouts and proposals. Moves, StageMoves,
--   BlockMoves, MessageMoves, Reach, Buffered and Bound hold proofs.
-- Safety: replica/safety.go, the protocol as a replica sees it, and what it relies on; Pipeline and
--   Threads fill it with the two protocols.
-- Replica: the state and the message handlers of replica/replica.go; Loops: its loops, a function for a
--   turn of each, and runs of turns; Start: `NewReplica`. Alike, Quiet, Proposals, Runs, Stale, Drain,
--   Kickoff and Refines hold proofs.
-- Config: config/config.go; Load holds proofs.
-- Db: db/db.go; Commands: `Empty` and `Equal`. Reorder and Versions hold proofs.
-- Mempool: mempool/backend.go; Sharing: mempool/mempool.go; Bloom: mempool/bloom.go with the bit set as a
--   parameter, and its proofs; Producer: mempool/producer.go. Index, Reach, Batch and Delivery hold proofs.
-- Node: node/node.go and what the handlers of node/http.go change; Dispatch holds proofs.
-- Socket: socket/socket.go; Share: socket/txshare.go. Connections and Broadcast hold proofs.
-- Transport: transport/transport.go, the choice of a transport, its channels, and the transport within a
--   process; Link: interleavings of several transports that dial one; Order holds proofs.
-- Utils: utils/utils.go; Attempts (of `Retry`) and Draws (of `RandomPick`) hold proofs.
-- Client: of client.go the choice of the nodes, the requests of `Put` and `Consensus`; the module Consensus holds proofs.
-- Benchmark: benchmark/operation.go and benchmark/history.go; Limiter: benchmark/rate.go, with its proofs;
--   Shards holds proofs.
-- Tests: runs of the code on small inputs, and the theorems applied to them.
--
-- State. Each struct is a record and each method a function from the record to the record and the
-- answer. A mutex makes a method one step. Pointers that may be nil are options, and reading through
-- nil is `fault panic`. Vertex containers are shared between maps, levels and parents, so they stand on
-- a heap. Go leaves the order of a map open; here it is the order of insertion, and no theorem speaks
-- of it. What a handler sends is a list of events. A vote handler that finds no signal in its channel
-- stops with its certificate, and `resume_vote` goes on when signals have come. Logging is dropped,
-- except where its arguments can panic.
--
-- Loops. `committed_branch` and `committed_levels` run on fuel: the number of stored vertices or levels,
-- plus the level where they start, plus one, since each round goes to a lower level in a tree whose
-- levels fall. `process_block` runs on the number of buffered blocks plus one, since each call of itself
-- takes one buffered block of the next view.
--
-- Numbers. A view is an int of Go, which wraps: `AdvanceView` of the largest int makes the view the
-- smallest one. In the protocols a view is a natural number, which is what the code computes as long
-- as the next view is an int too, that is while the view `Fits`; a theorem on the order of views
-- assumes it of the last state of the run. Sequence numbers are natural numbers too, and are taken
-- to stay below the largest int; the views and sequence numbers of messages are not negative. The
-- module Pacemaker.Wrap has `AdvanceView` on ints with their wrap. Differences of views and of
-- numbers of blocks are integers, and node ids keep their 64 bits.
--
-- Channels. The channel of proposals holds four signals, as in the code: a send on
-- a full one waits, which is `fault blocked`, and runs in which it is let go on later are left
-- out. The other channels of a replica have room.
--
-- Not modelled: `forkChoice`, which nothing calls; TCP and UDP (in transport/transport.go), HTTP and
-- logging, which are I/O, so that for a socket a connection is the queue of what was sent on it; the
-- goroutines that sleep and draw in benchmark/benchmark.go, and the statistics, which are
-- floating-point output; hashing and encodings, which wrap libraries. The clock, chance, and whether
-- a node can be dialed are arguments.
pub mod Prelude
pub mod Types
pub mod Identity
pub mod Crypto
pub mod Db
pub mod Mempool
pub mod Election
pub mod Quorum
pub mod Safety
pub mod Node
pub mod Client
pub mod Benchmark
pub mod Transport
pub mod Socket
pub mod Utils
pub mod Config
pub mod Replica
pub mod Forest
pub mod BlockChain
pub mod Pacemaker
pub mod Env
pub mod MHotStuff
pub mod MtHotStuff
mod Tests
