-- ===== src/Lib.antt =====
-- Verification of the Route N Root node (rnr/), a blockchain node in Go.
--
-- The node keeps a chain of blocks in a key-value store (Chain), catches up with peers (Sync),
-- holds pending transactions (Mempool) and exchanges them with peers (MempoolSync). Validators vote
-- on a proposed block (Voting); a block with enough votes is final, checkpoints bound how far a
-- reorganisation may go back (Checkpoint), and consensus halts when too few validators are heard
-- from (Partition). Competing blocks are kept as forks, one of which may replace the chain
-- (ForkResolver), and blocks far below the last final checkpoint are deleted (Pruner). Validators
-- register and wait as observers before they are active (Registry); violations suspend them
-- (Slashing). Changes of accounts are written in batches (AtomicState). Misbehaving validators are
-- judged (Byzantine), as are peers and their addresses (RateLimiter, IpReputation); requests for
-- bandwidth tests are limited and answered by challenges (AntiDdos). Transactions and blocks are
-- checked by goroutines (Concurrent), and the Merkle root of a block is built by one or by several
-- (Merkle). Messages that peers pass on are remembered (Gossip). Governance holds proposals and
-- their tallies.
--
-- Files and the code they model, method by method under the method's name in snake case:
--   Core           rnr/pkg/core/types.go, constants.go
--   Platform       the interfaces of goleveldb, encoding/json and crypto/sha256, with their laws
--   Chain          rnr/pkg/blockchain/blockchain.go
--   ForkResolver   rnr/pkg/blockchain/fork_resolver.go
--   AtomicState    rnr/pkg/blockchain/atomic_state.go
--   Pruner         rnr/pkg/blockchain/state_pruner.go
--   Registry       rnr/pkg/consensus/validator_registry.go, and what validator_service.go and
--                  pob_speedtest_integration.go write to a validator's state
--   Slashing       rnr/pkg/consensus/slashing.go
--   Merkle         the Merkle roots of rnr/pkg/blockchain/blockchain.go and of validator_service.go and
--                  concurrent_validation.go in rnr/pkg/consensus
--   Gossip         rnr/pkg/network/gossip.go
--   Sync           rnr/pkg/sync/sync_manager.go
--   Mempool        rnr/pkg/blockchain/mempool.go
--   MempoolSync    rnr/pkg/mempool/mempool_sync.go
--   Voting         rnr/pkg/consensus/voting.go, vote_replay_protection.go
--   Checkpoint     rnr/pkg/consensus/checkpoint.go
--   Governance     rnr/pkg/consensus/governance.go
--   Partition      rnr/pkg/consensus/partition_detector.go
--   RateLimiter    rnr/pkg/network/p2p_ratelimit.go
--   Byzantine      rnr/pkg/consensus/byzantine_detection.go
--   IpReputation   rnr/pkg/network/ip_reputation.go
--   AntiDdos       rnr/pkg/consensus/anti_ddos.go
--   Concurrent     rnr/pkg/consensus/concurrent_validation.go
--   Prelude        lists, maps, keys, integers, texts and results that the parts share
--   Tests          concrete instances of the interfaces, and the properties applied to them
-- The child modules of a part hold its proofs, and of the larger parts some operations
-- (Voting/Cleanup, Recovery and Tracker, Byzantine/Detectors, IpReputation/Upkeep, Registry/Exits,
-- Queries and Updates, ForkResolver/Reorganize and Handle).
--
-- How the code is read. An object is a record, and a method a function from the object, its
-- arguments and the time, where the method reads the clock, to the object after it and its result;
-- a method that reads the clock several times reads one time here. Errors are data types. Calls are
-- a sequence: most methods hold their lock from the first read to the last write, and that
-- VerifyChallenge and HandleTxAnnouncement release it in between is not modelled. Where a property
-- speaks of any calls, it is by induction on a list of them. Where goroutines share a slice or a
-- channel, the order in which they finish is an argument, and properties hold for every order.
-- Strings and byte slices are lists of bytes, a Go map is an association list whose order stands
-- for the unspecified order of `range`, uint64 heights wrap at 2 ^ 64 where the code adds, a
-- float64 score is its bit pattern, and thresholds in float64 are exact fractions. In AtomicState
-- accounts stand behind pointers, and a change is seen through every copy of one. Loops are
-- structural recursion on the list or the number of heights they go through. The decimal digits of
-- a number take fuel, one round more than the number. The fork resolver's loops, which follow
-- blocks by their hashes, take fuel from the caller: one round more than the tip's height is enough
-- for its search on the main chain, and where a loop may run on, running out is an error of its
-- own. A Merkle root takes one round of fuel more than it has hashes, which is always enough. Log
-- lines are left out, except where slicing a name for one can panic.
--
-- Not modelled: blockchain.State, whose source is not in the repository (voting, the registry and
-- the atomic state take what they ask of it as a parameter); the validator service, but its Merkle
-- root and what it writes to a validator's state, and rewards; JSON forms of gossip messages, and
-- the tracker of peer addresses; proof-of-bandwidth thresholds; bandwidth tests, random functions
-- and proofs, which are float64 statistics, timed transfers and curve arithmetic; transport, HTTP,
-- wallet, logging and metrics; reading checkpoints back from the database at start; signing and
-- marshalling registrations.
pub mod Prelude
pub mod Pruner
pub mod Core
pub mod Platform
pub mod Chain
pub mod Slashing
pub mod Sync
pub mod Mempool
pub mod MempoolSync
pub mod ForkResolver
pub mod Gossip
pub mod Governance
pub mod Checkpoint
pub mod Partition
pub mod RateLimiter
pub mod Registry
pub mod Voting
pub mod Byzantine
pub mod IpReputation
pub mod AntiDdos
pub mod AtomicState
pub mod Concurrent
pub mod Merkle
pub mod Tests
