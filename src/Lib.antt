-- ===== src/Lib.antt =====
-- Private spendability checks. A server follows the chain, keeps the note commitment tree and
-- publishes it as a PIR database of rows of 256 leaves together with a public broadcast of roots;
-- a wallet queries one row privately and puts an authentication path together from the row and the
-- broadcast. This library models the data structures of the server, what it publishes and what the
-- wallet computes, and proves that the two sides agree.
--
-- Common: the Boolean tests, lists over the native numbers, slices, little-endian bytes and
--   wrapping u32 and u64 arithmetic, and Run, the result of code that returns, fails with an error
--   or panics.
-- Orchard: the crate `orchard`, which is not in the repository, as an interface: the type of
--   Merkle hashes, their encoding as 32 bytes, the roots of empty subtrees and the Sinsemilla
--   combination of two children, with the laws the code relies on. Also `hash_combine` and
--   `bytes_to_mho`.
-- Witness.Types and Witness.Position: crates/witness/src/types.rs, the geometry of the tree and
--   the positions of leaves, shards and rows.
-- Witness.Tree: crates/witness/src/tree.rs, the state `CommitmentTreeDb`, its counters,
--   `append_commitments` and `rollback_to`. Represents is the invariant, with the notes and
--   fetched roots that a state stands for; Rollback is about sequences of blocks.
-- Witness.Hashing and Witness.Roots: the hashing helpers and the root queries of
--   crates/witness/src/tree.rs. Witness.Merkle is the specification: the node of a Merkle tree of
--   any height over a function from positions to leaves.
-- Witness.Build: `build_pir_db_and_broadcast` of crates/witness/src/tree.rs, with the cache of
--   sub-shard roots.
-- Client.Reconstruct: crates/client/src/reconstruct.rs. Client.Served joins it to the database and
--   broadcast of the server.
-- Nullifier: crates/nullifier/src/types.rs and table.rs, the table of spent nullifiers in 16384
--   buckets of 112 slots. Table.Cells views the buckets as a grid, Table.Clear and Table.Insert
--   say which cells the loops change, Table.Preflight is the check before a block is stored,
--   Table.Emptied is about the slots of blocks that were taken away, Table.Valid the invariant,
--   Table.Rows the bytes of the database. Nullifier.Snapshot: crates/nullifier/src/snapshot.rs.
-- Protocol: crates/protocol/src/p2p.rs, the messages and the decoder that joins frames.
--   Protocol.Types is crates/protocol/src/lib.rs.
-- Ingest: crates/server/src/ingest. Ingest.Range is the validation of a range of compact blocks,
--   Ingest.Sync the sync in batches, Ingest.Follow the follower with its window of recent blocks,
--   all of pipeline.rs; Ingest.Ironwood and Ingest.Commitment take the nullifiers and commitments
--   from a block. Lightwalletd, a remote service, is an interface whose calls may answer anything.
-- Server.TreeSync: crates/server/src/witness/server.rs, the tree of the witness server as it is
--   prepared, synced and kept up with the events of the follower.
-- Witness.Snapshot: crates/witness/src/snapshot.rs, the tree as bytes and back.
-- Server.TableSync: crates/server/src/nullifier/server.rs, the table of the nullifier server as it
--   is filled, synced and kept up with the events of the follower.
-- Client.P2p and Server.P2p: crates/client/src/p2p.rs and crates/server/src/p2p.rs, a request cut
--   into frames, the service that answers it and the reading of the answer. Server.P2p.Answers
--   joins both ends; Client.P2p.Sessions is the connection that the client uses.
-- Client.Spend and Client.Window: crates/client/src/nullifier.rs and crates/client/src/witness.rs,
--   what a wallet does with retrieved rows.
-- Tests: a small instance of the Orchard interface and the runs on concrete inputs.
--
-- Conventions. A hash or a byte string is a list of bytes. `usize` is `u64`, a release build is
-- modelled: arithmetic wraps and `debug_assert!` is off. Where the source can panic, a definition
-- returns `none`, or `panic` where it can fail with an error too. Loops over ranges and slices are
-- structural recursions on the rounds that are left. The eviction loop and the loop over a
-- reorganisation have fuel, a round for each block, which theorems show to be enough; the rounds
-- of a sync and of a poll are as many as the heights to fetch, which theorems show to be enough
-- too. Consumers and connections are functions on states of their own. A `BTreeMap` is a list of
-- pairs in the order of the keys, a `HashMap` a list of pairs. Logging is left out.
--
-- Retrieving a row, the JSON of a value and the size of a frame are arguments of the definitions
-- that use them, as is the checksum of a snapshot. A stream is the list of the frames that arrive
-- before it closes, and all sends succeed.
--
-- Not modelled: the YPIR engine, gRPC and HTTP, the file system, the command line, cancellation,
-- time limits and the asynchronous tasks that schedule the operations above; the rebuild of the
-- published state and the combined server. The channel between the follower and the loop of a
-- server is left out: an event is handled when it is sent.

pub mod Common
pub mod Orchard
pub mod Witness
pub mod Protocol
pub mod Nullifier
pub mod Client
pub mod Ingest
pub mod Server
mod Tests
