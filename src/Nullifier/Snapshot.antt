-- ===== src/Nullifier/Snapshot.antt =====
-- crates/nullifier/src/snapshot.rs: the table as bytes and back. `xxh64` is another crate's: an
-- argument.
pub mod Checked
pub mod Reading
pub mod Blocks
pub mod Buckets
pub mod Restored
use p2p_spendability_pir.Common.{
  ℕ, zero, suc, ◌+◌, ◌-◌, ◌*◌, ◌^◌, ◌<◌, ◌≤◌, ◌≡◌, refl, sym, ap, ◌∙◌, List, [], ◌∷◌, ◌++◌, map,
  concat, length, ltb, leb, ◌==◌, not, Bool, true, false, take, drop, slice, get_elem?, get_or,
  get_or-tabulate, tabulate, length-tabulate, to_le_bytes, from_le_bytes, ltb→le, ==_iff, arith,
}
use p2p_spendability_pir.Common.Run.{
  Run, ok, err, ◌>>=◌, ◌>>◌, fail_if, expect, fail_if-ok, bind-ok,
}
use p2p_spendability_pir.Common.OrderedMap
use p2p_spendability_pir.Common.HashMap
use p2p_spendability_pir.Orchard.{Hash}
use p2p_spendability_pir.Nullifier.Types.{num_buckets, bucket_capacity, entry_bytes, bucket_bytes}
use p2p_spendability_pir.Nullifier.Table.{Bucket, BlockRecord, HashTableDb, to_pir_bytes}
use p2p_spendability_pir.Nullifier.Table.Cells.{row, Shape}

-- the cases of `HashTableError::Snapshot`, by their texts
pub data SnapshotError : Type 0 where
  data_too_short : SnapshotError
  checksum_mismatch : SnapshotError
  unexpected_eof : SnapshotError
  bad_magic : SnapshotError
  unsupported_version : ℕ → SnapshotError
  count_overflow : SnapshotError
  bucket_data_truncated : SnapshotError

abbrev pub snapshot_magic : ℕ
snapshot_magic = 0x4952_4F4E_5049_5200

abbrev pub snapshot_version : ℕ
snapshot_version = 2

unfoldable pub encode_slots : List (ℕ × ℕ) → List ℕ
encode_slots [] = []
encode_slots ((bucket_idx, slot_idx) ∷ slots) =
    to_le_bytes 4 bucket_idx ++ (slot_idx ∷ 0 ∷ encode_slots slots)

unfoldable pub encode_index : List (ℕ × BlockRecord) → List ℕ
encode_index [] = []
encode_index ((height, block) ∷ index) =
    to_le_bytes 8 height
    ++ block.block_hash
    ++ to_le_bytes 4 (length block.slots)
    ++ encode_slots block.slots
    ++ encode_index index

-- everything but the checksum
unfoldable pub snapshot_payload : HashTableDb → List ℕ
snapshot_payload db =
    to_le_bytes 8 snapshot_magic
    ++ to_le_bytes 4 snapshot_version
    ++ to_le_bytes 8 (length db.block_index)
    ++ encode_index db.block_index
    ++ to_pir_bytes db

abbrev pub Read : Type 0 → Type 0
Read A = Run SnapshotError (A × ℕ)

-- what a reader of `n` bytes takes at a position
unfoldable pub read_bytes : ℕ → List ℕ → ℕ → Read (List ℕ)
read_bytes n payload pos = do
  fail_if (ltb (length payload) (pos + n)) unexpected_eof
  ok (slice pos n payload, pos + n)

unfoldable pub read_number : ℕ → List ℕ → ℕ → Read ℕ
read_number n payload pos = do read ← read_bytes n payload pos; ok (from_le_bytes read.0, read.1)

-- the rounds of the loop over the slots that are left
unfoldable pub read_slots : ℕ → List ℕ → ℕ → Read (List (ℕ × ℕ))
read_slots zero payload pos = ok ([], pos)
read_slots (suc n) payload pos = do
  bucket ← read_number 4 payload pos
  fail_if (ltb (length payload) (bucket.1 + 2)) unexpected_eof
  slot_idx ← expect (get_elem? payload bucket.1)
  rest ← read_slots n payload (bucket.1 + 2)
  ok ((bucket.0, slot_idx) ∷ rest.0, rest.1)

-- the loop over the blocks, with the maps and the count so far
unfoldable pub read_blocks :
    ℕ
    → List ℕ
    → ℕ
    → List (ℕ × BlockRecord)
    → List (Hash × ℕ)
    → ℕ
    → Read (List (ℕ × BlockRecord) × List (Hash × ℕ) × ℕ)
read_blocks zero payload pos index hashes num_entries = ok ((index, hashes, num_entries), pos)
read_blocks (suc n) payload pos index hashes num_entries = do
  height ← read_number 8 payload pos
  block_hash ← read_bytes 32 payload height.1
  num_slots ← read_number 4 payload block_hash.1
  fail_if (leb (2 ^ 64) (num_entries + num_slots.0)) count_overflow
  slots ← read_slots num_slots.0 payload num_slots.1
  read_blocks n payload slots.1
      (OrderedMap.insert height.0 (record { block_hash = block_hash.0; slots = slots.0 }) index)
      (HashMap.insert block_hash.0 height.0 hashes) (num_entries + num_slots.0)

unfoldable pub read_buckets : List ℕ → ℕ → List Bucket
read_buckets payload start = tabulate num_buckets λ i.
    tabulate bucket_capacity
      λ j. slice (start + i * bucket_bytes + j * entry_bytes) entry_bytes payload

-- the part after the checksum was verified
unfoldable pub read_payload : List ℕ → Run SnapshotError HashTableDb
read_payload payload = do
  magic ← read_number 8 payload 0
  fail_if (not (magic.0 == snapshot_magic)) bad_magic
  version ← read_number 4 payload magic.1
  fail_if (not (version.0 == snapshot_version)) (unsupported_version version.0)
  num_blocks ← read_number 8 payload version.1
  blocks ← read_blocks num_blocks.0 payload num_blocks.1 [] [] 0
  fail_if (ltb (length payload) (blocks.1 + num_buckets * bucket_bytes)) bucket_data_truncated
  ok (record {
    buckets = read_buckets payload blocks.1;
    block_index = blocks.0.0;
    block_hash_to_height = blocks.0.1;
    num_entries = blocks.0.2;
  })

abbrev pub min_size : ℕ
min_size = 8 + 4 + 8 + num_buckets * bucket_bytes + 8

module _ (xxh64 : List ℕ → ℕ → ℕ) where
  unfoldable pub to_snapshot : HashTableDb → List ℕ
  to_snapshot db = snapshot_payload db ++ to_le_bytes 8 (xxh64 (snapshot_payload db) 0)

  unfoldable pub from_snapshot : List ℕ → Run SnapshotError HashTableDb
  from_snapshot data_bytes = do
    fail_if (ltb (length data_bytes) min_size) data_too_short
    let payload = take (length data_bytes - 8) data_bytes
    let stored_checksum = from_le_bytes (drop (length data_bytes - 8) data_bytes)
    fail_if (not (stored_checksum == xxh64 payload 0)) checksum_mismatch
    read_payload payload
