-- ===== src/Witness/Snapshot.antt =====
-- crates/witness/src/snapshot.rs: the tree as bytes and back. `xxh64` is another crate's: an
-- argument. A reader gets the payload from its position on, and leaves what follows.
pub mod RoundTrip
pub mod Size
pub mod Restored
use p2p_spendability_pir.Common.{
  ℕ, zero, suc, ◌+◌, ◌-◌, ◌*◌, ◌^◌, List, [], ◌∷◌, ◌++◌, concat, length, ltb, leb, ◌==◌, not, Bool,
  true, false, ◌||◌, take, drop, set, replicate, to_le_bytes, from_le_bytes, Option, none, some,
  if◌then◌else◌,
}
use p2p_spendability_pir.Common.Run.{Run, ok, err, panic, ◌>>=◌, ◌>>◌, fail_if}
use p2p_spendability_pir.Orchard.{Orchard, Hash, is_canonical_hash}
use p2p_spendability_pir.Witness.Types.{l0_db_rows}
use p2p_spendability_pir.Witness.Tree.{BlockRecord, Cache, CommitmentTreeDb, with_offset}

-- the cases of `TreeError::SnapshotCorrupted`, by their reasons
pub data SnapshotCorrupted : Type 0 where
  data_too_short : SnapshotCorrupted
  checksum_mismatch : SnapshotCorrupted
  unexpected_eof : SnapshotCorrupted
  bad_magic : SnapshotCorrupted
  prefetched_roots_truncated : SnapshotCorrupted
  block_record_size_overflow : SnapshotCorrupted
  block_records_truncated : SnapshotCorrupted
  leaf_data_size_overflow : SnapshotCorrupted
  leaf_data_truncated : SnapshotCorrupted
  cache_entry_truncated : SnapshotCorrupted
  non_canonical_hash : SnapshotCorrupted

abbrev pub snapshot_magic : ℕ
snapshot_magic = 0x434D_5452_4545_0005

abbrev pub block_record_size : ℕ
block_record_size = 8 + 32 + 4

unfoldable pub encode_blocks : List BlockRecord → List ℕ
encode_blocks [] = []
encode_blocks (b ∷ bs) =
    to_le_bytes 8 b.height ++ (b.hash ++ (to_le_bytes 4 b.num_commitments ++ encode_blocks bs))

-- `iter().flatten().count()`
unfoldable pub cached_count : Cache → ℕ
cached_count [] = 0
cached_count (none ∷ cache) = cached_count cache
cached_count (some root ∷ cache) = suc (cached_count cache)

-- the slots that are filled, from a slot on
unfoldable pub encode_cache : ℕ → Cache → List ℕ
encode_cache slot [] = []
encode_cache slot (none ∷ cache) = encode_cache (slot + 1) cache
encode_cache slot (some root ∷ cache) =
    to_le_bytes 4 slot ++ (root ++ encode_cache (slot + 1) cache)

-- what stands between the magic and the checksum
unfoldable pub snapshot_body : CommitmentTreeDb → List ℕ
snapshot_body t =
    to_le_bytes 8 (length t.blocks)
    ++ (to_le_bytes 8 t.leaf_offset
        ++ (to_le_bytes 8 (length t.prefetched_shard_roots)
            ++ (concat t.prefetched_shard_roots
                ++ (encode_blocks t.blocks
                    ++ (concat t.leaves
                        ++ (to_le_bytes 8 (cached_count t.ss_root_cache)
                            ++ encode_cache 0 t.ss_root_cache))))))

-- everything but the checksum
unfoldable pub snapshot_payload : CommitmentTreeDb → List ℕ
snapshot_payload t = to_le_bytes 8 snapshot_magic ++ snapshot_body t

abbrev pub Read : Type 0 → Type 0
Read A = Run SnapshotCorrupted (A × List ℕ)

-- `n` bytes, or the error of the place
unfoldable pub read_bytes : ℕ → SnapshotCorrupted → List ℕ → Read (List ℕ)
read_bytes n e rest = do fail_if (ltb (length rest) n) e; ok (take n rest, drop n rest)

unfoldable pub read_u64 : List ℕ → Read ℕ
read_u64 rest = do
  (bytes, rest') ← read_bytes 8 unexpected_eof rest
  ok (from_le_bytes bytes, rest')

-- the loop over the prefetched roots
unfoldable pub read_roots : ℕ → List ℕ → Read (List Hash)
read_roots zero rest = ok ([], rest)
read_roots (suc n) rest = do
  (root, rest₁) ← read_bytes 32 prefetched_roots_truncated rest
  (roots, rest₂) ← read_roots n rest₁
  ok (root ∷ roots, rest₂)

-- The loop of `read_block_records` with its total. The bytes are there: the length was checked.
unfoldable pub read_records : ℕ → List ℕ → List BlockRecord × ℕ × List ℕ
read_records zero rest = ([], 0, rest)
read_records (suc n) rest =
    let num_commitments = from_le_bytes (take 4 (drop 32 (drop 8 rest))) in
    let (blocks, total, rest') = read_records n (drop 4 (drop 32 (drop 8 rest))) in
    (
      record {
        height = from_le_bytes (take 8 rest);
        hash = take 32 (drop 8 rest);
        num_commitments = num_commitments;
      }
          ∷ blocks,
      num_commitments + total,
      rest',
    )

-- `count.checked_mul(size).and_then(|bytes| pos.checked_add(bytes))` is `None`
unfoldable pub size_overflows : ℕ → ℕ → ℕ → List ℕ → Bool
size_overflows count size payload_len rest =
    leb (2 ^ 64) (count * size) || leb (2 ^ 64) (payload_len - length rest + count * size)

unfoldable pub read_block_records :
    ℕ → ℕ → List ℕ → Run SnapshotCorrupted (List BlockRecord × ℕ × List ℕ)
read_block_records payload_len count rest = do
  fail_if (size_overflows count block_record_size payload_len rest) block_record_size_overflow
  fail_if (ltb (length rest) (count * block_record_size)) block_records_truncated
  ok (read_records count rest)

unfoldable pub read_hashes : ℕ → List ℕ → List Hash × List ℕ
read_hashes zero rest = ([], rest)
read_hashes (suc n) rest =
    let (hashes, rest') = read_hashes n (drop 32 rest) in (take 32 rest ∷ hashes, rest')

unfoldable pub read_leaves : ℕ → ℕ → List ℕ → Read (List Hash)
read_leaves payload_len count rest = do
  fail_if (size_overflows count 32 payload_len rest) leaf_data_size_overflow
  fail_if (ltb (length rest) (count * 32)) leaf_data_truncated
  ok (read_hashes count rest)

-- the loop over the entries of the cache; a slot out of range is dropped
unfoldable pub read_cache : ℕ → List ℕ → Cache → Run SnapshotCorrupted Cache
read_cache zero rest cache = ok cache
read_cache (suc n) rest cache = do
  (entry, rest') ← read_bytes (4 + 32) cache_entry_truncated rest
  let slot = from_le_bytes (take 4 entry)
  read_cache n rest' (if ltb slot l0_db_rows then set cache slot (some (drop 4 entry)) else cache)

module _ ⦃o : Orchard⦄ where
  unfoldable pub any_non_canonical : List Hash → Bool
  any_non_canonical [] = false
  any_non_canonical (h ∷ hs) = not (is_canonical_hash h) || any_non_canonical hs

  unfoldable pub any_cached_non_canonical : Cache → Bool
  any_cached_non_canonical [] = false
  any_cached_non_canonical (none ∷ cache) = any_cached_non_canonical cache
  any_cached_non_canonical (some h ∷ cache) =
      not (is_canonical_hash h) || any_cached_non_canonical cache

  -- A `Vec` cannot be made for more than `isize::MAX` bytes: that is a panic.
  unfoldable pub decode_snapshot : ℕ → List ℕ → Run SnapshotCorrupted CommitmentTreeDb
  decode_snapshot payload_len rest = do
    (block_count, rest₁) ← read_u64 rest
    (leaf_offset, rest₂) ← read_u64 rest₁
    (prefetched_count, rest₃) ← read_u64 rest₂
    (prefetched, rest₄) ←
        (if leb (2 ^ 63) (prefetched_count * 32) then panic else read_roots prefetched_count rest₃)
    (blocks, local_leaves, rest₅) ← read_block_records payload_len block_count rest₄
    (leaves, rest₆) ← read_leaves payload_len local_leaves rest₅
    (count, rest₇) ← read_u64 rest₆
    cache ← read_cache count rest₇ (replicate l0_db_rows none)
    fail_if
        (any_non_canonical prefetched || any_non_canonical leaves || any_cached_non_canonical cache)
        non_canonical_hash
    let tree = with_offset leaf_offset prefetched
    ok (record tree { leaves = leaves; blocks = blocks; ss_root_cache = cache })

  module _ (xxh64 : List ℕ → ℕ → ℕ) where
    unfoldable pub to_snapshot : CommitmentTreeDb → List ℕ
    to_snapshot t = snapshot_payload t ++ to_le_bytes 8 (xxh64 (snapshot_payload t) 0)

    unfoldable pub from_snapshot : List ℕ → Run SnapshotCorrupted CommitmentTreeDb
    from_snapshot data_bytes = do
      fail_if (ltb (length data_bytes) 16) data_too_short
      let payload = take (length data_bytes - 8) data_bytes
      let stored_checksum = from_le_bytes (drop (length data_bytes - 8) data_bytes)
      fail_if (not (stored_checksum == xxh64 payload 0)) checksum_mismatch
      (magic, rest) ← read_u64 payload
      fail_if (not (magic == snapshot_magic)) bad_magic
      decode_snapshot (length payload) rest
