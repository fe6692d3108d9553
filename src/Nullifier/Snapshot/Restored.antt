-- ===== src/Nullifier/Snapshot/Restored.antt =====
-- A snapshot restores the table that was written.
use p2p_spendability_pir.Common.{
  ℕ, ◌+◌, ◌*◌, ◌^◌, ◌<◌, ◌≤◌, ◌≡◌, ap, ◌∙◌, List, [], ◌∷◌, ◌++◌, length, length-drop, ltb, le→ltb,
  false, drop, All, append_assoc, length-append, to_le_bytes, length-to_le_bytes, arith,
}
use p2p_spendability_pir.Common.Run.{ok}
use p2p_spendability_pir.Nullifier.Types.{num_buckets, bucket_bytes}
use p2p_spendability_pir.Nullifier.Table.{HashTableDb, to_pir_bytes}
use p2p_spendability_pir.Nullifier.Table.Rows.{Sized, length-to_pir_bytes}
use p2p_spendability_pir.Nullifier.Table.Valid.{BlockIndex, Valid, slot_total}
use p2p_spendability_pir.Nullifier.Snapshot.{
  snapshot_magic, snapshot_version, snapshot_payload, encode_index, read_payload, min_size,
  to_snapshot, from_snapshot,
}
use p2p_spendability_pir.Nullifier.Snapshot.Reading.{drop-front, read_number-front}
use p2p_spendability_pir.Nullifier.Snapshot.Blocks.{
  rebuild, rebuild-Indexed, read_blocks-front, IsEntry, Below,
}
use p2p_spendability_pir.Nullifier.Snapshot.Buckets.{read_buckets-to_pir_bytes}
use p2p_spendability_pir.Nullifier.Snapshot.Checked.{from_snapshot-to_snapshot}

-- What a table needs to be written as it is: its parts fit their types.
pub record IsWritable (db : HashTableDb) : Type 0 where
  pub sized : Sized db.buckets
  pub entries : All IsEntry db.block_index
  pub fits : length db.block_index < 2 ^ 64

-- the table with its map of heights put together anew
unfoldable pub restored : HashTableDb → HashTableDb
restored db = record db { block_hash_to_height = rebuild db.block_index [] }

restored-Valid : (db : HashTableDb) → Valid db → Valid (restored db)
unfolding restored
restored-Valid db v = record {
  shape = v.shape;
  indexed = rebuild-Indexed db.block_index db.block_hash_to_height [] v.indexed;
  count = v.count;
  small = v.small;
}

Below-nil : (index : BlockIndex) → Below [] index
Below-nil [] = tt
Below-nil (b ∷ index) = (tt, Below-nil index)

length-snapshot_payload :
    (db : HashTableDb) → Valid db → IsWritable db → min_size ≤ length (snapshot_payload db) + 8
unfolding snapshot_payload
length-snapshot_payload db v w =
    let magic = to_le_bytes 8 snapshot_magic in
    let version = to_le_bytes 4 snapshot_version in
    let count = to_le_bytes 8 (length db.block_index) in
    let index = encode_index db.block_index in
    omega (
      arith,
      length-append magic version,
      length-append (magic ++ version) count,
      length-append (magic ++ version ++ count) index,
      length-append (magic ++ version ++ count ++ index) (to_pir_bytes db),
      length-to_le_bytes 8 snapshot_magic,
      length-to_le_bytes 4 snapshot_version,
      length-to_le_bytes 8 (length db.block_index),
      length-to_pir_bytes db v.shape w.sized,
    )

read_payload-snapshot_payload :
    (db : HashTableDb)
    → Valid db
    → IsWritable db
    → read_payload (snapshot_payload db) ≡ ok (restored db)
unfolding read_payload restored
read_payload-snapshot_payload db v w =
    let payload = snapshot_payload db in
    let magic = to_le_bytes 8 snapshot_magic in
    let version = to_le_bytes 4 snapshot_version in
    let count = to_le_bytes 8 (length db.block_index) in
    let index = encode_index db.block_index in
    let at : drop 0 payload ≡ magic ++ (version ++ (count ++ (index ++ to_pir_bytes db))) =
      unfold snapshot_payload in
      append_assoc (magic ++ version ++ count) index (to_pir_bytes db)
      ∙ append_assoc (magic ++ version) count (index ++ to_pir_bytes db)
      ∙ append_assoc magic version (count ++ (index ++ to_pir_bytes db)) in
    let at₁ = drop-front payload 0 8 magic _ at (length-to_le_bytes 8 snapshot_magic) in
    let at₂ = drop-front payload 8 4 version _ at₁ (length-to_le_bytes 4 snapshot_version) in
    let at₃ = drop-front payload 12 8 count _ at₂ (length-to_le_bytes 8 (length db.block_index)) in
    let counted = v.count in
    let (end, blocks, left) =
      read_blocks-front payload db.block_index [] db.block_hash_to_height [] 0 20 (to_pir_bytes db)
        v.indexed w.entries (Below-nil db.block_index) (omega (arith, v.small)) at₃ in
    let whole : ltb (length payload) (end + num_buckets * bucket_bytes) ≡ false = le→ltb _ _ (
      omega (
        arith,
        length-drop end payload,
        ap (λ (l : List ℕ). length l) left,
        length-to_pir_bytes db v.shape w.sized,
      )) in
    let same : 0 + slot_total db.block_index ≡ db.num_entries = omega arith in
    rw
      (
        read_number-front payload 0 8 snapshot_magic _ at (omega arith) (omega arith),
        read_number-front payload 8 4 snapshot_version _ at₁ (omega arith) (omega arith),
        read_number-front payload 12 8 (length db.block_index) _ at₂ (omega arith)
            (omega (arith, w.fits)),
        blocks,
        whole,
        read_buckets-to_pir_bytes payload end db v.shape w.sized left,
      )
      (ap
        (λ n. ok (record {
          buckets = db.buckets;
          block_index = db.block_index;
          block_hash_to_height = rebuild db.block_index [];
          num_entries = n;
        }))
        same)

-- A valid table whose parts fit their types is restored from its snapshot with its buckets, its
-- blocks and its count, and with the height of every block under its hash; the restored table is
-- valid. Checksums are numbers of 64 bits.
pub from_snapshot-restored :
    (xxh64 : List ℕ → ℕ → ℕ) (db : HashTableDb)
    → ((bytes : List ℕ) → xxh64 bytes 0 < 256 ^ 8)
    → Valid db
    → IsWritable db
    → (from_snapshot xxh64 (to_snapshot xxh64 db) ≡ ok (restored db)) × Valid (restored db)
from_snapshot-restored xxh64 db word v w = (
  from_snapshot-to_snapshot xxh64 db word (length-snapshot_payload db v w)
      ∙ read_payload-snapshot_payload db v w,
  restored-Valid db v,
)
