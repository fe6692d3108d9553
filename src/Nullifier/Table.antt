-- ===== src/Nullifier/Table.antt =====
-- crates/nullifier/src/table.rs: the bucketed table of nullifiers, its blocks, and their eviction.
-- An operation that changes the table returns the table it leaves and its `Result`; the outer
-- `none` is a panic. `usize` is `u64`, and the release build wraps.
pub mod Cells
pub mod Clear
pub mod Space
pub mod Insert
pub mod Preflight
pub mod Block
pub mod Undo
pub mod Membership
pub mod Valid
pub mod Store
pub mod Room
pub mod Evict
pub mod Emptied
pub mod Rows
use p2p_spendability_pir.Common.{
  ℕ, zero, suc, ◌+◌, List, [], ◌∷◌, ◌++◌, Option, none, some, Bool, true, false, length, get_elem?,
  set, replicate, concat, map, ltb, ◌==◌, if◌then◌else◌, add64, sub64, as_u8, bytes_eq, ◌||◌,
}
use p2p_spendability_pir.Common.OrderedMap
use p2p_spendability_pir.Common.HashMap
use p2p_spendability_pir.Orchard.{Hash, ◌>>=◌}
use p2p_spendability_pir.Nullifier.Types.{
  Nullifier, target_size, num_buckets, bucket_capacity, hash_to_bucket,
}

abbrev pub empty : Nullifier
empty = replicate 32 0

pub data HashTableError : Type 0 where
  bucket_overflow : ℕ → HashTableError
  block_not_found : HashTableError

abbrev pub Bucket : Type 0
Bucket = List Nullifier

pub record BlockRecord : Type 0 where
  pub block_hash : Hash
  pub slots : List (ℕ × ℕ)

pub record HashTableDb : Type 0 where
  pub buckets : List Bucket
  pub block_index : List (ℕ × BlockRecord)
  pub block_hash_to_height : List (Hash × ℕ)
  pub num_entries : ℕ

unfoldable pub new_bucket : Bucket
new_bucket = replicate bucket_capacity empty

unfoldable pub new : HashTableDb
new = record {
  buckets = replicate num_buckets new_bucket;
  block_index = [];
  block_hash_to_height = [];
  num_entries = 0;
}

-- `entries.iter().position(|entry| *entry == EMPTY)`
unfoldable pub empty_slot : Bucket → Option ℕ
empty_slot [] = none
empty_slot (entry ∷ entries) =
    let rest = empty_slot entries in
    if bytes_eq entry empty then some 0 else (rest >>= λ slot. some (suc slot))

-- `Bucket::insert`
unfoldable pub insert_entry : Nullifier → Bucket → Option (ℕ × Bucket)
insert_entry nf entries = do slot ← empty_slot entries; some (as_u8 slot, set entries slot nf)

-- `*required.entry(bucket).or_default() += 1`, on the pairs of the map
unfoldable pub require : ℕ → List (ℕ × ℕ) → List (ℕ × ℕ)
require bucket [] = (bucket, 1) ∷ []
require bucket ((idx, count) ∷ required) =
    let rest = require bucket required in
    if bucket == idx then (idx, add64 count 1) ∷ required else (idx, count) ∷ rest

unfoldable pub requirements : List Nullifier → List (ℕ × ℕ) → List (ℕ × ℕ)
requirements [] required = required
requirements (nf ∷ nfs) required = requirements nfs (require (hash_to_bucket nf) required)

unfoldable pub free : Bucket → ℕ
free [] = 0
free (entry ∷ entries) = let n = free entries in if bytes_eq entry empty then suc n else n

-- The first bucket, in the order of the map, that cannot take its share. The order is that of the
-- first nullifiers here; the source leaves it open.
unfoldable pub overflowing : List Bucket → List (ℕ × ℕ) → Option (Option ℕ)
overflowing buckets [] = some none
overflowing buckets ((idx, count) ∷ required) = get_elem? buckets idx >>= λ bucket.
    elim (ltb (free bucket) count) [ true ↦ some (some idx) | false ↦ overflowing buckets required ]

-- the loop that stores the nullifiers
unfoldable pub insert_all :
    List Nullifier → List Bucket → ℕ → Option (List (ℕ × ℕ) × List Bucket × ℕ)
insert_all [] buckets num_entries = some ([], buckets, num_entries)
insert_all (nf ∷ nfs) buckets num_entries = do
  let bucket_idx = hash_to_bucket nf
  bucket ← get_elem? buckets bucket_idx
  (slot, bucket') ← insert_entry nf bucket
  (slots, buckets', n) ← insert_all nfs (set buckets bucket_idx bucket') (add64 num_entries 1)
  some ((bucket_idx, slot) ∷ slots, buckets', n)

unfoldable pub insert_block :
    ℕ → Hash → List Nullifier → HashTableDb → Option (HashTableDb × Option HashTableError)
insert_block height block_hash nullifiers db =
    overflowing db.buckets (requirements nullifiers []) >>= λ overflow. elim overflow [
      | some bucket_idx ↦ some (db, some (bucket_overflow bucket_idx))
      | none ↦ (do
        (slots, buckets, n) ← insert_all nullifiers db.buckets db.num_entries
        some (
          record {
            buckets = buckets;
            block_index =
                OrderedMap.insert height (record { block_hash = block_hash; slots = slots })
                  db.block_index;
            block_hash_to_height = HashMap.insert block_hash height db.block_hash_to_height;
            num_entries = n;
          },
          none,
        ))
    ]

-- `entries[slot] = EMPTY` in the buckets of a block
unfoldable pub clear_entries : List (ℕ × ℕ) → List Bucket → Option (List Bucket)
clear_entries [] buckets = some buckets
clear_entries ((bucket_idx, slot) ∷ slots) buckets = do
  bucket ← get_elem? buckets bucket_idx
  entry ← get_elem? bucket slot
  clear_entries slots (set buckets bucket_idx (set bucket slot empty))

-- the table after the block of a height was taken out, but for its entries
unfoldable pub without_block : Hash → ℕ → BlockRecord → List Bucket → HashTableDb → HashTableDb
without_block block_hash height block buckets db = record {
  buckets = buckets;
  block_index = OrderedMap.remove height db.block_index;
  block_hash_to_height = HashMap.remove block_hash db.block_hash_to_height;
  num_entries = sub64 db.num_entries (length block.slots);
}

-- The hash is removed already: it is gone too where the block is not found.
unfoldable pub rollback_record :
    Hash → ℕ → HashTableDb → Option BlockRecord → Option (HashTableDb × Option HashTableError)
rollback_record block_hash height db none = some (
  record db { block_hash_to_height = HashMap.remove block_hash db.block_hash_to_height },
  some block_not_found,
)
rollback_record block_hash height db (some block) = do
  buckets ← clear_entries block.slots db.buckets
  some (without_block block_hash height block buckets db, none)

unfoldable pub rollback_height :
    Hash → HashTableDb → Option ℕ → Option (HashTableDb × Option HashTableError)
rollback_height block_hash db none = some (db, some block_not_found)
rollback_height block_hash db (some height) =
    rollback_record block_hash height db (OrderedMap.lookup height db.block_index)

unfoldable pub rollback_block : Hash → HashTableDb → Option (HashTableDb × Option HashTableError)
rollback_block block_hash db =
    rollback_height block_hash db (HashMap.lookup block_hash db.block_hash_to_height)

-- `ok().map(|_| height)`
evicted : ℕ → HashTableDb × Option HashTableError → HashTableDb × Option ℕ
evicted height (db, none) = (db, some height)
evicted height (db, some e) = (db, none)

unfoldable pub evict_oldest_block : HashTableDb → Option (HashTableDb × Option ℕ)
unfolding evicted
evict_oldest_block db = elim db.block_index [
  | [] ↦ some (db, none)
  | (height, block) ∷ rest ↦ do
    rolled ← rollback_block block.block_hash db
    some (evicted height rolled)
]

-- `while self.num_entries > TARGET_SIZE`, for `fuel` rounds at most; the outer `none` is a panic
-- or the end of the fuel.
unfoldable pub evict_rounds : ℕ → HashTableDb → Option HashTableDb
evict_rounds zero db = if ltb target_size db.num_entries then none else some db
evict_rounds (suc fuel) db = elim (ltb target_size db.num_entries) [
  | false ↦ some db
  | true ↦ evict_oldest_block db >>= λ round. elim round.1 [
    | none ↦ some round.0
    | some height ↦ evict_rounds fuel round.0
  ]
]

unfoldable pub evict_to_target : HashTableDb → Option HashTableDb
evict_to_target db = evict_rounds (length db.block_index + 1) db

unfoldable pub has_entry : Nullifier → Bucket → Bool
has_entry nf [] = false
has_entry nf (entry ∷ entries) = bytes_eq entry nf || has_entry nf entries

unfoldable pub contains : Nullifier → HashTableDb → Option Bool
contains nf db = do bucket ← get_elem? db.buckets (hash_to_bucket nf); some (has_entry nf bucket)

unfoldable pub to_pir_bytes : HashTableDb → List ℕ
to_pir_bytes db = concat (map concat db.buckets)

unfoldable pub earliest_height : HashTableDb → Option ℕ
earliest_height db = elim db.block_index [ [] ↦ none | (height, block) ∷ rest ↦ some height ]

unfoldable pub last_block : List (ℕ × BlockRecord) → Option (ℕ × BlockRecord)
last_block [] = none
last_block (b ∷ []) = some b
last_block (b ∷ c ∷ bs) = last_block (c ∷ bs)

unfoldable pub latest_height : HashTableDb → Option ℕ
latest_height db = last_block db.block_index >>= λ (height, block). some height

unfoldable pub latest_block_hash : HashTableDb → Option Hash
latest_block_hash db = last_block db.block_index >>= λ (height, block). some block.block_hash
