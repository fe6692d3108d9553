-- ===== src/Nullifier/Table/Block.antt =====
-- What `insert_block` does on each branch.
use p2p_spendability_pir.Common.{
  ℕ, ◌+◌, ◌^◌, ◌<◌, ◌≡◌, ap, ◌∙◌, List, [], Option, none, some, length, arith,
}
use p2p_spendability_pir.Common.OrderedMap
use p2p_spendability_pir.Common.HashMap
use p2p_spendability_pir.Orchard.{Hash, ◌>>=◌}
use p2p_spendability_pir.Nullifier.Types.{Nullifier, num_buckets}
use p2p_spendability_pir.Nullifier.Table.{
  Bucket, HashTableDb, HashTableError, bucket_overflow, free, requirements, overflowing, insert_all,
  insert_block,
}
use p2p_spendability_pir.Nullifier.Table.Cells.{row, Shape}
use p2p_spendability_pir.Nullifier.Table.Space.{occurrences, HasRoom}
use p2p_spendability_pir.Nullifier.Table.Insert.{Inserted, insert_all-Inserted}
use p2p_spendability_pir.Nullifier.Table.Preflight.{has_room, too_full, preflight}

-- The table after a block was stored in the given slots.
abbrev pub with_block : ℕ → Hash → List (ℕ × ℕ) → List Bucket → ℕ → HashTableDb → HashTableDb
with_block height block_hash slots buckets num_entries db = record {
  buckets = buckets;
  block_index =
      OrderedMap.insert height (record { block_hash = block_hash; slots = slots }) db.block_index;
  block_hash_to_height = HashMap.insert block_hash height db.block_hash_to_height;
  num_entries = num_entries;
}

store_block : ℕ → Hash → List Nullifier → HashTableDb → Option (HashTableDb × Option HashTableError)
store_block height block_hash nfs db = insert_all nfs db.buckets db.num_entries >>= λ r.
    some (with_block height block_hash r.0 r.1 r.2 db, none)

after_preflight :
    ℕ
    → Hash
    → List Nullifier
    → HashTableDb
    → Option ℕ
    → Option (HashTableDb × Option HashTableError)
after_preflight height block_hash nfs db (some i) = some (db, some (bucket_overflow i))
after_preflight height block_hash nfs db none = store_block height block_hash nfs db

insert_block-eq :
    (height : ℕ) (block_hash : Hash) (nfs : List Nullifier) (db : HashTableDb) (o : Option ℕ)
    → overflowing db.buckets (requirements nfs []) ≡ some o
    → insert_block height block_hash nfs db ≡ after_preflight height block_hash nfs db o
unfolding insert_block store_block after_preflight
insert_block-eq height block_hash nfs db none e =
    ap
      (λ p. p >>= λ overflow. elim overflow as (λ _. Option (HashTableDb × Option HashTableError)) [
        | some bucket_idx ↦ some (db, some (bucket_overflow bucket_idx))
        | none ↦ store_block height block_hash nfs db
      ])
      e
insert_block-eq height block_hash nfs db (some i) e =
    ap
      (λ p. p >>= λ overflow. elim overflow as (λ _. Option (HashTableDb × Option HashTableError)) [
        | some bucket_idx ↦ some (db, some (bucket_overflow bucket_idx))
        | none ↦ store_block height block_hash nfs db
      ])
      e

pub data InsertOutcome (height : ℕ) (block_hash : Hash) (nfs : List Nullifier) (db : HashTableDb)
    : Type 0 where
  stored :
      (slots : List (ℕ × ℕ)) (buckets : List Bucket)
      → insert_block height block_hash nfs db
        ≡ some (with_block height block_hash slots buckets (db.num_entries + length nfs) db, none)
      → Inserted nfs slots db.buckets buckets
      → HasRoom nfs db.buckets
      → InsertOutcome height block_hash nfs db
  refused :
      (i : ℕ)
      → insert_block height block_hash nfs db ≡ some (db, some (bucket_overflow i))
      → free (row db.buckets i) < occurrences i nfs
      → i < num_buckets
      → InsertOutcome height block_hash nfs db

pub insert_block-outcome :
    (height : ℕ) (block_hash : Hash) (nfs : List Nullifier) (db : HashTableDb)
    → Shape db.buckets
    → db.num_entries + length nfs < 2 ^ 64
    → InsertOutcome height block_hash nfs db
unfolding after_preflight store_block
insert_block-outcome height block_hash nfs db shape small =
    elim (preflight db.buckets nfs shape (omega arith)) [
      | too_full i runs over lt ↦
          refused i (insert_block-eq height block_hash nfs db (some i) runs) over lt
      | has_room runs room ↦
          let (slots, buckets, stores, inserted) =
            insert_all-Inserted nfs db.buckets db.num_entries shape room small in
          stored slots buckets
            (insert_block-eq height block_hash nfs db none runs
              ∙ ap (λ o. o >>= λ r. some (with_block height block_hash r.0 r.1 r.2 db, none))
                  stores)
            inserted room
    ]
