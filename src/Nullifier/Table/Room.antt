-- ===== src/Nullifier/Table/Room.antt =====
-- Blocks that fit: the preflight refuses no block for which every bucket has room.
use p2p_spendability_pir.Common.{
  ℕ, zero, suc, ◌+◌, ◌^◌, ◌<◌, ◌≤◌, ◌≡◌, refl, ap, List, [], ◌∷◌, none, some, length, replicate,
  bytes_eq_refl, arith,
}
use p2p_spendability_pir.Orchard.{Hash}
use p2p_spendability_pir.Nullifier.Types.{Nullifier, bucket_capacity}
use p2p_spendability_pir.Nullifier.Table.{HashTableDb, empty, free, new, new_bucket, insert_block}
use p2p_spendability_pir.Nullifier.Table.Cells.{Shape}
use p2p_spendability_pir.Nullifier.Table.Space.{occurrences, HasRoom}
use p2p_spendability_pir.Nullifier.Table.Block.{stored, refused, insert_block-outcome, with_block}
use p2p_spendability_pir.Nullifier.Table.Store.{row-new}

-- A block is stored when every bucket has as many free slots as the block has nullifiers there.
pub insert_block-HasRoom :
    (height : ℕ) (block_hash : Hash) (nfs : List Nullifier) (db : HashTableDb)
    → Shape db.buckets
    → db.num_entries + length nfs < 2 ^ 64
    → HasRoom nfs db.buckets
    → (db' : HashTableDb) × (insert_block height block_hash nfs db ≡ some (db', none))
insert_block-HasRoom height block_hash nfs db shape small room =
    elim (insert_block-outcome height block_hash nfs db shape small) [
      | stored slots buckets runs inserted has_room ↦
          (with_block height block_hash slots buckets (db.num_entries + length nfs) db, runs)
      | refused i runs over lt ↦ absurd (omega (arith, over, room i lt))
    ]

free-replicate : (n : ℕ) → free (replicate n empty) ≡ n
unfolding free replicate
free-replicate zero = refl
free-replicate (suc n) = ground (arith, free-replicate n, bytes_eq_refl empty)

occurrences-le : (i : ℕ) (nfs : List Nullifier) → occurrences i nfs ≤ length nfs
unfolding occurrences
occurrences-le i [] = omega arith
occurrences-le i (nf ∷ nfs) = ground (arith, occurrences-le i nfs)

pub HasRoom-new : (nfs : List Nullifier) → length nfs ≤ bucket_capacity → HasRoom nfs new.buckets
unfolding new_bucket
HasRoom-new nfs few i lt =
    omega (arith, few, occurrences-le i nfs, ap free (row-new i lt), free-replicate bucket_capacity)
