-- ===== src/Tests/Wallet.antt =====
-- The wallet's sides of the two databases on concrete inputs.
use p2p_spendability_pir.Nullifier.Snapshot.{to_snapshot, from_snapshot}
use p2p_spendability_pir.Nullifier.Snapshot.Restored.{from_snapshot-restored, restored, IsWritable}
use p2p_spendability_pir.Orchard.{Hash}
use p2p_spendability_pir.Nullifier.Table.Valid.{Valid, Indexed, slot_total}
use p2p_spendability_pir.Common.{
  ◌%◌, ◌≤◌, ◌+◌, ◌^◌, ℕ, ◌+◌, ◌*◌, ◌^◌, ◌<◌, ◌≤◌, ◌≡◌, refl, ap, ◌∙◌, inl, inr, List, [], ◌∷◌, ◌++◌,
  some, Bool, length, leb, length-replicate, if_intro, ◌&&◌, ◌==◌, replicate, slice, arith,
  bytes_eq, get_or, get_or-replicate, get_or-beyond, ◌⊎◌,
}
use p2p_spendability_pir.Common.Run.{ok, ◌>>◌, fail_if}
use p2p_spendability_pir.Witness.Types.{BroadcastData}
use p2p_spendability_pir.Nullifier.Types.{Nullifier, num_buckets, bucket_capacity, bucket_bytes}
use p2p_spendability_pir.Nullifier.Table.{
  HashTableDb, empty, new, new_bucket, contains, to_pir_bytes,
}
use p2p_spendability_pir.Nullifier.Table.Cells.{cell, store, store-Shape}
use p2p_spendability_pir.Nullifier.Table.Clear.{cell-store}
use p2p_spendability_pir.Nullifier.Table.Store.{new-Valid, row-new}
use p2p_spendability_pir.Client.Spend.{is_spent, is_spent-contains}
use p2p_spendability_pir.Nullifier.Table.Rows.{Sized}
use p2p_spendability_pir.Client.Reconstruct.{
  Result, invalid_params, invalid_pir_window, WitnessClientError,
}
use p2p_spendability_pir.Client.Window.{get_witnesses, each_witness, get_witnesses-each}
use p2p_spendability_pir.Tests.Toy.{toy}

abbrev nullifier : Nullifier
nullifier = replicate 4 0 ++ replicate 28 1

-- a table whose first slot holds the nullifier
abbrev table : HashTableDb
table = record new { buckets = store 0 0 nullifier new.buckets }

new-Sized : Sized new.buckets
unfolding cell new_bucket
new-Sized i j =
    let inside : (i < num_buckets) ⊎ (num_buckets ≤ i) = omega arith in
    elim inside [
      | inl lt ↦
          ap (λ r. length (get_or r j empty)) (row-new i lt)
          ∙ ap length (get_or-replicate bucket_capacity j empty)
          ∙ length-replicate 32 0
      | inr beyond ↦
          ap (λ r. length (get_or r j empty))
            (get_or-beyond new.buckets i [] (omega (arith, new-Valid.shape.size, beyond)))
          ∙ length-replicate 32 0
    ]

length-nullifier : length nullifier ≡ 32
unfolding replicate
length-nullifier = refl

table-Sized : Sized table.buckets
table-Sized i j =
    ap length (cell-store 0 0 i j nullifier new.buckets new-Valid.shape (omega arith) (omega arith))
    ∙ if_intro (λ e. length e ≡ 32) (0 == i && 0 == j) nullifier (cell new.buckets i j)
        (λ _. length-nullifier) (λ _. new-Sized i j)

is_spent-contains_example :
    (spent : Bool) × (is_spent {E = WitnessClientError}
        (λ i. ok (slice (i * bucket_bytes) bucket_bytes (to_pir_bytes table)))
        nullifier
      ≡ ok spent)
    × (contains nullifier table ≡ some spent)
is_spent-contains_example =
    is_spent-contains (λ i. ok (slice (i * bucket_bytes) bucket_bytes (to_pir_bytes table))) table
      nullifier (store-Shape 0 0 nullifier new.buckets new-Valid.shape (omega arith)) table-Sized
      (λ i lt. refl)

abbrev broadcast : BroadcastData
broadcast = record {
  cap = record { shard_roots = replicate 32 0 ∷ [] };
  subshard_roots = record { roots = replicate 256 (replicate 32 0) } ∷ [];
  window_start_shard = 0;
  window_shard_count = 1;
  anchor_height = 100;
}

abbrev zero_rows : ℕ → Result (List ℕ)
zero_rows i = ok (replicate 8192 0)

get_witnesses-each_example : get_witnesses zero_rows broadcast (5 ∷ 7 ∷ 300 ∷ []) ≡ (
    fail_if (leb (2 ^ 32) (0 + 1)) (invalid_params invalid_pir_window)
    >> each_witness zero_rows broadcast (0 + 1) (5 ∷ 7 ∷ 300 ∷ []))
get_witnesses-each_example = get_witnesses-each zero_rows broadcast (5 ∷ 7 ∷ 300 ∷ [])

-- a checksum of 64 bits
abbrev toy_sum : List ℕ → ℕ → ℕ
toy_sum bytes seed = (length bytes + seed) % 2 ^ 64

abbrev block_hash : Hash
block_hash = replicate 32 9

-- the table with the block that spent the nullifier
abbrev kept : HashTableDb
kept = record table {
  block_index = (10, record { block_hash = block_hash; slots = (0, 0) ∷ [] }) ∷ [];
  block_hash_to_height = (block_hash, 10) ∷ [];
  num_entries = 1;
}

kept-Valid : Valid kept
unfolding Indexed slot_total replicate bytes_eq
kept-Valid = record {
  shape = store-Shape 0 0 nullifier new.buckets new-Valid.shape (omega arith);
  indexed = (refl, ((omega arith, omega arith), tt), tt, tt);
  count = refl;
  small = omega arith;
}

kept-IsWritable : IsWritable kept
unfolding replicate
kept-IsWritable = record {
  sized = table-Sized;
  entries = ((omega arith, refl, omega arith, (omega arith, tt)), tt);
  fits = omega arith;
}

from_snapshot-restored_example :
    (from_snapshot toy_sum (to_snapshot toy_sum kept) ≡ ok (restored kept)) × Valid (restored kept)
from_snapshot-restored_example =
    from_snapshot-restored toy_sum kept (λ bytes. omega arith) kept-Valid kept-IsWritable
