-- ===== src/Nullifier/Table/Undo.antt =====
-- Rolling back the block that was stored last.
use p2p_spendability_pir.Common.{
  ℕ, ◌+◌, ◌^◌, ◌<◌, ◌≡◌, sym, ap, ◌∙◌, inl, inr, List, none, some, if◌then◌else◌, length, sub64,
  Bool-cases, arith,
}
use p2p_spendability_pir.Common.OrderedMap
use p2p_spendability_pir.Common.HashMap
use p2p_spendability_pir.Orchard.{Hash, ◌>>=◌}
use p2p_spendability_pir.Nullifier.Types.{Nullifier}
use p2p_spendability_pir.Nullifier.Table.{
  Bucket, BlockRecord, HashTableDb, empty, clear_entries, insert_block, rollback_block,
  rollback_height, rollback_record, without_block,
}
use p2p_spendability_pir.Nullifier.Table.Cells.{cell, Shape, cells_equal}
use p2p_spendability_pir.Nullifier.Table.Clear.{taken, Cleared, clear_entries-Cleared}
use p2p_spendability_pir.Nullifier.Table.Insert.{Inserted}
use p2p_spendability_pir.Nullifier.Table.Block.{with_block, stored, refused, insert_block-outcome}

pub rollback_block-found :
    (block_hash : Hash) (db : HashTableDb) (height : ℕ) (block : BlockRecord)
    (cleared : List Bucket)
    → HashMap.lookup block_hash db.block_hash_to_height ≡ some height
    → OrderedMap.lookup height db.block_index ≡ some block
    → clear_entries block.slots db.buckets ≡ some cleared
    → rollback_block block_hash db ≡ some (without_block block_hash height block cleared db, none)
unfolding rollback_block rollback_height rollback_record
rollback_block-found block_hash db height block cleared hash_at block_at clears =
    ap (rollback_height block_hash db) hash_at
    ∙ ap (rollback_record block_hash height db) block_at
    ∙ ap (λ o. o >>= λ buckets. some (without_block block_hash height block buckets db, none))
        clears

-- clearing what was stored gives the grid back
clear_restores :
    (nfs : List Nullifier) (slots : List (ℕ × ℕ)) (buckets inserted cleared : List Bucket)
    → Shape buckets
    → Inserted nfs slots buckets inserted
    → Cleared slots inserted cleared
    → cleared ≡ buckets
clear_restores nfs slots buckets inserted cleared shape i c =
    cells_equal cleared buckets c.shape shape λ k l.
      c.cells k l ∙ elim (Bool-cases (taken slots k l)) [
        | inl in_slots ↦
            ap (λ b. if b then empty else cell inserted k l) in_slots ∙ sym (i.vacant k l in_slots)
        | inr out ↦ ap (λ b. if b then empty else cell inserted k l) out ∙ i.kept k l out
      ]

assemble : List Bucket → List (ℕ × BlockRecord) → List (Hash × ℕ) → ℕ → HashTableDb
assemble buckets index hashes n = record {
  buckets = buckets;
  block_index = index;
  block_hash_to_height = hashes;
  num_entries = n;
}

assemble_congr :
    {b b' : List Bucket} {i i' : List (ℕ × BlockRecord)} {h h' : List (Hash × ℕ)} {n n' : ℕ}
    → b ≡ b'
    → i ≡ i'
    → h ≡ h'
    → n ≡ n'
    → assemble b i h n ≡ assemble b' i' h' n'
assemble_congr p q r t = λ j. assemble (p j) (q j) (r j) (t j)

-- A block with a new hash and a new height that was stored is taken out again without a trace:
-- the rollback succeeds and gives back the table from before, also where the block holds zero
-- nullifiers or a nullifier twice.
pub rollback_block-insert_block :
    (height : ℕ) (block_hash : Hash) (nfs : List Nullifier) (db db' : HashTableDb)
    → Shape db.buckets
    → db.num_entries + length nfs < 2 ^ 64
    → HashMap.lookup block_hash db.block_hash_to_height ≡ none
    → OrderedMap.lookup height db.block_index ≡ none
    → insert_block height block_hash nfs db ≡ some (db', none)
    → rollback_block block_hash db' ≡ some (db, none)
unfolding assemble without_block
rollback_block-insert_block height block_hash nfs db db' shape small new_hash new_height runs =
    elim (insert_block-outcome height block_hash nfs db shape small) [
      | refused i fails over lt ↦ absurd (cc)
      | stored slots buckets runs' inserted room ↦
          let w = with_block height block_hash slots buckets (db.num_entries + length nfs) db in
          let block : BlockRecord = record { block_hash = block_hash; slots = slots } in
          let same : db' ≡ w = cc in
          let (cleared, clears, c) =
            clear_entries-Cleared slots buckets inserted.shape inserted.range in
          let count : sub64 (db.num_entries + length nfs) (length slots) ≡ db.num_entries =
            omega (arith, inserted.size) in
          ap (rollback_block block_hash) same
          ∙ rollback_block-found block_hash w height block cleared
              (HashMap.lookup-insert block_hash height db.block_hash_to_height)
              (OrderedMap.lookup-insert height block db.block_index) clears
          ∙ ap (λ d. some (d, none))
              (assemble_congr (clear_restores nfs slots db.buckets buckets cleared shape inserted c)
                (OrderedMap.remove-insert height block db.block_index new_height)
                (HashMap.remove-insert block_hash height db.block_hash_to_height new_hash) count)
    ]
