-- ===== src/Tests/Table.antt =====
-- Runs of the nullifier table on concrete inputs.
use p2p_spendability_pir.Common.{
  ℕ, ◌<◌, ◌≤◌, ◌≡◌, ◌≢◌, refl, ap, subst, inl, inr, ◌⊎◌, List, [], ◌∷◌, ◌++◌, Option, none, some,
  ◌||◌, concat, replicate, get_or, arith,
}
use p2p_spendability_pir.Orchard.{Hash, ◌>>=◌}
use p2p_spendability_pir.Ingest.Follow.{reorg, new_block}
use p2p_spendability_pir.Ingest.Range.{ValidatedBlock}
use p2p_spendability_pir.Server.TableSync.{handle_event}
use p2p_spendability_pir.Server.TableSync.Events.{Arrives, Handled, handle_event-Handled}
use p2p_spendability_pir.Nullifier.Types.{Nullifier, target_size}
use p2p_spendability_pir.Nullifier.Table.{
  HashTableDb, HashTableError, bucket_overflow, empty, free, new, insert_block, rollback_block,
  evict_to_target, has_entry, contains,
}
use p2p_spendability_pir.Nullifier.Table.Cells.{row}
use p2p_spendability_pir.Nullifier.Table.Space.{occurrences, HasRoom}
use p2p_spendability_pir.Nullifier.Table.Undo.{rollback_block-insert_block}
use p2p_spendability_pir.Nullifier.Table.Membership.{contains-insert_block}
use p2p_spendability_pir.Nullifier.Table.Valid.{BlockIndex, Valid, rollback_block-Valid}
use p2p_spendability_pir.Nullifier.Table.Store.{StoredWhole, new-Valid, insert_block-Valid}
use p2p_spendability_pir.Nullifier.Table.Room.{insert_block-HasRoom, HasRoom-new}
use p2p_spendability_pir.Nullifier.Table.Emptied.{Emptied}
use p2p_spendability_pir.Nullifier.Table.Evict.{Kept, evict_to_target-Kept}

-- nullifiers of the first bucket
abbrev spent : ℕ → Nullifier
spent n = replicate 4 0 ++ replicate 28 n

abbrev block_hash : Hash
block_hash = replicate 32 9

abbrev two_spent : List Nullifier
two_spent = spent 1 ∷ spent 2 ∷ []

-- the table that the block leaves
first_block : (db : HashTableDb) × (insert_block 10 block_hash two_spent new ≡ some (db, none))
first_block =
    insert_block-HasRoom 10 block_hash two_spent new new-Valid.shape (unfold new in omega arith)
      (HasRoom-new two_spent (omega arith))

rollback_block-insert_block_example : rollback_block block_hash first_block.0 ≡ some (new, none)
rollback_block-insert_block_example =
    rollback_block-insert_block 10 block_hash two_spent new first_block.0 new-Valid.shape
      (unfold new in omega arith) (unfold new in refl) (unfold new in refl) first_block.1

spent_is_real : spent 2 ≢ empty
unfolding replicate
spent_is_real e = absurd (omega (arith, ap (λ l. get_or l 5 0) e))

contains-insert_block_example :
    contains (spent 2) first_block.0
    ≡ (contains (spent 2) new >>= λ before. some (before || has_entry (spent 2) two_spent))
contains-insert_block_example =
    contains-insert_block 10 block_hash two_spent new first_block.0 (spent 2) new-Valid.shape
      (unfold new in omega arith) spent_is_real first_block.1

insert_block-Valid_example :
    ((db' : HashTableDb) × (insert_block 10 block_hash two_spent new ≡ some (db', none))
      × StoredWhole 10 block_hash two_spent new db'
      × HasRoom two_spent new.buckets)
    ⊎ ((i : ℕ) × (insert_block 10 block_hash two_spent new ≡ some (new, some (bucket_overflow i)))
        × (free (row new.buckets i) < occurrences i two_spent))
insert_block-Valid_example =
    insert_block-Valid 10 block_hash two_spent new new-Valid (unfold new in omega arith)
      (unfold new in refl) (unfold new in refl)

insert_block-HasRoom_example :
    (db : HashTableDb) × (insert_block 10 block_hash two_spent new ≡ some (db, none))
insert_block-HasRoom_example =
    insert_block-HasRoom 10 block_hash two_spent new new-Valid.shape (unfold new in omega arith)
      (HasRoom-new two_spent (omega arith))

-- the table after the first block, with its invariant
first_block-Valid : Valid first_block.0
first_block-Valid = elim insert_block-Valid_example [
  | inl (db, runs, w, room) ↦
      let same : db ≡ first_block.0 = ground (arith, runs, first_block.1) in
      subst Valid same w.valid
  | inr (i, runs, over) ↦ absurd (ground (arith, runs, first_block.1))
]

rollback_block-Valid_example :
    (db' : HashTableDb) × (e : Option HashTableError) × (rollback_block block_hash first_block.0
      ≡ some (db', e))
    × Valid db'
rollback_block-Valid_example = rollback_block-Valid block_hash first_block.0 first_block-Valid

evict_to_target-Kept_example :
    (db' : HashTableDb) × (evict_to_target first_block.0 ≡ some db')
    × Valid db'
    × (db'.num_entries ≤ target_size)
    × Kept first_block.0.block_index db'.block_index
    × (oldest : BlockIndex) × (first_block.0.block_index ≡ oldest ++ db'.block_index)
    × Emptied oldest first_block.0.buckets db'.buckets
evict_to_target-Kept_example = evict_to_target-Kept first_block.0 first_block-Valid

-- a block that spends two notes
abbrev arriving : ValidatedBlock
arriving = record {
  block = record {
    height = 11;
    hash = replicate 32 11;
    prev_hash = block_hash;
    vtx =
        record {
          actions = record { nullifier = []; cmx = [] } ∷ [];
          ironwood_actions = record { nullifier = spent 3; cmx = replicate 32 1 } ∷ [];
        }
        ∷ record {
          actions = [];
          ironwood_actions = record { nullifier = spent 4; cmx = replicate 32 1 } ∷ [];
        }
        ∷ [];
    chain_metadata = none;
  };
  hash = replicate 32 11;
  prev_hash = block_hash;
}

arrives : Arrives (new_block arriving) new
unfolding new concat
arrives = (omega arith, refl, refl)

-- a block that arrives at an empty table, and a reorganisation that takes a block away
handle_event-Handled_example :
    Handled new (new_block arriving) (handle_event (new_block arriving) new)
    × Handled first_block.0 (reorg 5) (handle_event (reorg 5) first_block.0)
handle_event-Handled_example = (
  handle_event-Handled (new_block arriving) new new-Valid arrives,
  handle_event-Handled (reorg 5) first_block.0 first_block-Valid tt,
)
