-- ===== src/Server/TableSync/Events.antt =====
-- `run` of crates/server/src/nullifier/server.rs: what an event of the follower makes of the table.
use p2p_spendability_pir.Common.{
  ℕ, ◌+◌, ◌^◌, ◌<◌, ◌≤◌, ◌≡◌, refl, ap, subst, ◌∙◌, Option, none, some, List, ◌++◌, length, All,
  inl, inr, arith, sym,
}
use p2p_spendability_pir.Common.Run.{Run, ok, err, panic, Run-cases}
use p2p_spendability_pir.Common.OrderedMap
use p2p_spendability_pir.Common.HashMap
use p2p_spendability_pir.Ingest.Block.{CompactBlock}
use p2p_spendability_pir.Ingest.Range.{ValidatedBlock}
use p2p_spendability_pir.Ingest.Ironwood.{
  IronwoodError, extract_ironwood_nullifiers, extract_ironwood_nullifiers-exactly, nullifiers_of,
  extract_ironwood_nullifiers_safe,
}
use p2p_spendability_pir.Ingest.Follow.{BlockEvent, new_block, reorg}
use p2p_spendability_pir.Nullifier.Types.{target_size}
use p2p_spendability_pir.Nullifier.Table.{HashTableDb, bucket_overflow, insert_block, free}
use p2p_spendability_pir.Nullifier.Table.Cells.{row}
use p2p_spendability_pir.Nullifier.Table.Space.{occurrences}
use p2p_spendability_pir.Nullifier.Table.Valid.{Valid, BlockIndex}
use p2p_spendability_pir.Nullifier.Table.Emptied.{Emptied}
use p2p_spendability_pir.Nullifier.Table.Store.{StoredWhole, insert_block-Valid}
use p2p_spendability_pir.Nullifier.Table.Evict.{Kept, evict_to_target-Kept}
use p2p_spendability_pir.Server.TableSync.{
  ServerError, ironwood, hash_table, table_result, insert_validated, then_evict, handle_event,
}
use p2p_spendability_pir.Server.TableSync.Newest.{up_to}
use p2p_spendability_pir.Server.TableSync.Reorg.{roll_back_above-RolledBack}

abbrev pub IsNullifiers : CompactBlock → Type 0
IsNullifiers block = All (λ tx. All (λ a. length a.nullifier ≡ 32) tx.ironwood_actions) block.vtx

-- The block of an event has a new hash and height, and its nullifiers can be counted.
abbrev pub Arrives : BlockEvent → HashTableDb → Type 0
Arrives (new_block v) db =
    (db.num_entries + length (nullifiers_of v.block) < 2 ^ 64)
    × (HashMap.lookup v.hash db.block_hash_to_height ≡ none)
    × (OrderedMap.lookup v.block.height db.block_index ≡ none)
Arrives (reorg fork) db = Unit

-- A table after an eviction from another: its oldest blocks are gone, and their nullifiers with
-- them.
pub record Evicted (db db' : HashTableDb) : Type 0 where
  pub valid : Valid db'
  pub bound : db'.num_entries ≤ target_size
  pub kept : Kept db.block_index db'.block_index
  pub oldest : BlockIndex
  pub parts : db.block_index ≡ oldest ++ db'.block_index
  pub emptied : Emptied oldest db.buckets db'.buckets

-- What comes of an event.
pub data Handled (db : HashTableDb)
    : BlockEvent → Option (Run ServerError (Unit {0}) × HashTableDb) → Type 0 where
  went_back :
      (fork : ℕ) (back db' : HashTableDb) (above : BlockIndex)
      → back.block_index ≡ up_to fork db.block_index
      → db.block_index ≡ back.block_index ++ above
      → Emptied above db.buckets back.buckets
      → Evicted back db'
      → Handled db (reorg fork) (some (ok tt, db'))
  took_in :
      (v : ValidatedBlock) (whole db' : HashTableDb)
      → IsNullifiers v.block
      → StoredWhole v.block.height v.hash (nullifiers_of v.block) db whole
      → Evicted whole db'
      → Handled db (new_block v) (some (ok tt, db'))
  overflowed :
      (v : ValidatedBlock) (i : ℕ)
      → IsNullifiers v.block
      → free (row db.buckets i) < occurrences i (nullifiers_of v.block)
      → Handled db (new_block v) (some (err (hash_table (bucket_overflow i)), db))
  unreadable :
      (v : ValidatedBlock) (e : IronwoodError)
      → ¬ IsNullifiers v.block
      → Handled db (new_block v) (some (err (ironwood e), db))

evicts :
    (db : HashTableDb)
    → Valid db
    → (db' : HashTableDb) × (then_evict (some (ok tt, db)) ≡ some (ok tt, db')) × Evicted db db'
unfolding then_evict
evicts db v =
    let (db', runs, v', under, kept, oldest, parts, emptied) = evict_to_target-Kept db v in
    (
      db',
      ap
          (λ o. elim o as (λ _. Option (Run ServerError (Unit {0}) × HashTableDb)) [
            | none ↦ some (panic, db)
            | some db' ↦ some (ok tt, db')
          ])
          runs,
      record {
        valid = v';
        bound = under;
        kept = kept;
        oldest = oldest;
        parts = parts;
        emptied = emptied;
      },
    )

inserts :
    (v : ValidatedBlock) (db : HashTableDb) (nfs : List _)
    → extract_ironwood_nullifiers v.block ≡ ok nfs
    → insert_validated v db ≡ table_result db (insert_block v.block.height v.hash nfs db)
unfolding insert_validated
inserts v db nfs h =
    ap
      (λ r. elim r as (λ _. Run ServerError (Unit {0}) × HashTableDb) [
        | err e ↦ (err (ironwood e), db)
        | panic ↦ (panic, db)
        | ok nullifiers ↦ table_result db (insert_block v.block.height v.hash nullifiers db)
      ])
      h

refuses :
    (v : ValidatedBlock) (db : HashTableDb) (e : IronwoodError)
    → extract_ironwood_nullifiers v.block ≡ err e
    → insert_validated v db ≡ (err (ironwood e), db)
unfolding insert_validated
refuses v db e h =
    ap
      (λ r. elim r as (λ _. Run ServerError (Unit {0}) × HashTableDb) [
        | err e ↦ (err (ironwood e), db)
        | panic ↦ (panic, db)
        | ok nullifiers ↦ table_result db (insert_block v.block.height v.hash nullifiers db)
      ])
      h

took :
    (v : ValidatedBlock) (db : HashTableDb)
    → Valid db
    → Arrives (new_block v) db
    → IsNullifiers v.block
    → extract_ironwood_nullifiers v.block ≡ ok (nullifiers_of v.block)
    → Handled db (new_block v) (handle_event (new_block v) db)
unfolding handle_event then_evict table_result
took v db valid (small, new_hash, new_height) full got =
    let nfs = nullifiers_of v.block in
    let runs = inserts v db nfs got in
    elim (insert_block-Valid v.block.height v.hash nfs db valid small new_hash new_height) [
      | inl (stored, is_stored, w, room) ↦
          let (db', ends, e) = evicts stored w.valid in
          let whole =
            ap (λ p. then_evict (some p)) (runs ∙ ap (table_result db) is_stored) ∙ ends in
          subst (Handled db (new_block v)) (sym whole) (took_in v stored db' full w e)
      | inr (i, refused, over) ↦
          let whole = ap (λ p. then_evict (some p)) (runs ∙ ap (table_result db) refused) in
          subst (Handled db (new_block v)) (sym whole) (overflowed v i full over)
    ]

-- An event leaves a valid table valid, without a panic and without end of rounds. A reorganisation
-- takes away exactly the blocks above the height that it goes back to, and empties exactly their
-- slots. A block with a new hash and height, with which the count does not overflow, is stored
-- whole, with its nullifiers, if these have 32 bytes each and every bucket has room for them; if
-- not, the error says which it was, and the table is as it was. The oldest blocks then go, one by
-- one and with their slots emptied, while the others still hold more than a million nullifiers.
pub handle_event-Handled :
    (event : BlockEvent) (db : HashTableDb)
    → Valid db
    → Arrives event db
    → Handled db event (handle_event event db)
unfolding handle_event then_evict
handle_event-Handled (reorg fork) db valid arrives =
    let r = roll_back_above-RolledBack (length db.block_index + 1) fork db valid (omega arith) in
    let (db', ends, e) = evicts r.table r.valid in
    subst (Handled db (reorg fork)) (sym (ap then_evict r.ends ∙ ends))
      (went_back fork r.table db' r.removed r.kept r.parts r.emptied e)
handle_event-Handled (new_block v) db valid arrives =
    let exactly = extract_ironwood_nullifiers-exactly v.block in
    elim (Run-cases (extract_ironwood_nullifiers v.block)) [
      | inl (nfs, got) ↦
          let (full, same) = (exactly nfs).0 got in
          took v db valid arrives full (got ∙ ap (λ (l : List _). ok l) same)
      | inr (inl (e, refused)) ↦
          let whole = ap (λ p. then_evict (some p)) (refuses v db e refused) in
          subst (Handled db (new_block v)) (sym whole) (
            unreadable v e
              (λ full. absurd (ground (arith, (exactly (nullifiers_of v.block)).1 (full, refl)))))
      | inr (inr panicked) ↦ absurd (extract_ironwood_nullifiers_safe v.block panicked)
    ]
