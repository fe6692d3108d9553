-- ===== src/Server/TableSync.antt =====
-- crates/server/src/nullifier/server.rs: how the table is synced and kept up with the chain.
-- Logging, the count of blocks since the last snapshot and the errors of files and tasks are left
-- out.
pub mod Newest
pub mod Reorg
pub mod Events
pub mod Range
pub mod Fill
use p2p_spendability_pir.Common.{
  ℕ, zero, suc, ◌+◌, ◌-◌, ◌%◌, Bool, true, false, ◌&&◌, Option, none, some, List, [], ◌∷◌, length,
  ◌==◌, leb, ltb, if◌then◌else◌, max,
}
use p2p_spendability_pir.Common.Run.{Run, ok, err, panic}
use p2p_spendability_pir.Protocol.Types.{ZcashNetwork, ServerPhase, syncing}
use p2p_spendability_pir.Ingest.Block.{ClientError, Lightwalletd}
use p2p_spendability_pir.Ingest.Range.{PipelineError, ValidatedBlock}
use p2p_spendability_pir.Ingest.Ironwood.{
  IronwoodError, EndpointError, extract_ironwood_nullifiers, nu6_3_activation_height,
  require_ironwood_tree_state,
}
use p2p_spendability_pir.Ingest.Sync.{sync_blocks}
use p2p_spendability_pir.Ingest.Follow.{BlockEvent, new_block, reorg}
use p2p_spendability_pir.Orchard.{Hash}
use p2p_spendability_pir.Nullifier.Types.{Nullifier}
use p2p_spendability_pir.Nullifier.Table.{
  HashTableDb, HashTableError, insert_block, rollback_block, evict_to_target, latest_height,
  latest_block_hash,
}

pub data ServerError : Type 0 where
  client : ClientError → ServerError
  pipeline : PipelineError → ServerError
  ironwood : IronwoodError → ServerError
  hash_table : HashTableError → ServerError
  pir_setup : ServerError
  endpoint : EndpointError → ServerError

unfoldable pub min_sync_height : ℕ → ZcashNetwork → ℕ
min_sync_height tip_height network =
    let activation = nu6_3_activation_height network in
    if leb activation tip_height then activation else 1

-- `?` on an operation of the table; a panic leaves it as it was
unfoldable pub table_result :
    HashTableDb
    → Option (HashTableDb × Option HashTableError)
    → Run ServerError (Unit {0}) × HashTableDb
table_result db none = (panic, db)
table_result db (some (db', none)) = (ok tt, db')
table_result db (some (db', some e)) = (err (hash_table e), db')

unfoldable pub insert_validated :
    ValidatedBlock → HashTableDb → Run ServerError (Unit {0}) × HashTableDb
insert_validated v db = elim (extract_ironwood_nullifiers v.block) [
  | err e ↦ (err (ironwood e), db)
  | panic ↦ (panic, db)
  | ok nullifiers ↦ table_result db (insert_block v.block.height v.hash nullifiers db)
]

-- the closure of `sync_range`
unfoldable pub consume_block :
    ℕ
    → ValidatedBlock
    → HashTableDb × ServerPhase
    → Run ServerError (Unit {0}) × (HashTableDb × ServerPhase)
consume_block to v (db, phase) =
    let (answer, db') = insert_validated v db in
    elim answer [
      | err e ↦ (err e, (db', phase))
      | panic ↦ (panic, (db', phase))
      | ok u ↦
          (ok tt, (db', if v.block.height % 1000 == 0 then syncing v.block.height to else phase))
    ]

unfoldable pub sync_range :
    ⦃l : Lightwalletd⦄
    → ZcashNetwork
    → ℕ
    → ℕ
    → HashTableDb × ServerPhase
    → Option (Run ServerError (Unit {0}) × (HashTableDb × ServerPhase))
sync_range ⦃l⦄ network from to state = elim (ltb to from) [
  | true ↦ some (ok tt, state)
  | false ↦ elim l.connect [
    | err e ↦ some (err (client e), state)
    | panic ↦ some (panic, state)
    | ok lwd ↦
        let (checked, lwd') = require_ironwood_tree_state network to lwd in
        elim checked [
          | err e ↦ some (err (endpoint e), state)
          | panic ↦ some (panic, state)
          | ok u ↦ elim (sync_blocks (consume_block to) pipeline from to lwd' state) [
            | none ↦ none
            | some (answer, state', lwd'') ↦ some (answer, state')
          ]
        ]
  ]
]

-- `latest_height().is_some_and(|height| height > rollback_to)`
unfoldable pub is_above : ℕ → HashTableDb → Bool
is_above fork db = elim (latest_height db) [ none ↦ false | some height ↦ ltb fork height ]

-- A round of the loop over the blocks above the fork, by whether there is one and by its hash. The
-- loop of the combined server unwraps the hash, which is there whenever a height is.
unfoldable pub roll_back_round :
    (HashTableDb → Option (Run ServerError (Unit {0}) × HashTableDb))
    → Bool
    → Option Hash
    → HashTableDb
    → Option (Run ServerError (Unit {0}) × HashTableDb)
roll_back_round rest false hash db = some (ok tt, db)
roll_back_round rest true none db = rest db
roll_back_round rest true (some hash) db =
    let (answer, db') = table_result db (rollback_block hash db) in
    elim answer [ ok u ↦ rest db' | err e ↦ some (err e, db') | panic ↦ some (panic, db') ]

-- the loop, for `fuel` rounds at most
unfoldable pub roll_back_above :
    ℕ → ℕ → HashTableDb → Option (Run ServerError (Unit {0}) × HashTableDb)
roll_back_above zero fork db = if is_above fork db then none else some (ok tt, db)
roll_back_above (suc fuel) fork db =
    roll_back_round (roll_back_above fuel fork) (is_above fork db) (latest_block_hash db) db

-- `hashtable.evict_to_target()` after a step that did not fail
unfoldable pub then_evict :
    Option (Run ServerError (Unit {0}) × HashTableDb)
    → Option (Run ServerError (Unit {0}) × HashTableDb)
then_evict none = none
then_evict (some (ok u, db)) = elim (evict_to_target db) [
  | none ↦ some (panic, db)
  | some db' ↦ some (ok tt, db')
]
then_evict (some (err e, db)) = some (err e, db)
then_evict (some (panic, db)) = some (panic, db)

-- the `match` of the loop of `run`
unfoldable pub handle_event :
    BlockEvent → HashTableDb → Option (Run ServerError (Unit {0}) × HashTableDb)
handle_event (new_block v) db = then_evict (some (insert_validated v db))
handle_event (reorg fork) db = then_evict (roll_back_above (length db.block_index + 1) fork db)
