-- ===== src/Server/TableSync/Fill.antt =====
-- `sync_into` of crates/server/src/nullifier/server.rs: how a table is filled up to the target
-- height, forward and then, without a snapshot, backward. What comes before, the dataset, the
-- snapshot and the tip, and the rebuild after it are left out.
pub mod Heights
pub mod Order
use p2p_spendability_pir.Common.{
  ℕ, zero, suc, ◌+◌, ◌-◌, Bool, true, false, ◌&&◌, Option, none, some, ◌==◌, leb, ltb, max, add64,
}
use p2p_spendability_pir.Common.Run.{Run, ok, err, panic}
use p2p_spendability_pir.Protocol.Types.{ZcashNetwork, ServerPhase, syncing}
use p2p_spendability_pir.Ingest.Block.{Lightwalletd}
use p2p_spendability_pir.Nullifier.Table.{HashTableDb, latest_height}
use p2p_spendability_pir.Server.TableSync.{ServerError, min_sync_height, sync_range}

abbrev pub backfill_batch : ℕ
backfill_batch = 50000

-- the answer of a sync with what it leaves; `none` never comes of it
abbrev pub SyncOutcome : Type 0
SyncOutcome = Option (Run ServerError (Unit {0}) × (HashTableDb × ServerPhase))

-- `?` on a sync
unfoldable pub and_sync : SyncOutcome → (HashTableDb × ServerPhase → SyncOutcome) → SyncOutcome
and_sync none k = none
and_sync (some (ok u, state)) k = k state
and_sync (some (err e, state)) k = some (err e, state)
and_sync (some (panic, state)) k = some (panic, state)

-- Where the forward sync starts, by whether there was a snapshot.
unfoldable pub forward_start : ℕ → ℕ → Bool → HashTableDb → ℕ
forward_start target_height floor true db = elim (latest_height db) [
  | none ↦ target_height
  | some height ↦ add64 height 1
]
forward_start target_height floor false db = max (target_height - backfill_batch) floor

module _ ⦃l : Lightwalletd⦄ (network : ZcashNetwork) where
  unfoldable pub sync_forward : ℕ → ℕ → HashTableDb × ServerPhase → SyncOutcome
  sync_forward start target_height (db, phase) = elim (leb start target_height) [
    | false ↦ some (ok tt, (db, phase))
    | true ↦ sync_range network start target_height (db, syncing start target_height)
  ]

  -- The loop over the older blocks, for `fuel` rounds at most.
  unfoldable pub backfill : ℕ → ℕ → ℕ → ℕ → HashTableDb × ServerPhase → SyncOutcome
  backfill zero target_size floor backfill_end state =
      elim (ltb state.0.num_entries target_size && leb floor backfill_end) [
        | false ↦ some (ok tt, state)
        | true ↦ none
      ]
  backfill (suc fuel) target_size floor backfill_end state =
      elim (ltb state.0.num_entries target_size && leb floor backfill_end) [
        | false ↦ some (ok tt, state)
        | true ↦
            let backfill_start = max (backfill_end - (backfill_batch - 1)) floor in
            and_sync (sync_range network backfill_start backfill_end state) λ state'.
              elim (backfill_start == floor) [
                | true ↦ some (ok tt, state')
                | false ↦ backfill fuel target_size floor (backfill_start - 1) state'
              ]
      ]

  -- a round for each height is enough
  unfoldable pub fill_table : ℕ → ℕ → Bool → HashTableDb × ServerPhase → SyncOutcome
  fill_table target_size target_height from_snapshot state =
      let floor = min_sync_height target_height network in
      let start = forward_start target_height floor from_snapshot state.0 in
      and_sync (sync_forward start target_height state) λ state'. elim from_snapshot [
        | true ↦ some (ok tt, state')
        | false ↦ backfill (start - 1 + 1) target_size floor (start - 1) state'
      ]
