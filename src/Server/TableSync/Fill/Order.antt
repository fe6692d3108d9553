-- ===== src/Server/TableSync/Fill/Order.antt =====
-- The order in which a table is filled: the newest range first, then ever older ones.
use p2p_spendability_pir.Common.{
  ℕ, zero, suc, ◌+◌, ◌-◌, ◌^◌, ◌<◌, ◌≤◌, ◌≡◌, Bool, true, false, ◌&&◌, none, some, List, [], All,
  length, ◌==◌, ==_iff, leb, ltb, max, min, inl, inr, ◌⊎◌, arith, Bool-cases,
}
use p2p_spendability_pir.Common.Run.{ok, err, panic}
use p2p_spendability_pir.Protocol.Types.{ZcashNetwork, ServerPhase, syncing}
use p2p_spendability_pir.Ingest.Block.{Lightwalletd}
use p2p_spendability_pir.Ingest.Range.{ValidatedBlock, IsChain}
use p2p_spendability_pir.Ingest.Sync.{batch_size}
use p2p_spendability_pir.Ingest.Sync.Delivery.{AnswersFit}
use p2p_spendability_pir.Nullifier.Table.{HashTableDb}
use p2p_spendability_pir.Server.TableSync.{min_sync_height}
use p2p_spendability_pir.Server.TableSync.Range.{
  Stored, none_left, RangeStored, sync_range-RangeStored,
}
use p2p_spendability_pir.Server.TableSync.Fill.{
  backfill_batch, SyncOutcome, and_sync, forward_start, sync_forward, backfill, fill_table,
}
use p2p_spendability_pir.Server.TableSync.Fill.Heights.{
  LowestHeight, min_sync_height-LowestHeight, LowestHeight-bounds, GoesOn, forward_start-GoesOn,
}

-- Every height from the first to the last is stored: a chain of the newest heights, then those
-- before it.
pub data Filled : ℕ → ℕ → HashTableDb → HashTableDb → Type 0 where
  no_more : (end : ℕ) (db : HashTableDb) → Filled (end + 1) end db db
  and_older :
      (first start end : ℕ) (vs : List ValidatedBlock) (db db' db'' : HashTableDb)
      → IsChain start none vs
      → length vs ≡ end + 1 - start
      → Stored db vs db'
      → 0 < start
      → Filled first (start - 1) db' db''
      → Filled first end db db''

-- How a fill backward from a height ended.
abbrev pub Backfilled : ℕ → ℕ → ℕ → HashTableDb → SyncOutcome → Type 0
Backfilled target_size floor end db none = ⊥
Backfilled target_size floor end db (some (ok u, (db', phase))) =
    (first : ℕ) × Filled first end db db'
    × (min floor (end + 1) ≤ first)
    × ((first ≤ floor) ⊎ (target_size ≤ db'.num_entries))
Backfilled target_size floor end db (some (err e, state)) = Unit
Backfilled target_size floor end db (some (panic, state)) = Unit

-- a range on top of what is filled before it
on_top :
    (target_size floor start end : ℕ) (db : HashTableDb) (r : SyncOutcome)
    (k : HashTableDb × ServerPhase → SyncOutcome)
    → 0 < start
    → floor ≤ start
    → start ≤ end + 1
    → RangeStored start end db r
    → ((state : HashTableDb × ServerPhase)
        → Backfilled target_size floor (start - 1) state.0 (k state))
    → Backfilled target_size floor end db (and_sync r k)
unfolding and_sync
on_top target_size floor start end db none k pos above le ranged older = ranged
on_top target_size floor start end db (some (err e, state)) k pos above le ranged older = tt
on_top target_size floor start end db (some (panic, state)) k pos above le ranged older = tt
on_top target_size floor start end db (some (ok u, (db', phase))) k pos above le
      (vs, chain, count, stored) older =
    add (k (db', phase)) (older (db', phase))
  where
    add :
        (r : SyncOutcome)
        → Backfilled target_size floor (start - 1) db' r
        → Backfilled target_size floor end db r
    add none b = b
    add (some (err e, state)) b = tt
    add (some (panic, state)) b = tt
    add (some (ok u, (db'', phase'))) (first, filled, bound, enough) = (
      first,
      and_older first start end vs db db' db'' chain count stored pos filled,
      omega (arith, bound),
      enough,
    )

module _ ⦃l : Lightwalletd⦄ (fit : AnswersFit l) (network : ZcashNetwork) (target_size floor : ℕ)
    (pos : 0 < floor) where
  stops :
      (end : ℕ) (state : HashTableDb × ServerPhase)
      → (ltb state.0.num_entries target_size && leb floor end) ≡ false
      → Backfilled target_size floor end state.0 (some (ok tt, state))
  stops end (db, phase) h = (
    end + 1,
    no_more end db,
    omega arith,
    elim (Bool-cases (ltb db.num_entries target_size)) [
      | inl small ↦ inl (ground arith)
      | inr large ↦ inr (ground arith)
    ],
  )

  -- A round for each height is enough.
  backfill-Backfilled :
      (fuel end : ℕ) (state : HashTableDb × ServerPhase)
      → end + batch_size + 1 < 2 ^ 63
      → end < fuel
      → Backfilled target_size floor end state.0 (backfill network fuel target_size floor end state)
  unfolding backfill
  backfill-Backfilled zero end state small enough = absurd (omega arith)
  backfill-Backfilled (suc fuel) end (db, phase) small enough =
      let start = max (end - (backfill_batch - 1)) floor in
      elim (Bool-cases (ltb db.num_entries target_size && leb floor end)) [
        | inr stop ↦ rw (stop, Backfilled) (stops end (db, phase) stop)
        | inl more ↦
            let le : floor ≤ end = ground arith in
            rw (more, Backfilled)
              (on_top target_size floor start end db _ _ (omega arith) (omega arith) (omega arith)
                (sync_range-RangeStored fit network start end db phase small)
                (λ (db', phase'). elim (Bool-cases (start == floor)) [
                  | inl last ↦
                      let is_floor : start ≡ floor = (==_iff start floor).0 last in
                      rw last (
                        start - 1 + 1,
                        no_more (start - 1) db',
                        omega arith,
                        inl (omega (arith, is_floor)),
                      )
                  | inr older ↦
                      let apart : floor < start = ground arith in
                      rw older (
                        backfill-Backfilled fuel (start - 1) (db', phase') (omega arith)
                          (omega arith))
                ]))
      ]

-- How the table is after its start, by whether there was a snapshot.
abbrev pub StartedWith : Bool → ZcashNetwork → ℕ → ℕ → HashTableDb → SyncOutcome → Type 0
StartedWith true network target_size target db r =
    (start : ℕ) × GoesOn db.block_index target start × RangeStored start target db r
StartedWith false network target_size target db r =
    (floor : ℕ) × LowestHeight target network floor × Backfilled target_size floor target db r

-- `Ok` of a sync of the range that is left
ends_with_range :
    (start end : ℕ) (db : HashTableDb) (r : SyncOutcome)
    → RangeStored start end db r
    → RangeStored start end db (and_sync r (λ state. some (ok tt, state)))
unfolding and_sync
ends_with_range start end db none ranged = ranged
ends_with_range start end db (some (ok u, state)) ranged = ranged
ends_with_range start end db (some (err e, state)) ranged = tt
ends_with_range start end db (some (panic, state)) ranged = tt

module _ ⦃l : Lightwalletd⦄ (fit : AnswersFit l) (network : ZcashNetwork) where
  sync_forward-RangeStored :
      (start target : ℕ) (db : HashTableDb) (phase : ServerPhase)
      → target + batch_size + 1 < 2 ^ 63
      → RangeStored start target db (sync_forward network start target (db, phase))
  unfolding sync_forward
  sync_forward-RangeStored start target db phase small = elim (Bool-cases (leb start target)) [
    | inr beyond ↦
        let nothing : 0 ≡ target + 1 - start = ground arith in
        rw (beyond, RangeStored) ([], tt, nothing, none_left db)
    | inl within ↦
        rw (within, RangeStored)
          (sync_range-RangeStored fit network start target db (syncing start target) small)
  ]

  -- Filling the table always ends. After a snapshot, a fill that reports success has stored the
  -- heights from the one behind the newest block of the table up to the target, or the target alone
  -- if the table has no block. Without one it has
  -- stored every height from some first one up to the target, in chains of validated blocks with
  -- all their nullifiers, and stopped there since the table has as many nullifiers as asked for or
  -- since the lowest height was reached: the height of the activation on the network, or 1 if the
  -- target is below it. The target is below 2^63 - 10001, and the heights of the table below
  -- 2^64 - 1; an answer has fewer than 2^63 blocks.
  pub fill_table-StartedWith :
      (target_size target : ℕ) (from_snapshot : Bool) (db : HashTableDb) (phase : ServerPhase)
      → target + batch_size + 1 < 2 ^ 63
      → All (λ b. b.0 + 1 < 2 ^ 64) db.block_index
      → StartedWith from_snapshot network target_size target db
          (fill_table network target_size target from_snapshot (db, phase))
  unfolding fill_table
  fill_table-StartedWith target_size target true db phase small fits = (
    forward_start target (min_sync_height target network) true db,
    forward_start-GoesOn target (min_sync_height target network) db fits,
    ends_with_range _ target db _ (sync_forward-RangeStored _ target db phase small),
  )
  fill_table-StartedWith target_size target false db phase small fits =
      let floor = min_sync_height target network in
      let lowest = min_sync_height-LowestHeight target network in
      let (pos, low) = LowestHeight-bounds target network floor lowest in
      let start = max (target - backfill_batch) floor in
      (
        floor,
        lowest,
        unfold forward_start in
            on_top target_size floor start target db _ _ (omega arith) (omega arith) (omega arith)
              (sync_forward-RangeStored start target db phase small)
              (λ state.
                backfill-Backfilled fit network target_size floor pos (start - 1 + 1) (start - 1)
                  state (omega arith) (omega arith)),
      )
