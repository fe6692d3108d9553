-- ===== src/Server/TableSync/Range.antt =====
-- `sync_range` of crates/server/src/nullifier/server.rs: what it leaves in the table.
use p2p_spendability_pir.Common.{
  ℕ, ◌+◌, ◌-◌, ◌^◌, ◌<◌, ◌≤◌, ◌≡◌, refl, sym, ap, subst, ◌∙◌, Option, none, some, List, [], ◌∷◌,
  length, ltb, inl, inr, arith, Bool-cases, ltb→le,
}
use p2p_spendability_pir.Common.Run.{Run, ok, err, panic, Run-cases}
use p2p_spendability_pir.Protocol.Types.{ZcashNetwork, ServerPhase}
use p2p_spendability_pir.Ingest.Block.{Lightwalletd}
use p2p_spendability_pir.Ingest.Range.{ValidatedBlock, IsChain}
use p2p_spendability_pir.Ingest.Ironwood.{
  require_ironwood_tree_state, extract_ironwood_nullifiers, extract_ironwood_nullifiers-exactly,
  nullifiers_of,
}
use p2p_spendability_pir.Ingest.Sync.{consume_all, consume_all-cons, batch_size}
use p2p_spendability_pir.Ingest.Sync.Delivery.{AnswersFit, sync_blocks-Delivered, Delivered}
use p2p_spendability_pir.Nullifier.Table.{HashTableDb, HashTableError, insert_block}
use p2p_spendability_pir.Server.TableSync.{
  ServerError, pipeline, table_result, insert_validated, consume_block, sync_range,
}
use p2p_spendability_pir.Server.TableSync.Events.{IsNullifiers}

-- The blocks are stored one after the other, each with the nullifiers of its Ironwood actions.
pub data Stored : HashTableDb → List ValidatedBlock → HashTableDb → Type 0 where
  none_left : (db : HashTableDb) → Stored db [] db
  then_store :
      (v : ValidatedBlock) (vs : List ValidatedBlock) (db db' db'' : HashTableDb)
      → IsNullifiers v.block
      → insert_block v.block.height v.hash (nullifiers_of v.block) db ≡ some (db', none)
      → Stored db' vs db''
      → Stored db (v ∷ vs) db''

table_result-ok :
    (db : HashTableDb) (r : Option (HashTableDb × Option HashTableError))
    → (table_result db r).0 ≡ ok tt
    → r ≡ some ((table_result db r).1, none)
unfolding table_result
table_result-ok db none h = absurd (cc)
table_result-ok db (some (db', none)) h = refl
table_result-ok db (some (db', some e)) h = absurd (cc)

insert_validated-ok :
    (v : ValidatedBlock) (db : HashTableDb)
    → (insert_validated v db).0 ≡ ok tt
    → IsNullifiers v.block
      × (insert_block v.block.height v.hash (nullifiers_of v.block) db
          ≡ some ((insert_validated v db).1, none))
unfolding insert_validated
insert_validated-ok v db h = elim (Run-cases (extract_ironwood_nullifiers v.block)) [
  | inl (nfs, got) ↦
      let (full, same) = (extract_ironwood_nullifiers-exactly v.block nfs).0 got in
      let stored = insert_block v.block.height v.hash nfs db in
      let runs : insert_validated v db ≡ table_result db stored = rw (got, insert_validated) refl in
      let took = table_result-ok db stored (ap (λ p. p.0) (sym runs) ∙ h) in
      (
        full,
        ap (λ l. insert_block v.block.height v.hash l db) (sym same)
            ∙ took
            ∙ ap (λ p. some (p.1, none)) (sym runs),
      )
  | inr (inl (e, refused)) ↦ absurd (ground arith)
  | inr (inr panicked) ↦ absurd (ground arith)
]

consume_block-ok :
    (to : ℕ) (v : ValidatedBlock) (db : HashTableDb) (phase : ServerPhase)
    → (consume_block to v (db, phase)).0 ≡ ok tt
    → ((insert_validated v db).0 ≡ ok tt)
      × ((consume_block to v (db, phase)).1.0 ≡ (insert_validated v db).1)
unfolding consume_block
consume_block-ok to v db phase h = elim (Run-cases (insert_validated v db).0) [
  | inl (u, took) ↦ (took, rw (took, consume_block) refl)
  | inr (inl (e, refused)) ↦ absurd (ground arith)
  | inr (inr panicked) ↦ absurd (ground arith)
]

consume_all-Stored :
    (to : ℕ) (vs : List ValidatedBlock) (state : HashTableDb × ServerPhase)
    → (consume_all (consume_block to) vs state).0 ≡ ok tt
    → Stored state.0 vs (consume_all (consume_block to) vs state).1.0
unfolding consume_all
consume_all-Stored to [] state h = none_left state.0
consume_all-Stored to (v ∷ vs) state h =
    let (took, rest) = consume_all-cons (consume_block to) v vs state h in
    let (inserted, same) = consume_block-ok to v state.0 state.1 took in
    let (full, runs) = insert_validated-ok v state.0 inserted in
    let next = (consume_block to v state).1 in
    subst (λ p. Stored state.0 (v ∷ vs) p.1.0) (sym rest)
      (then_store v vs state.0 next.0 _ full (runs ∙ ap (λ db. some (db, none)) (sym same))
        (consume_all-Stored to vs next (ap (λ p. p.0) (sym rest) ∙ h)))

-- A sync ends, and one that reports success has stored a chain over the whole range.
abbrev pub RangeStored :
    ℕ → ℕ → HashTableDb → Option (Run ServerError (Unit {0}) × (HashTableDb × ServerPhase)) → Type 0
RangeStored from to db none = ⊥
RangeStored from to db (some (ok u, (db', phase))) =
    (vs : List ValidatedBlock) × IsChain from none vs
    × (length vs ≡ to + 1 - from)
    × Stored db vs db'
RangeStored from to db (some (err e, state)) = Unit
RangeStored from to db (some (panic, state)) = Unit

relayed :
    {C : Type 0} (from to : ℕ) (state : HashTableDb × ServerPhase)
    (r : Option (Run ServerError (Unit {0}) × (HashTableDb × ServerPhase) × C))
    → from ≤ to
    → Delivered (consume_block to) pipeline from to none state r
    → RangeStored from to state.0
        (elim r [ none ↦ none | some (answer, state', lwd) ↦ some (answer, state') ])
relayed from to state none le d = d
relayed from to state (some (ok u, state', lwd)) le (vs, chain, reach, (fed, count)) = (
  vs,
  chain,
  omega arith,
  subst (λ (p : Run ServerError (Unit {0}) × (HashTableDb × ServerPhase)). Stored state.0 vs p.1.0)
      fed (consume_all-Stored to vs state (ap (λ p. p.0) fed)),
)
relayed from to state (some (err e, state', lwd)) le d = tt
relayed from to state (some (panic, state', lwd)) le d = tt

-- A sync of the table to a height always ends. One that reports success has stored a chain of
-- validated blocks, one for each height of the range (none, if the range is empty), one after the
-- other, each with all the nullifiers of its Ironwood actions, which have 32 bytes. The heights are
-- below 2^63 - 10001, and an answer has fewer than 2^63 blocks.
pub sync_range-RangeStored :
    ⦃l : Lightwalletd⦄ (fit : AnswersFit l) (network : ZcashNetwork) (from to : ℕ)
    (db : HashTableDb) (phase : ServerPhase)
    → to + batch_size + 1 < 2 ^ 63
    → RangeStored from to db (sync_range network from to (db, phase))
unfolding sync_range
sync_range-RangeStored ⦃l⦄ fit network from to db phase small = elim (Bool-cases (ltb to from)) [
  | inl empty ↦
      let nothing : 0 ≡ to + 1 - from = ground arith in
      rw (empty, RangeStored) ([], tt, nothing, none_left db)
  | inr some_left ↦
      let le : from ≤ to = ltb→le to from some_left in
      rw (some_left, RangeStored)
        (elim (Run-cases l.connect) [
          | inr (inl (e, failed)) ↦ rw (failed, RangeStored) tt
          | inr (inr panicked) ↦ rw (panicked, RangeStored) tt
          | inl (lwd, connected) ↦
              let required = require_ironwood_tree_state network to lwd in
              rw (connected, RangeStored)
                (elim (Run-cases required.0) [
                  | inr (inl (e, failed)) ↦ rw (failed, RangeStored) tt
                  | inr (inr panicked) ↦ rw (panicked, RangeStored) tt
                  | inl (u, checked) ↦
                      rw (checked, RangeStored)
                        (relayed from to (db, phase) _ le
                          (sync_blocks-Delivered (consume_block to) pipeline fit from to required.1
                            (db, phase) small (omega arith)))
                ])
        ])
]
