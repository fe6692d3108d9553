-- ===== src/Server/TableSync/Fill/Heights.antt =====
-- `sync_into` of crates/server/src/nullifier/server.rs: where a fill forward starts after a
-- snapshot, and the lowest height to which a fill backward goes.
use p2p_spendability_pir.Common.{
  ℕ, ◌+◌, ◌^◌, ◌<◌, ◌≤◌, ◌≡◌, true, none, some, List, [], ◌∷◌, ◌++◌, All, add64, leb→le, refl, ap,
  subst, sym, ◌∙◌, Option, leb, inl, inr, arith, Bool-cases,
}
use p2p_spendability_pir.Orchard.{◌>>=◌}
use p2p_spendability_pir.Protocol.Types.{ZcashNetwork, main, test}
use p2p_spendability_pir.Ingest.Ironwood.{nu6_3_activation_height}
use p2p_spendability_pir.Nullifier.Table.{BlockRecord, HashTableDb, last_block, latest_height}
use p2p_spendability_pir.Server.TableSync.Newest.{All-last}
use p2p_spendability_pir.Server.TableSync.{min_sync_height}
use p2p_spendability_pir.Server.TableSync.Fill.{forward_start}

-- The lowest height that a fill goes back to: that at which Ironwood was activated, or 1 on a chain
-- that has not come there.
pub data LowestHeight (tip : ℕ) : ZcashNetwork → ℕ → Type 0 where
  main_active : 3428143 ≤ tip → LowestHeight tip main 3428143
  main_before : tip < 3428143 → LowestHeight tip main 1
  test_active : 4134000 ≤ tip → LowestHeight tip test 4134000
  test_before : tip < 4134000 → LowestHeight tip test 1

pub min_sync_height-LowestHeight :
    (tip : ℕ) (network : ZcashNetwork) → LowestHeight tip network (min_sync_height tip network)
unfolding min_sync_height nu6_3_activation_height
min_sync_height-LowestHeight tip main = elim (Bool-cases (leb 3428143 tip)) [
  | inl above ↦ rw above (main_active (leb→le _ _ above))
  | inr below ↦ rw below (main_before (ground arith))
]
min_sync_height-LowestHeight tip test = elim (Bool-cases (leb 4134000 tip)) [
  | inl above ↦ rw above (test_active (leb→le _ _ above))
  | inr below ↦ rw below (test_before (ground arith))
]

pub LowestHeight-bounds :
    (tip : ℕ) (network : ZcashNetwork) (floor : ℕ)
    → LowestHeight tip network floor
    → (0 < floor) × (floor ≤ tip + 1)
LowestHeight-bounds tip _ _ (main_active le) = (omega arith, omega arith)
LowestHeight-bounds tip _ _ (main_before lt) = (omega arith, omega arith)
LowestHeight-bounds tip _ _ (test_active le) = (omega arith, omega arith)
LowestHeight-bounds tip _ _ (test_before lt) = (omega arith, omega arith)

-- The height that follows what a table holds: the one behind its newest block, or the target for a
-- table without blocks.
pub data GoesOn (index : List (ℕ × BlockRecord)) (target : ℕ) : ℕ → Type 0 where
  from_target : index ≡ [] → GoesOn index target target
  behind_newest :
      (older : List (ℕ × BlockRecord)) (height : ℕ) (block : BlockRecord)
      → index ≡ older ++ (height, block) ∷ []
      → GoesOn index target (height + 1)

data Newest (index : List (ℕ × BlockRecord)) : Type 0 where
  no_block : index ≡ [] → last_block index ≡ none → Newest index
  newest :
      (older : List (ℕ × BlockRecord)) (height : ℕ) (block : BlockRecord)
      → index ≡ older ++ (height, block) ∷ []
      → last_block index ≡ some (height, block)
      → Newest index

Newest-of : (index : List (ℕ × BlockRecord)) → Newest index
unfolding last_block
Newest-of [] = no_block refl refl
Newest-of ((h, b) ∷ []) = newest [] h b refl refl
Newest-of (p ∷ q ∷ index) = elim (Newest-of (q ∷ index)) [
  | no_block nothing is_none ↦ absurd (cc)
  | newest older h b parts is_last ↦ newest (p ∷ older) h b (ap (λ l. p ∷ l) parts) is_last
]

pub forward_start-GoesOn :
    (target floor : ℕ) (db : HashTableDb)
    → All (λ b. b.0 + 1 < 2 ^ 64) db.block_index
    → GoesOn db.block_index target (forward_start target floor true db)
unfolding forward_start latest_height
forward_start-GoesOn target floor db fits =
    let from : Option (ℕ × BlockRecord) → ℕ = λ o. elim (o >>= λ (height, block). some height) [
      | none ↦ target
      | some height ↦ add64 height 1
    ] in
    elim (Newest-of db.block_index) [
      | no_block nothing is_none ↦
          subst (GoesOn db.block_index target) (sym (ap from is_none)) (from_target nothing)
      | newest older h b parts is_last ↦
          let small : h + 1 < 2 ^ 64 =
            All-last (λ b. b.0 + 1 < 2 ^ 64) older (h, b)
              (subst (All (λ b. b.0 + 1 < 2 ^ 64)) parts fits) in
          let next : add64 h 1 ≡ h + 1 = omega arith in
          subst (GoesOn db.block_index target) (sym (ap from is_last ∙ next))
            (behind_newest older h b parts)
    ]
