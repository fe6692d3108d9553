-- ===== src/Nullifier/Table/Evict.antt =====
-- Eviction ends within the bound, takes the oldest blocks and no more than it must.
use p2p_spendability_pir.Common.{
  ℕ, zero, suc, ◌+◌, ◌<◌, ◌≤◌, ◌≡◌, refl, sym, ap, ◌∙◌, subst, inl, inr, [], ◌∷◌, ◌++◌, Option,
  none, some, true, false, length, ltb, ltb→lt, ltb→le, lt→ltb, le→ltb, Bool-cases, arith,
}
use p2p_spendability_pir.Orchard.{◌>>=◌}
use p2p_spendability_pir.Nullifier.Types.{target_size}
use p2p_spendability_pir.Nullifier.Table.{
  BlockRecord, HashTableDb, evict_oldest_block, evict_rounds, evict_to_target, rollback_block,
  evicted,
}
use p2p_spendability_pir.Nullifier.Table.Clear.{Cleared}
use p2p_spendability_pir.Nullifier.Table.Emptied.{Emptied, nothing-Emptied, Emptied-oldest}
use p2p_spendability_pir.Nullifier.Table.Valid.{
  BlockIndex, slot_total, Valid, rollback_block-oldest,
}

-- The first blocks go, as long as the others have too many nullifiers.
pub data Kept : BlockIndex → BlockIndex → Type 0 where
  enough : (index : BlockIndex) → slot_total index ≤ target_size → Kept index index
  dropped :
      (b : ℕ × BlockRecord) (index kept : BlockIndex)
      → target_size < slot_total (b ∷ index)
      → Kept index kept
      → Kept (b ∷ index) kept

evict_oldest_block-Valid :
    (db : HashTableDb) (b : ℕ × BlockRecord) (index : BlockIndex)
    → Valid db
    → db.block_index ≡ b ∷ index
    → (db' : HashTableDb) × (evict_oldest_block db ≡ some (db', some b.0))
      × Valid db'
      × (db'.block_index ≡ index)
      × Cleared b.1.slots db.buckets db'.buckets
unfolding evict_oldest_block evicted
evict_oldest_block-Valid db b index v shape =
    let (db', rolls, v', rest, c) = rollback_block-oldest b.0 b.1 index db v shape in
    (
      db',
      ap
            (λ l. elim l as (λ _. Option (HashTableDb × Option ℕ)) [
              | [] ↦ some (db, none)
              | (height, block) ∷ rest ↦
                  rollback_block block.block_hash db >>= λ rolled. some (evicted height rolled)
            ])
            shape
          ∙ ap (λ o. o >>= λ rolled. some (evicted b.0 rolled)) rolls,
      v',
      rest,
      c,
    )

evict_rounds-step :
    (fuel : ℕ) (db db' : HashTableDb) (height : ℕ)
    → target_size < db.num_entries
    → evict_oldest_block db ≡ some (db', some height)
    → evict_rounds (suc fuel) db ≡ evict_rounds fuel db'
unfolding evict_rounds
evict_rounds-step fuel db db' height over runs =
    ap
      (λ b. elim b as (λ _. Option HashTableDb) [
        | false ↦ some db
        | true ↦ evict_oldest_block db >>= λ round. elim round.1 as (λ _. Option HashTableDb) [
          | none ↦ some round.0
          | some height ↦ evict_rounds fuel round.0
        ]
      ])
      (lt→ltb target_size db.num_entries over)
    ∙ ap
        (λ o. o >>= λ round. elim round.1 as (λ _. Option HashTableDb) [
          | none ↦ some round.0
          | some height ↦ evict_rounds fuel round.0
        ])
        runs

evict_rounds-stop :
    (fuel : ℕ) (db : HashTableDb) → db.num_entries ≤ target_size → evict_rounds fuel db ≡ some db
unfolding evict_rounds
evict_rounds-stop zero db under = ground (arith, under)
evict_rounds-stop (suc fuel) db under =
    ap
      (λ b. elim b as (λ _. Option HashTableDb) [
        | false ↦ some db
        | true ↦ evict_oldest_block db >>= λ round. elim round.1 as (λ _. Option HashTableDb) [
          | none ↦ some round.0
          | some height ↦ evict_rounds fuel round.0
        ]
      ])
      (le→ltb target_size db.num_entries under)

Evicted : HashTableDb → Option HashTableDb → Type 0
Evicted db result =
    (db' : HashTableDb) × (result ≡ some db')
    × Valid db'
    × (db'.num_entries ≤ target_size)
    × Kept db.block_index db'.block_index
    × (oldest : BlockIndex) × (db.block_index ≡ oldest ++ db'.block_index)
    × Emptied oldest db.buckets db'.buckets

evict_rounds-within :
    (fuel : ℕ) (db : HashTableDb)
    → Valid db
    → db.num_entries ≤ target_size
    → Evicted db (evict_rounds fuel db)
unfolding Evicted
evict_rounds-within fuel db v under = (
  db,
  evict_rounds-stop fuel db under,
  v,
  under,
  enough db.block_index (omega (arith, v.count)),
  [],
  refl,
  nothing-Emptied db.buckets,
)

-- A round for every block is enough.
evict_rounds-Evicted :
    (fuel : ℕ) (index : BlockIndex) (db : HashTableDb)
    → Valid db
    → db.block_index ≡ index
    → length index ≤ fuel
    → Evicted db (evict_rounds fuel db)
unfolding Evicted slot_total
evict_rounds-Evicted fuel [] db v at le =
    evict_rounds-within fuel db v (omega (arith, v.count, ap slot_total at))
evict_rounds-Evicted zero (b ∷ index) db v at le = absurd (omega arith)
evict_rounds-Evicted (suc fuel) (b ∷ index) db v at le =
    elim (Bool-cases (ltb target_size db.num_entries)) [
      | inr under ↦ evict_rounds-within (suc fuel) db v (ltb→le target_size db.num_entries under)
      | inl more ↦
          let over = ltb→lt target_size db.num_entries more in
          let (db₁, runs, v₁, rest, c) = evict_oldest_block-Valid db b index v at in
          let (db', ends, v', bound, kept, oldest, parts, emptied) =
            evict_rounds-Evicted fuel index db₁ v₁ rest (omega arith) in
          (
            db',
            evict_rounds-step fuel db db₁ b.0 over runs ∙ ends,
            v',
            bound,
            subst (λ x. Kept x db'.block_index) (sym at)
                (dropped b index db'.block_index (omega (arith, over, v.count, ap slot_total at))
                  (subst (λ x. Kept x db'.block_index) rest kept)),
            b ∷ oldest,
            at ∙ ap (λ l. b ∷ l) (sym rest ∙ parts),
            Emptied-oldest b oldest db.buckets db₁.buckets db'.buckets c emptied,
          )
    ]

-- On a valid table the eviction ends without a panic, with a valid table of at most a million
-- nullifiers, and what is left of the blocks is what is left when the oldest ones are dropped
-- one by one while the others still hold more than that. The slots of the dropped blocks are
-- empty, and no other cell has changed.
pub evict_to_target-Kept :
    (db : HashTableDb)
    → Valid db
    → (db' : HashTableDb) × (evict_to_target db ≡ some db')
      × Valid db'
      × (db'.num_entries ≤ target_size)
      × Kept db.block_index db'.block_index
      × (oldest : BlockIndex) × (db.block_index ≡ oldest ++ db'.block_index)
      × Emptied oldest db.buckets db'.buckets
unfolding evict_to_target Evicted
evict_to_target-Kept db v =
    evict_rounds-Evicted (length db.block_index + 1) db.block_index db v refl (omega arith)
