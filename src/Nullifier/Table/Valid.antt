-- ===== src/Nullifier/Table/Valid.antt =====
-- The invariant of the table, and that its operations keep it.
use p2p_spendability_pir.Common.{
  ℕ, ◌+◌, ◌^◌, ◌<◌, ◌≤◌, ◌≡◌, refl, sym, ap, ◌∙◌, subst, inl, inr, List, [], ◌∷◌, Option, none,
  some, false, length, All, if_intro, ◌==◌, bytes_eq, bytes_eq_sound, Bool-cases, Option-cases,
  ==_iff, arith,
}
use p2p_spendability_pir.Common.OrderedMap
use p2p_spendability_pir.Common.HashMap
use p2p_spendability_pir.Orchard.{Hash}
use p2p_spendability_pir.Nullifier.Table.{
  BlockRecord, HashTableDb, HashTableError, block_not_found, rollback_block, rollback_height,
  rollback_record, without_block,
}
use p2p_spendability_pir.Nullifier.Table.Cells.{Shape}
use p2p_spendability_pir.Nullifier.Table.Clear.{InRange, Cleared, clear_entries-Cleared}
use p2p_spendability_pir.Nullifier.Table.Undo.{rollback_block-found}

abbrev pub BlockIndex : Type 0
BlockIndex = List (ℕ × BlockRecord)

-- The heights grow, the slots exist, and the hash of every block leads to its height.
unfoldable pub Indexed : BlockIndex → List (Hash × ℕ) → Type 0
Indexed [] hashes = Unit
Indexed ((height, block) ∷ index) hashes =
    (HashMap.lookup block.block_hash hashes ≡ some height)
    × InRange block.slots
    × All (λ b. height < b.0) index
    × Indexed index hashes

unfoldable pub slot_total : BlockIndex → ℕ
slot_total [] = 0
slot_total ((height, block) ∷ index) = length block.slots + slot_total index

pub record Valid (db : HashTableDb) : Type 0 where
  pub shape : Shape db.buckets
  pub indexed : Indexed db.block_index db.block_hash_to_height
  pub count : db.num_entries ≡ slot_total db.block_index
  pub small : db.num_entries < 2 ^ 64

lookup-fresh :
    (k height : ℕ) (index : BlockIndex)
    → k ≤ height
    → All (λ b. height < b.0) index
    → OrderedMap.lookup k index ≡ none
lookup-fresh k height [] le above = refl
lookup-fresh k height ((h, block) ∷ index) le (here, above) =
    ground (arith, lookup-fresh k height index le above)

pub lookup-InRange :
    (k : ℕ) (index : BlockIndex) (hashes : List (Hash × ℕ)) (block : BlockRecord)
    → Indexed index hashes
    → OrderedMap.lookup k index ≡ some block
    → InRange block.slots
unfolding Indexed
lookup-InRange k [] hashes block i e = absurd (cc)
lookup-InRange k ((h, b) ∷ index) hashes block (at, range, above, i) e =
    elim (Bool-cases (k == h)) [
      | inl same ↦
          let here : block ≡ b = ground (arith, same) in
          subst (λ x. InRange x.slots) (sym here) range
      | inr away ↦ lookup-InRange k index hashes block i (ground (arith, away))
    ]

All-remove :
    (P : ℕ × BlockRecord → Type 0) (k : ℕ) (index : BlockIndex)
    → All P index
    → All P (OrderedMap.remove k index)
unfolding OrderedMap.remove
All-remove P k [] h = tt
All-remove P k ((h, b) ∷ index) (here, rest) =
    if_intro (All P) (k == h) _ _ (λ same. All-remove P k index rest)
      (λ away. (here, All-remove P k index rest))

slot_total-remove :
    (k : ℕ) (index : BlockIndex) (hashes : List (Hash × ℕ)) (block : BlockRecord)
    → Indexed index hashes
    → OrderedMap.lookup k index ≡ some block
    → slot_total index ≡ length block.slots + slot_total (OrderedMap.remove k index)
unfolding Indexed slot_total OrderedMap.remove
slot_total-remove k [] hashes block i e = absurd (cc)
slot_total-remove k ((h, b) ∷ index) hashes block (at, range, above, i) e =
    elim (Bool-cases (k == h)) [
      | inl same ↦ ground (
        arith,
        same,
        OrderedMap.remove-absent k index
            (lookup-fresh k h index (omega (arith, (==_iff k h).0 same)) above),
      )
      | inr away ↦
          ground (arith, away, slot_total-remove k index hashes block i (ground (arith, away)))
    ]

other_hash :
    (k : ℕ) (hash : Hash) (h : ℕ) (b : BlockRecord) (hashes : List (Hash × ℕ))
    → (k == h) ≡ false
    → HashMap.lookup hash hashes ≡ some k
    → HashMap.lookup b.block_hash hashes ≡ some h
    → bytes_eq b.block_hash hash ≡ false
other_hash k hash h b hashes away at here = elim (Bool-cases (bytes_eq b.block_hash hash)) [
  | inr other ↦ other
  | inl same ↦
      let one : some h ≡ some k =
        sym here ∙ ap (λ x. HashMap.lookup x hashes) (bytes_eq_sound b.block_hash hash same) ∙ at in
      absurd (ground (arith, one))
]

-- Taking out a hash and its height keeps the other blocks indexed.
Indexed-remove :
    (k : ℕ) (hash : Hash) (index : BlockIndex) (hashes : List (Hash × ℕ))
    → HashMap.lookup hash hashes ≡ some k
    → Indexed index hashes
    → Indexed (OrderedMap.remove k index) (HashMap.remove hash hashes)
unfolding Indexed OrderedMap.remove
Indexed-remove k hash [] hashes at i = tt
Indexed-remove k hash ((h, b) ∷ index) hashes at (here, range, above, i) =
    if_intro (λ x. Indexed x (HashMap.remove hash hashes)) (k == h) _ _
      (λ same. Indexed-remove k hash index hashes at i)
      (λ away. (
        HashMap.lookup-remove hash b.block_hash hashes (other_hash k hash h b hashes away at here)
            ∙ here,
        range,
        All-remove _ k index above,
        Indexed-remove k hash index hashes at i,
      ))

-- On a valid table, rolling back any hash, known or not, never panics and leaves a valid table,
-- with or without an error.
pub rollback_block-Valid :
    (block_hash : Hash) (db : HashTableDb)
    → Valid db
    → (db' : HashTableDb) × (e : Option HashTableError) × (rollback_block block_hash db
        ≡ some (db', e))
      × Valid db'
unfolding rollback_block rollback_height rollback_record without_block
rollback_block-Valid block_hash db v =
    elim (Option-cases (HashMap.lookup block_hash db.block_hash_to_height)) [
      | inl no_hash ↦ (db, some block_not_found, ap (rollback_height block_hash db) no_hash, v)
      | inr (height, at) ↦ elim (Option-cases (OrderedMap.lookup height db.block_index)) [
        | inl no_block ↦ (
          record db { block_hash_to_height = HashMap.remove block_hash db.block_hash_to_height },
          some block_not_found,
          ap (rollback_height block_hash db) at
              ∙ ap (rollback_record block_hash height db) no_block,
          record {
            shape = v.shape;
            indexed =
                subst (λ x. Indexed x (HashMap.remove block_hash db.block_hash_to_height))
                  (OrderedMap.remove-absent height db.block_index no_block)
                  (Indexed-remove height block_hash db.block_index db.block_hash_to_height at
                    v.indexed);
            count = v.count;
            small = v.small;
          },
        )
        | inr (block, found) ↦
            let range =
              lookup-InRange height db.block_index db.block_hash_to_height block v.indexed found in
            let (cleared, clears, c) = clear_entries-Cleared block.slots db.buckets v.shape range in
            let total =
              slot_total-remove height db.block_index db.block_hash_to_height block v.indexed
                found in
            (
              without_block block_hash height block cleared db,
              none,
              rollback_block-found block_hash db height block cleared at found clears,
              record {
                shape = c.shape;
                indexed =
                    Indexed-remove height block_hash db.block_index db.block_hash_to_height at
                      v.indexed;
                count = omega (arith, total, v.count, v.small);
                small = omega (arith, total, v.count, v.small);
              },
            )
      ]
    ]

-- The block at the head of the index can be taken out, and the rest of the index stays.
pub rollback_block-oldest :
    (height : ℕ) (block : BlockRecord) (index : BlockIndex) (db : HashTableDb)
    → Valid db
    → db.block_index ≡ (height, block) ∷ index
    → (db' : HashTableDb) × (rollback_block block.block_hash db ≡ some (db', none))
      × Valid db'
      × (db'.block_index ≡ index)
      × Cleared block.slots db.buckets db'.buckets
unfolding Indexed OrderedMap.remove
rollback_block-oldest height block index db v at_head =
    let i : Indexed ((height, block) ∷ index) db.block_hash_to_height =
      subst (λ x. Indexed x db.block_hash_to_height) at_head v.indexed in
    let found : OrderedMap.lookup height db.block_index ≡ some block =
      ap (OrderedMap.lookup height) at_head ∙ ground arith in
    let absent : OrderedMap.lookup height index ≡ none =
      lookup-fresh height height index (omega arith) i.2 in
    let removed : OrderedMap.remove height db.block_index ≡ index =
      ap (OrderedMap.remove height) at_head
      ∙ ground (arith, OrderedMap.remove-absent height index absent) in
    let (cleared, clears, c) = clear_entries-Cleared block.slots db.buckets v.shape i.1 in
    let runs = rollback_block-found block.block_hash db height block cleared i.0 found clears in
    let (db', e, runs', v') = rollback_block-Valid block.block_hash db v in
    let same : db' ≡ without_block block.block_hash height block cleared db = cc in
    (
      without_block block.block_hash height block cleared db,
      runs,
      subst Valid same v',
      (unfold without_block in removed),
      (unfold without_block in c),
    )
