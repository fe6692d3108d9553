-- ===== src/Server/TableSync/Reorg.antt =====
-- A reorganisation takes the newest blocks from the table.
use p2p_spendability_pir.Common.{
  ℕ, zero, suc, ◌<◌, ◌≤◌, ◌≡◌, refl, sym, ap, ap₂, subst, ◌∙◌, Bool, true, false, Option, none,
  some, [], ◌∷◌, ◌++◌, append-nil, append_assoc, length, length-append, All, ltb, ltb→lt, lt→ltb,
  if◌then◌else◌, inl, inr, ◌⊎◌, arith, Bool-cases,
}
use p2p_spendability_pir.Common.Run.{Run, ok, err, panic}
use p2p_spendability_pir.Orchard.{Hash, ◌>>=◌}
use p2p_spendability_pir.Nullifier.Table.{
  BlockRecord, HashTableDb, rollback_block, latest_height, latest_block_hash, last_block,
  without_block,
}
use p2p_spendability_pir.Nullifier.Table.Clear.{Cleared, clear_entries-Cleared}
use p2p_spendability_pir.Nullifier.Table.Emptied.{Emptied, nothing-Emptied, Emptied-newest}
use p2p_spendability_pir.Nullifier.Table.Undo.{rollback_block-found}
use p2p_spendability_pir.Nullifier.Table.Valid.{
  BlockIndex, Valid, rollback_block-Valid, lookup-InRange,
}
use p2p_spendability_pir.Server.TableSync.{
  ServerError, table_result, is_above, roll_back_round, roll_back_above,
}
use p2p_spendability_pir.Server.TableSync.Newest.{
  up_to, TopBlock, up_to_whole, up_to_cut, All-le, find_last_of,
}

rollback_last :
    (db : HashTableDb) (v : Valid db) (l : TopBlock db.block_index db.block_hash_to_height)
    → (db' : HashTableDb) × (rollback_block l.block.block_hash db ≡ some (db', none))
      × Valid db'
      × (db'.block_index ≡ l.init)
      × Cleared l.block.slots db.buckets db'.buckets
unfolding without_block
rollback_last db v l =
    let range =
      lookup-InRange l.height db.block_index db.block_hash_to_height l.block v.indexed l.found in
    let (cleared, clears, c) = clear_entries-Cleared l.block.slots db.buckets v.shape range in
    let runs =
      rollback_block-found l.block.block_hash db l.height l.block cleared l.hashed l.found clears in
    let (db', e, runs', v') = rollback_block-Valid l.block.block_hash db v in
    let same : db' ≡ without_block l.block.block_hash l.height l.block cleared db = cc in
    (
      without_block l.block.block_hash l.height l.block cleared db,
      runs,
      subst Valid same v',
      l.removed,
      c,
    )

latest-last :
    (db : HashTableDb) (l : TopBlock db.block_index db.block_hash_to_height)
    → (latest_height db ≡ some l.height) × (latest_block_hash db ≡ some l.block.block_hash)
unfolding latest_height latest_block_hash
latest-last db l = (
  ap (λ o. o >>= λ (height, block). some height) l.is_last,
  ap (λ o. o >>= λ (height, block). some block.block_hash) l.is_last,
)

is_above-last :
    (fork : ℕ) (db : HashTableDb) (l : TopBlock db.block_index db.block_hash_to_height)
    → is_above fork db ≡ ltb fork l.height
unfolding is_above
is_above-last fork db l =
    ap (λ o. elim o as (λ _. Bool) [ none ↦ false | some height ↦ ltb fork height ])
      ((latest-last db l).0)

is_above-empty : (fork : ℕ) (db : HashTableDb) → db.block_index ≡ [] → is_above fork db ≡ false
unfolding is_above latest_height last_block
is_above-empty fork db h = rw h refl

empty_or_last :
    (db : HashTableDb)
    → Valid db
    → (db.block_index ≡ []) ⊎ TopBlock db.block_index db.block_hash_to_height
empty_or_last db v = find_last_of db.block_index db.block_hash_to_height v.indexed

stays :
    (fuel fork : ℕ) (db : HashTableDb)
    → is_above fork db ≡ false
    → roll_back_above fuel fork db ≡ some (ok tt, db)
unfolding roll_back_above roll_back_round
stays zero fork db h = ap (λ b. if b then none else some (ok tt, db)) h
stays (suc fuel) fork db h =
    ap (λ b. roll_back_round (roll_back_above fuel fork) b (latest_block_hash db) db) h

steps :
    (fuel fork : ℕ) (db db' : HashTableDb) (hash : Hash)
    → is_above fork db ≡ true
    → latest_block_hash db ≡ some hash
    → rollback_block hash db ≡ some (db', none)
    → roll_back_above (suc fuel) fork db ≡ roll_back_above fuel fork db'
unfolding roll_back_above roll_back_round table_result
steps fuel fork db db' hash above at runs =
    ap₂ (λ b h. roll_back_round (roll_back_above fuel fork) b h db) above at
    ∙ ap
        (λ r.
          let t = table_result db r in
          elim t.0 as (λ _. Option (Run ServerError (Unit {0}) × HashTableDb)) [
            | ok u ↦ roll_back_above fuel fork t.1
            | err e ↦ some (err e, t.1)
            | panic ↦ some (panic, t.1)
          ])
        runs

-- The loop has ended without a panic or an error on a valid table that has the blocks up to the
-- fork, and no other; the slots of the blocks above it are empty, and no other cell has changed.
pub record RolledBack (fork : ℕ) (db : HashTableDb)
    (result : Option (Run ServerError (Unit {0}) × HashTableDb)) : Type 0 where
  pub table : HashTableDb
  pub ends : result ≡ some (ok tt, table)
  pub valid : Valid table
  pub kept : table.block_index ≡ up_to fork db.block_index
  pub removed : BlockIndex
  pub parts : db.block_index ≡ table.block_index ++ removed
  pub emptied : Emptied removed db.buckets table.buckets

-- nothing is above the fork
at_rest :
    (fuel fork : ℕ) (db : HashTableDb)
    → Valid db
    → is_above fork db ≡ false
    → All (λ b. b.0 ≤ fork) db.block_index
    → RolledBack fork db (roll_back_above fuel fork db)
at_rest fuel fork db v low h = record {
  table = db;
  ends = stays fuel fork db low;
  valid = v;
  kept = sym (up_to_whole fork db.block_index h);
  removed = [];
  parts = sym (append-nil db.block_index);
  emptied = nothing-Emptied db.buckets;
}

low_or_last :
    (fork : ℕ) (db : HashTableDb)
    → Valid db
    → ((is_above fork db ≡ false) × All (λ b. b.0 ≤ fork) db.block_index)
      ⊎ ((l : TopBlock db.block_index db.block_hash_to_height) × (fork < l.height))
low_or_last fork db v = elim (empty_or_last db v) [
  | inl none_left ↦
      inl (is_above-empty fork db none_left, subst (All (λ b. b.0 ≤ fork)) (sym none_left) tt)
  | inr l ↦ elim (Bool-cases (ltb fork l.height)) [
    | inr low ↦ inl (
      is_above-last fork db l ∙ low,
      All-le l.height fork db.block_index (ground (arith, low)) l.highest,
    )
    | inl high ↦ inr (l, ltb→lt fork l.height high)
  ]
]

shorter :
    (init : BlockIndex) (b : ℕ × BlockRecord) (index : BlockIndex) (fuel : ℕ)
    → index ≡ init ++ b ∷ []
    → length index ≤ suc fuel
    → length init ≤ fuel
shorter init b index fuel parts bound =
    omega (arith, bound, ap (λ (l : BlockIndex). length l) parts, length-append init (b ∷ []))

no_blocks : (fork : ℕ) (index : BlockIndex) → length index ≤ 0 → All (λ b. b.0 ≤ fork) index
no_blocks fork [] h = tt
no_blocks fork (b ∷ index) h = absurd (omega arith)

-- Going back to a height on a valid table ends within a round for each of its blocks, without a
-- panic or an error: the blocks above the height are gone, those up to it are left in their order,
-- and the table is valid.
pub roll_back_above-RolledBack :
    (fuel fork : ℕ) (db : HashTableDb)
    → Valid db
    → length db.block_index ≤ fuel
    → RolledBack fork db (roll_back_above fuel fork db)
roll_back_above-RolledBack zero fork db v bound = elim (low_or_last fork db v) [
  | inl (low, h) ↦ at_rest zero fork db v low h
  | inr (l, high) ↦ absurd (
      omega (
        arith,
        bound,
        ap (λ (x : BlockIndex). length x) l.parts,
        length-append l.init ((l.height, l.block) ∷ []),
      ))
]
roll_back_above-RolledBack (suc fuel) fork db v bound = elim (low_or_last fork db v) [
  | inl (low, h) ↦ at_rest (suc fuel) fork db v low h
  | inr (l, high) ↦
      let (db', runs, v', left, c) = rollback_last db v l in
      let above = is_above-last fork db l ∙ lt→ltb fork l.height high in
      let fits : length db'.block_index ≤ fuel =
        subst (λ (x : BlockIndex). length x ≤ fuel) (sym left)
          (shorter l.init (l.height, l.block) db.block_index fuel l.parts bound) in
      let r = roll_back_above-RolledBack fuel fork db' v' fits in
      record {
        table = r.table;
        ends = steps fuel fork db db' l.block.block_hash above ((latest-last db l).1) runs ∙ r.ends;
        valid = r.valid;
        kept =
            r.kept
            ∙ ap (up_to fork) left
            ∙ sym (up_to_cut fork l.height l.block l.init high)
            ∙ sym (ap (up_to fork) l.parts);
        removed = r.removed ++ (l.height, l.block) ∷ [];
        parts =
            l.parts
            ∙ ap (λ x. x ++ (l.height, l.block) ∷ []) (sym left ∙ r.parts)
            ∙ append_assoc r.table.block_index r.removed ((l.height, l.block) ∷ []);
        emptied =
            Emptied-newest (l.height, l.block) r.removed db.buckets db'.buckets r.table.buckets c
              r.emptied;
      }
]
