-- ===== src/Witness/Tree.antt =====
-- crates/witness/src/tree.rs: `CommitmentTreeDb`, its queries and its mutations. `none` is a panic.
-- `Vec` pushes at the end of a list. `usize` is `u64`; a release build is modelled, where
-- `debug_assert!` is off and subtraction wraps.
pub mod Slots
pub mod Represents
pub mod Rollback
use p2p_spendability_pir.Common.{
  ℕ, zero, suc, ◌+◌, ◌-◌, ◌/◌, List, [], ◌∷◌, ◌++◌, reverse, Option, none, some, length, set, take,
  replicate, ltb, ◌==◌, if◌then◌else◌, min, add64, sub64, as_u32,
}
use p2p_spendability_pir.Orchard.{Orchard, Hash}
use p2p_spendability_pir.Witness.Types.{subshard_leaves, shard_leaves, l0_max_shards, l0_db_rows}
use p2p_spendability_pir.Witness.Hashing.{precompute_empty_roots}

pub record BlockRecord : Type 0 where
  pub height : ℕ
  pub hash : Hash
  pub num_commitments : ℕ

abbrev pub Cache : Type 0
Cache = List (Option Hash)

pub record CommitmentTreeDb : Type 0 where
  pub leaves : List Hash
  pub blocks : List BlockRecord
  pub empty_roots : List Hash
  pub leaf_offset : ℕ
  pub prefetched_shard_roots : List Hash
  pub ss_root_cache : Cache

unfoldable pub with_offset : ⦃o : Orchard⦄ → ℕ → List Hash → CommitmentTreeDb
with_offset leaf_offset prefetched = record {
  leaves = [];
  blocks = [];
  empty_roots = precompute_empty_roots;
  leaf_offset = leaf_offset;
  prefetched_shard_roots = prefetched;
  ss_root_cache = replicate l0_db_rows none;
}

unfoldable pub new : ⦃o : Orchard⦄ → CommitmentTreeDb
new = record {
  leaves = [];
  blocks = [];
  empty_roots = precompute_empty_roots;
  leaf_offset = 0;
  prefetched_shard_roots = [];
  ss_root_cache = replicate l0_db_rows none;
}

unfoldable pub tree_size : CommitmentTreeDb → ℕ
tree_size t = add64 t.leaf_offset (length t.leaves)

last? {ℓ} : {A : Type ℓ} → List A → Option A
last? [] = none
last? (x ∷ []) = some x
last? (x ∷ y ∷ xs) = last? (y ∷ xs)

unfoldable pub latest_height : CommitmentTreeDb → Option ℕ
unfolding last?
latest_height t = elim (last? t.blocks) [ none ↦ none | some b ↦ some b.height ]

unfoldable pub latest_block_hash : CommitmentTreeDb → Option Hash
unfolding last?
latest_block_hash t = elim (last? t.blocks) [ none ↦ none | some b ↦ some b.hash ]

unfoldable pub populated_shards : CommitmentTreeDb → ℕ
populated_shards t =
    let total = tree_size t in if total == 0 then 0 else as_u32 ((total - 1) / shard_leaves + 1)

unfoldable pub window_start_shard : CommitmentTreeDb → ℕ
window_start_shard t = as_u32 (t.leaf_offset / shard_leaves)

-- `total - 1` and the difference of the shards are `u64` and `u32` subtractions.
unfoldable pub local_shard_count : CommitmentTreeDb → ℕ
local_shard_count t =
    if length t.leaves == 0
    then 0
    else let last_local = as_u32 (sub64 (tree_size t) 1 / shard_leaves) in
      as_u32 (last_local + 0x1_0000_0000 - window_start_shard t + 1)

unfoldable pub window_shard_count : CommitmentTreeDb → ℕ
window_shard_count t = min (local_shard_count t) l0_max_shards

-- `for slot in first..first + n { self.ss_root_cache[slot] = None }`
unfoldable pub clear_slots : ℕ → ℕ → Cache → Cache
clear_slots first zero cache = cache
clear_slots first (suc n) cache = clear_slots (first + 1) n (set cache first none)

-- the inclusive range `first_dirty..=last_dirty.min(L0_DB_ROWS - 1)`
unfoldable pub invalidate : ℕ → ℕ → Cache → Cache
invalidate old_len new_len cache =
    let first_dirty = old_len / subshard_leaves in
    let last_dirty = (new_len - 1) / subshard_leaves in
    clear_slots first_dirty (min last_dirty (l0_db_rows - 1) + 1 - first_dirty) cache

append_leaves : List Hash → CommitmentTreeDb → CommitmentTreeDb
append_leaves [] t = t
append_leaves (c ∷ cs) t =
    let leaves = t.leaves ++ (c ∷ cs) in
    record t {
      leaves = leaves;
      ss_root_cache = invalidate (length t.leaves) (length leaves) t.ss_root_cache;
    }

unfoldable pub append_commitments : ℕ → Hash → List Hash → CommitmentTreeDb → CommitmentTreeDb
unfolding append_leaves
append_commitments height hash commitments t =
    let t' = append_leaves commitments t in
    let block : BlockRecord = record {
      height = height;
      hash = hash;
      num_commitments = as_u32 (length commitments);
    } in
    record t' { blocks = t'.blocks ++ block ∷ [] }

-- `while let Some(last) = self.blocks.last()`, over the blocks with the last one first
unfoldable pub pop_above : ℕ → ℕ → List BlockRecord → ℕ × List BlockRecord
pop_above target to_remove [] = (to_remove, [])
pop_above target to_remove (b ∷ bs) =
    if ltb target b.height
    then pop_above target (to_remove + b.num_commitments) bs
    else (to_remove, b ∷ bs)

unfoldable pub rollback_to : ℕ → CommitmentTreeDb → CommitmentTreeDb
rollback_to target_height t =
    let (to_remove, kept) = pop_above target_height 0 (reverse t.blocks) in
    let new_len = length t.leaves - to_remove in
    let frontier_slot = if new_len == 0 then 0 else (new_len - 1) / subshard_leaves in
    record t {
      leaves = take new_len t.leaves;
      blocks = reverse kept;
      ss_root_cache = clear_slots frontier_slot (l0_db_rows - frontier_slot) t.ss_root_cache;
    }
