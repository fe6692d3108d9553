-- ===== src/Witness/Types.antt =====
-- crates/witness/src/types.rs: the geometry of the tree, positions, and what is broadcast.
use p2p_spendability_pir.Common.{ℕ, ◌+◌, ◌-◌, ◌*◌, ◌/◌, ◌%◌, ◌^◌, List, as_u32, as_u8}
use p2p_spendability_pir.Orchard.{Hash}

abbrev pub tree_depth : ℕ
tree_depth = 32

abbrev pub shard_height : ℕ
shard_height = 16

abbrev pub subshard_height : ℕ
subshard_height = 8

abbrev pub subshard_leaves : ℕ
subshard_leaves = 2 ^ subshard_height

abbrev pub subshards_per_shard : ℕ
subshards_per_shard = 2 ^ subshard_height

abbrev pub shard_leaves : ℕ
shard_leaves = 2 ^ shard_height

abbrev pub subshard_row_bytes : ℕ
subshard_row_bytes = subshard_leaves * 32

abbrev pub l0_max_shards : ℕ
l0_max_shards = 16

abbrev pub l0_db_rows : ℕ
l0_db_rows = l0_max_shards * subshards_per_shard

abbrev pub l0_db_bytes : ℕ
l0_db_bytes = l0_db_rows * subshard_row_bytes

pub record PirWitness : Type 0 where
  pub position : ℕ
  pub siblings : List Hash
  pub anchor_height : ℕ
  pub anchor_root : Hash

unfoldable pub shard_index : PirWitness → ℕ
shard_index w = as_u32 (w.position / 2 ^ shard_height)

-- `x & 0xFF` is `x % 256`, and `as u8` drops nothing more.
unfoldable pub subshard_index : PirWitness → ℕ
subshard_index w = as_u8 (w.position / 2 ^ subshard_height % 256)

unfoldable pub leaf_index : PirWitness → ℕ
leaf_index w = as_u8 (w.position % 256)

unfoldable pub decompose_position : ℕ → ℕ × ℕ × ℕ
decompose_position position = (
  as_u32 (position / 2 ^ shard_height),
  as_u8 (position / 2 ^ subshard_height % 256),
  as_u8 (position % 256),
)

-- `shard_index - window_start_shard` on `u32` wraps in a release build.
unfoldable pub physical_row_index : ℕ → ℕ → ℕ → ℕ
physical_row_index shard subshard window_start =
    as_u32 (shard + 2 ^ 32 - window_start) * subshards_per_shard + subshard

pub record CapData : Type 0 where
  pub shard_roots : List Hash

pub record ShardSubRoots : Type 0 where
  pub roots : List Hash

pub record BroadcastData : Type 0 where
  pub cap : CapData
  pub subshard_roots : List ShardSubRoots
  pub window_start_shard : ℕ
  pub window_shard_count : ℕ
  pub anchor_height : ℕ
