-- ===== src/Witness/Position.antt =====
-- What the decomposition of a position promises, and where its row stands.
use p2p_spendability_pir.Common.{ℕ, ◌+◌, ◌-◌, ◌*◌, ◌^◌, ◌<◌, ◌≤◌, ◌≡◌, arith}
use p2p_spendability_pir.Witness.Types.{
  decompose_position, physical_row_index, l0_db_rows, l0_max_shards,
}

-- A position below 2^48 is put together again from its three parts, and the parts are in range;
-- a position of the tree, below 2^32, lies in one of 2^16 shards.
pub decompose_position_parts :
    (p : ℕ)
    → p < 2 ^ 48
    → let (shard, subshard, leaf) = decompose_position p in
      (shard * 2 ^ 16 + subshard * 2 ^ 8 + leaf ≡ p)
      × (subshard < 256)
      × (leaf < 256)
      × (p < 2 ^ 32 → shard < 2 ^ 16)
unfolding decompose_position
decompose_position_parts p h = omega arith

-- Within a window of at most 16 shards, the row of a position is a row of the database, and two
-- positions share a row exactly if they share the shard and the sub-shard.
pub physical_row_index_window :
    (start count s ss s' ss' : ℕ)
    → start + count < 2 ^ 32
    → count ≤ l0_max_shards
    → (start ≤ s) × (s < start + count) × (ss < 256)
    → (start ≤ s') × (s' < start + count) × (ss' < 256)
    → (physical_row_index s ss start < l0_db_rows)
      × (physical_row_index s ss start ≡ physical_row_index s' ss' start → (s ≡ s') × (ss ≡ ss'))
unfolding physical_row_index
physical_row_index_window start count s ss s' ss' hw hc h h' = omega arith

pub physical_row_index-eq :
    (start s ss : ℕ)
    → start ≤ s
    → s < 2 ^ 32
    → physical_row_index s ss start ≡ (s - start) * 256 + ss
unfolding physical_row_index
physical_row_index-eq start s ss h k = omega arith
