-- ===== src/Witness/Roots.antt =====
-- crates/witness/src/tree.rs, "Leaf / root queries". `none` is a panic.

pub mod Nodes
pub mod Laws
use p2p_spendability_pir.Common.{
  ℕ, ◌+◌, ◌*◌, List, map, Option, some, length, get_elem?, get_or, tabulate, collect, ltb, leb,
  ◌==◌, if◌then◌else◌, ◌&&◌, sub64, as_u8,
}
use p2p_spendability_pir.Orchard.{Orchard, Hash, ◌>>=◌}
use p2p_spendability_pir.Witness.Types.{
  shard_height, subshard_height, subshard_leaves, subshards_per_shard, shard_leaves, tree_depth,
}
use p2p_spendability_pir.Witness.Hashing.{complete_subtree_root, sparse_subtree_root}
use p2p_spendability_pir.Witness.Tree.{
  CommitmentTreeDb, tree_size, populated_shards, window_start_shard,
}

unfoldable pub subshard_leaves_of : CommitmentTreeDb → ℕ → ℕ → Option (List Hash)
subshard_leaves_of t shard_idx subshard_idx =
    let global_start = shard_idx * shard_leaves + subshard_idx * subshard_leaves in
    get_elem? t.empty_roots 0 >>= λ empty_leaf. some (
      tabulate subshard_leaves λ i.
        let global_pos = global_start + i in
        let local_pos = sub64 global_pos t.leaf_offset in
        if leb t.leaf_offset global_pos && ltb local_pos (length t.leaves)
        then get_or t.leaves local_pos empty_leaf
        else empty_leaf)

-- `self.prefetched_shard_roots[i]`, or the root of an empty shard if it was not fetched
unfoldable pub prefetched_root : CommitmentTreeDb → ℕ → Option Hash
prefetched_root t i =
    if ltb i (length t.prefetched_shard_roots)
    then get_elem? t.prefetched_shard_roots i
    else get_elem? t.empty_roots shard_height

module _ ⦃o : Orchard⦄ where
  unfoldable pub subshard_roots : CommitmentTreeDb → ℕ → Option (List Hash)
  subshard_roots t shard_idx =
      let shard_global_start = shard_idx * shard_leaves in
      get_elem? t.empty_roots subshard_height >>= λ empty_ss_root. collect (
        tabulate subshards_per_shard λ ss.
          if leb (tree_size t) (shard_global_start + ss * subshard_leaves)
          then some empty_ss_root
          else (subshard_leaves_of t shard_idx (as_u8 ss) >>= λ leaves.
              complete_subtree_root leaves 0))

  unfoldable pub shard_roots : CommitmentTreeDb → Option (List (ℕ × Hash))
  shard_roots t = collect (
      tabulate (populated_shards t) λ i.
        if ltb i (window_start_shard t)
        then (prefetched_root t i >>= λ root. some (i, root))
        else (do
          ss_roots ← subshard_roots t i
          root ← complete_subtree_root ss_roots subshard_height
          some (i, root)))

  unfoldable pub tree_root : CommitmentTreeDb → Option Hash
  tree_root t =
      if tree_size t == 0
      then get_elem? t.empty_roots tree_depth
      else (shard_roots t >>= λ roots.
          sparse_subtree_root t.empty_roots (map (λ r. r.1) roots) shard_leaves shard_height)
