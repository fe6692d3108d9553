-- ===== src/Witness/Build.antt =====
-- crates/witness/src/tree.rs, "Broadcast / PIR database". `none` is a panic. The counts of cache
-- hits and misses are only logged.

pub mod Laws
pub mod Broadcast
pub mod Database
use p2p_spendability_pir.Common.{
  ℕ, zero, suc, ◌+◌, ◌*◌, List, [], ◌∷◌, ◌++◌, Option, none, some, get_elem?, set, tabulate, concat,
  collect, resize, leb, if◌then◌else◌, as_u8,
}
use p2p_spendability_pir.Orchard.{Orchard, Hash, ◌>>=◌}
use p2p_spendability_pir.Witness.Types.{
  subshard_height, subshard_leaves, subshards_per_shard, shard_leaves, l0_db_bytes, ShardSubRoots,
  BroadcastData,
}
use p2p_spendability_pir.Witness.Hashing.{complete_subtree_root}
use p2p_spendability_pir.Witness.Tree.{
  CommitmentTreeDb, Cache, tree_size, window_start_shard, window_shard_count,
}
use p2p_spendability_pir.Witness.Roots.{subshard_leaves_of, prefetched_root}

module _ ⦃o : Orchard⦄ where
  -- what one round of the inner loop does with the slot of the cache
  unfoldable pub cached_root : Option Hash → List Hash → ℕ → Cache → Option (Hash × Cache)
  cached_root (some cached) leaves slot cache = some (cached, cache)
  cached_root none leaves slot cache = do
    root ← complete_subtree_root leaves 0
    some (root, set cache slot (some root))

  -- One round of `for ss in 0..SUBSHARDS_PER_SHARD`: the bytes that it writes, the root that it
  -- pushes, and the cache.
  unfoldable pub build_subshard :
      CommitmentTreeDb → Hash → ℕ → ℕ → ℕ → Cache → Option (List ℕ × Hash × Cache)
  build_subshard t empty_ss_root shard_idx i ss cache =
      let cache_slot = i * subshards_per_shard + ss in
      let ss_global_start = shard_idx * shard_leaves + ss * subshard_leaves in
      subshard_leaves_of t shard_idx (as_u8 ss) >>= λ leaves.
      if leb (tree_size t) ss_global_start then some (concat leaves, empty_ss_root, cache) else (do
        slot ← get_elem? cache cache_slot
        (root, cache') ← cached_root slot leaves cache_slot cache
        some (concat leaves, root, cache'))

  unfoldable pub build_subshards :
      CommitmentTreeDb → Hash → ℕ → ℕ → ℕ → ℕ → Cache → Option (List ℕ × List Hash × Cache)
  build_subshards t empty_ss_root shard_idx i ss zero cache = some ([], [], cache)
  build_subshards t empty_ss_root shard_idx i ss (suc n) cache = do
    (bytes, root, cache₁) ← build_subshard t empty_ss_root shard_idx i ss cache
    (rest, roots, cache₂) ← build_subshards t empty_ss_root shard_idx i (ss + 1) n cache₁
    some (bytes ++ rest, root ∷ roots, cache₂)

  -- `for i in 0..window_count`, from round `i` on
  unfoldable pub build_shards :
      CommitmentTreeDb
      → Hash
      → ℕ
      → ℕ
      → ℕ
      → Cache
      → Option (List ℕ × List Hash × List ShardSubRoots × Cache)
  build_shards t empty_ss_root window_start i zero cache = some ([], [], [], cache)
  build_shards t empty_ss_root window_start i (suc n) cache = do
    let shard_idx = window_start + i
    (bytes, roots, cache₁) ← build_subshards t empty_ss_root shard_idx i 0 subshards_per_shard cache
    shard_root ← complete_subtree_root roots subshard_height
    (rest, cap, subs, cache₂) ← build_shards t empty_ss_root window_start (i + 1) n cache₁
    some (bytes ++ rest, shard_root ∷ cap, record { roots = roots } ∷ subs, cache₂)

  unfoldable pub build_pir_db_and_broadcast :
      ℕ → CommitmentTreeDb → Option (List ℕ × BroadcastData × CommitmentTreeDb)
  build_pir_db_and_broadcast anchor_height t = do
    let window_start = window_start_shard t
    let window_count = window_shard_count t
    empty_ss_root ← get_elem? t.empty_roots subshard_height
    prefetched ← collect (tabulate window_start (prefetched_root t))
    (db, cap, subs, cache) ←
        build_shards t empty_ss_root window_start 0 window_count t.ss_root_cache
    some (
      resize l0_db_bytes 0 db,
      record {
        cap = record { shard_roots = prefetched ++ cap };
        subshard_roots = subs;
        window_start_shard = window_start;
        window_shard_count = window_count;
        anchor_height = anchor_height;
      },
      record t { ss_root_cache = cache },
    )

  unfoldable pub broadcast_data : ℕ → CommitmentTreeDb → Option (BroadcastData × CommitmentTreeDb)
  broadcast_data anchor_height t = do
    (db, broadcast, t') ← build_pir_db_and_broadcast anchor_height t
    some (broadcast, t')

  unfoldable pub build_pir_db : CommitmentTreeDb → Option (List ℕ × CommitmentTreeDb)
  build_pir_db t = do (db, broadcast, t') ← build_pir_db_and_broadcast 0 t; some (db, t')
