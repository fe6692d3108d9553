-- ===== src/Witness/Build/Broadcast.antt =====
-- The database and the broadcast as functions of the notes alone.
use p2p_spendability_pir.Common.{
  ℕ, ◌+◌, ◌-◌, ◌*◌, ◌<◌, ◌≤◌, ◌≡◌, ◌⊎◌, sym, ap, ap₂, ◌∙◌, List, ◌++◌, map, map-append, some,
  length, tabulate, tabulate_from, tabulate_from-zero, tabulate_congr, tabulate-append,
  tabulate_from-shift, take_short, concat, length-concat, collect-tabulate, map-tabulate, resize,
  length-resize, replicate, slice, slice-concat, lt→ltb, le→ltb, arith,
}
use p2p_spendability_pir.Orchard.{Orchard, Hash}
use p2p_spendability_pir.Witness.Types.{
  ShardSubRoots, BroadcastData, l0_db_bytes, l0_max_shards, shard_height, subshard_row_bytes,
}
use p2p_spendability_pir.Witness.Merkle.{padded}
use p2p_spendability_pir.Witness.Tree.{
  CommitmentTreeDb, Cache, window_start_shard, window_shard_count, local_shard_count,
  populated_shards,
}
use p2p_spendability_pir.Witness.Tree.Represents.{Represents, IsFresh}
use p2p_spendability_pir.Witness.Roots.{prefetched_root}
use p2p_spendability_pir.Witness.Roots.Nodes.{shard_root, cap_root, subshard_nodes, shard_nodes}
use p2p_spendability_pir.Witness.Roots.Laws.{
  tree_size-eq, window_start_shard-eq, prefetched_root-padded, length-leaves,
}
use p2p_spendability_pir.Witness.Build.{build_shards, build_pir_db_and_broadcast}
use p2p_spendability_pir.Witness.Build.Laws.{
  row_bytes, build_shards-IsFresh, empty_ss, shard_sub_roots,
}

module _ ⦃o : Orchard⦄ where
  -- The database of a window of `count` shards that holds the notes `ns`.
  unfoldable pub pir_db : List o.Node → ℕ → List ℕ
  pir_db ns count = resize l0_db_bytes 0 (concat (tabulate_from 0 (count * 256) (row_bytes ns)))

  -- The broadcast of a window of `count` shards from shard `start` on.
  unfoldable pub broadcast_of : ℕ → ℕ → ℕ → List o.Node → List o.Node → BroadcastData
  broadcast_of anchor_height start count ns ps = record {
    cap = record { shard_roots = map o.to_bytes (tabulate (start + count) (cap_root start ns ps)) };
    subshard_roots = tabulate count (λ i. record { roots = map o.to_bytes (shard_nodes ns i) });
    window_start_shard = start;
    window_shard_count = count;
    anchor_height = anchor_height;
  }

  abbrev broadcast_with : ℕ → ℕ → ℕ → List Hash → List ShardSubRoots → BroadcastData
  broadcast_with anchor_height start count roots subs = record {
    cap = record { shard_roots = roots };
    subshard_roots = subs;
    window_start_shard = start;
    window_shard_count = count;
    anchor_height = anchor_height;
  }

  cap-append :
      (start count : ℕ) (ns ps : List o.Node)
      → map o.to_bytes (tabulate start (padded shard_height ps))
          ++ map o.to_bytes (tabulate_from 0 count (shard_root ns))
        ≡ map o.to_bytes (tabulate (start + count) (cap_root start ns ps))
  unfolding cap_root
  cap-append start count ns ps =
      let C = cap_root start ns ps in
      sym (map-append o.to_bytes (tabulate start (padded shard_height ps)) _)
      ∙ ap (map o.to_bytes) (
          ap₂ ◌++◌ (tabulate_congr start _ _ (λ k p. rw (lt→ltb k start p))) (
            sym (
              tabulate_from-shift 0 count start C _ (λ k.
                rw (le→ltb (start + k) start (omega arith)) (ap (shard_root ns) (omega arith))))
            ∙ ap (λ s. tabulate_from s count C) (omega arith))
          ∙ sym (tabulate-append start count C))

  module _ {t : CommitmentTreeDb} {ns ps : List o.Node} (v : Represents t ns ps) where
    -- The shards of the window are those with a note, sixteen at most.
    pub window_shard_count-eq :
        length ns ≤ 16 * 65536
        → (length ns ≤ window_shard_count t * 65536)
          × (window_shard_count t * 65536 < length ns + 65536)
          × (window_shard_count t ≤ 16)
    unfolding window_shard_count local_shard_count
    window_shard_count-eq h =
        ground (arith, tree_size-eq v, window_start_shard-eq v, length-leaves v, v.small)

    pub window_shard_count-le : window_shard_count t ≤ 16
    unfolding window_shard_count
    window_shard_count-le = omega arith

    -- every shard of the window with a note counts, of the first sixteen
    pub window_shard_count-least :
        (length ns ≤ window_shard_count t * 65536) ⊎ (window_shard_count t ≡ 16)
    unfolding window_shard_count local_shard_count
    window_shard_count-least =
        ground (arith, tree_size-eq v, window_start_shard-eq v, length-leaves v, v.small)

    pub window_shard_count-populated :
        window_start_shard t + window_shard_count t ≤ populated_shards t
    unfolding window_shard_count local_shard_count populated_shards
    window_shard_count-populated =
        ground (arith, tree_size-eq v, window_start_shard-eq v, length-leaves v, v.small)

    window_start-le : window_start_shard t ≤ 65536
    window_start-le = omega (arith, window_start_shard-eq v, v.small)

    with_cache :
        (anchor_height : ℕ) (c : Cache)
        → build_shards t
            (empty_ss v)
            (window_start_shard t)
            0
            (window_shard_count t)
            t.ss_root_cache
          ≡ some (
            concat (tabulate_from (0 * 256) (window_shard_count t * 256) (row_bytes ns)),
            map o.to_bytes (tabulate_from 0 (window_shard_count t) (shard_root ns)),
            tabulate_from 0 (window_shard_count t) (shard_sub_roots v),
            c,
          )
        → build_pir_db_and_broadcast anchor_height t
          ≡ some (
            pir_db ns (window_shard_count t),
            broadcast_of anchor_height (window_start_shard t) (window_shard_count t) ns ps,
            record t { ss_root_cache = c },
          )
    unfolding build_pir_db_and_broadcast pir_db broadcast_of empty_ss
    with_cache anchor_height c built =
        let start = window_start_shard t in
        let count = window_shard_count t in
        let prefetched =
          collect-tabulate start (prefetched_root t) (λ i. o.to_bytes (padded shard_height ps i))
            (λ i p. prefetched_root-padded v i)
          ∙ ap some (sym (map-tabulate o.to_bytes start (padded shard_height ps))) in
        rw (v.empties 8 (omega arith), prefetched, built)
          (ap₂
            (λ roots subs. some (
              resize l0_db_bytes 0 (concat (tabulate_from 0 (count * 256) (row_bytes ns))),
              broadcast_with anchor_height start count roots subs,
              record t { ss_root_cache = c },
            ))
            (cap-append start count ns ps) (tabulate_from-zero count (shard_sub_roots v)))

    -- `build_pir_db_and_broadcast` does not panic. What it returns is a function of the notes, the
    -- fetched roots and the height: it does not depend on which roots are in the cache. The cache
    -- that it leaves is fresh again, and nothing else changes.
    pub build-broadcast_of :
        (anchor_height : ℕ)
        → (c : Cache) × (build_pir_db_and_broadcast anchor_height t
            ≡ some (
              pir_db ns (window_shard_count t),
              broadcast_of anchor_height (window_start_shard t) (window_shard_count t) ns ps,
              record t { ss_root_cache = c },
            ))
          × IsFresh ns c
    build-broadcast_of anchor_height =
        let (c, built, fresh) =
          build_shards-IsFresh v (window_shard_count t) 0 t.ss_root_cache
            (omega (arith, window_shard_count-le))
            (omega (arith, window_shard_count-le, window_start-le)) v.fresh in
        (c, with_cache anchor_height c built, fresh)

  length-row_bytes : (ns : List o.Node) (s : ℕ) → length (row_bytes ns s) ≡ subshard_row_bytes
  unfolding row_bytes subshard_nodes
  length-row_bytes ns s =
      ap (λ l. length (concat l))
        (map-tabulate o.to_bytes 256 (λ j. padded 0 ns (s * 256 + j))
          ∙ sym (tabulate_from-zero 256 (λ j. o.to_bytes (padded 0 ns (s * 256 + j)))))
      ∙ length-concat 32 256 (λ j. o.to_bytes (padded 0 ns (s * 256 + j))) 0
          (λ k. o.length-to_bytes (padded 0 ns (s * 256 + k)))

  -- The database has exactly the advertised size; row `r` of a window shard holds the 256 leaves of
  -- sub-shard `r`, the empty leaf where there is none yet, in their 32-byte encoding.
  pub pir_db-rows :
      (ns : List o.Node) (count : ℕ)
      → count ≤ l0_max_shards
      → (length (pir_db ns count) ≡ l0_db_bytes)
        × ((r : ℕ)
            → r < count * 256
            → slice (r * subshard_row_bytes) subshard_row_bytes (pir_db ns count)
              ≡ concat (map o.to_bytes (tabulate 256 (λ j. padded 0 ns (r * 256 + j)))))
  unfolding pir_db resize row_bytes subshard_nodes
  pir_db-rows ns count h = (
    length-resize l0_db_bytes 0 _,
    λ r p.
        let rows = concat (tabulate_from 0 (count * 256) (row_bytes ns)) in
        let fits : length rows ≤ l0_db_bytes =
          omega (arith, length-concat 8192 (count * 256) (row_bytes ns) 0 (length-row_bytes ns)) in
        ap (λ l. slice (r * 8192) 8192 (l ++ replicate (l0_db_bytes - length rows) 0))
          (take_short l0_db_bytes rows fits)
        ∙ slice-concat 8192 (count * 256) r (row_bytes ns) 0
            (replicate (l0_db_bytes - length rows) 0) (length-row_bytes ns) p
        ∙ ap (row_bytes ns) (omega arith),
  )
