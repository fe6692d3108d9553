-- ===== src/Witness/Build/Database.antt =====
-- What a client may rely on in the database and the broadcast of one build, or of two.
use p2p_spendability_pir.Common.{
  ℕ, ◌+◌, ◌*◌, ◌/◌, min, take, take-tabulate, ◌<◌, ◌≤◌, ◌≡◌, sym, ap, ◌∙◌, List, map, some, length,
  tabulate, length-tabulate, map-tabulate, concat, slice, arith, ◌↔◌,
}
use p2p_spendability_pir.Orchard.{Orchard, Hash}
use p2p_spendability_pir.Witness.Types.{
  BroadcastData, ShardSubRoots, l0_db_bytes, subshard_row_bytes,
}
use p2p_spendability_pir.Witness.Merkle.{padded}
use p2p_spendability_pir.Witness.Tree.{
  CommitmentTreeDb, Cache, window_shard_count, window_start_shard, populated_shards,
  local_shard_count, tree_size,
}
use p2p_spendability_pir.Witness.Tree.Represents.{Represents, IsFresh}
use p2p_spendability_pir.Witness.Roots.{shard_roots}
use p2p_spendability_pir.Witness.Roots.Nodes.{cap_root, shard_nodes}
use p2p_spendability_pir.Witness.Roots.Laws.{
  shard_roots-cap_root, window_start_shard-eq, populated_shards-eq,
}
use p2p_spendability_pir.Witness.Build.{build_pir_db_and_broadcast, build_pir_db, broadcast_data}
use p2p_spendability_pir.Witness.Build.Broadcast.{
  pir_db, broadcast_of, build-broadcast_of, pir_db-rows, window_shard_count-eq,
  window_shard_count-le, window_shard_count-least, window_shard_count-populated,
}

module _ ⦃o : Orchard⦄ where
  module _ {t : CommitmentTreeDb} {ns ps : List o.Node} (v : Represents t ns ps) where
    -- On a tree that represents its notes `build_pir_db` does not panic. Its database has exactly
    -- the advertised size, and each of the 256 rows of every shard that has a note, of the first
    -- sixteen, holds the 256 leaves of its sub-shard in their 32-byte encoding, the empty leaf
    -- where there is no note yet.
    pub build_pir_db-rows :
        (db : List ℕ) × (t' : CommitmentTreeDb) × (build_pir_db t ≡ some (db, t'))
        × (length db ≡ l0_db_bytes)
        × ((r : ℕ)
            → r < 16 * 256
            → (r / 256) * 65536 < length ns
            → slice (r * subshard_row_bytes) subshard_row_bytes db
              ≡ concat (map o.to_bytes (tabulate 256 (λ j. padded 0 ns (r * 256 + j)))))
    unfolding build_pir_db
    build_pir_db-rows =
        let (c, built, fresh) = build-broadcast_of v 0 in
        let (size, rows) = pir_db-rows ns (window_shard_count t) (window_shard_count-le v) in
        (
          pir_db ns (window_shard_count t),
          record t { ss_root_cache = c },
          rw built,
          size,
          λ r lt note. rows r (omega (arith, window_shard_count-least v)),
        )

    abbrev sub_roots : ℕ → ShardSubRoots
    sub_roots i = record { roots = map o.to_bytes (shard_nodes ns i) }

    abbrev after : Cache → CommitmentTreeDb
    after c = record t { ss_root_cache = c }

    -- A second build on the cache that the first one warmed returns the same database and the same
    -- broadcast, and leaves the tree valid.
    pub build_again :
        (anchor_height : ℕ)
        → (db : List ℕ) × (b : BroadcastData) × (t₁ : CommitmentTreeDb) × (t₂ : CommitmentTreeDb)
          × (build_pir_db_and_broadcast anchor_height t ≡ some (db, b, t₁))
          × (build_pir_db_and_broadcast anchor_height t₁ ≡ some (db, b, t₂))
          × Represents t₁ ns ps
          × Represents t₂ ns ps
    unfolding window_shard_count local_shard_count window_start_shard tree_size
    build_again anchor_height =
        let (c₁, first, fresh₁) = build-broadcast_of v anchor_height in
        let v₁ = renew c₁ fresh₁ in
        let (c₂, second, fresh₂) = build-broadcast_of v₁ anchor_height in
        (_, _, _, _, first, second, v₁, renew c₂ fresh₂)
      where
        renew : (c : Cache) → IsFresh ns c → Represents (after c) ns ps
        renew c f = record {
          leaves = v.leaves;
          prefetched = v.prefetched;
          empties = v.empties;
          aligned = v.aligned;
          small = v.small;
          fresh = f;
        }

    -- On a tree that represents its notes the broadcast's cap lists the roots that `shard_roots`
    -- returns, in their order, for the shards before the window and for its first sixteen shards.
    -- These are all the roots if and only if the notes fit into sixteen shards: with more, the
    -- roots of the shards behind are missing.
    pub broadcast_data-shard_roots_exactly :
        (anchor_height : ℕ)
        → (b : BroadcastData) × (t' : CommitmentTreeDb) × (roots : List (ℕ × Hash))
          × (broadcast_data anchor_height t ≡ some (b, t'))
          × (shard_roots t ≡ some roots)
          × (b.cap.shard_roots ≡ take (t.leaf_offset / 65536 + 16) (map (λ r. r.1) roots))
          × ((b.cap.shard_roots ≡ map (λ r. r.1) roots) ↔ (length ns ≤ 16 * 65536))
    unfolding broadcast_data broadcast_of
    broadcast_data-shard_roots_exactly anchor_height =
        let start = window_start_shard t in
        let count = window_shard_count t in
        let (c, built, fresh) = build-broadcast_of v anchor_height in
        let root : ℕ → Hash = λ i. o.to_bytes (cap_root start ns ps i) in
        let roots : List (ℕ × Hash) = tabulate (populated_shards t) (λ i. (i, root i)) in
        let values : map (λ r. r.1) roots ≡ tabulate (populated_shards t) root =
          map-tabulate (λ r. r.1) (populated_shards t) _ in
        let cap : map o.to_bytes (tabulate (start + count) (cap_root start ns ps))
            ≡ tabulate (start + count) root =
          map-tabulate o.to_bytes (start + count) (cap_root start ns ps) in
        let ends : start + count ≡ min (t.leaf_offset / 65536 + 16) (populated_shards t) = omega (
          arith,
          window_shard_count-le v,
          window_shard_count-least v,
          window_shard_count-populated v,
          populated_shards-eq v,
          window_start_shard-eq v,
        ) in
        (
          broadcast_of anchor_height start count ns ps,
          record t { ss_root_cache = c },
          roots,
          rw built,
          shard_roots-cap_root v,
          cap
              ∙ ap (λ n. tabulate n root) ends
              ∙ sym (take-tabulate (t.leaf_offset / 65536 + 16) (populated_shards t) root)
              ∙ ap (take (t.leaf_offset / 65536 + 16)) (sym values),
          (
            λ same.
                let all : start + count ≡ populated_shards t =
                  sym (length-tabulate (start + count) root)
                  ∙ ap (λ (l : List Hash). length l) (sym cap ∙ same ∙ values)
                  ∙ length-tabulate (populated_shards t) root in
                omega (arith, all, window_shard_count-le v, populated_shards-eq v),
            λ fits.
                let all : start + count ≡ populated_shards t = omega (
                  arith,
                  window_shard_count-eq v fits,
                  populated_shards-eq v,
                  window_start_shard-eq v,
                ) in
                cap ∙ ap (λ n. tabulate n root) all ∙ sym values,
          ),
        )
