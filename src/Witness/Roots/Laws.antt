-- ===== src/Witness/Roots/Laws.antt =====
-- The queries of a tree return the nodes of the Merkle specification, and do not panic.
use p2p_spendability_pir.Common.{
  ℕ, ◌+◌, ◌-◌, ◌*◌, ◌/◌, ◌^◌, ◌<◌, ◌≤◌, ◌≡◌, sym, ap, ap₂, ◌∙◌, fun_ext, List, map, some, length,
  tabulate, length-map, length-tabulate, get_or-map, get_or-beyond, get_or-tabulate,
  get_elem?-eq-get_or, tabulate_congr, map-tabulate, collect-tabulate, true, ltb, leb, ◌==◌, ltb→lt,
  ltb→le, le→ltb, leb→le, Bool-cases, ==_iff, inl, inr, arith, as_u8,
}
use p2p_spendability_pir.Orchard.{Orchard}
use p2p_spendability_pir.Witness.Types.{shard_height, tree_depth}
use p2p_spendability_pir.Witness.Merkle.{node_from, padded, node_from-empty}
use p2p_spendability_pir.Witness.Hashing.{sparse_subtree_root}
use p2p_spendability_pir.Witness.Hashing.Laws.{sparse_subtree_root-node_from}
use p2p_spendability_pir.Witness.Tree.{
  CommitmentTreeDb, tree_size, populated_shards, window_start_shard,
}
use p2p_spendability_pir.Witness.Tree.Represents.{Represents, subshard_root}
use p2p_spendability_pir.Witness.Roots.{
  subshard_leaves_of, prefetched_root, subshard_roots, shard_roots, tree_root,
}
use p2p_spendability_pir.Witness.Roots.Nodes.{
  cap_root, merkle_root, merkle_root_whole, subshard_nodes, root-subshard_nodes, shard_nodes,
  root-shard_nodes, subshard_root-beyond, shard_root-beyond, leaf_at,
}

module _ ⦃o : Orchard⦄ where
  module _ {t : CommitmentTreeDb} {ns ps : List o.Node} (v : Represents t ns ps) where
    pub length-leaves : length t.leaves ≡ length ns
    length-leaves = ap length v.leaves ∙ length-map o.to_bytes ns

    pub tree_size-eq : tree_size t ≡ t.leaf_offset + length ns
    unfolding tree_size
    tree_size-eq = omega (arith, length-leaves, v.small)

    pub window_start_shard-eq : window_start_shard t * 65536 ≡ t.leaf_offset
    unfolding window_start_shard
    window_start_shard-eq = omega (arith, v.aligned, v.small)

    pub populated_shards-eq :
        (length ns ≤ (populated_shards t - window_start_shard t) * 65536)
        × (window_start_shard t ≤ populated_shards t)
        × (populated_shards t * 65536 < t.leaf_offset + length ns + 65536)
    unfolding populated_shards
    populated_shards-eq = ground (arith, tree_size-eq, window_start_shard-eq, v.small)

    -- The leaves of sub-shard `ss` of shard `i` of the window, the missing ones being empty.
    pub subshard_leaves_of-nodes :
        (i ss : ℕ)
        → window_start_shard t + i < 2 ^ 32
        → ss < 256
        → subshard_leaves_of t (window_start_shard t + i) ss
          ≡ some (map o.to_bytes (subshard_nodes ns (i * 256 + ss)))
    unfolding subshard_leaves_of subshard_nodes
    subshard_leaves_of-nodes i ss hi hs = rw (v.empties 0 (omega arith)) (
        ap some (
          tabulate_congr 256 _ _ (λ j p.
            leaf_at ns t.leaves t.leaf_offset _ ((i * 256 + ss) * 256 + j) v.leaves
              (omega (arith, window_start_shard-eq)) (omega arith))
          ∙ sym (map-tabulate o.to_bytes 256 (λ j. padded 0 ns ((i * 256 + ss) * 256 + j)))))

    -- The roots of the sub-shards of shard `i` of the window.
    pub subshard_roots-nodes :
        (i : ℕ)
        → window_start_shard t + i < 2 ^ 32
        → subshard_roots t (window_start_shard t + i) ≡ some (map o.to_bytes (shard_nodes ns i))
    unfolding subshard_roots shard_nodes
    subshard_roots-nodes i hi = rw (v.empties 8 (omega arith)) (
        collect-tabulate 256 _ (λ ss. o.to_bytes (subshard_root ns (i * 256 + ss)))
          (λ ss p.
            elim (Bool-cases (leb (tree_size t) ((window_start_shard t + i) * 65536 + ss * 256))) [
              | inl beyond ↦ rw beyond (
                  ap (λ n. some (o.to_bytes n))
                    (sym (
                      subshard_root-beyond ns (i * 256 + ss)
                        (omega (arith, leb→le _ _ beyond, tree_size-eq, window_start_shard-eq)))))
              | inr inside ↦
                  let byte : as_u8 ss ≡ ss = omega arith in
                  rw (inside, byte, subshard_leaves_of-nodes i ss hi p)
                    (root-subshard_nodes ns (i * 256 + ss))
            ])
        ∙ ap some (sym (map-tabulate o.to_bytes 256 (λ ss. subshard_root ns (i * 256 + ss)))))

    pub prefetched_root-padded :
        (i : ℕ) → prefetched_root t i ≡ some (o.to_bytes (padded shard_height ps i))
    unfolding prefetched_root
    prefetched_root-padded i =
        rw v.prefetched (elim (Bool-cases (ltb i (length (map o.to_bytes ps)))) [
          | inl inside ↦ rw inside (
              get_elem?-eq-get_or (map o.to_bytes ps) i (o.to_bytes (o.empty_root 16))
                (ltb→lt _ _ inside)
              ∙ ap some (get_or-map o.to_bytes ps i (o.empty_root 16)))
          | inr outside ↦ rw outside (
              v.empties 16 (omega arith)
              ∙ ap (λ n. some (o.to_bytes n))
                  (sym (
                    get_or-beyond ps i (o.empty_root 16)
                      (omega (arith, ltb→le _ _ outside, length-map o.to_bytes ps)))))
        ])

    -- in terms of the tree's own counts
    pub shard_roots-cap_root :
        shard_roots t
        ≡ some (
            tabulate
              (populated_shards t)
              (λ i. (i, o.to_bytes (cap_root (window_start_shard t) ns ps i))))
    unfolding shard_roots cap_root
    shard_roots-cap_root = collect-tabulate (populated_shards t) _ _ (λ i p.
        elim (Bool-cases (ltb i (window_start_shard t))) [
          | inl before ↦ rw (before, prefetched_root-padded i)
          | inr within ↦
              let from : window_start_shard t + (i - window_start_shard t) ≡ i =
                omega (arith, ltb→le _ _ within) in
              let roots =
                subshard_roots-nodes (i - window_start_shard t)
                  (omega (arith, populated_shards-eq, v.small)) in
              rw (within, (rw from at roots), root-shard_nodes ns (i - window_start_shard t))
        ])

    -- On a tree that represents its notes `shard_roots` does not panic, and numbers the roots of
    -- every shard that has a leaf, the last perhaps in part: fetched ones before the window, and
    -- the Merkle roots of the notes within it.
    pub shard_roots-every_shard :
        shard_roots t
        ≡ some (
            tabulate
              ((t.leaf_offset + length ns + 65535) / 65536)
              (λ i. (i, o.to_bytes (cap_root (t.leaf_offset / 65536) ns ps i))))
    shard_roots-every_shard =
        let count : populated_shards t ≡ (t.leaf_offset + length ns + 65535) / 65536 =
          omega (arith, populated_shards-eq, window_start_shard-eq) in
        let start : window_start_shard t ≡ t.leaf_offset / 65536 =
          omega (arith, window_start_shard-eq) in
        shard_roots-cap_root
        ∙ ap₂ (λ n s. some (tabulate n (λ i. (i, o.to_bytes (cap_root s ns ps i))))) count start

    cap_root-beyond :
        (i : ℕ)
        → populated_shards t ≤ i
        → cap_root (window_start_shard t) ns ps i ≡ o.empty_root shard_height
    unfolding cap_root
    cap_root-beyond i h =
        rw (le→ltb i (window_start_shard t) (omega (arith, populated_shards-eq)))
          (shard_root-beyond ns (i - window_start_shard t) (omega (arith, populated_shards-eq)))

    pub padded-cap_root :
        (i : ℕ)
        → padded shard_height
            (tabulate (populated_shards t) (cap_root (window_start_shard t) ns ps))
            i
          ≡ cap_root (window_start_shard t) ns ps i
    padded-cap_root i = elim (Bool-cases (ltb i (populated_shards t))) [
      | inl inside ↦
          get_or-tabulate (populated_shards t) (cap_root (window_start_shard t) ns ps) i _
            (ltb→lt _ _ inside)
      | inr outside ↦
          get_or-beyond _ i _ (
            omega (
              arith,
              ltb→le _ _ outside,
              length-tabulate (populated_shards t) (cap_root (window_start_shard t) ns ps),
            ))
          ∙ sym (cap_root-beyond i (ltb→le _ _ outside))
    ]

    -- `tree_root` does not panic, and returns the root of the Merkle tree of depth 32 over the
    -- fetched shard roots and the notes of the window.
    pub tree_root-merkle_root :
        tree_root t ≡ some (o.to_bytes (merkle_root (window_start_shard t) ns ps))
    unfolding tree_root merkle_root
    tree_root-merkle_root = elim (Bool-cases (tree_size t == 0)) [
      | inl empty ↦ rw empty (
          v.empties 32 (omega arith)
          ∙ ap (λ n. some (o.to_bytes n))
              (sym (
                node_from-empty 16 (cap_root (window_start_shard t) ns ps) 16 0
                  (λ j p. cap_root-beyond _ (omega (arith, none_populated empty))))))
      | inr filled ↦
          rw (filled, shard_roots-cap_root)
            (ap (λ l. sparse_subtree_root t.empty_roots l (2 ^ 16) 16)
                (map-tabulate (λ r. r.1) (populated_shards t) _
                  ∙ sym (map-tabulate o.to_bytes (populated_shards t) _))
              ∙ sparse_subtree_root-node_from t.empty_roots v.empties 16 16 _ (omega arith)
              ∙ ap (λ g. some (o.to_bytes (node_from 16 g 16 0))) (fun_ext padded-cap_root))
    ]
      where
        none_populated : (tree_size t == 0) ≡ true → populated_shards t ≡ 0
        none_populated e = omega (arith, (==_iff _ _).0 e, tree_size-eq, populated_shards-eq)

    -- A tree with all its leaves stored has the textbook root: that of the complete binary tree of
    -- depth 32 over its leaves, each missing leaf being the empty one.
    pub tree_root_whole :
        t.leaf_offset ≡ 0 → tree_root t ≡ some (o.to_bytes (node_from 0 (padded 0 ns) tree_depth 0))
    tree_root_whole e =
        tree_root-merkle_root
        ∙ ap (λ w. some (o.to_bytes (merkle_root w ns ps))) (omega (arith, window_start_shard-eq))
        ∙ ap (λ n. some (o.to_bytes n)) (merkle_root_whole ns ps)
