-- ===== src/Client/Served.antt =====
-- The witness crate and the client together: a witness that is reconstructed from what a server
-- built (crates/witness/src/tree.rs and crates/client/src/reconstruct.rs).
use p2p_spendability_pir.Common.{
  ℕ, ◌+◌, ◌-◌, ◌*◌, ◌/◌, ◌%◌, ◌^◌, ◌<◌, ◌≤◌, ◌≡◌, refl, sym, ap, ◌∙◌, fun_ext, List, map, some,
  length, get_elem?, get_elem?-eq-get_or, get_or-tabulate, tabulate, length-tabulate, slice, le→ltb,
  arith, as_u32, as_u8, length-map, get_or-map,
}
use p2p_spendability_pir.Common.Run.{ok}
use p2p_spendability_pir.Orchard.{Orchard, Hash}
use p2p_spendability_pir.Witness.Types.{
  BroadcastData, ShardSubRoots, PirWitness, decompose_position, physical_row_index,
  subshard_row_bytes,
}
use p2p_spendability_pir.Witness.Position.{physical_row_index-eq}
use p2p_spendability_pir.Witness.Merkle.{node_from, padded, node_from-tabulate, node_from_tower}
use p2p_spendability_pir.Witness.Tree.{
  CommitmentTreeDb, window_start_shard, window_shard_count, populated_shards,
}
use p2p_spendability_pir.Witness.Tree.Represents.{Represents, subshard_root}
use p2p_spendability_pir.Witness.Roots.{tree_root}
use p2p_spendability_pir.Witness.Roots.Nodes.{shard_root, shard_nodes, cap_root, merkle_root}
use p2p_spendability_pir.Witness.Roots.Laws.{
  tree_root-merkle_root, populated_shards-eq, window_start_shard-eq, padded-cap_root,
}
use p2p_spendability_pir.Witness.Build.{build_pir_db_and_broadcast}
use p2p_spendability_pir.Witness.Build.Broadcast.{
  pir_db, broadcast_of, build-broadcast_of, pir_db-rows, window_shard_count-eq,
}
use p2p_spendability_pir.Client.Reconstruct.{reconstruct_witness, compute_root_from_path}
use p2p_spendability_pir.Client.Reconstruct.Root.{reconstruct_witness-ok}

module _ ⦃o : Orchard⦄ where
  -- The server `t` builds a database and a broadcast; from the row of position `p` and the
  -- broadcast the client reconstructs a witness `w` for `p`, whose siblings fold from the stored
  -- note to its anchor root, which is the root of the server's tree.
  abbrev pub ServesWitness : CommitmentTreeDb → ℕ → ℕ → Type 0
  ServesWitness t anchor_height p =
      let (shard, ss, leaf) = decompose_position p in
      (db : List ℕ) × (b : BroadcastData) × (t' : CommitmentTreeDb) × (w : PirWitness)
      × (note : Hash) × (build_pir_db_and_broadcast anchor_height t ≡ some (db, b, t'))
      × (reconstruct_witness p shard ss leaf
            (slice (physical_row_index shard ss b.window_start_shard * subshard_row_bytes)
              subshard_row_bytes db)
            b
          ≡ ok w)
      × (w.position ≡ p)
      × (w.anchor_height ≡ anchor_height)
      × (length w.siblings ≡ 32)
      × (tree_root t ≡ some w.anchor_root)
      × (get_elem? t.leaves (p - t.leaf_offset) ≡ some note)
      × (compute_root_from_path p note w.siblings ≡ ok w.anchor_root)

  module _ {t : CommitmentTreeDb} {ns ps : List o.Node} (v : Represents t ns ps)
      (fits : length ns ≤ 16 * 65536) where
    abbrev sub_roots_of : ℕ → ShardSubRoots
    sub_roots_of k = record { roots = map o.to_bytes (shard_nodes ns k) }

    all_shards : window_start_shard t + window_shard_count t ≡ populated_shards t
    all_shards =
        omega (arith, window_shard_count-eq v fits, populated_shards-eq v, window_start_shard-eq v)

    padded-cap :
        (i : ℕ)
        → padded 16
            (tabulate
              (window_start_shard t + window_shard_count t)
              (cap_root (window_start_shard t) ns ps))
            i
          ≡ cap_root (window_start_shard t) ns ps i
    padded-cap i =
        ap (λ n. padded 16 (tabulate n (cap_root (window_start_shard t) ns ps)) i) all_shards
        ∙ padded-cap_root v i

    cap_root-window :
        (i : ℕ) → cap_root (window_start_shard t) ns ps (window_start_shard t + i) ≡ shard_root ns i
    unfolding cap_root
    cap_root-window i =
        rw (le→ltb (window_start_shard t + i) (window_start_shard t) (omega arith))
          (ap (shard_root ns) (omega arith))

    sub_roots_at :
        (i : ℕ)
        → i < window_shard_count t
        → get_elem?
            (tabulate (window_shard_count t) (λ k. sub_roots_of k))
            (window_start_shard t + i - window_start_shard t)
          ≡ some (sub_roots_of i)
    sub_roots_at i hi =
        ap (get_elem? (tabulate (window_shard_count t) (λ k. sub_roots_of k))) {y = i} (omega arith)
        ∙ get_elem?-eq-get_or (tabulate (window_shard_count t) (λ k. sub_roots_of k)) i
            (sub_roots_of i)
            (omega (arith, length-tabulate (window_shard_count t) (λ k. sub_roots_of k)))
        ∙ ap some
            (get_or-tabulate (window_shard_count t) (λ k. sub_roots_of k) i (sub_roots_of i) hi)

    -- A row and the broadcast of one build, given to the client with the parts of a position whose
    -- note the tree holds.
    served :
        (anchor_height i ss leaf : ℕ)
        → i < window_shard_count t
        → ss < 256
        → leaf < 256
        → let shard = window_start_shard t + i in
          let position = shard * 65536 + ss * 256 + leaf in
          (siblings : List Hash) × (reconstruct_witness position shard ss leaf
              (slice ((i * 256 + ss) * 8192) 8192 (pir_db ns (window_shard_count t)))
              (broadcast_of anchor_height (window_start_shard t) (window_shard_count t) ns ps)
            ≡ ok (record {
              position = position;
              siblings = siblings;
              anchor_height = anchor_height;
              anchor_root = o.to_bytes (merkle_root (window_start_shard t) ns ps);
            }))
          × (length siblings ≡ 32)
          × (compute_root_from_path position
                (o.to_bytes (padded 0 ns ((i * 256 + ss) * 256 + leaf)))
                siblings
              ≡ ok (o.to_bytes (merkle_root (window_start_shard t) ns ps)))
    unfolding broadcast_of shard_nodes merkle_root
    served anchor_height i ss leaf hi hs hl =
        let start = window_start_shard t in
        let count = window_shard_count t in
        let bounds = window_shard_count-eq v fits in
        let b = broadcast_of anchor_height start count ns ps in
        let g = λ (j : ℕ). padded 0 ns ((i * 256 + ss) * 256 + j) in
        let subs = tabulate 256 (λ k. subshard_root ns (i * 256 + k)) in
        let cs = tabulate (start + count) (cap_root start ns ps) in
        let row = (pir_db-rows ns count bounds.2).1 (i * 256 + ss) (omega arith) in
        let top : node_from 16 (padded 16 cs) 16 0 ≡ node_from 16 (cap_root start ns ps) 16 0 =
          ap (λ h. node_from 16 h 16 0) (fun_ext padded-cap) in
        rw (row, ← top)
          (reconstruct_witness-ok g subs cs (start + i) ss leaf hl hs
            (omega (arith, all_shards, populated_shards-eq v, v.small))
            (get_or-tabulate 256 (λ k. subshard_root ns (i * 256 + k)) ss _ hs
              ∙ sym (node_from-tabulate 0 (padded 0 ns) 8 (i * 256 + ss)))
            (padded-cap (start + i)
              ∙ cap_root-window i
              ∙ sym (
                  node_from-tabulate 8 (node_from 0 (padded 0 ns) 8) 8 i
                  ∙ node_from_tower 0 (padded 0 ns) 8 8 i))
            b (omega arith) (sub_roots_at i hi)
            (length-tabulate 256 (λ k. subshard_root ns (i * 256 + k))) refl
            (omega (
              arith,
              length-tabulate (start + count) (cap_root start ns ps),
              all_shards,
              populated_shards-eq v,
              v.small,
            )))

    at_position :
        (anchor_height p i ss leaf : ℕ) (siblings : List Hash)
        → as_u32 (p / 65536) ≡ window_start_shard t + i
        → as_u8 (p / 256 % 256) ≡ ss
        → as_u8 (p % 256) ≡ leaf
        → (window_start_shard t + i) * 65536 + ss * 256 + leaf ≡ p
        → window_start_shard t + i < 2 ^ 32
        → reconstruct_witness
            ((window_start_shard t + i) * 65536 + ss * 256 + leaf)
            (window_start_shard t + i)
            ss
            leaf
            (slice ((i * 256 + ss) * 8192) 8192 (pir_db ns (window_shard_count t)))
            (broadcast_of anchor_height (window_start_shard t) (window_shard_count t) ns ps)
          ≡ ok (record {
            position = (window_start_shard t + i) * 65536 + ss * 256 + leaf;
            siblings = siblings;
            anchor_height = anchor_height;
            anchor_root = o.to_bytes (merkle_root (window_start_shard t) ns ps);
          })
        → reconstruct_witness p
            (as_u32 (p / 65536))
            (as_u8 (p / 256 % 256))
            (as_u8 (p % 256))
            (slice
              (physical_row_index
                  (as_u32 (p / 65536))
                  (as_u8 (p / 256 % 256))
                  (window_start_shard t)
                * subshard_row_bytes)
              subshard_row_bytes
              (pir_db ns (window_shard_count t)))
            (broadcast_of anchor_height (window_start_shard t) (window_shard_count t) ns ps)
          ≡ ok (record {
            position = p;
            siblings = siblings;
            anchor_height = anchor_height;
            anchor_root = o.to_bytes (merkle_root (window_start_shard t) ns ps);
          })
    at_position anchor_height p i ss leaf siblings e₁ e₂ e₃ whole small run =
        let row : physical_row_index (window_start_shard t + i) ss (window_start_shard t)
            ≡ i * 256 + ss =
          physical_row_index-eq (window_start_shard t) (window_start_shard t + i) ss (omega arith)
            small
          ∙ omega arith in
        rw (e₁, e₂, e₃, row) (rw whole at run)

    note_at : (k : ℕ) → k < length ns → get_elem? t.leaves k ≡ some (o.to_bytes (padded 0 ns k))
    note_at k h =
        ap (λ l. get_elem? l k) v.leaves
        ∙ get_elem?-eq-get_or (map o.to_bytes ns) k (o.to_bytes (o.empty_root 0))
            (omega (arith, length-map o.to_bytes ns))
        ∙ ap some (get_or-map o.to_bytes ns k (o.empty_root 0))

    -- For a position whose note the tree holds, a window of at most sixteen shards: the server's
    -- build returns a database and a broadcast; on the row of the position and the broadcast the
    -- client's reconstruction succeeds; its anchor root is the root of the server's tree, its
    -- height the given one; and its siblings fold from the stored note to that root.
    pub reconstruct_witness-tree_root :
        (anchor_height p : ℕ)
        → t.leaf_offset ≤ p
        → p < t.leaf_offset + length ns
        → ServesWitness t anchor_height p
    unfolding decompose_position broadcast_of
    reconstruct_witness-tree_root anchor_height p low high =
        let start = window_start_shard t in
        let i = p / 65536 - start in
        let ss : ℕ = p / 256 % 256 in
        let leaf : ℕ = p % 256 in
        let bounds = window_shard_count-eq v fits in
        let first = window_start_shard-eq v in
        let (c, built, fresh) = build-broadcast_of v anchor_height in
        let inside : i < window_shard_count t = omega arith in
        let (siblings, run, size, folded) =
          served anchor_height i ss leaf inside (omega arith) (omega arith) in
        let same : as_u32 (p / 65536) ≡ start + i = omega arith in
        let whole : (start + i) * 65536 + ss * 256 + leaf ≡ p = omega arith in
        let local : (i * 256 + ss) * 256 + leaf ≡ p - t.leaf_offset = omega arith in
        let note = o.to_bytes (padded 0 ns (p - t.leaf_offset)) in
        (
          pir_db ns (window_shard_count t),
          broadcast_of anchor_height start (window_shard_count t) ns ps,
          record t { ss_root_cache = c },
          record {
            position = p;
            siblings = siblings;
            anchor_height = anchor_height;
            anchor_root = o.to_bytes (merkle_root start ns ps);
          },
          note,
          built,
          at_position anchor_height p i ss leaf siblings same (omega arith) (omega arith) whole
              (omega (arith, bounds, window_shard_count-eq v fits, v.small)) run,
          refl,
          refl,
          size,
          tree_root-merkle_root v,
          note_at (p - t.leaf_offset) (omega arith),
          rw (whole, local) at folded,
        )
