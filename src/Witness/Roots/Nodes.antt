-- ===== src/Witness/Roots/Nodes.antt =====
-- The specification of the roots of a tree with a window, and the code on the nodes below one.
use p2p_spendability_pir.Common.{
  ℕ, ◌+◌, ◌-◌, ◌*◌, ◌^◌, ◌<◌, ◌≤◌, ◌≡◌, sym, ap, ◌∙◌, fun_ext, List, map, some, length, get_or,
  tabulate, length-map, length-tabulate, get_or-map, get_or-beyond, ◌&&◌, if◌then◌else◌, ltb, leb,
  ltb→le, le→ltb, le→leb, Bool-cases, inl, inr, arith, sub64,
}
use p2p_spendability_pir.Orchard.{Orchard, Hash}
use p2p_spendability_pir.Witness.Types.{shard_height, subshard_height, tree_depth}
use p2p_spendability_pir.Witness.Merkle.{
  node_from, padded, node_from-empty, node_from_tower, node_from-tabulate,
}
use p2p_spendability_pir.Witness.Hashing.{complete_subtree_root}
use p2p_spendability_pir.Witness.Hashing.Laws.{complete_subtree_root-node_from}
use p2p_spendability_pir.Witness.Tree.Represents.{subshard_root}

module _ ⦃o : Orchard⦄ where
  -- the root of shard `i` of the window
  abbrev pub shard_root : List o.Node → ℕ → o.Node
  shard_root ns i = node_from 0 (padded 0 ns) shard_height i

  -- The root of shard `i` of the tree, if the window starts at shard `start`.
  unfoldable pub cap_root : ℕ → List o.Node → List o.Node → ℕ → o.Node
  cap_root start ns ps i =
      if ltb i start then padded shard_height ps i else shard_root ns (i - start)

  -- The root of the tree of depth 32.
  unfoldable pub merkle_root : ℕ → List o.Node → List o.Node → o.Node
  merkle_root start ns ps = node_from shard_height (cap_root start ns ps) 16 0

  unfoldable pub subshard_nodes : List o.Node → ℕ → List o.Node
  subshard_nodes ns s = tabulate 256 (λ j. padded 0 ns (s * 256 + j))

  pub root-subshard_nodes :
      (ns : List o.Node) (s : ℕ)
      → complete_subtree_root (map o.to_bytes (subshard_nodes ns s)) 0
        ≡ some (o.to_bytes (subshard_root ns s))
  unfolding subshard_nodes
  root-subshard_nodes ns s =
      complete_subtree_root-node_from 8 0 _ (length-tabulate 256 _)
      ∙ ap (λ n. some (o.to_bytes n)) (node_from-tabulate 0 (padded 0 ns) 8 s)

  unfoldable pub shard_nodes : List o.Node → ℕ → List o.Node
  shard_nodes ns i = tabulate 256 (λ ss. subshard_root ns (i * 256 + ss))

  pub root-shard_nodes :
      (ns : List o.Node) (i : ℕ)
      → complete_subtree_root (map o.to_bytes (shard_nodes ns i)) subshard_height
        ≡ some (o.to_bytes (shard_root ns i))
  unfolding shard_nodes
  root-shard_nodes ns i =
      complete_subtree_root-node_from 8 8 _ (length-tabulate 256 _)
      ∙ ap (λ n. some (o.to_bytes n))
          (node_from-tabulate 8 (node_from 0 (padded 0 ns) 8) 8 i
            ∙ node_from_tower 0 (padded 0 ns) 8 8 i)

  pub subshard_root-beyond :
      (ns : List o.Node) (s : ℕ)
      → length ns ≤ s * 256
      → subshard_root ns s ≡ o.empty_root subshard_height
  subshard_root-beyond ns s h =
      node_from-empty 0 (padded 0 ns) 8 s (λ j p. get_or-beyond ns _ _ (omega arith))

  pub shard_root-beyond :
      (ns : List o.Node) (i : ℕ)
      → length ns ≤ i * 65536
      → shard_root ns i ≡ o.empty_root shard_height
  shard_root-beyond ns i h =
      node_from-empty 0 (padded 0 ns) 16 i (λ j p. get_or-beyond ns _ _ (omega arith))

  pub leaf_at :
      (ns : List o.Node) (leaves : List Hash) (offset pos k : ℕ)
      → leaves ≡ map o.to_bytes ns
      → offset + k ≡ pos
      → pos < 2 ^ 64
      → (let local_pos = sub64 pos offset in
          if leb offset pos && ltb local_pos (length leaves)
          then get_or leaves local_pos (o.to_bytes (o.empty_root 0))
          else o.to_bytes (o.empty_root 0))
        ≡ o.to_bytes (padded 0 ns k)
  leaf_at ns leaves offset pos k e at small =
      let local : sub64 pos offset ≡ k = omega arith in
      rw (local, le→leb offset pos (omega arith), e)
        (elim (Bool-cases (ltb k (length (map o.to_bytes ns)))) [
          | inl inside ↦ rw inside (get_or-map o.to_bytes ns k (o.empty_root 0))
          | inr outside ↦ rw outside (
              ap o.to_bytes (
                sym (
                  get_or-beyond ns k (o.empty_root 0)
                    (omega (arith, ltb→le _ _ outside, length-map o.to_bytes ns)))))
        ])

  -- Without a window the root is that of the whole Merkle tree of depth 32 over the notes.
  pub merkle_root_whole :
      (ns ps : List o.Node) → merkle_root 0 ns ps ≡ node_from 0 (padded 0 ns) tree_depth 0
  unfolding merkle_root cap_root
  merkle_root_whole ns ps =
      ap (λ g. node_from 16 g 16 0)
        (fun_ext (λ i. rw (le→ltb i 0 (omega arith)) (ap (shard_root ns) (omega arith))))
      ∙ node_from_tower 0 (padded 0 ns) 16 16 0
