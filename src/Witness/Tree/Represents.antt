-- ===== src/Witness/Tree/Represents.antt =====
-- What a `CommitmentTreeDb` stands for: the notes in its window and the roots before it. The
-- mutations keep that, the validity of the root cache included.
use p2p_spendability_pir.Common.{
  ℕ, ◌+◌, ◌-◌, ◌*◌, ◌%◌, ◌^◌, ◌<◌, ◌≤◌, ◌≡◌, refl, sym, ap, ◌∙◌, List, [], ◌∷◌, ◌++◌, map, none,
  some, length, get_elem?, take, replicate, length-map, length-append, length-replicate,
  length-take, get_elem?-replicate, get_or-append_left, get_or-beyond, get_or-take, map-append,
  take-map, append-nil, ◌⊎◌, inl, inr, reverse, arith,
}
use p2p_spendability_pir.Orchard.{Orchard, Hash}
use p2p_spendability_pir.Witness.Types.{l0_db_rows, subshard_height, shard_leaves}
use p2p_spendability_pir.Witness.Merkle.{node_from, padded, node_from-local}
use p2p_spendability_pir.Witness.Hashing.Laws.{AreEmptyRoots, precompute_empty_roots-AreEmptyRoots}
use p2p_spendability_pir.Witness.Tree.{
  CommitmentTreeDb, Cache, new, with_offset, append_leaves, append_commitments, invalidate,
  pop_above, rollback_to, clear_slots,
}
use p2p_spendability_pir.Witness.Tree.Slots.{length-clear_slots, clear_slots-kept, get_elem?-lt}

module _ ⦃o : Orchard⦄ where
  -- The root of sub-shard `s` of the window.
  abbrev pub subshard_root : List o.Node → ℕ → o.Node
  subshard_root ns s = node_from 0 (padded 0 ns) subshard_height s

  -- A slot of the cache is empty or holds the root of its sub-shard.
  pub record IsFresh (ns : List o.Node) (cache : Cache) : Type 0 where
    pub width : length cache ≡ l0_db_rows
    pub roots :
        (s : ℕ) (r : Hash) → get_elem? cache s ≡ some (some r) → r ≡ o.to_bytes (subshard_root ns s)

  -- The tree holds the canonical notes `ns` from `leaf_offset` on, behind shards with the roots
  -- `ps`; the offset is a whole number of shards and the tree has at most 2^32 leaves.
  pub record Represents (t : CommitmentTreeDb) (ns ps : List o.Node) : Type 0 where
    pub leaves : t.leaves ≡ map o.to_bytes ns
    pub prefetched : t.prefetched_shard_roots ≡ map o.to_bytes ps
    pub empties : AreEmptyRoots t.empty_roots
    pub aligned : t.leaf_offset % shard_leaves ≡ 0
    pub small : t.leaf_offset + length ns ≤ 2 ^ 32
    pub fresh : IsFresh ns t.ss_root_cache

  no_slots-IsFresh : (ns : List o.Node) → IsFresh ns (replicate l0_db_rows none)
  no_slots-IsFresh ns = record {
    width = length-replicate l0_db_rows none;
    roots = λ s r h. absurd (cc (get_elem?-replicate l0_db_rows s none (some r) h));
  }

  -- A tree made by `with_offset` at a shard boundary holds no notes.
  pub with_offset-Represents :
      (offset : ℕ) (ps : List o.Node)
      → offset % shard_leaves ≡ 0
      → offset ≤ 2 ^ 32
      → Represents (with_offset offset (map o.to_bytes ps)) [] ps
  unfolding with_offset
  with_offset-Represents offset ps h k = record {
    leaves = refl;
    prefetched = refl;
    empties = precompute_empty_roots-AreEmptyRoots;
    aligned = h;
    small = omega arith;
    fresh = no_slots-IsFresh [];
  }

  pub new-Represents : Represents new [] []
  unfolding new
  new-Represents = record {
    leaves = refl;
    prefetched = refl;
    empties = precompute_empty_roots-AreEmptyRoots;
    aligned = omega arith;
    small = omega arith;
    fresh = no_slots-IsFresh [];
  }

  append_root :
      (ns cs : List o.Node) (s : ℕ)
      → (s * 256 + 255 < length ns) ⊎ (length ns + length cs ≤ s * 256)
      → subshard_root ns s ≡ subshard_root (ns ++ cs) s
  append_root ns cs s h =
      node_from-local 0 (padded 0 ns) (padded 0 (ns ++ cs)) 8 s s (λ j p. at j p h)
    where
      at :
          (j : ℕ)
          → j < 2 ^ 8
          → (s * 256 + 255 < length ns) ⊎ (length ns + length cs ≤ s * 256)
          → padded 0 ns (s * 256 + j) ≡ padded 0 (ns ++ cs) (s * 256 + j)
      at j p (inl inside) = sym (get_or-append_left ns cs _ _ (omega arith))
      at j p (inr beyond) =
          get_or-beyond ns _ _ (omega arith)
          ∙ sym (get_or-beyond (ns ++ cs) _ _ (omega (arith, length-append ns cs)))

  invalidate-IsFresh :
      (ns cs : List o.Node) (cache : Cache) (old new : ℕ)
      → old ≡ length ns
      → new ≡ length ns + length cs
      → 0 < length cs
      → IsFresh ns cache
      → IsFresh (ns ++ cs) (invalidate old new cache)
  unfolding invalidate
  invalidate-IsFresh ns cs cache old new eo en pos f = record {
    width = length-clear_slots _ _ cache ∙ f.width;
    roots = λ s r h.
        let (kept, apart) = clear_slots-kept _ _ cache s r h in
        let inside = get_elem?-lt cache s kept in
        f.roots s r kept
        ∙ ap o.to_bytes (
            append_root ns cs s
              (elim apart [ inl a ↦ inl (omega arith) | inr b ↦ inr (omega arith) ]));
  }

  append_leaves-Represents :
      {t : CommitmentTreeDb} {ns ps : List o.Node} (cs : List o.Node)
      → Represents t ns ps
      → t.leaf_offset + length ns + length cs ≤ 2 ^ 32
      → Represents (append_leaves (map o.to_bytes cs) t) (ns ++ cs) ps
  unfolding append_leaves
  append_leaves-Represents {t} {ns} {ps} [] v b = rw (append-nil ns) v
  append_leaves-Represents {t} {ns} {ps} (c ∷ cs) v b = record {
    leaves =
        ap (λ l. l ++ map o.to_bytes (c ∷ cs)) v.leaves ∙ sym (map-append o.to_bytes ns (c ∷ cs));
    prefetched = v.prefetched;
    empties = v.empties;
    aligned = v.aligned;
    small = omega (arith, length-append ns (c ∷ cs));
    fresh =
        invalidate-IsFresh ns (c ∷ cs) t.ss_root_cache _ _
          (ap length v.leaves ∙ length-map o.to_bytes ns)
          (omega (
            arith,
            length-append t.leaves (map o.to_bytes (c ∷ cs)),
            ap length v.leaves,
            length-map o.to_bytes ns,
            length-map o.to_bytes cs,
          ))
          (omega arith) v.fresh;
  }

  -- Appending a block of canonical commitments that fit below 2^32 leaves adds exactly them, and
  -- every root that stays in the cache is still the root of its sub-shard.
  pub append_commitments-Represents :
      {t : CommitmentTreeDb} {ns ps : List o.Node} (height : ℕ) (hash : Hash) (cs : List o.Node)
      → Represents t ns ps
      → t.leaf_offset + length ns + length cs ≤ 2 ^ 32
      → Represents (append_commitments height hash (map o.to_bytes cs) t) (ns ++ cs) ps
  unfolding append_commitments
  append_commitments-Represents height hash cs v b =
      let w = append_leaves-Represents cs v b in
      record {
        leaves = w.leaves;
        prefetched = w.prefetched;
        empties = w.empties;
        aligned = w.aligned;
        small = w.small;
        fresh = w.fresh;
      }

  take_root :
      (ns : List o.Node) (n s : ℕ)
      → s * 256 + 255 < n
      → subshard_root ns s ≡ subshard_root (take n ns) s
  take_root ns n s h =
      node_from-local 0 (padded 0 ns) (padded 0 (take n ns)) 8 s s
        (λ j p. sym (get_or-take n ns (s * 256 + j) (o.empty_root 0) (omega arith)))

  clear_from-IsFresh :
      (ns : List o.Node) (n first : ℕ) (cache : Cache)
      → ((s : ℕ) → s < first → s * 256 + 255 < n)
      → IsFresh ns cache
      → IsFresh (take n ns) (clear_slots first (l0_db_rows - first) cache)
  clear_from-IsFresh ns n first cache below f = record {
    width = length-clear_slots first (l0_db_rows - first) cache ∙ f.width;
    roots = λ s r h.
        let (kept, apart) = clear_slots-kept first (l0_db_rows - first) cache s r h in
        let inside = get_elem?-lt cache s kept in
        f.roots s r kept ∙ ap o.to_bytes (take_root ns n s (below s (omega (arith, f.width))));
  }

  -- Rolling back keeps as many notes as the removed blocks did not bring, and clears every cached
  -- root that the removal may have changed.
  pub rollback_to-Represents :
      {t : CommitmentTreeDb} {ns ps : List o.Node} (target : ℕ)
      → Represents t ns ps
      → let removed = (pop_above target 0 (reverse t.blocks)).0 in
        Represents (rollback_to target t) (take (length ns - removed) ns) ps
  unfolding rollback_to
  rollback_to-Represents {t} {ns} {ps} target v =
      let removed = (pop_above target 0 (reverse t.blocks)).0 in
      let size : length t.leaves ≡ length ns = ap length v.leaves ∙ length-map o.to_bytes ns in
      let n = length ns - removed in
      rw size record {
        leaves = ap (take n) v.leaves ∙ take-map n o.to_bytes ns;
        prefetched = v.prefetched;
        empties = v.empties;
        aligned = v.aligned;
        small = omega (arith, v.small, length-take n ns);
        fresh = clear_from-IsFresh ns n _ t.ss_root_cache (λ s. ground arith) v.fresh;
      }
