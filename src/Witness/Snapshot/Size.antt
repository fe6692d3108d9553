-- ===== src/Witness/Snapshot/Size.antt =====
-- How long a snapshot is.
use p2p_spendability_pir.Common.{
  ℕ, suc, ◌+◌, ◌*◌, ◌^◌, ◌<◌, ◌≤◌, ◌≡◌, refl, sym, ap, subst, ◌∙◌, List, [], ◌∷◌, ◌++◌, concat,
  length, map, false, to_le_bytes, none, some, get_elem?, All, length-append, length-map,
  length-to_le_bytes, arith,
}
use p2p_spendability_pir.Orchard.{Orchard, Hash, is_canonical_hash}
use p2p_spendability_pir.Witness.Types.{l0_db_rows}
use p2p_spendability_pir.Witness.Hashing.{precompute_empty_roots}
use p2p_spendability_pir.Witness.Tree.{BlockRecord, Cache, CommitmentTreeDb}
use p2p_spendability_pir.Witness.Tree.Represents.{Represents, subshard_root}
use p2p_spendability_pir.Witness.Tree.Rollback.{total}
use p2p_spendability_pir.Witness.Snapshot.{
  block_record_size, encode_blocks, encode_cache, cached_count, snapshot_payload, snapshot_body,
  snapshot_magic, any_cached_non_canonical,
}
use p2p_spendability_pir.Witness.Snapshot.RoundTrip.{IsBlockRecord, AreHashes}

-- What a tree needs to be written as it is: its fields fit their types, its blocks count its leaves
-- and its empty roots are those of every tree.
pub record IsWritable ⦃o : Orchard⦄ (t : CommitmentTreeDb) : Type 0 where
  pub blocks : All IsBlockRecord t.blocks
  pub counted : total t.blocks ≡ length t.leaves
  pub empties : t.empty_roots ≡ precompute_empty_roots
  pub fits : length (snapshot_payload t) < 2 ^ 63

pub length-encode_blocks :
    (bs : List BlockRecord)
    → All IsBlockRecord bs
    → length (encode_blocks bs) ≡ length bs * block_record_size
unfolding encode_blocks
length-encode_blocks [] h = refl
length-encode_blocks (b ∷ bs) (here, h) =
    let n4 = to_le_bytes 4 b.num_commitments in
    omega (
      arith,
      length-append (to_le_bytes 8 b.height) (b.hash ++ (n4 ++ encode_blocks bs)),
      length-append b.hash (n4 ++ encode_blocks bs),
      length-append n4 (encode_blocks bs),
      length-to_le_bytes 8 b.height,
      length-to_le_bytes 4 b.num_commitments,
      here.1,
      length-encode_blocks bs h,
    )

pub length-hashes :
    (hs : List Hash) → All (λ h. length h ≡ 32) hs → length (concat hs) ≡ length hs * 32
unfolding concat
length-hashes [] h = refl
length-hashes (x ∷ hs) (here, h) =
    omega (arith, length-append x (concat hs), here, length-hashes hs h)

length-encode_cache :
    (slot : ℕ) (cache : Cache)
    → AreHashes cache
    → length (encode_cache slot cache) ≤ length cache * 36
unfolding encode_cache
length-encode_cache slot [] h = omega arith
length-encode_cache slot (none ∷ cache) h = omega (arith, length-encode_cache (slot + 1) cache h)
length-encode_cache slot (some root ∷ cache) (here, h) = omega (
  arith,
  length-append (to_le_bytes 4 slot) (root ++ encode_cache (slot + 1) cache),
  length-append root (encode_cache (slot + 1) cache),
  length-to_le_bytes 4 slot,
  here,
  length-encode_cache (slot + 1) cache h,
)

module _ ⦃o : Orchard⦄ where
  pub nodes_full : (ns : List o.Node) → All (λ h. length h ≡ 32) (map o.to_bytes ns)
  nodes_full [] = tt
  nodes_full (n ∷ ns) = (o.length-to_bytes n, nodes_full ns)

  pub cached_nodes :
      (cache : Cache)
      → ((s : ℕ) (r : Hash) → get_elem? cache s ≡ some (some r) → (n : o.Node) × (r ≡ o.to_bytes n))
      → AreHashes cache × (any_cached_non_canonical cache ≡ false)
  unfolding any_cached_non_canonical is_canonical_hash
  cached_nodes [] h = (tt, refl)
  cached_nodes (none ∷ cache) h = cached_nodes cache (λ s r e. h (suc s) r e)
  cached_nodes (some root ∷ cache) h =
      let (n, same) = h 0 root refl in
      let (full, canonical) = cached_nodes cache (λ s r e. h (suc s) r e) in
      ((ap length same ∙ o.length-to_bytes n, full), rw (same, o.from_bytes-to_bytes n) canonical)

  -- the payload behind its magic, its counts and its parts
  pub payload_parts :
      (t : CommitmentTreeDb)
      → All (λ h. length h ≡ 32) t.prefetched_shard_roots
      → All (λ h. length h ≡ 32) t.leaves
      → IsWritable t
      → (length t.prefetched_shard_roots * 32 < 2 ^ 63)
        × (length t.blocks * block_record_size < 2 ^ 63)
        × (length t.leaves * 32 < 2 ^ 63)
  unfolding snapshot_payload snapshot_body
  payload_parts t roots leaves w =
      let count = to_le_bytes 8 (cached_count t.ss_root_cache) ++ encode_cache 0 t.ss_root_cache in
      let from_leaves = concat t.leaves ++ count in
      let from_blocks = encode_blocks t.blocks ++ from_leaves in
      let from_roots = concat t.prefetched_shard_roots ++ from_blocks in
      let from_count = to_le_bytes 8 (length t.prefetched_shard_roots) ++ from_roots in
      let from_offset = to_le_bytes 8 t.leaf_offset ++ from_count in
      let from_block_count = to_le_bytes 8 (length t.blocks) ++ from_offset in
      let l₁ = length-append (to_le_bytes 8 snapshot_magic) from_block_count in
      let l₂ = length-append (to_le_bytes 8 (length t.blocks)) from_offset in
      let l₃ = length-append (to_le_bytes 8 t.leaf_offset) from_count in
      let l₄ = length-append (to_le_bytes 8 (length t.prefetched_shard_roots)) from_roots in
      let l₅ = length-append (concat t.prefetched_shard_roots) from_blocks in
      let l₆ = length-append (encode_blocks t.blocks) from_leaves in
      let l₇ = length-append (concat t.leaves) count in
      let a = length-hashes t.prefetched_shard_roots roots in
      let b = length-encode_blocks t.blocks w.blocks in
      let c = length-hashes t.leaves leaves in
      let fits = w.fits in (omega arith, omega arith, omega arith)

  -- The snapshot of a tree that represents its notes has a bounded number of bytes for each shard
  -- root, block record, leaf and cached root.
  pub snapshot_payload-bound :
      (t : CommitmentTreeDb) (ns ps : List o.Node)
      → Represents t ns ps
      → All IsBlockRecord t.blocks
      → length (snapshot_payload t)
        ≤ 40
          + length ps * 32
          + length t.blocks * block_record_size
          + length ns * 32
          + l0_db_rows * 36
  unfolding snapshot_payload snapshot_body
  snapshot_payload-bound t ns ps r records =
      let cache = encode_cache 0 t.ss_root_cache in
      let count = to_le_bytes 8 (cached_count t.ss_root_cache) in
      let from_leaves = concat t.leaves ++ (count ++ cache) in
      let from_blocks = encode_blocks t.blocks ++ from_leaves in
      let from_roots = concat t.prefetched_shard_roots ++ from_blocks in
      let root_count = to_le_bytes 8 (length t.prefetched_shard_roots) in
      let offset = to_le_bytes 8 t.leaf_offset in
      let block_count = to_le_bytes 8 (length t.blocks) in
      let roots : All (λ h. length h ≡ 32) t.prefetched_shard_roots =
        subst (All (λ h. length h ≡ 32)) (sym r.prefetched) (nodes_full ps) in
      let leaves : All (λ h. length h ≡ 32) t.leaves =
        subst (All (λ h. length h ≡ 32)) (sym r.leaves) (nodes_full ns) in
      let (hashes, canonical) =
        cached_nodes t.ss_root_cache (λ s h e. (subshard_root ns s, r.fresh.roots s h e)) in
      omega (
        arith,
        length-append (to_le_bytes 8 snapshot_magic) (snapshot_body t),
        length-append block_count (offset ++ (root_count ++ from_roots)),
        length-append offset (root_count ++ from_roots),
        length-append root_count from_roots,
        length-append (concat t.prefetched_shard_roots) from_blocks,
        length-append (encode_blocks t.blocks) from_leaves,
        length-append (concat t.leaves) (count ++ cache),
        length-append count cache,
        length-to_le_bytes 8 snapshot_magic,
        length-to_le_bytes 8 (length t.blocks),
        length-to_le_bytes 8 t.leaf_offset,
        length-to_le_bytes 8 (length t.prefetched_shard_roots),
        length-to_le_bytes 8 (cached_count t.ss_root_cache),
        length-hashes t.prefetched_shard_roots roots,
        length-hashes t.leaves leaves,
        length-encode_blocks t.blocks records,
        length-encode_cache 0 t.ss_root_cache hashes,
        r.fresh.width,
        ap (λ (l : List Hash). length l) r.leaves,
        ap (λ (l : List Hash). length l) r.prefetched,
        length-map o.to_bytes ns,
        length-map o.to_bytes ps,
      )
