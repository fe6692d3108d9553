-- ===== src/Witness/Snapshot/Restored.antt =====
-- A snapshot restores the tree that was written.
use p2p_spendability_pir.Common.{
  ℕ, ◌+◌, ◌-◌, ◌*◌, ◌^◌, ◌<◌, ◌≤◌, ◌≡◌, refl, sym, ap, subst, List, [], ◌∷◌, ◌++◌, concat, length,
  map, ltb, leb, false, replicate, to_le_bytes, none, some, All, length-append, length-to_le_bytes,
  from_le_bytes-to_le_bytes, le→ltb, lt→leb, ==_refl, arith,
}
use p2p_spendability_pir.Common.Run.{ok}
use p2p_spendability_pir.Orchard.{Orchard, Hash, is_canonical_hash}
use p2p_spendability_pir.Witness.Types.{l0_db_rows}
use p2p_spendability_pir.Witness.Hashing.{precompute_empty_roots}
use p2p_spendability_pir.Witness.Tree.{BlockRecord, Cache, CommitmentTreeDb, with_offset}
use p2p_spendability_pir.Witness.Tree.Represents.{Represents, subshard_root}
use p2p_spendability_pir.Witness.Tree.Rollback.{total}
use p2p_spendability_pir.Witness.Snapshot.{
  block_record_size, read_u64, read_block_records, read_leaves, read_cache, encode_blocks,
  encode_cache, cached_count, snapshot_payload, snapshot_body, snapshot_magic, size_overflows,
  any_non_canonical, decode_snapshot, to_snapshot, from_snapshot,
}
use p2p_spendability_pir.Witness.Snapshot.RoundTrip.{
  take-front, drop-front, read_u64-to_le_bytes, read_roots-concat, read_hashes-concat,
  IsBlockRecord, read_records-encode_blocks, read_cache-encode_cache,
}
use p2p_spendability_pir.Witness.Snapshot.Size.{
  IsWritable, length-encode_blocks, length-hashes, nodes_full, cached_nodes, payload_parts,
}

size_fits :
    (count size n : ℕ) (rest : List ℕ)
    → count * size < 2 ^ 63
    → n < 2 ^ 63
    → size_overflows count size n rest ≡ false
unfolding size_overflows
size_fits count size n rest h k = ground arith

pub read_block_records-encode_blocks :
    (n : ℕ) (bs : List BlockRecord) (rest : List ℕ)
    → All IsBlockRecord bs
    → n < 2 ^ 63
    → length bs * block_record_size < 2 ^ 63
    → read_block_records n (length bs) (encode_blocks bs ++ rest) ≡ ok (bs, total bs, rest)
unfolding read_block_records
read_block_records-encode_blocks n bs rest h small few =
    let there : ltb (length (encode_blocks bs ++ rest)) (length bs * block_record_size) ≡ false =
      le→ltb _ _
        (omega (arith, length-append (encode_blocks bs) rest, length-encode_blocks bs h)) in
    rw
      (
        size_fits (length bs) block_record_size n (encode_blocks bs ++ rest) few small,
        there,
        read_records-encode_blocks bs rest h,
      )
      refl

pub read_leaves-concat :
    (n : ℕ) (hs : List Hash) (rest : List ℕ)
    → All (λ h. length h ≡ 32) hs
    → n < 2 ^ 63
    → length hs * 32 < 2 ^ 63
    → read_leaves n (length hs) (concat hs ++ rest) ≡ ok (hs, rest)
unfolding read_leaves
read_leaves-concat n hs rest h small few =
    let there : ltb (length (concat hs ++ rest)) (length hs * 32) ≡ false =
      le→ltb _ _ (omega (arith, length-append (concat hs) rest, length-hashes hs h)) in
    rw
      (
        size_fits (length hs) 32 n (concat hs ++ rest) few small,
        there,
        read_hashes-concat hs rest h,
      )
      refl

module _ ⦃o : Orchard⦄ where
  nodes_canonical : (ns : List o.Node) → any_non_canonical (map o.to_bytes ns) ≡ false
  unfolding any_non_canonical is_canonical_hash
  nodes_canonical [] = refl
  nodes_canonical (n ∷ ns) = rw (o.from_bytes-to_bytes n) (nodes_canonical ns)

  cached_count-le : (cache : Cache) → cached_count cache ≤ length cache
  unfolding cached_count
  cached_count-le [] = omega arith
  cached_count-le (none ∷ cache) = omega (arith, cached_count-le cache)
  cached_count-le (some root ∷ cache) = omega (arith, cached_count-le cache)

  -- the payload behind the magic
  decode_snapshot-payload :
      (n : ℕ) (t : CommitmentTreeDb) (ns ps : List o.Node)
      → n < 2 ^ 63
      → Represents t ns ps
      → IsWritable t
      → decode_snapshot n (snapshot_body t) ≡ ok t
  unfolding decode_snapshot with_offset snapshot_body
  decode_snapshot-payload n t ns ps small r w =
      let roots : All (λ h. length h ≡ 32) t.prefetched_shard_roots =
        subst (All (λ h. length h ≡ 32)) (sym r.prefetched) (nodes_full ps) in
      let leaves : All (λ h. length h ≡ 32) t.leaves =
        subst (All (λ h. length h ≡ 32)) (sym r.leaves) (nodes_full ns) in
      let canonical : any_non_canonical t.leaves ≡ false =
        subst (λ l. any_non_canonical l ≡ false) (sym r.leaves) (nodes_canonical ns) in
      let canonical_roots : any_non_canonical t.prefetched_shard_roots ≡ false =
        subst (λ l. any_non_canonical l ≡ false) (sym r.prefetched) (nodes_canonical ps) in
      let (hashes, canonical_cache) =
        cached_nodes t.ss_root_cache (λ s h e. (subshard_root ns s, r.fresh.roots s h e)) in
      let (few_roots, few_blocks, few_leaves) = payload_parts t roots leaves w in
      let width = r.fresh.width in
      let counted = w.counted in
      let count_le = cached_count-le t.ss_root_cache in
      let same : record t { empty_roots = precompute_empty_roots } ≡ t =
        ap (λ e. record t { empty_roots = e }) (sym w.empties) in
      let affordable : leb (2 ^ 63) (length t.prefetched_shard_roots * 32) ≡ false =
        lt→leb (2 ^ 63) _ few_roots in
      let cache_read : read_cache (cached_count t.ss_root_cache) (encode_cache 0 t.ss_root_cache)
            (replicate l0_db_rows none)
          ≡ ok t.ss_root_cache =
        subst
          (λ k.
            read_cache (cached_count t.ss_root_cache) (encode_cache 0 t.ss_root_cache)
              (replicate k none)
            ≡ ok t.ss_root_cache)
          width (read_cache-encode_cache t.ss_root_cache [] (omega arith) hashes) in
      rw
        (
          read_u64-to_le_bytes (length t.blocks) _ (omega arith),
          read_u64-to_le_bytes t.leaf_offset _ (omega (arith, r.small)),
          read_u64-to_le_bytes (length t.prefetched_shard_roots) _ (omega arith),
          affordable,
          read_roots-concat t.prefetched_shard_roots _ roots,
          read_block_records-encode_blocks n t.blocks _ w.blocks small few_blocks,
          counted,
          read_leaves-concat n t.leaves _ leaves small few_leaves,
          read_u64-to_le_bytes (cached_count t.ss_root_cache) _ (omega arith),
          cache_read,
          canonical_roots,
          canonical,
          canonical_cache,
        )
        (ap (λ (x : CommitmentTreeDb). ok x) same)

  length-payload : (t : CommitmentTreeDb) → 8 ≤ length (snapshot_payload t)
  unfolding snapshot_payload
  length-payload t = omega (
    arith,
    length-append (to_le_bytes 8 snapshot_magic) (snapshot_body t),
    length-to_le_bytes 8 snapshot_magic,
  )

  payload-magic :
      (t : CommitmentTreeDb) → read_u64 (snapshot_payload t) ≡ ok (snapshot_magic, snapshot_body t)
  unfolding snapshot_payload
  payload-magic t = read_u64-to_le_bytes snapshot_magic (snapshot_body t) (omega arith)

  -- A tree that represents its notes, with the records of its blocks, is restored from its snapshot
  -- as it was, the cache of roots included, if the checksum is a number of 64 bits and the snapshot
  -- is shorter than 2^63 bytes.
  pub from_snapshot-restores :
      (xxh64 : List ℕ → ℕ → ℕ) (t : CommitmentTreeDb) (ns ps : List o.Node)
      → ((bytes : List ℕ) (seed : ℕ) → xxh64 bytes seed < 2 ^ 64)
      → Represents t ns ps
      → IsWritable t
      → from_snapshot xxh64 (to_snapshot xxh64 t) ≡ ok t
  unfolding from_snapshot to_snapshot
  from_snapshot-restores xxh64 t ns ps word r w =
      let payload = snapshot_payload t in
      let check = to_le_bytes 8 (xxh64 payload 0) in
      let width : length check ≡ 8 = length-to_le_bytes 8 (xxh64 payload 0) in
      let whole : length (payload ++ check) ≡ length payload + 8 =
        omega (arith, length-append payload check) in
      let cut : length payload ≡ length (payload ++ check) - 8 = omega arith in
      let magic = length-payload t in
      let long : ltb (length (payload ++ check)) 16 ≡ false = le→ltb _ 16 (omega arith) in
      rw
        (
          long,
          take-front (length (payload ++ check) - 8) payload check cut,
          drop-front (length (payload ++ check) - 8) payload check cut,
          from_le_bytes-to_le_bytes 8 (xxh64 payload 0) (omega (arith, word payload 0)),
          ==_refl (xxh64 payload 0),
          payload-magic t,
        )
        (decode_snapshot-payload (length payload) t ns ps w.fits r w)
