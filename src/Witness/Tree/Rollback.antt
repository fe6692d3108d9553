-- ===== src/Witness/Tree/Rollback.antt =====
-- `rollback_to` undoes `append_commitments`, and `to_remove` counts the leaves of what it pops.
use p2p_spendability_pir.Common.{
  ℕ, ◌+◌, ◌-◌, ◌^◌, ◌<◌, ◌≤◌, ◌≡◌, refl, sym, ap, ◌∙◌, List, [], ◌∷◌, ◌++◌, map, length, take,
  reverse, reverse-append, reverse-reverse, append-nil, append_assoc, length-append, take-append,
  All, All-reverse, lt→ltb, le→ltb, arith, as_u32,
}
use p2p_spendability_pir.Orchard.{Hash}
use p2p_spendability_pir.Witness.Tree.{
  BlockRecord, CommitmentTreeDb, append_leaves, append_commitments, pop_above, rollback_to,
}

unfoldable pub total : List BlockRecord → ℕ
total [] = 0
total (b ∷ bs) = b.num_commitments + total bs

total-append : (xs ys : List BlockRecord) → total (xs ++ ys) ≡ total xs + total ys
unfolding total
total-append [] ys = omega arith
total-append (b ∷ xs) ys = omega (arith, total-append xs ys)

pub total-reverse : (xs : List BlockRecord) → total (reverse xs) ≡ total xs
unfolding total
total-reverse [] = refl
total-reverse (b ∷ xs) =
    ap total (reverse-append (b ∷ []) xs)
    ∙ total-append (reverse xs) (b ∷ [])
    ∙ omega (arith, total-reverse xs)

-- the blocks with a greater height at the end of the list are popped, and counted
pub pop_above-append :
    (target n : ℕ) (xs ys : List BlockRecord)
    → All (λ b. target < b.height) xs
    → pop_above target n (xs ++ ys) ≡ pop_above target (n + total xs) ys
unfolding pop_above total
pop_above-append target n [] ys h = ap (λ k. pop_above target k ys) (omega arith)
pop_above-append target n (b ∷ xs) ys h = rw (lt→ltb _ _ h.0) (
    pop_above-append target (n + b.num_commitments) xs ys h.1
    ∙ ap (λ k. pop_above target k ys) (omega arith))

pop_above_stop :
    (target n : ℕ) (xs : List BlockRecord)
    → All (λ b. b.height ≤ target) xs
    → pop_above target n xs ≡ (n, xs)
unfolding pop_above
pop_above_stop target n [] h = refl
pop_above_stop target n (b ∷ xs) h = rw (le→ltb _ _ h.0)

-- A block as it is ingested.
pub record NewBlock : Type 0 where
  pub height : ℕ
  pub hash : Hash
  pub commitments : List Hash

abbrev pub ingest : NewBlock → CommitmentTreeDb → CommitmentTreeDb
ingest b t = append_commitments b.height b.hash b.commitments t

pub ingest_all : List NewBlock → CommitmentTreeDb → CommitmentTreeDb
ingest_all [] t = t
ingest_all (b ∷ bs) t = ingest_all bs (ingest b t)

abbrev pub as_record : NewBlock → BlockRecord
as_record b = record {
  height = b.height;
  hash = b.hash;
  num_commitments = as_u32 (length b.commitments);
}

unfoldable pub all_commitments : List NewBlock → List Hash
all_commitments [] = []
all_commitments (b ∷ bs) = b.commitments ++ all_commitments bs

leaves-append_leaves :
    (cs : List Hash) (t : CommitmentTreeDb)
    → ((append_leaves cs t).leaves ≡ t.leaves ++ cs)
      × ((append_leaves cs t).blocks ≡ t.blocks)
      × ((append_leaves cs t).leaf_offset ≡ t.leaf_offset)
      × ((append_leaves cs t).prefetched_shard_roots ≡ t.prefetched_shard_roots)
unfolding append_leaves
leaves-append_leaves [] t = (sym (append-nil t.leaves), refl, refl, refl)
leaves-append_leaves (c ∷ cs) t = (refl, refl, refl, refl)

pub record Extends (bs : List NewBlock) (t t' : CommitmentTreeDb) : Type 0 where
  pub leaves : t'.leaves ≡ t.leaves ++ all_commitments bs
  pub blocks : t'.blocks ≡ t.blocks ++ map as_record bs
  pub leaf_offset : t'.leaf_offset ≡ t.leaf_offset
  pub prefetched : t'.prefetched_shard_roots ≡ t.prefetched_shard_roots

pub ingest-Extends : (b : NewBlock) (t : CommitmentTreeDb) → Extends (b ∷ []) t (ingest b t)
unfolding append_commitments all_commitments
ingest-Extends b t =
    let (leaves, blocks, offset, prefetched) = leaves-append_leaves b.commitments t in
    record {
      leaves = leaves ∙ ap (λ l. t.leaves ++ l) (sym (append-nil b.commitments));
      blocks = ap (λ l. l ++ as_record b ∷ []) blocks;
      leaf_offset = offset;
      prefetched = prefetched;
    }

ingest_all-Extends : (bs : List NewBlock) (t : CommitmentTreeDb) → Extends bs t (ingest_all bs t)
unfolding ingest_all all_commitments
ingest_all-Extends [] t = record {
  leaves = sym (append-nil t.leaves);
  blocks = sym (append-nil t.blocks);
  leaf_offset = refl;
  prefetched = refl;
}
ingest_all-Extends (b ∷ bs) t =
    let first = ingest-Extends b t in
    let rest = ingest_all-Extends bs (ingest b t) in
    record {
      leaves =
          rest.leaves
          ∙ ap (λ l. l ++ all_commitments bs) first.leaves
          ∙ append_assoc t.leaves (b.commitments ++ []) (all_commitments bs)
          ∙ ap (λ l. t.leaves ++ (l ++ all_commitments bs)) (append-nil b.commitments);
      blocks =
          rest.blocks
          ∙ ap (λ l. l ++ map as_record bs) first.blocks
          ∙ append_assoc t.blocks (as_record b ∷ []) (map as_record bs);
      leaf_offset = rest.leaf_offset ∙ first.leaf_offset;
      prefetched = rest.prefetched ∙ first.prefetched;
    }

pub total-all_commitments :
    (bs : List NewBlock)
    → All (λ b. length b.commitments < 2 ^ 32) bs
    → total (map as_record bs) ≡ length (all_commitments bs)
unfolding total all_commitments
total-all_commitments [] h = refl
total-all_commitments (b ∷ bs) h =
    omega
      (arith, total-all_commitments bs h.1, h.0, length-append b.commitments (all_commitments bs))

pub heights-as_record :
    (target : ℕ) (bs : List NewBlock)
    → All (λ b. target < b.height) bs
    → All (λ b. target < b.height) (map as_record bs)
heights-as_record target [] h = tt
heights-as_record target (b ∷ bs) h = (h.0, heights-as_record target bs h.1)

-- After any number of blocks above `target` on top of a tree whose blocks are at `target` or
-- below, rolling back to `target` restores the leaves, the block records, the offset and the
-- prefetched roots.
pub rollback_to-ingest_all :
    (target : ℕ) (bs : List NewBlock) (t : CommitmentTreeDb)
    → All (λ b. b.height ≤ target) t.blocks
    → All (λ b. target < b.height) bs
    → All (λ b. length b.commitments < 2 ^ 32) bs
    → let back = rollback_to target (ingest_all bs t) in
      (back.leaves ≡ t.leaves)
      × (back.blocks ≡ t.blocks)
      × (back.leaf_offset ≡ t.leaf_offset)
      × (back.prefetched_shard_roots ≡ t.prefetched_shard_roots)
unfolding rollback_to
rollback_to-ingest_all target bs t low high small =
    let x = ingest_all-Extends bs t in
    let popped : pop_above target 0 (reverse (ingest_all bs t).blocks)
        ≡ (length (all_commitments bs), reverse t.blocks) =
      ap (λ l. pop_above target 0 (reverse l)) x.blocks
      ∙ ap (pop_above target 0) (reverse-append t.blocks (map as_record bs))
      ∙ pop_above-append target 0 (reverse (map as_record bs)) (reverse t.blocks) (
          All-reverse (λ b. target < b.height) (map as_record bs)
            (heights-as_record target bs high))
      ∙ pop_above_stop target _ (reverse t.blocks)
          (All-reverse (λ b. b.height ≤ target) t.blocks low)
      ∙ ap (λ n. (n, reverse t.blocks))
          (omega (arith, total-reverse (map as_record bs), total-all_commitments bs small)) in
    let size : length (ingest_all bs t).leaves - length (all_commitments bs) ≡ length t.leaves =
      omega (arith, ap length x.leaves, length-append t.leaves (all_commitments bs)) in
    (
      ap (λ p. take (length (ingest_all bs t).leaves - p.0) (ingest_all bs t).leaves) popped
          ∙ ap (λ n. take n (ingest_all bs t).leaves) size
          ∙ ap (take (length t.leaves)) x.leaves
          ∙ take-append t.leaves (all_commitments bs),
      ap (λ p. reverse p.1) popped ∙ reverse-reverse t.blocks,
      x.leaf_offset,
      x.prefetched,
    )
