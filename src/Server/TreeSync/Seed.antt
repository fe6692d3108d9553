-- ===== src/Server/TreeSync/Seed.antt =====
-- What a window starts with: the roots of the shards before it, and the commitments that its first
-- block spills over from the shard that it completes.
use p2p_spendability_pir.Common.{
  ℕ, zero, suc, ◌+◌, ◌-◌, ◌%◌, ◌^◌, ◌<◌, ◌≤◌, ◌≡◌, refl, sym, ap, subst, ◌∙◌, not, some, map-flat,
  min, ◌++◌, List, [], ◌∷◌, map, length, drop, max, length-map, All, ◌==◌, leb, if◌then◌else◌,
  Option-cases, Bool-cases, inl, inr, arith, append-nil,
}
use p2p_spendability_pir.Common.Run.{
  Run, ok, err, panic, bind-ok, bind-panic, fail_if-ok, fail_if_safe, ok_or_safe, gather_safe,
  fail_if, ok_or,
}
use p2p_spendability_pir.Orchard.{Orchard, Hash}
use p2p_spendability_pir.Ingest.Block.{CompactBlock, ironwood_actions_of}
use p2p_spendability_pir.Ingest.Range.{IsTyped}
use p2p_spendability_pir.Ingest.Commitment.{
  ParseError, extract_commitments, IsCommitment, commitments_of, extract_commitments-exactly,
  commitment, field,
}
use p2p_spendability_pir.Witness.Types.{shard_leaves}
use p2p_spendability_pir.Witness.Tree.{CommitmentTreeDb, tree_size, append_commitments, with_offset}
use p2p_spendability_pir.Witness.Tree.Represents.{
  Represents, append_commitments-Represents, with_offset-Represents,
}
use p2p_spendability_pir.Witness.Tree.Rollback.{as_record, ingest-Extends, all_commitments}
use p2p_spendability_pir.Server.TreeSync.{
  from_parse, spillover_from_commitments, end_tree_size, first, completing_block_spillover,
  seed_window, missing_completing_block, wrong_completing_block_height, invalid_block_hash,
}
use p2p_spendability_pir.Server.TreeSync.Blocks.{
  commitments_of-nodes, from_parse-ok, tree_size-Represents,
}
use p2p_spendability_pir.Server.TreeSync.Spillover.{
  length-spillover, commitments_in, Stated, end_tree_size-Stated, spillover_from_commitments-suffix,
}

from_parse-panic : {A : Type 0} (r : Run ParseError A) → from_parse r ≡ panic → r ≡ panic
unfolding from_parse
from_parse-panic (ok a) h = absurd (cc)
from_parse-panic (err e) h = absurd (cc)
from_parse-panic panic h = refl

module _ ⦃o : Orchard⦄ where
  extract_commitments_safe : (block : CompactBlock) → extract_commitments block ≡ panic → ⊥
  unfolding extract_commitments commitment field
  extract_commitments_safe block h =
      gather_safe (commitment block.height) (ironwood_actions_of block) (λ a e. ground arith) h

  drop-nodes :
      (k : ℕ) (ns : List o.Node)
      → (ms : List o.Node) × (drop k (map o.to_bytes ns) ≡ map o.to_bytes ms)
  drop-nodes zero ns = (ns, refl)
  drop-nodes (suc k) [] = ([], refl)
  drop-nodes (suc k) (n ∷ ns) = drop-nodes k ns

  spillover-nodes :
      (block : CompactBlock) (size offset : ℕ)
      → All IsCommitment (ironwood_actions_of block)
      → (ns : List o.Node) × (spillover_from_commitments (commitments_of block) size offset
          ≡ map o.to_bytes ns)
  unfolding spillover_from_commitments
  spillover-nodes block size offset full =
      let (all, same) = commitments_of-nodes (ironwood_actions_of block) full in
      let cs = commitments_of block in
      elim (Bool-cases (leb size offset)) [
        | inl none_left ↦
            ([], ap (λ b. if b then [] else drop (length cs - (size - offset)) cs) none_left)
        | inr some_left ↦
            let (ns, dropped) = drop-nodes (length cs - (size - offset)) all in
            (
              ns,
              ap (λ b. if b then [] else drop (length cs - (size - offset)) cs) some_left
                  ∙ ap (drop (length cs - (size - offset))) same
                  ∙ dropped,
            )
      ]

  -- a tree made from the block that completes the shard before the window
  pub record Seeded (height offset : ℕ) (prefetched : List Hash) (blocks : List CompactBlock)
      (t : CommitmentTreeDb) : Type 0 where
    pub block : CompactBlock
    pub sent : first blocks ≡ some block
    pub at_height : block.height ≡ height
    pub full_hash : length block.hash ≡ 32
    pub are_commitments : All IsCommitment (ironwood_actions_of block)
    pub grown :
        t
        ≡ append_commitments height block.hash
            (spillover_from_commitments
              (commitments_of block)
              (end_tree_size block.chain_metadata)
              offset)
            (with_offset offset prefetched)

  pub seed_window-Seeded :
      (height offset : ℕ) (prefetched : List Hash) (blocks : List CompactBlock)
      (t : CommitmentTreeDb)
      → seed_window height offset prefetched blocks ≡ ok t
      → Seeded height offset prefetched blocks t
  unfolding seed_window completing_block_spillover
  seed_window-Seeded height offset prefetched blocks t h =
      let (block, has, h1) =
        bind-ok (ok_or (missing_completing_block height) (first blocks)) _ t h in
      let (same, h2) =
        fail_if-ok (not (block.height == height))
          (wrong_completing_block_height block.height height) _ t h1 in
      let (spill, spilled, h3) = bind-ok (completing_block_spillover block offset) _ t h2 in
      let (cs, extracted, whole) =
        bind-ok (from_parse (extract_commitments block)) _ spill spilled in
      let (wide, h4) =
        fail_if-ok (not (length block.hash == 32)) (invalid_block_hash height) _ t h3 in
      let (full, values) =
        (extract_commitments-exactly block cs).0 (from_parse-ok _ cs extracted) in
      let from_all : spill
          ≡ spillover_from_commitments (commitments_of block) (end_tree_size block.chain_metadata)
              offset =
        cc in
      record {
        block = block;
        sent = elim (Option-cases (first blocks)) [
          | inl missing ↦ absurd (ground arith)
          | inr (b, there) ↦ ground arith
        ];
        at_height = ground arith;
        full_hash = ground arith;
        are_commitments = full;
        grown = cc (
            ap (λ l. append_commitments height block.hash l (with_offset offset prefetched))
              from_all);
      }

  -- The seeded tree represents what spilled over, behind the shards whose roots were fetched: the
  -- last commitments of the block, as many as the size of the tree that it states is beyond them.
  pub record SeedRepresents (offset : ℕ) (ps : List o.Node) (height : ℕ) (block : CompactBlock)
      (t : CommitmentTreeDb) : Type 0 where
    pub notes : List o.Node
    pub represents : Represents t notes ps
    pub before : List Hash
    pub spilled : before ++ t.leaves ≡ commitments_in block
    pub end_size : ℕ
    pub states : Stated block.chain_metadata end_size
    pub count : length t.leaves ≡ min (length (commitments_in block)) (end_size - offset)
    pub recorded :
        t.blocks
        ≡ as_record (record { height = height; hash = block.hash; commitments = t.leaves }) ∷ []
    pub starts_at : t.leaf_offset ≡ offset
    pub size : end_size ≤ offset + length (commitments_in block) → tree_size t ≡ max offset end_size

  pub append_commitments-SeedRepresents :
      (offset : ℕ) (ps : List o.Node) (height : ℕ) (block : CompactBlock)
      → offset % shard_leaves ≡ 0
      → offset ≤ 2 ^ 32
      → IsTyped block
      → All IsCommitment (ironwood_actions_of block)
      → SeedRepresents offset ps height block (
          append_commitments height block.hash
            (spillover_from_commitments
              (commitments_of block)
              (end_tree_size block.chain_metadata)
              offset)
            (with_offset offset (map o.to_bytes ps)))
  unfolding with_offset all_commitments end_tree_size
  append_commitments-SeedRepresents offset ps height block aligned small typed full =
      let end_size = end_tree_size block.chain_metadata in
      let spill = spillover_from_commitments (commitments_of block) end_size offset in
      let base = with_offset offset (map o.to_bytes ps) in
      let (ns, nodes) = spillover-nodes block end_size offset full in
      let end_small : end_size < 2 ^ 32 = elim (Option-cases block.chain_metadata) [
        | inl missing ↦ omega (arith, ap end_tree_size missing)
        | inr (m, present) ↦
            let bound : m.ironwood_commitment_tree_size < 2 ^ 32 = rw present at typed.0 in
            omega (arith, bound, ap end_tree_size present)
      ] in
      let ((before, parts), left) =
        spillover_from_commitments-suffix (commitments_of block) end_size offset in
      let flat = map-flat (λ tx. tx.ironwood_actions) (λ a. a.cmx) block.vtx in
      let sizes : length (commitments_of block) ≡ length (commitments_in block) =
        ap (λ (l : List Hash). length l) flat in
      let (within, exactly) = length-spillover (commitments_of block) end_size offset in
      let count : length spill ≡ length ns = ap length nodes ∙ length-map o.to_bytes ns in
      let x =
        ingest-Extends (record { height = height; hash = block.hash; commitments = spill }) base in
      let leaves = x.leaves ∙ append-nil spill in
      let represents : Represents (append_commitments height block.hash spill base) ns ps =
        subst (λ l. Represents (append_commitments height block.hash l base) ns ps) (sym nodes)
          (append_commitments-Represents height block.hash ns
            (with_offset-Represents offset ps aligned small) (omega arith)) in
      record {
        notes = ns;
        represents = represents;
        before = before;
        spilled = ap (λ l. before ++ l) leaves ∙ parts ∙ flat;
        end_size = end_size;
        states = end_tree_size-Stated block.chain_metadata;
        count =
            ap (λ (l : List Hash). length l) leaves
            ∙ left
            ∙ ap (λ n. min n (end_size - offset)) sizes;
        recorded =
            x.blocks
            ∙ ap
                (λ l.
                  as_record (record { height = height; hash = block.hash; commitments = l }) ∷ [])
                (sym leaves);
        starts_at = x.leaf_offset;
        size = λ h. omega (
          arith,
          tree_size-Represents _ ns ps represents,
          x.leaf_offset,
          exactly (omega (arith, h, sizes)),
        );
      }

  -- Seeding a window does not panic.
  pub seed_window_safe :
      (height offset : ℕ) (prefetched : List Hash) (blocks : List CompactBlock)
      → seed_window height offset prefetched blocks ≡ panic
      → ⊥
  unfolding seed_window completing_block_spillover from_parse
  seed_window_safe height offset prefetched blocks h =
      elim (bind-panic (ok_or (missing_completing_block height) (first blocks)) _ h) [
        | inl none_sent ↦ ok_or_safe _ _ none_sent
        | inr (block, sent, h1) ↦
            elim (bind-panic (fail_if (not (block.height == height)) _) _ h1) [
              | inl wrong ↦ fail_if_safe _ _ wrong
              | inr (u, right, h2) ↦
                  elim (bind-panic (completing_block_spillover block offset) _ h2) [
                    | inl spilled ↦
                        elim (bind-panic (from_parse (extract_commitments block)) _ spilled) [
                          | inl parsed ↦ extract_commitments_safe block (from_parse-panic _ parsed)
                          | inr (cs, extracted, h3) ↦ cc
                        ]
                    | inr (spill, spilled, h3) ↦
                        elim (bind-panic (fail_if (not (length block.hash == 32)) _) _ h3) [
                          | inl short ↦ fail_if_safe _ _ short
                          | inr (v, full, h4) ↦ cc
                        ]
                  ]
            ]
      ]
