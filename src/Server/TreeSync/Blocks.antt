-- ===== src/Server/TreeSync/Blocks.antt =====
-- What the tree is after a block.
use p2p_spendability_pir.Common.{
  ℕ, ◌+◌, ◌^◌, ◌<◌, ◌≡◌, refl, sym, ap, ap₂, subst, ◌∙◌, some, List, [], ◌∷◌, ◌++◌, map, length,
  length-map, All, ==_refl, inl, inr, arith, ◌↔◌, ◌≢◌, append-nil, length-append, Option-cases,
}
use p2p_spendability_pir.Common.Run.{Run, ok, err, panic, bind-ok, Run-cases}
use p2p_spendability_pir.Orchard.{Orchard, Hash, is_canonical_hash}
use p2p_spendability_pir.Ingest.Block.{
  CompactBlock, CompactOrchardAction, ChainMetadata, ironwood_actions_of,
}
use p2p_spendability_pir.Ingest.Range.{ValidatedBlock, IsTyped, SizeIsU32}
use p2p_spendability_pir.Ingest.Commitment.{
  ParseError, extract_commitments, ironwood_prior_tree_size, IsCommitment, commitments_of,
  extract_commitments-exactly,
}
use p2p_spendability_pir.Witness.Tree.{CommitmentTreeDb, tree_size, append_commitments}
use p2p_spendability_pir.Witness.Tree.Represents.{Represents, append_commitments-Represents}
use p2p_spendability_pir.Witness.Tree.Rollback.{
  NewBlock, all_commitments, as_record, ingest-Extends,
}
use p2p_spendability_pir.Server.TreeSync.{
  from_parse, validate_prior_tree_size, checked_commitments, append_block,
}

-- a validated block as the tree takes it in
abbrev pub as_new : ⦃o : Orchard⦄ → ValidatedBlock → NewBlock
as_new v = record { height = v.block.height; hash = v.hash; commitments = commitments_of v.block }

pub from_parse-ok : {A : Type 0} (r : Run ParseError A) (a : A) → from_parse r ≡ ok a → r ≡ ok a
unfolding from_parse
from_parse-ok (ok b) a h = cc
from_parse-ok (err e) a h = absurd (cc)
from_parse-ok panic a h = absurd (cc)

-- The tree size that a block states is the size before it and its commitments.
abbrev pub States : CompactBlock → ℕ → Type 0
States block size =
    (m : ChainMetadata) × (block.chain_metadata ≡ some m) × (m.ironwood_commitment_tree_size ≡ size)

ironwood_prior_tree_size-exactly :
    (block : CompactBlock) (n prior : ℕ)
    → SizeIsU32 block.chain_metadata
    → n < 2 ^ 32
    → (ironwood_prior_tree_size block n ≡ ok prior) ↔ States block (prior + n)
unfolding ironwood_prior_tree_size
ironwood_prior_tree_size-exactly block n prior small short =
    elim (Option-cases block.chain_metadata) [
      | inl missing ↦ (λ h. absurd (ground arith), λ (m, e, size). absurd (ground arith))
      | inr (m, present) ↦
          let bound : m.ironwood_commitment_tree_size < 2 ^ 32 = rw present at small in
          (λ h. (m, present, ground arith), λ (m', e, size). ground arith)
    ]

validate_prior_tree_size-ok :
    (t : CommitmentTreeDb) (height prior : ℕ) {u : Unit {0}}
    → validate_prior_tree_size t height (some prior) ≡ ok u
    → prior ≡ tree_size t
unfolding validate_prior_tree_size
validate_prior_tree_size-ok t height prior h = ground arith

module _ ⦃o : Orchard⦄ where
  -- Canonical commitments are the encodings of nodes.
  pub commitments_of-nodes :
      (actions : List CompactOrchardAction)
      → All IsCommitment actions
      → (ns : List o.Node) × (map (λ a. a.cmx) actions ≡ map o.to_bytes ns)
  unfolding is_canonical_hash
  commitments_of-nodes [] h = ([], refl)
  commitments_of-nodes (a ∷ actions) (h, hs) =
      let (ns, same) = commitments_of-nodes actions hs in
      elim (Option-cases (o.from_bytes a.cmx)) [
        | inl bad ↦ absurd (ground (arith, h.1))
        | inr (n, good) ↦ (n ∷ ns, ap₂ ◌∷◌ (sym (o.to_bytes-from_bytes a.cmx n good)) same)
      ]

  checked_commitments-ok :
      (v : ValidatedBlock) (t : CommitmentTreeDb) (cs : List Hash)
      → IsTyped v.block
      → checked_commitments v t ≡ ok cs
      → All IsCommitment (ironwood_actions_of v.block)
        × (cs ≡ commitments_of v.block)
        × States v.block (tree_size t + length cs)
  unfolding checked_commitments
  checked_commitments-ok v t cs typed h =
      let (cs', extracted, h1) = bind-ok (from_parse (extract_commitments v.block)) _ cs h in
      let (prior, sized, h2) =
        bind-ok (from_parse (ironwood_prior_tree_size v.block (length cs'))) _ cs h1 in
      let (u, valid, h3) =
        bind-ok (validate_prior_tree_size t v.block.height (some prior)) _ cs h2 in
      let same : cs' ≡ cs = cc in
      let (full, values) =
        (extract_commitments-exactly v.block cs').0 (from_parse-ok _ cs' extracted) in
      let count : length cs' ≡ length (ironwood_actions_of v.block) =
        ap length values ∙ length-map _ (ironwood_actions_of v.block) in
      let states =
        (ironwood_prior_tree_size-exactly v.block (length cs') prior typed.0
            (omega (arith, typed.1))).0
          (from_parse-ok _ prior sized) in
      let size : prior ≡ tree_size t = validate_prior_tree_size-ok t v.block.height prior valid in
      (full, sym same ∙ values, subst (States v.block) (omega (arith, ap length same)) states)

  pub tree_size-Represents :
      (t : CommitmentTreeDb) (ns ps : List o.Node)
      → Represents t ns ps
      → tree_size t ≡ t.leaf_offset + length ns
  unfolding tree_size
  tree_size-Represents t ns ps v =
      omega (arith, v.small, ap length v.leaves, length-map o.to_bytes ns)

  -- the tree after a block that passed the checks
  pub record Appended (v : ValidatedBlock) (t : CommitmentTreeDb) (ns ps : List o.Node)
      (t' : CommitmentTreeDb) : Type 0 where
    pub notes : List o.Node
    pub are_commitments : commitments_of v.block ≡ map o.to_bytes notes
    pub represents : Represents t' (ns ++ notes) ps
    pub leaves : t'.leaves ≡ t.leaves ++ commitments_of v.block
    pub blocks : t'.blocks ≡ t.blocks ++ as_record (as_new v) ∷ []
    pub states : States v.block (tree_size t')

  append_commitments-Appended :
      (v : ValidatedBlock) (t : CommitmentTreeDb) (ns ps : List o.Node)
      → IsTyped v.block
      → Represents t ns ps
      → All IsCommitment (ironwood_actions_of v.block)
      → States v.block (tree_size t + length (commitments_of v.block))
      → Appended v t ns ps (append_commitments v.block.height v.hash (commitments_of v.block) t)
  unfolding all_commitments
  append_commitments-Appended v t ns ps typed r full (m, present, size) =
      let (cs, same) = commitments_of-nodes (ironwood_actions_of v.block) full in
      let before = tree_size-Represents t ns ps r in
      let bound : m.ironwood_commitment_tree_size < 2 ^ 32 = rw present at typed.0 in
      let count : length (commitments_of v.block) ≡ length cs =
        ap length same ∙ length-map o.to_bytes cs in
      let x = ingest-Extends (as_new v) t in
      let after : Represents (append_commitments v.block.height v.hash (commitments_of v.block) t)
          (ns ++ cs) ps =
        subst (λ l. Represents (append_commitments v.block.height v.hash l t) (ns ++ cs) ps)
          (sym same) (append_commitments-Represents v.block.height v.hash cs r (omega arith)) in
      record {
        notes = cs;
        are_commitments = same;
        represents = after;
        leaves = x.leaves ∙ ap (λ l. t.leaves ++ l) (append-nil (commitments_of v.block));
        blocks = x.blocks;
        states = (
          m,
          present,
          omega (
            arith,
            tree_size-Represents _ (ns ++ cs) ps after,
            x.leaf_offset,
            length-append ns cs,
          ),
        );
      }

  checked_commitments_complete :
      (v : ValidatedBlock) (t : CommitmentTreeDb)
      → IsTyped v.block
      → All IsCommitment (ironwood_actions_of v.block)
      → States v.block (tree_size t + length (commitments_of v.block))
      → checked_commitments v t ≡ ok (commitments_of v.block)
  unfolding checked_commitments from_parse validate_prior_tree_size
  checked_commitments_complete v t typed full states =
      let cs = commitments_of v.block in
      let count = length-map (λ a. a.cmx) (ironwood_actions_of v.block) in
      rw
        (
          (extract_commitments-exactly v.block cs).1 (full, refl),
          (ironwood_prior_tree_size-exactly v.block (length cs) (tree_size t) typed.0
                (omega (arith, typed.1))).1
              states,
          ==_refl (tree_size t),
        )
        refl

  -- A block is appended exactly if each of its Ironwood commitments has 32 bytes and is canonical,
  -- and the tree size that it states is that of the tree with its commitments. Then the tree gains
  -- them in order and the record of the block, still represents its notes and has the stated size.
  -- In every other case the tree is as it was.
  pub append_block-exactly :
      (v : ValidatedBlock) (t : CommitmentTreeDb) (ns ps : List o.Node)
      → IsTyped v.block
      → Represents t ns ps
      → (((append_block v t).0 ≡ ok tt) ↔ (
          All IsCommitment (ironwood_actions_of v.block)
          × States v.block (tree_size t + length (commitments_of v.block))))
        × ((append_block v t).0 ≡ ok tt → Appended v t ns ps (append_block v t).1)
        × ((append_block v t).0 ≢ ok tt → (append_block v t).1 ≡ t)
  unfolding append_block
  append_block-exactly v t ns ps typed r = elim (Run-cases (checked_commitments v t)) [
    | inl (cs, passed) ↦
        let (full, same, states) = checked_commitments-ok v t cs typed passed in
        let stated : States v.block (tree_size t + length (commitments_of v.block)) =
          subst (λ l. States v.block (tree_size t + length l)) same states in
        rw (passed, append_block)
          (
            (λ h. (full, stated), λ h. refl),
            λ h.
                subst (λ l. Appended v t ns ps (append_commitments v.block.height v.hash l t))
                  (sym same) (append_commitments-Appended v t ns ps typed r full stated),
            λ h. absurd (h refl),
          )
    | inr (inl (e, failed)) ↦
        rw (failed, append_block)
          (
            (
              λ h. absurd (cc),
              λ (full, states). absurd (cc (checked_commitments_complete v t typed full states)),
            ),
            λ h. absurd (cc),
            λ h. refl,
          )
    | inr (inr panicked) ↦
        rw (panicked, append_block)
          (
            (
              λ h. absurd (cc),
              λ (full, states). absurd (cc (checked_commitments_complete v t typed full states)),
            ),
            λ h. absurd (cc),
            λ h. refl,
          )
  ]
