-- ===== src/Ingest/Commitment.antt =====
-- crates/server/src/ingest/commitment.rs: the note commitments of a block and the size of the tree
-- before it.
use p2p_spendability_pir.Common.{
  ℕ, ◌-◌, ◌^◌, ◌≡◌, sym, subst, true, List, map, length, ◌==◌, leb, ltb, if◌then◌else◌, All, arith,
  ◌↔◌,
}
use p2p_spendability_pir.Common.Run.{
  Run, ok, err, ◌>>=◌, ok_or, gather, gather_sound, gather_complete,
}
use p2p_spendability_pir.Orchard.{Orchard, Hash, is_canonical_hash}
use p2p_spendability_pir.Ingest.Block.{ironwood_actions_of, CompactBlock, CompactOrchardAction}

-- The name of a field is always that of the commitment.
pub data ParseError : Type 0 where
  invalid_field : ℕ → ℕ → ℕ → ParseError
  non_canonical_commitment : ℕ → ParseError
  missing_tree_size : ℕ → ParseError
  invalid_tree_size : ℕ → ℕ → ℕ → ParseError

unfoldable pub field : ℕ → ℕ → List ℕ → Run ParseError (List ℕ)
field height n bytes =
    if length bytes == n then ok bytes else err (invalid_field height (length bytes) n)

-- `tree_size.checked_sub(commitments.try_into().unwrap_or(u32::MAX))`
unfoldable pub ironwood_prior_tree_size : CompactBlock → ℕ → Run ParseError ℕ
ironwood_prior_tree_size block commitments = do
  metadata ← ok_or (missing_tree_size block.height) block.chain_metadata
  let tree_size = metadata.ironwood_commitment_tree_size
  let removed = if ltb commitments (2 ^ 32) then commitments else 2 ^ 32 - 1
  if leb removed tree_size
      then ok (tree_size - removed)
      else err (invalid_tree_size block.height tree_size commitments)

module _ ⦃o : Orchard⦄ where
  unfoldable pub commitment : ℕ → CompactOrchardAction → Run ParseError Hash
  commitment height action = do
    cmx ← field height 32 action.cmx
    if is_canonical_hash cmx then ok cmx else err (non_canonical_commitment height)

  unfoldable pub extract_commitments : CompactBlock → Run ParseError (List Hash)
  extract_commitments block = gather (map (commitment block.height) (ironwood_actions_of block))

  abbrev pub commitments_of : CompactBlock → List Hash
  commitments_of block = map (λ a. a.cmx) (ironwood_actions_of block)

  -- a commitment of 32 bytes that encodes a node of the tree
  abbrev pub IsCommitment : CompactOrchardAction → Type 0
  IsCommitment action = (length action.cmx ≡ 32) × (is_canonical_hash action.cmx ≡ true)

  -- The commitments of a block are those of its Ironwood actions, in order; they are returned
  -- exactly if each of them has 32 bytes and is canonical.
  pub extract_commitments-exactly :
      (block : CompactBlock) (cs : List Hash)
      → (extract_commitments block ≡ ok cs)
        ↔ (All IsCommitment (ironwood_actions_of block) × (cs ≡ commitments_of block))
  unfolding extract_commitments commitment field
  extract_commitments-exactly block cs = (
    gather_sound (commitment block.height) (λ a. a.cmx) IsCommitment (ironwood_actions_of block) cs
        (λ a y h. ((ground arith, ground arith), ground arith)),
    λ (full, same).
        subst (λ l. extract_commitments block ≡ ok l) (sym same)
          (gather_complete (commitment block.height) (λ a. a.cmx) IsCommitment
            (ironwood_actions_of block) (λ a e. ground (arith, e.0, e.1)) full),
  )
