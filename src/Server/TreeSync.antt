-- ===== src/Server/TreeSync.antt =====
-- crates/server/src/witness/server.rs: how the commitment tree is prepared, checked and kept up
-- with the chain. Logging and the counts in it are left out, and so is the name of the caller that
-- a size mismatch reports.
pub mod Blocks
pub mod Mirror
pub mod Roots
pub mod Spillover
pub mod Seed
pub mod Window
pub mod Prepare
pub mod Sync
pub mod Follow
use p2p_spendability_pir.Common.{
  ℕ, zero, suc, ◌+◌, ◌-◌, ◌*◌, ◌≡◌, Bool, true, false, not, ◌&&◌, Option, none, some, List, [], ◌∷◌,
  length, take, drop, get_elem?, ◌==◌, leb, ltb, if◌then◌else◌, min, max, add64,
}
use p2p_spendability_pir.Common.Run.{
  Run, ok, err, panic, ◌>>=◌, ◌>>◌, fail_if, ok_or, expect, gather,
}
use p2p_spendability_pir.Orchard.{Orchard, Hash, is_canonical_hash}
use p2p_spendability_pir.Protocol.Types.{ZcashNetwork}
use p2p_spendability_pir.Ingest.Block.{
  CompactBlock, SubtreeRoot, ClientError, ChainMetadata, Lightwalletd,
}
use p2p_spendability_pir.Ingest.Range.{PipelineError, consumer_dropped, ValidatedBlock}
use p2p_spendability_pir.Ingest.Ironwood.{EndpointError, nu6_3_activation_height}
use p2p_spendability_pir.Ingest.Commitment.{
  ParseError, extract_commitments, ironwood_prior_tree_size,
}
use p2p_spendability_pir.Ingest.Follow.{BlockEvent, new_block, reorg}
use p2p_spendability_pir.Witness.Types.{l0_max_shards, shard_leaves}
use p2p_spendability_pir.Witness.Tree.{
  CommitmentTreeDb, new, with_offset, tree_size, append_commitments, rollback_to,
}

pub data ServerError : Type 0 where
  pipeline : PipelineError → ServerError
  client : ClientError → ServerError
  endpoint : EndpointError → ServerError
  parse : ParseError → ServerError
  pir_setup : ServerError
  missing_completing_block : ℕ → ServerError
  invalid_subtree_root : ℕ → ServerError
  invalid_block_hash : ℕ → ServerError
  wrong_completing_block_height : ℕ → ℕ → ServerError
  tree_size_mismatch : ℕ → ℕ → ℕ → ServerError

-- `?` on the results of the callees
unfoldable pub from_parse : {A : Type 0} → Run ParseError A → Run ServerError A
from_parse (ok a) = ok a
from_parse (err e) = err (parse e)
from_parse panic = panic

unfoldable pub from_lwd : {A : Type 0} → Run ClientError A → Run ServerError A
from_lwd (ok a) = ok a
from_lwd (err e) = err (client e)
from_lwd panic = panic

unfoldable pub spillover_from_commitments : List Hash → ℕ → ℕ → List Hash
spillover_from_commitments commitments end_tree_size leaf_offset =
    if leb end_tree_size leaf_offset
    then []
    else drop (length commitments - (end_tree_size - leaf_offset)) commitments

unfoldable pub validate_prior_tree_size :
    CommitmentTreeDb → ℕ → Option ℕ → Run ServerError (Unit {0})
validate_prior_tree_size tree height none = ok tt
validate_prior_tree_size tree height (some expected) =
    if tree_size tree == expected
    then ok tt
    else err (tree_size_mismatch height expected (tree_size tree))

unfoldable pub min_sync_height : ZcashNetwork → ℕ
min_sync_height network = nu6_3_activation_height network

-- `map_or(0u64, |m| m.ironwood_commitment_tree_size as u64)`
unfoldable pub end_tree_size : Option ChainMetadata → ℕ
end_tree_size none = 0
end_tree_size (some metadata) = metadata.ironwood_commitment_tree_size

-- `subtree_roots.retain(|root| root.completing_block_height <= target_height)`
unfoldable pub retain_up_to : ℕ → List SubtreeRoot → List SubtreeRoot
retain_up_to target [] = []
retain_up_to target (root ∷ roots) =
    let kept = retain_up_to target roots in
    if leb root.completing_block_height target then root ∷ kept else kept

-- `completing_blocks.first()`
unfoldable pub first : List CompactBlock → Option CompactBlock
first [] = none
first (block ∷ blocks) = some block

module _ ⦃o : Orchard⦄ where
  unfoldable pub completing_block_spillover : CompactBlock → ℕ → Run ServerError (List Hash)
  completing_block_spillover block leaf_offset = do
    commitments ← from_parse (extract_commitments block)
    ok (spillover_from_commitments commitments (end_tree_size block.chain_metadata) leaf_offset)

  check_root : ℕ → SubtreeRoot → Run ServerError Hash
  check_root index root =
      if length root.root_hash == 32 && is_canonical_hash root.root_hash
      then ok root.root_hash
      else err (invalid_subtree_root index)

  -- `iter().enumerate().map(...)`, from an index on
  unfoldable pub check_roots : ℕ → List SubtreeRoot → List (Run ServerError Hash)
  unfolding check_root
  check_roots index [] = []
  check_roots index (root ∷ roots) = check_root index root ∷ check_roots (index + 1) roots

  -- The window, seeded with what its first block spills over from the shard that it completes.
  unfoldable pub seed_window :
      ℕ → ℕ → List Hash → List CompactBlock → Run ServerError CommitmentTreeDb
  seed_window height leaf_offset prefetched completing_blocks = do
    block ← ok_or (missing_completing_block height) (first completing_blocks)
    fail_if (not (block.height == height)) (wrong_completing_block_height block.height height)
    spillover ← completing_block_spillover block leaf_offset
    fail_if (not (length block.hash == 32)) (invalid_block_hash height)
    ok (append_commitments height block.hash spillover (with_offset leaf_offset prefetched))

  -- the branch with enough completed shards
  unfoldable pub prepare_window :
      ⦃l : Lightwalletd⦄
      → List SubtreeRoot
      → ℕ
      → l.LwdClient
      → Run ServerError (CommitmentTreeDb × ℕ) × l.LwdClient
  prepare_window ⦃l⦄ subtree_roots window_start lwd =
      let leaf_offset = window_start * shard_leaves in
      let prefetched = gather (check_roots 0 (take window_start subtree_roots)) in
      let completing =
        prefetched >>= λ roots. expect (get_elem? subtree_roots (window_start - 1)) in
      elim completing [
        | err e ↦ (err e, lwd)
        | panic ↦ (panic, lwd)
        | ok root ↦
            let height = root.completing_block_height in
            let (answer, lwd') = l.get_block_range height height lwd in
            let prepared = (do
              roots ← prefetched
              blocks ← from_lwd answer
              tree ← seed_window height leaf_offset roots blocks
              ok (tree, add64 height 1)) in
            (prepared, lwd')
      ]

  unfoldable pub prepare_tree :
      ⦃l : Lightwalletd⦄
      → ℕ
      → ℕ
      → ZcashNetwork
      → l.LwdClient
      → Run ServerError (CommitmentTreeDb × ℕ) × l.LwdClient
  prepare_tree ⦃l⦄ target_height window_shard_limit network lwd =
      let limit = max 1 (min window_shard_limit l0_max_shards) in
      let (answer, lwd') = l.get_subtree_roots lwd in
      elim answer [
        | err e ↦ (err (client e), lwd')
        | panic ↦ (panic, lwd')
        | ok roots ↦
            let subtree_roots = retain_up_to target_height roots in
            let num_completed = length subtree_roots in
            if leb limit num_completed
            then prepare_window subtree_roots (num_completed - (limit - 1)) lwd'
            else (ok (new, min_sync_height network), lwd')
      ]

  -- what `sync_range` and the loop of `run` do with a block: the checks, then the tree
  unfoldable pub checked_commitments :
      ValidatedBlock → CommitmentTreeDb → Run ServerError (List Hash)
  checked_commitments v tree = do
    commitments ← from_parse (extract_commitments v.block)
    prior_tree_size ← from_parse (ironwood_prior_tree_size v.block (length commitments))
    validate_prior_tree_size tree v.block.height (some prior_tree_size)
    ok commitments

  unfoldable pub append_block :
      ValidatedBlock → CommitmentTreeDb → Run ServerError (Unit {0}) × CommitmentTreeDb
  append_block v tree = elim (checked_commitments v tree) [
    | err e ↦ (err e, tree)
    | panic ↦ (panic, tree)
    | ok commitments ↦ (ok tt, append_commitments v.block.height v.hash commitments tree)
  ]

  -- the `match` of the loop of `run`
  unfoldable pub handle_event :
      BlockEvent → CommitmentTreeDb → Run ServerError (Unit {0}) × CommitmentTreeDb
  handle_event (new_block v) tree = append_block v tree
  handle_event (reorg fork) tree = (ok tt, rollback_to fork tree)

-- The events reach the loop of `run` through a channel. A failure ends the loop and drops the
-- receiver, which the follower sees as `ConsumerDropped`.
unfoldable pub as_dropped :
    {S : Type 0} → Run ServerError (Unit {0}) × S → Run PipelineError (Unit {0}) × S
as_dropped (ok u, s) = (ok u, s)
as_dropped (err e, s) = (err consumer_dropped, s)
as_dropped (panic, s) = (panic, s)

unfoldable pub consume_event :
    ⦃o : Orchard⦄ → BlockEvent → CommitmentTreeDb → Run PipelineError (Unit {0}) × CommitmentTreeDb
consume_event event tree = as_dropped (handle_event event tree)
