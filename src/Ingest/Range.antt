-- ===== src/Ingest/Range.antt =====
-- crates/server/src/ingest/pipeline.rs: the validation of a range of compact blocks.
pub mod Exact
use p2p_spendability_pir.Common.{
  ℕ, ◌+◌, ◌-◌, ◌^◌, ◌<◌, ◌≡◌, refl, ap, ap₂, ◌↔◌, subst, Option, none, some, Bool, false, not, List,
  [], ◌∷◌, map, length, All, ◌==◌, if◌then◌else◌, add64, bytes_eq, bytes_eq_sound, bytes_eq_refl,
  arith,
}
use p2p_spendability_pir.Common.Run.{Run, ok, err, panic, ◌>>=◌, ◌>>◌, fail_if, bind-ok}
use p2p_spendability_pir.Orchard.{Hash}
use p2p_spendability_pir.Ingest.Block.{
  ironwood_actions_of, ChainMetadata, CompactBlock, ClientError, Lightwalletd,
}

pub data HashField : Type 0 where
  block_hash : HashField
  previous_hash : HashField

pub record ValidatedBlock : Type 0 where
  pub block : CompactBlock
  pub hash : Hash
  pub prev_hash : Hash

pub data PipelineError : Type 0 where
  client : ClientError → PipelineError
  invalid_hash : ℕ → HashField → ℕ → PipelineError
  unexpected_height : ℕ → ℕ → PipelineError
  incomplete_range : ℕ → ℕ → PipelineError
  broken_link : ℕ → PipelineError
  reorg_beyond_window : ℕ → ℕ → PipelineError
  consumer_dropped : PipelineError
  invalid_block : ℕ → PipelineError

unfoldable pub exact_hash : ℕ → HashField → List ℕ → Run PipelineError Hash
exact_hash height field bytes =
    if length bytes == 32 then ok bytes else err (invalid_hash height field (length bytes))

-- `prior_hash.is_some_and(|prior| prior != prev_hash)`
unfoldable pub breaks_link : Option Hash → Hash → Bool
breaks_link none prev_hash = false
breaks_link (some prior) prev_hash = not (bytes_eq prior prev_hash)

-- the body of the loop over the blocks
unfoldable pub validate_block : CompactBlock → ℕ → Option Hash → Run PipelineError ValidatedBlock
validate_block block expected_height prior_hash = do
  fail_if (not (block.height == expected_height)) (unexpected_height expected_height block.height)
  hash ← exact_hash block.height block_hash block.hash
  prev_hash ← exact_hash block.height previous_hash block.prev_hash
  fail_if (breaks_link prior_hash prev_hash) (broken_link block.height)
  ok (record { block = block; hash = hash; prev_hash = prev_hash })

-- the loop, with the height that it expects next
unfoldable pub validate_blocks :
    List CompactBlock → ℕ → Option Hash → Run PipelineError (List ValidatedBlock × ℕ)
validate_blocks [] expected_height prior_hash = ok ([], expected_height)
validate_blocks (block ∷ blocks) expected_height prior_hash = do
  v ← validate_block block expected_height prior_hash
  (validated, next_height) ← validate_blocks blocks (add64 expected_height 1) (some v.hash)
  ok (v ∷ validated, next_height)

unfoldable pub validate_range :
    List CompactBlock → ℕ → ℕ → Option Hash → Run PipelineError (List ValidatedBlock)
validate_range blocks start end expected_prev = do
  (validated, expected_height) ← validate_blocks blocks start expected_prev
  fail_if (not (expected_height == add64 end 1)) (incomplete_range end (expected_height - 1))
  ok validated

-- `?` on the answer of the client
unfoldable pub from_client : {A : Type 0} → Run ClientError A → Run PipelineError A
from_client (ok a) = ok a
from_client (err e) = err (client e)
from_client panic = panic

unfoldable pub fetch_validated :
    ⦃l : Lightwalletd⦄
    → ℕ
    → ℕ
    → Option Hash
    → l.LwdClient
    → Run PipelineError (List ValidatedBlock) × l.LwdClient
fetch_validated ⦃l⦄ start end expected_prev lwd =
    let (answer, lwd') = l.get_block_range start end lwd in
    (from_client answer >>= λ blocks. validate_range blocks start end expected_prev, lwd')

abbrev pub SizeIsU32 : Option ChainMetadata → Type 0
SizeIsU32 none = Unit
SizeIsU32 (some metadata) = metadata.ironwood_commitment_tree_size < 2 ^ 32

abbrev pub Links : Option Hash → Hash → Type 0
Links none prev_hash = Unit
Links (some prior) prev_hash = prior ≡ prev_hash

-- The tree size of a block is a u32, and a block is a message with fewer than 2^32 actions.
abbrev pub IsTyped : CompactBlock → Type 0
IsTyped block = SizeIsU32 block.chain_metadata × (length (ironwood_actions_of block) < 2 ^ 32)

-- A block at its place in the chain: what is kept of it is what was sent, in full length.
pub record Follows (height : ℕ) (prior : Option Hash) (v : ValidatedBlock) : Type 0 where
  pub at_height : v.block.height ≡ height
  pub same_hash : v.block.hash ≡ v.hash
  pub same_prev : v.block.prev_hash ≡ v.prev_hash
  pub full_hash : length v.hash ≡ 32
  pub full_prev : length v.prev_hash ≡ 32
  pub linked : Links prior v.prev_hash
  pub typed : IsTyped v.block

-- Blocks of consecutive heights, each of which names the hash of the one before it.
abbrev pub IsChain : ℕ → Option Hash → List ValidatedBlock → Type 0
IsChain start prior [] = Unit
IsChain start prior (v ∷ vs) = Follows start prior v × IsChain (start + 1) (some v.hash) vs

abbrev pub blocks_of : List ValidatedBlock → List CompactBlock
blocks_of vs = map (λ v. v.block) vs
