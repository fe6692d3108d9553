-- ===== src/Ingest/Block.antt =====
-- The messages of proto/compact_formats.proto, with the fields that the program reads, the errors
-- of crates/server/src/ingest/client.rs, and the lightwalletd client that the servers call.
use Prim.Native.String.{String}
use p2p_spendability_pir.Common.{ℕ, Bool, List, Option, map, concat}
use p2p_spendability_pir.Common.Run.{Run}
use p2p_spendability_pir.Orchard.{Hash}

pub record CompactOrchardAction : Type 0 where
  pub nullifier : List ℕ
  pub cmx : List ℕ

pub record CompactTx : Type 0 where
  pub actions : List CompactOrchardAction
  pub ironwood_actions : List CompactOrchardAction

pub record ChainMetadata : Type 0 where
  pub ironwood_commitment_tree_size : ℕ

pub record CompactBlock : Type 0 where
  pub height : ℕ
  pub hash : List ℕ
  pub prev_hash : List ℕ
  pub vtx : List CompactTx
  pub chain_metadata : Option ChainMetadata

-- `block.vtx.iter().flat_map(|tx| &tx.ironwood_actions)`
abbrev pub ironwood_actions_of : CompactBlock → List CompactOrchardAction
ironwood_actions_of block = concat (map (λ tx. tx.ironwood_actions) block.vtx)

pub record SubtreeRoot : Type 0 where
  pub root_hash : List ℕ
  pub completing_block_height : ℕ

-- The tree is a text of which only its emptiness is read.
pub record TreeState : Type 0 where
  pub network : String
  pub height : ℕ
  pub ironwood_tree_is_empty : Bool

pub data ClientError : Type 0 where
  no_endpoint_available : ClientError
  transport : ClientError
  status : ClientError

-- A connection to a remote service: each call may answer anything, and moves the connection on.
pub record Lightwalletd : Type 1 where
  pub LwdClient : Type 0
  pub connect : Run ClientError LwdClient
  pub get_latest_block : LwdClient → Run ClientError (ℕ × Hash) × LwdClient
  pub get_block_range : ℕ → ℕ → LwdClient → Run ClientError (List CompactBlock) × LwdClient
  pub get_tree_state : ℕ → LwdClient → Run ClientError TreeState × LwdClient
  pub get_subtree_roots : LwdClient → Run ClientError (List SubtreeRoot) × LwdClient
