-- ===== src/Ingest/Ironwood.antt =====
-- crates/server/src/ingest/ironwood.rs: the nullifiers of a block and the state of the tree.
use Prim.Native.String.{String}
use text.Mathlib.Text.{◌==◌ as str_eq}
use p2p_spendability_pir.Common.{
  ℕ, ◌≡◌, sym, subst, not, List, map, length, ◌==◌, if◌then◌else◌, All, arith, ◌↔◌, ◌∙◌, concat,
  map-flat, All-flat, All-of_flat,
}
use p2p_spendability_pir.Common.Run.{
  Run, ok, err, panic, ◌>>◌, fail_if, gather, gather_sound, gather_complete, gather_safe,
}
use p2p_spendability_pir.Protocol.Types.{ZcashNetwork, main, test, as_str}
use p2p_spendability_pir.Ingest.Block.{
  ClientError, Lightwalletd, ironwood_actions_of, CompactBlock, CompactOrchardAction, TreeState,
}
use p2p_spendability_pir.Nullifier.Types.{Nullifier}

abbrev pub nu6_3_mainnet_activation_height : ℕ
nu6_3_mainnet_activation_height = 3428143

abbrev pub nu6_3_testnet_activation_height : ℕ
nu6_3_testnet_activation_height = 4134000

unfoldable pub nu6_3_activation_height : ZcashNetwork → ℕ
nu6_3_activation_height main = nu6_3_mainnet_activation_height
nu6_3_activation_height test = nu6_3_testnet_activation_height

pub data IronwoodError : Type 0 where
  invalid_nullifier : ℕ → ℕ → IronwoodError
  wrong_network : String → ZcashNetwork → IronwoodError
  wrong_height : ℕ → ℕ → IronwoodError
  missing_tree : ℕ → IronwoodError

nullifier_of : ℕ → CompactOrchardAction → Run IronwoodError Nullifier
nullifier_of height action =
    if length action.nullifier == 32
    then ok action.nullifier
    else err (invalid_nullifier height (length action.nullifier))

unfoldable pub extract_ironwood_nullifiers : CompactBlock → Run IronwoodError (List Nullifier)
unfolding nullifier_of
extract_ironwood_nullifiers block =
    gather (map (nullifier_of block.height) (ironwood_actions_of block))

unfoldable pub validate_ironwood_tree_state :
    ZcashNetwork → ℕ → TreeState → Run IronwoodError (Unit {0})
validate_ironwood_tree_state network height state = do
  fail_if (not (str_eq state.network (as_str network))) (wrong_network state.network network)
  fail_if (not (state.height == height)) (wrong_height state.height height)
  fail_if state.ironwood_tree_is_empty (missing_tree height)
  ok tt

pub data EndpointError : Type 0 where
  client : ClientError → EndpointError
  invalid : IronwoodError → EndpointError

-- the answer on the tree state, checked
unfoldable pub check_tree_state :
    ZcashNetwork → ℕ → Run ClientError TreeState → Run EndpointError (Unit {0})
check_tree_state network height (err e) = err (client e)
check_tree_state network height panic = panic
check_tree_state network height (ok state) =
    elim (validate_ironwood_tree_state network height state) [
      | ok u ↦ ok u
      | err e ↦ err (invalid e)
      | panic ↦ panic
    ]

unfoldable pub require_ironwood_tree_state :
    ⦃l : Lightwalletd⦄ → ZcashNetwork → ℕ → l.LwdClient → Run EndpointError (Unit {0}) × l.LwdClient
require_ironwood_tree_state ⦃l⦄ network height lwd =
    let (answer, lwd') = l.get_tree_state height lwd in
    (check_tree_state network height answer, lwd')

-- the nullifiers that a block reveals, one transaction after the other
abbrev pub nullifiers_of : CompactBlock → List Nullifier
nullifiers_of block = concat (map (λ tx. map (λ a. a.nullifier) tx.ironwood_actions) block.vtx)

-- in terms of the list of the block's Ironwood actions
extract_ironwood_nullifiers-gathered :
    (block : CompactBlock) (nfs : List Nullifier)
    → (extract_ironwood_nullifiers block ≡ ok nfs) ↔ (
        All (λ a. length a.nullifier ≡ 32) (ironwood_actions_of block)
        × (nfs ≡ map (λ a. a.nullifier) (ironwood_actions_of block)))
unfolding extract_ironwood_nullifiers nullifier_of
extract_ironwood_nullifiers-gathered block nfs = (
  gather_sound (nullifier_of block.height) (λ a. a.nullifier) (λ a. length a.nullifier ≡ 32)
      (ironwood_actions_of block) nfs (λ a y h. (ground arith, ground arith)),
  λ (full, same).
      subst (λ l. extract_ironwood_nullifiers block ≡ ok l) (sym same)
        (gather_complete (nullifier_of block.height) (λ a. a.nullifier)
          (λ a. length a.nullifier ≡ 32) (ironwood_actions_of block) (λ a e. ground arith) full),
)

pub extract_ironwood_nullifiers_safe :
    (block : CompactBlock) → (extract_ironwood_nullifiers block ≡ panic) → ⊥
unfolding extract_ironwood_nullifiers nullifier_of
extract_ironwood_nullifiers_safe block h =
    gather_safe (nullifier_of block.height) (ironwood_actions_of block) (λ a e. ground arith) h

-- The nullifiers of a block are those of the Ironwood actions of its transactions, one transaction
-- after the other; they are returned exactly if each of them has 32 bytes.
pub extract_ironwood_nullifiers-exactly :
    (block : CompactBlock) (nfs : List Nullifier)
    → (extract_ironwood_nullifiers block ≡ ok nfs) ↔ (
        All (λ tx. All (λ a. length a.nullifier ≡ 32) tx.ironwood_actions) block.vtx
        × (nfs ≡ concat (map (λ tx. map (λ a. a.nullifier) tx.ironwood_actions) block.vtx)))
extract_ironwood_nullifiers-exactly block nfs =
    let exactly = extract_ironwood_nullifiers-gathered block nfs in
    let flat = map-flat (λ tx. tx.ironwood_actions) (λ a. a.nullifier) block.vtx in
    (
      λ got.
          let (full, same) = exactly.0 got in
          (All-of_flat (λ tx. tx.ironwood_actions) _ block.vtx full, same ∙ flat),
      λ (full, same).
          exactly.1 (All-flat (λ tx. tx.ironwood_actions) _ block.vtx full, same ∙ sym flat),
    )
