-- ===== src/Tests/Prepare.antt =====
-- A window prepared over a toy chain of which a block completes a shard and begins the next.
use p2p_spendability_pir.Common.{refl, false, some, [], ◌∷◌, replicate, concat, List, arith, true}
use p2p_spendability_pir.Common.Run.{ok}
use p2p_spendability_pir.Protocol.Types.{main}
use p2p_spendability_pir.Ingest.Block.{CompactBlock, Lightwalletd, SubtreeRoot}
use p2p_spendability_pir.Ingest.Range.{IsTyped}
use p2p_spendability_pir.Ingest.Sync.Delivery.{AnswersFit}
use p2p_spendability_pir.Server.TreeSync.{prepare_tree}
use p2p_spendability_pir.Server.TreeSync.Prepare.{
  RootsFit, Prepared, clamped, prepare_tree-Prepared,
}
use p2p_spendability_pir.Tests.Toy.{toy, toy_to_bytes}
use p2p_spendability_pir.Tests.Chain.{toy_lwd, toy_hash}

-- two commitments, the second of which is in the next shard
abbrev crossing : CompactBlock
crossing = record {
  height = 5;
  hash = toy_hash 5;
  prev_hash = toy_hash 4;
  vtx =
      record {
        actions = [];
        ironwood_actions =
            record { nullifier = replicate 32 7; cmx = toy_to_bytes true }
            ∷ record { nullifier = replicate 32 8; cmx = toy_to_bytes false }
            ∷ [];
      }
      ∷ [];
  chain_metadata = some (record { ironwood_commitment_tree_size = 65537 });
}

-- the second shard is complete only above the target
abbrev two_roots : List SubtreeRoot
two_roots =
    record { root_hash = toy_to_bytes true; completing_block_height = 5 }
    ∷ record { root_hash = toy_to_bytes false; completing_block_height = 30 }
    ∷ []

abbrev crossing_lwd : Lightwalletd
crossing_lwd = record toy_lwd {
  get_block_range = λ a b lwd. (ok (crossing ∷ []), lwd);
  get_subtree_roots = λ lwd. (ok two_roots, lwd);
}

crossing-IsTyped : IsTyped crossing
unfolding concat
crossing-IsTyped = (omega arith, omega arith)

crossing_fit : AnswersFit crossing_lwd
crossing_fit a b lwd blocks h = ground (arith, crossing-IsTyped)

crossing_few : RootsFit crossing_lwd
crossing_few lwd roots h = ground arith

prepare_tree-Prepared_example :
    Prepared crossing_lwd 20
      (clamped 1)
      main
      two_roots
      (prepare_tree ⦃l = crossing_lwd⦄ 20 1 main tt).0
prepare_tree-Prepared_example =
    prepare_tree-Prepared ⦃l = crossing_lwd⦄ crossing_fit crossing_few 20 1 main tt two_roots refl
