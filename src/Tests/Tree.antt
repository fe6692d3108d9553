-- ===== src/Tests/Tree.antt =====
-- The theorems about the tree at a windowed tree with two blocks on top of one fetched shard.
use p2p_spendability_pir.Common.{
  ◌↔◌, ◌≤◌, ℕ, ◌+◌, ◌-◌, ◌*◌, ◌/◌, ◌^◌, ◌<◌, ◌≡◌, refl, List, [], ◌∷◌, map, some, true, false,
  length, length-replicate, Bool, take, replicate, concat, slice, tabulate, reverse, arith,
}
use p2p_spendability_pir.Orchard.{Hash}
use p2p_spendability_pir.Tests.Toy.{toy, toy_to_bytes}
use p2p_spendability_pir.Witness.Types.{
  BroadcastData, decompose_position, physical_row_index, l0_db_rows, l0_db_bytes,
  subshard_row_bytes,
}
use p2p_spendability_pir.Witness.Position.{decompose_position_parts, physical_row_index_window}
use p2p_spendability_pir.Witness.Merkle.{node_from, padded}
use p2p_spendability_pir.Witness.Tree.{
  CommitmentTreeDb, Cache, with_offset, new, append_commitments, rollback_to, pop_above,
  window_start_shard, window_shard_count,
}
use p2p_spendability_pir.Witness.Tree.Represents.{
  Represents, IsFresh, with_offset-Represents, new-Represents, append_commitments-Represents,
  rollback_to-Represents,
}
use p2p_spendability_pir.Witness.Tree.Rollback.{NewBlock, ingest_all, rollback_to-ingest_all}
use p2p_spendability_pir.Witness.Roots.{tree_root, shard_roots}
use p2p_spendability_pir.Witness.Roots.Nodes.{merkle_root, cap_root}
use p2p_spendability_pir.Witness.Roots.Laws.{
  tree_root-merkle_root, tree_root_whole, shard_roots-every_shard,
}
use p2p_spendability_pir.Witness.Build.{build_pir_db_and_broadcast, build_pir_db, broadcast_data}
use p2p_spendability_pir.Witness.Build.Broadcast.{pir_db, broadcast_of, build-broadcast_of}
use p2p_spendability_pir.Witness.Build.Database.{
  build_pir_db-rows, build_again, broadcast_data-shard_roots_exactly,
}
use p2p_spendability_pir.Client.Served.{ServesWitness, reconstruct_witness-tree_root}

abbrev base : CommitmentTreeDb
base = with_offset 65536 (map toy_to_bytes (true ∷ []))

abbrev some_hash : Hash
some_hash = replicate 32 7

abbrev grown : CommitmentTreeDb
grown = append_commitments 100 some_hash (map toy_to_bytes (true ∷ true ∷ false ∷ [])) base

base-Represents : Represents base [] (true ∷ [])
base-Represents = with_offset-Represents 65536 (true ∷ []) (omega arith) (omega arith)

append_commitments-Represents_example : Represents grown (true ∷ true ∷ false ∷ []) (true ∷ [])
append_commitments-Represents_example =
    append_commitments-Represents 100 some_hash (true ∷ true ∷ false ∷ []) base-Represents
      (unfold with_offset in omega arith)

rollback_to-Represents_example :
    Represents
      (rollback_to 99 grown)
      (take (3 - (pop_above 99 0 (reverse grown.blocks)).0) (true ∷ true ∷ false ∷ []))
      (true ∷ [])
rollback_to-Represents_example = rollback_to-Represents 99 append_commitments-Represents_example

abbrev new_blocks : List NewBlock
new_blocks =
    record {
      height = 100;
      hash = some_hash;
      commitments = toy_to_bytes true ∷ toy_to_bytes false ∷ [];
    }
    ∷ record { height = 101; hash = some_hash; commitments = toy_to_bytes true ∷ [] }
    ∷ []

rollback_to-ingest_all_example :
    let back = rollback_to 99 (ingest_all new_blocks base) in
    (back.leaves ≡ base.leaves)
    × (back.blocks ≡ base.blocks)
    × (back.leaf_offset ≡ base.leaf_offset)
    × (back.prefetched_shard_roots ≡ base.prefetched_shard_roots)
rollback_to-ingest_all_example =
    rollback_to-ingest_all 99 new_blocks base (unfold with_offset in tt) (omega arith) (omega arith)

tree_root-merkle_root_example :
    tree_root grown
    ≡ some (
        toy_to_bytes
          (merkle_root (window_start_shard grown) (true ∷ true ∷ false ∷ []) (true ∷ [])))
tree_root-merkle_root_example = tree_root-merkle_root append_commitments-Represents_example

shard_roots-every_shard_example :
    shard_roots grown
    ≡ some (
        tabulate ((grown.leaf_offset + 3 + 65535) / 65536) λ i. (
          i,
          toy_to_bytes
              (cap_root (grown.leaf_offset / 65536) (true ∷ true ∷ false ∷ []) (true ∷ []) i),
        ))
shard_roots-every_shard_example = shard_roots-every_shard append_commitments-Represents_example

-- a tree without a window
abbrev young : CommitmentTreeDb
young = append_commitments 100 some_hash (map toy_to_bytes (true ∷ false ∷ [])) new

tree_root_whole_example :
    tree_root young ≡ some (toy_to_bytes (node_from 0 (padded 0 (true ∷ false ∷ [])) 32 0))
tree_root_whole_example =
    tree_root_whole
      (append_commitments-Represents 100 some_hash (true ∷ false ∷ []) new-Represents
        (unfold new in omega arith))
      (unfold append_commitments new in refl)

build-broadcast_of_example :
    (c : Cache) × (build_pir_db_and_broadcast 100 grown
      ≡ some (
        pir_db (true ∷ true ∷ false ∷ []) (window_shard_count grown),
        broadcast_of 100
            (window_start_shard grown)
            (window_shard_count grown)
            (true ∷ true ∷ false ∷ [])
            (true ∷ []),
        record grown { ss_root_cache = c },
      ))
    × IsFresh (true ∷ true ∷ false ∷ []) c
build-broadcast_of_example = build-broadcast_of append_commitments-Represents_example 100

build_pir_db-rows_example :
    (db : List ℕ) × (t' : CommitmentTreeDb) × (build_pir_db grown ≡ some (db, t'))
    × (length db ≡ l0_db_bytes)
    × ((r : ℕ)
        → r < 16 * 256
        → (r / 256) * 65536 < 3
        → slice (r * subshard_row_bytes) subshard_row_bytes db
          ≡ concat (
              map toy_to_bytes
                (tabulate 256 (λ j. padded 0 (true ∷ true ∷ false ∷ []) (r * 256 + j)))))
build_pir_db-rows_example = build_pir_db-rows append_commitments-Represents_example

build_again_example :
    (db : List ℕ) × (b : BroadcastData) × (t₁ : CommitmentTreeDb) × (t₂ : CommitmentTreeDb)
    × (build_pir_db_and_broadcast 100 grown ≡ some (db, b, t₁))
    × (build_pir_db_and_broadcast 100 t₁ ≡ some (db, b, t₂))
    × Represents t₁ (true ∷ true ∷ false ∷ []) (true ∷ [])
    × Represents t₂ (true ∷ true ∷ false ∷ []) (true ∷ [])
build_again_example = build_again append_commitments-Represents_example 100

-- notes of sixteen shards and one more
abbrev many : List Bool
many = replicate 1048577 true

overfull : CommitmentTreeDb
overfull = append_commitments 100 some_hash (map toy_to_bytes many) base

overfull-Represents : Represents overfull many (true ∷ [])
unfolding overfull
overfull-Represents =
    append_commitments-Represents 100 some_hash many base-Represents
      (unfold with_offset in omega (arith, length-replicate 1048577 true))

broadcast_data-shard_roots_exactly_example :
    (b : BroadcastData) × (t' : CommitmentTreeDb) × (roots : List (ℕ × Hash)) × (broadcast_data 100
        overfull
      ≡ some (b, t'))
    × (shard_roots overfull ≡ some roots)
    × (b.cap.shard_roots ≡ take (overfull.leaf_offset / 65536 + 16) (map (λ r. r.1) roots))
    × ((b.cap.shard_roots ≡ map (λ r. r.1) roots) ↔ (length many ≤ 16 * 65536))
broadcast_data-shard_roots_exactly_example =
    broadcast_data-shard_roots_exactly overfull-Represents 100

reconstruct_witness-tree_root_example : ServesWitness grown 100 65537
reconstruct_witness-tree_root_example =
    reconstruct_witness-tree_root append_commitments-Represents_example (omega arith) 100 65537
      (unfold append_commitments with_offset in omega arith)
      (unfold append_commitments with_offset in omega arith)

decompose_position_parts_example :
    let (shard, subshard, leaf) = decompose_position 378922 in
    (shard * 2 ^ 16 + subshard * 2 ^ 8 + leaf ≡ 378922)
    × (subshard < 256)
    × (leaf < 256)
    × (378922 < 2 ^ 32 → shard < 2 ^ 16)
decompose_position_parts_example = decompose_position_parts 378922 (omega arith)

decompose_position_run : decompose_position 378922 ≡ (5, 200, 42)
unfolding decompose_position
decompose_position_run = refl

physical_row_index_window_example :
    (physical_row_index 11 3 10 < l0_db_rows)
    × (physical_row_index 11 3 10 ≡ physical_row_index 12 3 10
        → (◌≡◌ {A = ℕ} 11 12) × (◌≡◌ {A = ℕ} 3 3))
physical_row_index_window_example =
    physical_row_index_window 10 4 11 3 12 3 (omega arith) (omega arith) (omega arith) (omega arith)
