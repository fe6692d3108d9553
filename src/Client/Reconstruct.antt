-- ===== src/Client/Reconstruct.antt =====
-- crates/client/src/reconstruct.rs: an authentication path from a decoded row and the broadcast.
pub mod Path
pub mod Root
use p2p_spendability_pir.Common.{
  ℕ, zero, suc, ◌+◌, ◌-◌, ◌*◌, ◌/◌, ◌%◌, ◌^◌, List, [], ◌∷◌, ◌++◌, Option, none, some, length,
  get_elem?, get_or, set, replicate, slice, ltb, leb, ◌==◌, not, ◌||◌, if◌then◌else◌, Bool, true,
  false,
}
use p2p_spendability_pir.Common.Run.{Run, ok, err, panic, ◌>>=◌, ◌>>◌, fail_if, ok_or, expect}
use p2p_spendability_pir.Orchard.{Orchard, Hash, hash_combine, is_canonical_hash}
use p2p_spendability_pir.Witness.Types.{
  tree_depth, shard_height, subshard_height, subshard_leaves, subshards_per_shard,
  subshard_row_bytes, ShardSubRoots, BroadcastData, PirWitness,
}

-- The texts that the errors carry, with what is formatted into them.
pub data Reason : Type 0 where
  shard_precedes_window : Reason
  missing_subshard_roots : Reason
  malformed_broadcast : Reason
  invalid_pir_window : Reason
  row_too_short : ℕ → Reason
  non_canonical_commitment : ℕ → Reason

-- the cases of crates/client/src/witness.rs that are raised without the transport
pub data WitnessClientError : Type 0 where
  invalid_params : Reason → WitnessClientError
  query_failed : Reason → WitnessClientError
  position_outside_window : ℕ → ℕ → ℕ → WitnessClientError

abbrev pub Result : Type 0 → Type 0
Result A = Run WitnessClientError A

-- `idx ^ 1`: the lowest bit is flipped.
abbrev pub xor_one : ℕ → ℕ
xor_one idx = if idx % 2 == 0 then idx + 1 else idx - 1

module _ ⦃o : Orchard⦄ where
  abbrev pub empty_root_bytes : ℕ → Hash
  empty_root_bytes level = o.to_bytes (o.empty_root level)

  -- `for pair in current_nodes.chunks(2)`
  unfoldable pub next_nodes : ℕ → List Hash → Result (List Hash)
  next_nodes level [] = ok []
  next_nodes level (left ∷ []) = do
    parent ← expect (hash_combine level left (empty_root_bytes level))
    ok (parent ∷ [])
  next_nodes level (left ∷ right ∷ rest) = do
    parent ← expect (hash_combine level left right)
    next ← next_nodes level rest
    ok (parent ∷ next)

  -- The rounds of `for level_offset in 0..num_levels` that are left. The caller's array has 32
  -- places, and no level is past it.
  unfoldable pub extract_siblings : ℕ → ℕ → List Hash → ℕ → List Hash → Result (List Hash)
  extract_siblings zero tree_level nodes idx siblings = ok siblings
  extract_siblings (suc n) tree_level nodes idx siblings = do
    let sibling =
        if ltb (xor_one idx) (length nodes)
        then get_or nodes (xor_one idx) (empty_root_bytes tree_level)
        else empty_root_bytes tree_level
    next ← next_nodes tree_level nodes
    extract_siblings n (tree_level + 1) next (idx / 2) (set siblings tree_level sibling)

  -- `for (level, sibling) in siblings.iter().enumerate()`
  unfoldable pub root_from : ℕ → Hash → ℕ → List Hash → Result Hash
  root_from level current pos [] = ok current
  root_from level current pos (sibling ∷ siblings) =
      (if pos % 2 == 0
        then expect (hash_combine level current sibling)
        else expect (hash_combine level sibling current))
      >>= λ parent. root_from (level + 1) parent (pos / 2) siblings

  unfoldable pub compute_root_from_path : ℕ → Hash → List Hash → Result Hash
  compute_root_from_path position leaf siblings = root_from 0 leaf position siblings

  -- the rounds of `for i in 0..SUBSHARD_LEAVES` that are left
  unfoldable pub parse_from : ℕ → ℕ → List ℕ → Result (List Hash)
  parse_from zero i decoded_row = ok []
  parse_from (suc n) i decoded_row = do
    let hash = slice (i * 32) 32 decoded_row
    fail_if (not (is_canonical_hash hash)) (query_failed (non_canonical_commitment i))
    rest ← parse_from n (i + 1) decoded_row
    ok (hash ∷ rest)

  unfoldable pub parse_leaves : List ℕ → Result (List Hash)
  parse_leaves decoded_row = do
    fail_if (ltb (length decoded_row) subshard_row_bytes)
        (query_failed (row_too_short (length decoded_row)))
    parse_from subshard_leaves 0 decoded_row

  unfoldable pub any_non_canonical : List Hash → Bool
  any_non_canonical [] = false
  any_non_canonical (h ∷ hs) = not (is_canonical_hash h) || any_non_canonical hs

  unfoldable pub malformed : ℕ → ShardSubRoots → BroadcastData → Bool
  malformed shard_idx roots broadcast =
      not (length roots.roots == subshards_per_shard)
      || ltb (2 ^ shard_height) (length broadcast.cap.shard_roots)
      || leb (2 ^ shard_height) shard_idx
      || any_non_canonical (roots.roots ++ broadcast.cap.shard_roots)

  unfoldable pub validate_broadcast : ℕ → BroadcastData → Result (Unit {0})
  validate_broadcast shard_idx broadcast = do
    fail_if (ltb shard_idx broadcast.window_start_shard) (invalid_params shard_precedes_window)
    roots ←
        ok_or (invalid_params missing_subshard_roots)
          (get_elem? broadcast.subshard_roots (shard_idx - broadcast.window_start_shard))
    fail_if (malformed shard_idx roots broadcast) (invalid_params malformed_broadcast)

  -- After `validate_broadcast` the subtraction cannot wrap.
  unfoldable pub reconstruct_witness : ℕ → ℕ → ℕ → ℕ → List ℕ → BroadcastData → Result PirWitness
  reconstruct_witness position shard_idx subshard_idx leaf_idx decoded_row broadcast = do
    validate_broadcast shard_idx broadcast
    leaves ← parse_leaves decoded_row
    siblings₁ ←
        extract_siblings subshard_height 0 leaves leaf_idx (replicate tree_depth (replicate 32 0))
    ss ← expect (get_elem? broadcast.subshard_roots (shard_idx - broadcast.window_start_shard))
    siblings₂ ← extract_siblings subshard_height subshard_height ss.roots subshard_idx siblings₁
    siblings ←
        extract_siblings shard_height shard_height broadcast.cap.shard_roots shard_idx siblings₂
    leaf ← expect (get_elem? leaves leaf_idx)
    anchor_root ← compute_root_from_path position leaf siblings
    ok (record {
      position = position;
      siblings = siblings;
      anchor_height = broadcast.anchor_height;
      anchor_root = anchor_root;
    })
