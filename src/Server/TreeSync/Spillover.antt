-- ===== src/Server/TreeSync/Spillover.antt =====
-- `spillover_from_commitments` of crates/server/src/witness/server.rs: the last commitments of a
-- block, which reach into the window.
use p2p_spendability_pir.Common.{
  ℕ, zero, suc, ◌+◌, ◌-◌, ◌≤◌, ◌≡◌, refl, ap, none, some, Option, concat, take, min, ◌++◌, List, [],
  ◌∷◌, map, length, drop, max, length-drop, leb, Bool-cases, inl, inr, arith, append-nil,
}
use p2p_spendability_pir.Orchard.{Hash}
use p2p_spendability_pir.Ingest.Block.{CompactBlock, ChainMetadata}
use p2p_spendability_pir.Server.TreeSync.{spillover_from_commitments, end_tree_size}

pub length-spillover :
    (cs : List Hash) (size offset : ℕ)
    → (offset + length (spillover_from_commitments cs size offset) ≤ max offset size)
      × (size ≤ offset + length cs
          → offset + length (spillover_from_commitments cs size offset) ≡ max offset size)
unfolding spillover_from_commitments
length-spillover cs size offset = elim (Bool-cases (leb size offset)) [
  | inl none_left ↦ (ground arith, λ h. ground arith)
  | inr some_left ↦
      let left = length-drop (length cs - (size - offset)) cs in
      (ground (arith, left), λ h. ground (arith, left))
]

-- The commitments of a block, one transaction after the other.
abbrev pub commitments_in : CompactBlock → List Hash
commitments_in block = concat (map (λ tx. map (λ a. a.cmx) tx.ironwood_actions) block.vtx)

-- the size of the tree that a block states, 0 without metadata
pub data Stated : Option ChainMetadata → ℕ → Type 0 where
  unstated : Stated none 0
  stated : (m : ChainMetadata) → Stated (some m) m.ironwood_commitment_tree_size

pub end_tree_size-Stated : (o : Option ChainMetadata) → Stated o (end_tree_size o)
unfolding end_tree_size
end_tree_size-Stated none = unstated
end_tree_size-Stated (some m) = stated m

take-drop : (k : ℕ) (xs : List Hash) → take k xs ++ drop k xs ≡ xs
take-drop zero xs = refl
take-drop (suc k) [] = refl
take-drop (suc k) (x ∷ xs) = ap (λ l. x ∷ l) (take-drop k xs)

-- What spills over are the last commitments, as many as reach beyond the offset.
pub spillover_from_commitments-suffix :
    (cs : List Hash) (size offset : ℕ)
    → ((before : List Hash) × (before ++ spillover_from_commitments cs size offset ≡ cs))
      × (length (spillover_from_commitments cs size offset) ≡ min (length cs) (size - offset))
unfolding spillover_from_commitments
spillover_from_commitments-suffix cs size offset = elim (Bool-cases (leb size offset)) [
  | inl none_left ↦ rw none_left ((cs, append-nil cs), ground arith)
  | inr some_left ↦
      let k = length cs - (size - offset) in
      rw some_left ((take k cs, take-drop k cs), ground (arith, length-drop k cs))
]
