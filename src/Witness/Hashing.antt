-- ===== src/Witness/Hashing.antt =====
-- Roots of subtrees from lists of hashes (crates/witness/src/tree.rs, "Internal hashing" and the
-- free functions). `none` is a panic. A `u8` level stays at most 32 here, so `+` cannot wrap.
pub mod Laws
use mathlib.Core.Bool.{cond}
use p2p_spendability_pir.Common.{
  ℕ, zero, suc, ◌+◌, ◌*◌, ◌/◌, ◌%◌, List, [], ◌∷◌, Option, none, some, length, get_elem?, ltb, leb,
  ◌==◌, if◌then◌else◌, Bool, true, false,
}
use p2p_spendability_pir.Orchard.{Orchard, Hash, hash_combine, ◌>>=◌}

-- `half.trailing_zeros()`: `half` is a `usize`, so 64 rounds are enough.
unfoldable pub trailing_zeros : ℕ → ℕ → ℕ
trailing_zeros zero n = 0
trailing_zeros (suc fuel) n =
    let rest = trailing_zeros fuel (n / 2) in if n % 2 == 0 then suc rest else 0

module _ ⦃o : Orchard⦄ where
  -- one round of `for pair in current.chunks_exact(2)`
  unfoldable pub next_level : ℕ → List Hash → Option (List Hash)
  next_level level [] = some []
  next_level level (x ∷ []) = some []
  next_level level (x ∷ y ∷ rest) = do
    parent ← hash_combine level x y
    next ← next_level level rest
    some (parent ∷ next)

  -- `while current.len() > 1`, then `current[0]`. A round halves the list, so its length is
  -- enough fuel.
  unfoldable pub collapse : ℕ → ℕ → List Hash → Option Hash
  collapse fuel level [] = none
  collapse fuel level (x ∷ []) = some x
  collapse zero level (x ∷ y ∷ rest) = none
  collapse (suc fuel) level (x ∷ y ∷ rest) =
      next_level level (x ∷ y ∷ rest) >>= collapse fuel (level + 1)

  unfoldable pub complete_subtree_root : List Hash → ℕ → Option Hash
  complete_subtree_root leaves base_level = collapse (length leaves) base_level leaves

  -- `self` is read for `empty_roots` only. `size` is halved to 1, so its binary length is enough
  -- fuel.
  unfoldable pub sparse_root_rec : ℕ → List Hash → List Hash → ℕ → ℕ → ℕ → Option Hash
  sparse_root_rec zero empty_roots leaves offset size base_level = none
  sparse_root_rec (suc fuel) empty_roots leaves offset size base_level =
      let half = size / 2 in
      let combine_level = base_level + trailing_zeros 64 half in
      let left = sparse_root_rec fuel empty_roots leaves offset half base_level in
      let deeper = sparse_root_rec fuel empty_roots leaves (offset + half) half base_level in
      let right =
        if leb (length leaves) (offset + half)
        then get_elem? empty_roots combine_level
        else deeper in
      if size == 1
      then (if ltb offset (length leaves)
          then get_elem? leaves offset
          else get_elem? empty_roots base_level)
      else (left >>= λ l. right >>= λ r. hash_combine combine_level l r)

  unfoldable pub sparse_subtree_root : List Hash → List Hash → ℕ → ℕ → Option Hash
  sparse_subtree_root empty_roots populated capacity base_level =
      sparse_root_rec 64 empty_roots populated 0 capacity base_level

  -- `for level in 0..TREE_DEPTH`, from the level reached
  unfoldable pub empty_roots_above : ℕ → ℕ → o.Node → List Hash
  empty_roots_above zero level current = []
  empty_roots_above (suc n) level current =
      let next = o.combine level current current in
      o.to_bytes next ∷ empty_roots_above n (level + 1) next

  unfoldable pub precompute_empty_roots : List Hash
  precompute_empty_roots = o.to_bytes o.empty_leaf ∷ empty_roots_above 32 0 o.empty_leaf
