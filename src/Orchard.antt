-- ===== src/Orchard.antt =====
-- The crates `orchard` and `incrementalmerkletree`, which the program only calls, as a parameter:
-- `MerkleHashOrchard` with its 32-byte encoding and Sinsemilla combination, and the roots of
-- empty subtrees. The laws are the documented ones: a hash has one canonical encoding, and an
-- empty root is the combination of the two empty roots below it.
-- `hash_combine` and `bytes_to_mho` are the program's own wrappers (crates/witness/src/tree.rs).
use p2p_spendability_pir.Common.{
  ℕ, zero, suc, ◌≡◌, Bool, true, false, Option, none, some, List, length,
}

-- `[u8; 32]`; that the length is 32 is stated where it matters
abbrev pub Hash : Type 0
Hash = List ℕ

pub record Orchard : Type 1 where
  pub Node : Type 0
  pub from_bytes : Hash → Option Node
  pub to_bytes : Node → Hash
  pub empty_leaf : Node
  pub combine : ℕ → Node → Node → Node
  pub empty_root : ℕ → Node
  pub from_bytes-to_bytes : (n : Node) → from_bytes (to_bytes n) ≡ some n
  pub to_bytes-from_bytes : (h : Hash) (n : Node) → from_bytes h ≡ some n → to_bytes n ≡ h
  pub length-to_bytes : (n : Node) → length (to_bytes n) ≡ 32
  pub empty_root-zero : empty_root zero ≡ empty_leaf
  pub empty_root-suc : (l : ℕ) → empty_root (suc l) ≡ combine l (empty_root l) (empty_root l)

abbrev pub is_some {ℓ} : {A : Type ℓ} → Option A → Bool
is_some none = false
is_some (some a) = true

infixl 5 ◌>>=◌
abbrev pub ◌>>=◌ {ℓ κ} : {A : Type ℓ} {B : Type κ} → Option A → (A → Option B) → Option B
none >>= f = none
some a >>= f = f a

module _ ⦃o : Orchard⦄ where
  -- `MerkleHashOrchard::from_bytes(hash).is_some()`
  unfoldable pub is_canonical_hash : Hash → Bool
  is_canonical_hash h = is_some (o.from_bytes h)

  -- `none` is the panic of `expect` on bytes that are not canonical.
  unfoldable pub bytes_to_mho : Hash → Option o.Node
  bytes_to_mho h = o.from_bytes h

  unfoldable pub hash_combine : ℕ → Hash → Hash → Option Hash
  hash_combine level left right = do
    l ← bytes_to_mho left
    r ← bytes_to_mho right
    some (o.to_bytes (o.combine level l r))

  pub hash_combine-to_bytes :
      (level : ℕ) (l r : o.Node)
      → hash_combine level (o.to_bytes l) (o.to_bytes r) ≡ some (o.to_bytes (o.combine level l r))
  unfolding hash_combine bytes_to_mho
  hash_combine-to_bytes level l r = rw (o.from_bytes-to_bytes l, o.from_bytes-to_bytes r)
