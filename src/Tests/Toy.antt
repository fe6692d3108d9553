-- ===== src/Tests/Toy.antt =====
-- A small instance of the hash crate, which shows that its laws can be met: two nodes, encoded as
-- 32 zeros and 32 ones.
use p2p_spendability_pir.Common.{
  ℕ, zero, suc, ◌≡◌, refl, Option, none, some, Bool, true, false, not, ◌&&◌, length, replicate,
  length-replicate, if◌then◌else◌, bytes_eq, bytes_eq_sound, Bool-cases, inl, inr, arith,
}
use p2p_spendability_pir.Orchard.{Orchard, Hash}

unfoldable pub toy_to_bytes : Bool → Hash
toy_to_bytes false = replicate 32 0
toy_to_bytes true = replicate 32 1

unfoldable pub toy_from_bytes : Hash → Option Bool
toy_from_bytes h =
    if bytes_eq h (replicate 32 0)
    then some false
    else if bytes_eq h (replicate 32 1)
    then some true
    else none

unfoldable pub toy_combine : ℕ → Bool → Bool → Bool
toy_combine level a b = not (a && b)

unfoldable pub toy_empty_root : ℕ → Bool
toy_empty_root zero = false
toy_empty_root (suc l) = toy_combine l (toy_empty_root l) (toy_empty_root l)

pub toy_decodes : (n : Bool) → toy_from_bytes (toy_to_bytes n) ≡ some n
unfolding toy_from_bytes toy_to_bytes bytes_eq replicate
toy_decodes false = refl
toy_decodes true = refl

pub toy_canonical : (h : Hash) (n : Bool) → toy_from_bytes h ≡ some n → toy_to_bytes n ≡ h
unfolding toy_from_bytes toy_to_bytes
toy_canonical h false e = elim (Bool-cases (bytes_eq h (replicate 32 0))) [
  | inl zeros ↦ ground (arith, bytes_eq_sound h (replicate 32 0) zeros)
  | inr other ↦ ground arith
]
toy_canonical h true e = elim (Bool-cases (bytes_eq h (replicate 32 1))) [
  | inl ones ↦ ground (arith, bytes_eq_sound h (replicate 32 1) ones)
  | inr other ↦ ground arith
]

pub toy_length : (n : Bool) → length (toy_to_bytes n) ≡ 32
unfolding toy_to_bytes
toy_length false = length-replicate 32 0
toy_length true = length-replicate 32 1

pub toy_empty_zero : toy_empty_root zero ≡ false
unfolding toy_empty_root
toy_empty_zero = refl

pub toy_empty_suc :
    (l : ℕ) → toy_empty_root (suc l) ≡ toy_combine l (toy_empty_root l) (toy_empty_root l)
unfolding toy_empty_root
toy_empty_suc l = refl

instance abbrev pub toy : Orchard
toy = record {
  Node = Bool;
  from_bytes = toy_from_bytes;
  to_bytes = toy_to_bytes;
  empty_leaf = false;
  combine = toy_combine;
  empty_root = toy_empty_root;
  from_bytes-to_bytes = toy_decodes;
  to_bytes-from_bytes = toy_canonical;
  length-to_bytes = toy_length;
  empty_root-zero = toy_empty_zero;
  empty_root-suc = toy_empty_suc;
}
