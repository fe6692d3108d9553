-- ===== src/Nullifier/Table/Space.antt =====
-- The room that the nullifiers of a block need in their buckets.
use p2p_spendability_pir.Common.{
  ℕ, zero, suc, ◌+◌, ◌<◌, ◌≤◌, ◌≡◌, sym, ap, ◌∙◌, inl, inr, List, [], ◌∷◌, some, ◌==◌,
  if◌then◌else◌, length, get_or, set, bytes_eq, bytes_eq_sound, Bool-cases, equal_or_not, arith,
}
use p2p_spendability_pir.Nullifier.Types.{Nullifier, num_buckets, hash_to_bucket}
use p2p_spendability_pir.Nullifier.Table.{Bucket, empty, empty_slot, free}
use p2p_spendability_pir.Nullifier.Table.Cells.{row, store, Shape, row-store_self, row-store_ne}

-- how many of the nullifiers belong to a bucket
unfoldable pub occurrences : ℕ → List Nullifier → ℕ
occurrences bucket [] = 0
occurrences bucket (nf ∷ nfs) =
    let n = occurrences bucket nfs in if hash_to_bucket nf == bucket then suc n else n

pub hash_to_bucket-bound : (nf : Nullifier) → hash_to_bucket nf < num_buckets
unfolding hash_to_bucket
hash_to_bucket-bound nf = omega arith

pub record EmptyAt (entries : Bucket) (slot : ℕ) : Type 0 where
  pub found : empty_slot entries ≡ some slot
  pub bound : slot < length entries
  pub vacant : get_or entries slot empty ≡ empty

pub empty_slot-EmptyAt : (entries : Bucket) → 0 < free entries → (slot : ℕ) × EmptyAt entries slot
unfolding empty_slot free
empty_slot-EmptyAt [] room = absurd (omega arith)
empty_slot-EmptyAt (entry ∷ entries) room = elim (Bool-cases (bytes_eq entry empty)) [
  | inl same ↦ (
    0,
    record { found = ground arith; bound = omega arith; vacant = bytes_eq_sound entry empty same },
  )
  | inr other ↦
      let (slot, at) = empty_slot-EmptyAt entries (ground arith) in
      (
        suc slot,
        record {
          found = ground (arith, at.found);
          bound = omega (arith, at.bound);
          vacant = at.vacant;
        },
      )
]

-- a write takes at most one free slot
pub free-set :
    (entries : Bucket) (i : ℕ) (nf : Nullifier) → free entries ≤ free (set entries i nf) + 1
unfolding free
free-set [] i nf = omega arith
free-set (entry ∷ entries) zero nf = ground arith
free-set (entry ∷ entries) (suc i) nf = ground (arith, free-set entries i nf)

abbrev pub HasRoom : List Nullifier → List Bucket → Type 0
HasRoom nfs buckets = (i : ℕ) → i < num_buckets → occurrences i nfs ≤ free (row buckets i)

pub HasRoom-store :
    (nf : Nullifier) (nfs : List Nullifier) (j : ℕ) (buckets : List Bucket)
    → Shape buckets
    → HasRoom (nf ∷ nfs) buckets
    → HasRoom nfs (store (hash_to_bucket nf) j nf buckets)
unfolding occurrences
HasRoom-store nf nfs j buckets shape room i lt = elim (equal_or_not (hash_to_bucket nf) i) [
  | inl same ↦
      let more : occurrences i (nf ∷ nfs) ≡ suc (occurrences i nfs) = ground arith in
      let written : row (store (hash_to_bucket nf) j nf buckets) i ≡ set (row buckets i) j nf =
        ap (row (store (hash_to_bucket nf) j nf buckets)) (sym same)
        ∙ row-store_self (hash_to_bucket nf) j nf buckets
            (omega (arith, shape.size, hash_to_bucket-bound nf))
        ∙ ap (λ n. set (row buckets n) j nf) same in
      omega (arith, ap free written, more, room i lt, free-set (row buckets i) j nf)
  | inr away ↦
      let as_many : occurrences i (nf ∷ nfs) ≡ occurrences i nfs = ground arith in
      omega
        (arith, as_many, room i lt, ap free (row-store_ne (hash_to_bucket nf) j i nf buckets away))
]

pub some_room :
    (nf : Nullifier) (nfs : List Nullifier) (buckets : List Bucket)
    → HasRoom (nf ∷ nfs) buckets
    → 0 < free (row buckets (hash_to_bucket nf))
unfolding occurrences
some_room nf nfs buckets room =
    let one : 1 ≤ occurrences (hash_to_bucket nf) (nf ∷ nfs) = ground arith in
    omega (arith, one, room (hash_to_bucket nf) (hash_to_bucket-bound nf))
