-- ===== src/Nullifier/Snapshot/Buckets.antt =====
-- The buckets are read back.
use p2p_spendability_pir.Common.{
  ℕ, zero, suc, ◌+◌, ◌*◌, ◌<◌, ◌≤◌, ◌≡◌, refl, sym, ap, ◌∙◌, List, [], ◌∷◌, length, take, drop,
  drop-add, slice, slice-parts, get_or, length-tabulate, get_or-tabulate, arith,
}
use p2p_spendability_pir.Nullifier.Types.{num_buckets, bucket_capacity, bucket_bytes, entry_bytes}
use p2p_spendability_pir.Nullifier.Table.{HashTableDb, to_pir_bytes}
use p2p_spendability_pir.Nullifier.Table.Cells.{List-ext, row, Shape}
use p2p_spendability_pir.Nullifier.Table.Rows.{Sized, row-Sized, to_pir_bytes-row}
use p2p_spendability_pir.Nullifier.Snapshot.{read_buckets}

take-take : (n m : ℕ) (xs : List ℕ) → n ≤ m → take n (take m xs) ≡ take n xs
take-take zero m xs h = refl
take-take (suc n) zero xs h = absurd (omega arith)
take-take (suc n) (suc m) [] h = refl
take-take (suc n) (suc m) (x ∷ xs) h = ap (λ l. x ∷ l) (take-take n m xs (omega arith))

-- A slice of a slice.
slice-take : (n k m : ℕ) (xs : List ℕ) → k + n ≤ m → slice k n (take m xs) ≡ slice k n xs
unfolding slice
slice-take n zero m xs h = take-take n m xs (omega arith)
slice-take n (suc k) zero xs h = absurd (omega arith)
slice-take n (suc k) (suc m) [] h = refl
slice-take n (suc k) (suc m) (x ∷ xs) h = slice-take n k m xs (omega arith)

module _ (payload : List ℕ) (start : ℕ) (db : HashTableDb) (shape : Shape db.buckets)
    (sized : Sized db.buckets) (at : drop start payload ≡ to_pir_bytes db) where
  entry_back :
      (i j : ℕ)
      → i < num_buckets
      → j < bucket_capacity
      → slice (start + i * bucket_bytes + j * entry_bytes) entry_bytes payload
        ≡ get_or (row db.buckets i) j []
  unfolding slice
  entry_back i j i_lt j_lt =
      ap (take entry_bytes) (
        drop-add (start + i * bucket_bytes) (j * entry_bytes) payload
        ∙ ap (drop (j * entry_bytes))
            (drop-add start (i * bucket_bytes) payload ∙ ap (drop (i * bucket_bytes)) at))
      ∙ sym (
          slice-take entry_bytes (j * entry_bytes) bucket_bytes
            (drop (i * bucket_bytes) (to_pir_bytes db)) (omega arith))
      ∙ ap (slice (j * entry_bytes) entry_bytes) (to_pir_bytes-row db i shape sized i_lt)
      ∙ slice-parts entry_bytes (row db.buckets i) j (row-Sized db.buckets i sized)
          (omega (arith, shape.rows i i_lt))

  row_back : (i : ℕ) → i < num_buckets → row (read_buckets payload start) i ≡ row db.buckets i
  unfolding read_buckets
  row_back i i_lt =
      let width =
        length-tabulate bucket_capacity
          (λ j. slice (start + i * bucket_bytes + j * entry_bytes) entry_bytes payload) in
      get_or-tabulate num_buckets _ i [] i_lt
      ∙ List-ext [] _ (row db.buckets i) (width ∙ sym (shape.rows i i_lt)) (λ j j_lt.
        get_or-tabulate bucket_capacity _ j [] (omega (arith, width))
        ∙ entry_back i j i_lt (omega (arith, width)))

  pub read_buckets-to_pir_bytes : read_buckets payload start ≡ db.buckets
  unfolding read_buckets
  read_buckets-to_pir_bytes =
      let count : length (read_buckets payload start) ≡ num_buckets =
        length-tabulate num_buckets _ in
      List-ext [] (read_buckets payload start) db.buckets (count ∙ sym shape.size)
        (λ i lt. row_back i (omega (arith, count)))
