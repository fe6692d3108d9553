-- ===== src/Nullifier/Table/Rows.antt =====
-- The table as the bytes of a database, a row for each bucket.
use p2p_spendability_pir.Common.{
  ℕ, zero, suc, ◌*◌, ◌<◌, ◌≡◌, refl, ap, ◌∙◌, List, [], ◌∷◌, map, length, get_or, concat, slice,
  slice-parts, All, length-append, length-map, arith,
}
use p2p_spendability_pir.Nullifier.Types.{num_buckets, bucket_bytes}
use p2p_spendability_pir.Nullifier.Table.{Bucket, HashTableDb, empty, to_pir_bytes}
use p2p_spendability_pir.Nullifier.Table.Cells.{row, cell, Shape}

-- Every slot holds 32 bytes.
abbrev pub Sized : List Bucket → Type 0
Sized buckets = (i j : ℕ) → length (cell buckets i j) ≡ 32

pub All-get_or {ℓ} :
    {A : Type ℓ} (P : A → Type 0) (d : A) (xs : List A)
    → ((i : ℕ) → i < length xs → P (get_or xs i d))
    → All P xs
All-get_or P d [] f = tt
All-get_or P d (x ∷ xs) f = (f 0 (omega arith), All-get_or P d xs (λ i lt. f (suc i) (omega arith)))

total_of_equals :
    (w : ℕ) (xss : List (List ℕ))
    → All (λ xs. length xs ≡ w) xss
    → length (concat xss) ≡ length xss * w
unfolding concat
total_of_equals w [] h = omega arith
total_of_equals w (x ∷ xss) (here, h) =
    omega (arith, here, total_of_equals w xss h, length-append x (concat xss))

pub row-Sized :
    (buckets : List Bucket) (i : ℕ) → Sized buckets → All (λ e. length e ≡ 32) (row buckets i)
unfolding cell
row-Sized buckets i sized =
    All-get_or (λ e. length e ≡ 32) empty (row buckets i) (λ j lt. sized i j)

pub row_bytes :
    (buckets : List Bucket) (i : ℕ)
    → Shape buckets
    → Sized buckets
    → i < num_buckets
    → length (concat (row buckets i)) ≡ bucket_bytes
row_bytes buckets i shape sized lt =
    omega (arith, total_of_equals 32 (row buckets i) (row-Sized buckets i sized), shape.rows i lt)

get_or-map-concat :
    (xs : List Bucket) (i : ℕ) → get_or (map concat xs) i [] ≡ concat (get_or xs i [])
unfolding concat
get_or-map-concat [] i = refl
get_or-map-concat (x ∷ xs) zero = refl
get_or-map-concat (x ∷ xs) (suc i) = get_or-map-concat xs i

-- A row of the database is the bytes of a bucket.
pub to_pir_bytes-row :
    (db : HashTableDb) (i : ℕ)
    → Shape db.buckets
    → Sized db.buckets
    → i < num_buckets
    → slice (i * bucket_bytes) bucket_bytes (to_pir_bytes db) ≡ concat (row db.buckets i)
unfolding to_pir_bytes
to_pir_bytes-row db i shape sized lt =
    slice-parts bucket_bytes (map concat db.buckets) i
      (All-get_or (λ xs. length xs ≡ bucket_bytes) [] (map concat db.buckets)
        λ k k_lt.
          ap length (get_or-map-concat db.buckets k)
          ∙ row_bytes db.buckets k shape sized
              (omega (arith, shape.size, length-map (λ (b : Bucket). concat b) db.buckets)))
      (omega (arith, shape.size, length-map (λ (b : Bucket). concat b) db.buckets))
    ∙ get_or-map-concat db.buckets i

-- The database has the size that the geometry says.
pub length-to_pir_bytes :
    (db : HashTableDb)
    → Shape db.buckets
    → Sized db.buckets
    → length (to_pir_bytes db) ≡ num_buckets * bucket_bytes
unfolding to_pir_bytes
length-to_pir_bytes db shape sized =
    total_of_equals bucket_bytes (map concat db.buckets) (
      All-get_or (λ xs. length xs ≡ bucket_bytes) [] (map concat db.buckets)
        λ k k_lt.
          ap length (get_or-map-concat db.buckets k)
          ∙ row_bytes db.buckets k shape sized
              (omega (arith, shape.size, length-map (λ (b : Bucket). concat b) db.buckets)))
    ∙ omega (arith, shape.size, length-map (λ (b : Bucket). concat b) db.buckets)
