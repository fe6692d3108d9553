-- ===== src/Nullifier/Table/Cells.antt =====
-- The slots of all buckets as a grid of cells: reading, writing, and grids with the same cells.
use p2p_spendability_pir.Common.{
  ℕ, zero, suc, ◌<◌, ◌≡◌, ◌≢◌, refl, sym, ap, ap₂, ◌∙◌, ◌⊎◌, inl, inr, List, [], ◌∷◌, length,
  get_or, set, length-set, equal_or_not, arith,
}
use p2p_spendability_pir.Nullifier.Types.{Nullifier, num_buckets, bucket_capacity}
use p2p_spendability_pir.Nullifier.Table.{Bucket, empty}

pub List-ext {ℓ} :
    {A : Type ℓ} (d : A) (xs ys : List A)
    → length xs ≡ length ys
    → ((i : ℕ) → i < length xs → get_or xs i d ≡ get_or ys i d)
    → xs ≡ ys
List-ext d [] [] same f = refl
List-ext d [] (y ∷ ys) same f = absurd (omega arith)
List-ext d (x ∷ xs) [] same f = absurd (omega arith)
List-ext d (x ∷ xs) (y ∷ ys) same f =
    ap₂ ◌∷◌ (f 0 (omega arith)) (List-ext d xs ys (omega arith) (λ i lt. f (suc i) (omega arith)))

pub get_or-set_self {ℓ} :
    {A : Type ℓ} (xs : List A) (i : ℕ) (v d : A) → i < length xs → get_or (set xs i v) i d ≡ v
get_or-set_self [] i v d lt = absurd (omega arith)
get_or-set_self (x ∷ xs) zero v d lt = refl
get_or-set_self (x ∷ xs) (suc i) v d lt = get_or-set_self xs i v d (omega arith)

pub get_or-set_ne {ℓ} :
    {A : Type ℓ} (xs : List A) (i j : ℕ) (v d : A) → i ≢ j → get_or (set xs i v) j d ≡ get_or xs j d
get_or-set_ne [] i j v d ne = refl
get_or-set_ne (x ∷ xs) zero zero v d ne = absurd (ne refl)
get_or-set_ne (x ∷ xs) zero (suc j) v d ne = refl
get_or-set_ne (x ∷ xs) (suc i) zero v d ne = refl
get_or-set_ne (x ∷ xs) (suc i) (suc j) v d ne = get_or-set_ne xs i j v d (λ e. ne (ap suc e))

abbrev pub row : List Bucket → ℕ → Bucket
row buckets i = get_or buckets i []

unfoldable pub cell : List Bucket → ℕ → ℕ → Nullifier
cell buckets i j = get_or (row buckets i) j empty

unfoldable pub store : ℕ → ℕ → Nullifier → List Bucket → List Bucket
store i j nf buckets = set buckets i (set (row buckets i) j nf)

pub record Shape (buckets : List Bucket) : Type 0 where
  pub size : length buckets ≡ num_buckets
  pub rows : (i : ℕ) → i < num_buckets → length (row buckets i) ≡ bucket_capacity

pub row-store_self :
    (i j : ℕ) (nf : Nullifier) (buckets : List Bucket)
    → i < length buckets
    → row (store i j nf buckets) i ≡ set (row buckets i) j nf
unfolding store
row-store_self i j nf buckets lt = get_or-set_self buckets i (set (row buckets i) j nf) [] lt

pub row-store_ne :
    (i j k : ℕ) (nf : Nullifier) (buckets : List Bucket)
    → i ≢ k
    → row (store i j nf buckets) k ≡ row buckets k
unfolding store
row-store_ne i j k nf buckets ne = get_or-set_ne buckets i k (set (row buckets i) j nf) [] ne

pub cell-store_self :
    (i j : ℕ) (nf : Nullifier) (buckets : List Bucket)
    → Shape buckets
    → i < num_buckets
    → j < bucket_capacity
    → cell (store i j nf buckets) i j ≡ nf
unfolding cell
cell-store_self i j nf buckets shape i_lt j_lt =
    ap (λ r. get_or r j empty) (row-store_self i j nf buckets (omega (arith, shape.size)))
    ∙ get_or-set_self (row buckets i) j nf empty (omega (arith, shape.rows i i_lt))

pub cell-store_ne :
    (i j k l : ℕ) (nf : Nullifier) (buckets : List Bucket)
    → i < length buckets
    → (i ≢ k) ⊎ (j ≢ l)
    → cell (store i j nf buckets) k l ≡ cell buckets k l
unfolding cell
cell-store_ne i j k l nf buckets lt (inl ne) =
    ap (λ r. get_or r l empty) (row-store_ne i j k nf buckets ne)
cell-store_ne i j k l nf buckets lt (inr ne) = elim (equal_or_not i k) [
  | inl here ↦
      ap (λ n. get_or (row (store i j nf buckets) n) l empty) (sym here)
      ∙ ap (λ r. get_or r l empty) (row-store_self i j nf buckets lt)
      ∙ get_or-set_ne (row buckets i) j l nf empty ne
      ∙ ap (λ n. get_or (row buckets n) l empty) here
  | inr away ↦ ap (λ r. get_or r l empty) (row-store_ne i j k nf buckets away)
]

pub store-Shape :
    (i j : ℕ) (nf : Nullifier) (buckets : List Bucket)
    → Shape buckets
    → i < num_buckets
    → Shape (store i j nf buckets)
unfolding store
store-Shape i j nf buckets shape lt = record {
  size = length-set buckets i (set (row buckets i) j nf) ∙ shape.size;
  rows = λ k k_lt. elim (equal_or_not i k) [
    | inl here ↦
        ap (λ n. length (row (store i j nf buckets) n)) (sym here)
        ∙ ap length (row-store_self i j nf buckets (omega (arith, shape.size)))
        ∙ length-set (row buckets i) j nf
        ∙ shape.rows i lt
    | inr away ↦ ap length (row-store_ne i j k nf buckets away) ∙ shape.rows k k_lt
  ];
}

-- Two grids of the table's shape with the same cells are equal.
pub cells_equal :
    (xs ys : List Bucket) → Shape xs → Shape ys → ((i j : ℕ) → cell xs i j ≡ cell ys i j) → xs ≡ ys
unfolding cell
cells_equal xs ys x y same = List-ext [] xs ys (x.size ∙ sym y.size) λ i lt.
    List-ext empty (row xs i) (row ys i) (omega (arith, x.size, x.rows i, y.rows i)) λ j _. same i j
