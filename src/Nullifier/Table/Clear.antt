-- ===== src/Nullifier/Table/Clear.antt =====
-- Clearing the slots of a block: which cells change.
use p2p_spendability_pir.Common.{
  ℕ, ◌<◌, ◌≡◌, refl, sym, ap, ◌∙◌, inl, inr, List, [], ◌∷◌, some, Bool, true, false, ◌&&◌, ◌||◌,
  ◌==◌, if◌then◌else◌, get_elem?, set, All, get_elem?-eq-get_or, equal_or_not, ap₂, arith,
}
use p2p_spendability_pir.Orchard.{◌>>=◌}
use p2p_spendability_pir.Nullifier.Types.{Nullifier, num_buckets, bucket_capacity}
use p2p_spendability_pir.Nullifier.Table.{Bucket, empty, clear_entries}
use p2p_spendability_pir.Nullifier.Table.Cells.{
  row, cell, store, Shape, cell-store_self, cell-store_ne, store-Shape,
}

-- whether a cell is one of the slots
unfoldable pub taken : List (ℕ × ℕ) → ℕ → ℕ → Bool
taken [] i j = false
taken ((bucket_idx, slot) ∷ slots) i j = (bucket_idx == i && slot == j) || taken slots i j

abbrev pub InRange : List (ℕ × ℕ) → Type 0
InRange slots = All (λ s. (s.0 < num_buckets) × (s.1 < bucket_capacity)) slots

pub row-get_elem? :
    (buckets : List Bucket) (i : ℕ)
    → Shape buckets
    → i < num_buckets
    → get_elem? buckets i ≡ some (row buckets i)
row-get_elem? buckets i shape lt = get_elem?-eq-get_or buckets i [] (omega (arith, shape.size))

pub cell-get_elem? :
    (buckets : List Bucket) (i j : ℕ)
    → Shape buckets
    → i < num_buckets
    → j < bucket_capacity
    → get_elem? (row buckets i) j ≡ some (cell buckets i j)
unfolding cell
cell-get_elem? buckets i j shape i_lt j_lt =
    get_elem?-eq-get_or (row buckets i) j empty (omega (arith, shape.rows i i_lt))

-- one round of the loop
clear_entries-step :
    (i j : ℕ) (slots : List (ℕ × ℕ)) (buckets : List Bucket)
    → Shape buckets
    → i < num_buckets
    → j < bucket_capacity
    → clear_entries ((i, j) ∷ slots) buckets ≡ clear_entries slots (store i j empty buckets)
unfolding clear_entries store
clear_entries-step i j slots buckets shape i_lt j_lt =
    ap (λ o. o >>= λ b. get_elem? b j >>= λ _. clear_entries slots (set buckets i (set b j empty)))
      (row-get_elem? buckets i shape i_lt)
    ∙ ap (λ o. o >>= λ _. clear_entries slots (set buckets i (set (row buckets i) j empty)))
        (cell-get_elem? buckets i j shape i_lt j_lt)

-- a cell is written by one round, or it is not
pub cell-store :
    (i j k l : ℕ) (nf : Nullifier) (buckets : List Bucket)
    → Shape buckets
    → i < num_buckets
    → j < bucket_capacity
    → cell (store i j nf buckets) k l ≡ (if i == k && j == l then nf else cell buckets k l)
cell-store i j k l nf buckets shape i_lt j_lt = elim (equal_or_not i k) [
  | inr away ↦
      (cell-store_ne i j k l nf buckets (omega (arith, shape.size)) (inl away)) ∙ ground arith
  | inl same ↦ elim (equal_or_not j l) [
    | inr away ↦
        (cell-store_ne i j k l nf buckets (omega (arith, shape.size)) (inr away)) ∙ ground arith
    | inl also ↦
        ap₂ (cell (store i j nf buckets)) (sym same) (sym also)
        ∙ cell-store_self i j nf buckets shape i_lt j_lt
        ∙ ground arith
  ]
]

pub if_or {ℓ} :
    {A : Type ℓ} (b c : Bool) (x y : A)
    → (if c then x else (if b then x else y)) ≡ (if b || c then x else y)
if_or true true x y = refl
if_or true false x y = refl
if_or false true x y = refl
if_or false false x y = refl

pub record Cleared (slots : List (ℕ × ℕ)) (buckets cleared : List Bucket) : Type 0 where
  pub shape : Shape cleared
  pub cells : (i j : ℕ) → cell cleared i j ≡ (if taken slots i j then empty else cell buckets i j)

pub clear_entries-Cleared :
    (slots : List (ℕ × ℕ)) (buckets : List Bucket)
    → Shape buckets
    → InRange slots
    → (cleared : List Bucket) × (clear_entries slots buckets ≡ some cleared)
      × Cleared slots buckets cleared
unfolding taken
clear_entries-Cleared [] buckets shape range =
    (buckets, unfold clear_entries in refl, record { shape = shape; cells = λ i j. refl })
clear_entries-Cleared ((i, j) ∷ slots) buckets shape (here, range) =
    let (cleared, runs, rest) =
      clear_entries-Cleared slots (store i j empty buckets)
        (store-Shape i j empty buckets shape here.0) range in
    (
      cleared,
      clear_entries-step i j slots buckets shape here.0 here.1 ∙ runs,
      record {
        shape = rest.shape;
        cells = λ k l.
            rest.cells k l
            ∙ ap (λ c. if taken slots k l then empty else c)
                (cell-store i j k l empty buckets shape here.0 here.1)
            ∙ if_or (i == k && j == l) (taken slots k l) empty (cell buckets k l);
      },
    )
