-- ===== src/Nullifier/Table/Membership.antt =====
-- What `contains` answers.
use p2p_spendability_pir.Common.{
  ℕ, zero, suc, ◌+◌, ◌^◌, ◌<◌, ◌≡◌, ◌≢◌, refl, sym, ap, ◌∙◌, subst, inl, inr, List, [], ◌∷◌, none,
  some, Bool, true, false, ◌||◌, length, get_or, All, bytes_eq, bytes_eq_sound, bytes_eq_refl,
  Bool-cases, arith,
}
use p2p_spendability_pir.Orchard.{Hash, ◌>>=◌}
use p2p_spendability_pir.Nullifier.Types.{Nullifier, hash_to_bucket}
use p2p_spendability_pir.Nullifier.Table.{
  Bucket, HashTableDb, empty, insert_block, has_entry, contains,
}
use p2p_spendability_pir.Nullifier.Table.Cells.{row, cell, Shape}
use p2p_spendability_pir.Nullifier.Table.Clear.{taken, row-get_elem?}
use p2p_spendability_pir.Nullifier.Table.Space.{hash_to_bucket-bound}
use p2p_spendability_pir.Nullifier.Table.Insert.{
  Holds, Inserted, either_left, either_right, or_false,
}
use p2p_spendability_pir.Nullifier.Table.Block.{with_block, stored, refused, insert_block-outcome}

has_entry-get_or :
    (nf : Nullifier) (entries : Bucket) (j : ℕ)
    → j < length entries
    → get_or entries j empty ≡ nf
    → has_entry nf entries ≡ true
unfolding has_entry
has_entry-get_or nf [] j lt e = absurd (omega arith)
has_entry-get_or nf (x ∷ entries) zero lt e =
    ap (λ b. b || has_entry nf entries) (ap (λ y. bytes_eq y nf) e ∙ bytes_eq_refl nf)
has_entry-get_or nf (x ∷ entries) (suc j) lt e =
    ground (arith, has_entry-get_or nf entries j (omega arith) e)

has_entry-found :
    (nf : Nullifier) (entries : Bucket)
    → has_entry nf entries ≡ true
    → (j : ℕ) × (j < length entries) × (get_or entries j empty ≡ nf)
unfolding has_entry
has_entry-found nf [] e = absurd (ground arith)
has_entry-found nf (x ∷ entries) e = elim (Bool-cases (bytes_eq x nf)) [
  | inl same ↦ (0, omega arith, bytes_eq_sound x nf same)
  | inr other ↦
      let (j, lt, at) =
        has_entry-found nf entries (ap (λ b. b || has_entry nf entries) (sym other) ∙ e) in
      (suc j, omega arith, at)
]

has_entry-All :
    (P : Nullifier → Type 0) (nf : Nullifier) (nfs : List Nullifier)
    → has_entry nf nfs ≡ true
    → All P nfs
    → P nf
unfolding has_entry
has_entry-All P nf [] e h = absurd (ground arith)
has_entry-All P nf (x ∷ nfs) e (here, h) = elim (Bool-cases (bytes_eq x nf)) [
  | inl same ↦ subst P (bytes_eq_sound x nf same) here
  | inr other ↦ has_entry-All P nf nfs (ap (λ b. b || has_entry nf nfs) (sym other) ∙ e) h
]

Bool-ext : (a b : Bool) → (a ≡ true → b ≡ true) → (b ≡ true → a ≡ true) → a ≡ b
Bool-ext true b f g = sym (f refl)
Bool-ext false true f g = g refl
Bool-ext false false f g = refl

pub contains-eq :
    (nf : Nullifier) (db : HashTableDb)
    → Shape db.buckets
    → contains nf db ≡ some (has_entry nf (row db.buckets (hash_to_bucket nf)))
unfolding contains
contains-eq nf db shape =
    ap (λ o. o >>= λ bucket. some (has_entry nf bucket))
      (row-get_elem? db.buckets (hash_to_bucket nf) shape (hash_to_bucket-bound nf))

has_entry-Inserted :
    (nf : Nullifier) (nfs : List Nullifier) (slots : List (ℕ × ℕ)) (buckets inserted : List Bucket)
    → nf ≢ empty
    → Shape buckets
    → Inserted nfs slots buckets inserted
    → has_entry nf (row inserted (hash_to_bucket nf))
      ≡ (has_entry nf (row buckets (hash_to_bucket nf)) || has_entry nf nfs)
unfolding cell
has_entry-Inserted nf nfs slots buckets inserted real shape i =
    let h = hash_to_bucket nf in
    let h_lt = hash_to_bucket-bound nf in
    Bool-ext _ _
      (λ now.
        let (j, lt, at) = has_entry-found nf (row inserted h) now in
        elim (Bool-cases (taken slots h j)) [
          | inl fresh ↦ either_right _ _ (sym (ap (λ x. has_entry x nfs) at) ∙ i.source h j fresh)
          | inr old ↦ either_left _ _ (
              has_entry-get_or nf (row buckets h) j
                (omega (arith, lt, shape.rows h h_lt, i.shape.rows h h_lt))
                (sym (i.kept h j old) ∙ at))
        ])
      (λ e. elim (Bool-cases (has_entry nf nfs)) [
        | inl given ↦
            let (j, lt, at) = has_entry-All (Holds inserted) nf nfs given i.holds real in
            has_entry-get_or nf (row inserted h) j (omega (arith, lt, i.shape.rows h h_lt)) at
        | inr other ↦
            let before : has_entry nf (row buckets h) ≡ true =
              sym (or_false (has_entry nf (row buckets h)))
              ∙ ap (λ b. has_entry nf (row buckets h) || b) (sym other)
              ∙ e in
            let (j, lt, at) = has_entry-found nf (row buckets h) before in
            elim (Bool-cases (taken slots h j)) [
              | inl fresh ↦ absurd (real (sym at ∙ i.vacant h j fresh))
              | inr old ↦
                  has_entry-get_or nf (row inserted h) j
                    (omega (arith, lt, shape.rows h h_lt, i.shape.rows h h_lt))
                    (i.kept h j old ∙ at)
            ]
      ])

-- A block that is accepted adds its nullifiers to what `contains` answers, and nothing else, for
-- every nullifier but the zero one. No lookup panics.
pub contains-insert_block :
    (height : ℕ) (block_hash : Hash) (nfs : List Nullifier) (db db' : HashTableDb) (nf : Nullifier)
    → Shape db.buckets
    → db.num_entries + length nfs < 2 ^ 64
    → nf ≢ empty
    → insert_block height block_hash nfs db ≡ some (db', none)
    → contains nf db' ≡ (contains nf db >>= λ before. some (before || has_entry nf nfs))
contains-insert_block height block_hash nfs db db' nf shape small real runs =
    elim (insert_block-outcome height block_hash nfs db shape small) [
      | refused i fails over lt ↦ absurd (cc)
      | stored slots buckets runs' inserted room ↦
          let same : db'
              ≡ with_block height block_hash slots buckets (db.num_entries + length nfs) db =
            cc in
          ap (contains nf) same
          ∙ contains-eq nf
              (with_block height block_hash slots buckets (db.num_entries + length nfs) db)
              inserted.shape
          ∙ ap some (has_entry-Inserted nf nfs slots db.buckets buckets real shape inserted)
          ∙ sym (
              ap (λ o. o >>= λ before. some (before || has_entry nf nfs)) (contains-eq nf db shape))
    ]
