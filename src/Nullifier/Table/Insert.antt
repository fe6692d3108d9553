-- ===== src/Nullifier/Table/Insert.antt =====
-- Storing the nullifiers of a block: there is a slot for each, and which cells change.
use p2p_spendability_pir.Common.{
  ℕ, suc, ◌+◌, ◌^◌, ◌<◌, ◌≡◌, ◌≢◌, refl, sym, ap, ap₂, ◌∙◌, inl, inr, List, [], ◌∷◌, some, Bool,
  true, false, ◌&&◌, ◌||◌, ◌==◌, if◌then◌else◌, length, set, All, add64, as_u8, bytes_eq,
  bytes_eq_refl, Bool-cases, arith,
}
use p2p_spendability_pir.Orchard.{◌>>=◌}
use p2p_spendability_pir.Nullifier.Types.{Nullifier, bucket_capacity, hash_to_bucket}
use p2p_spendability_pir.Nullifier.Table.{Bucket, empty, insert_entry, insert_all, has_entry}
use p2p_spendability_pir.Nullifier.Table.Cells.{
  row, cell, store, Shape, cell-store_self, store-Shape,
}
use p2p_spendability_pir.Nullifier.Table.Clear.{taken, InRange, row-get_elem?, cell-store}
use p2p_spendability_pir.Nullifier.Table.Space.{
  hash_to_bucket-bound, EmptyAt, empty_slot-EmptyAt, HasRoom, HasRoom-store, some_room,
}

neither : (a b : Bool) → (a || b) ≡ false → (a ≡ false) × (b ≡ false)
neither true b e = absurd (cc)
neither false b e = (refl, e)

pub or_false : (b : Bool) → (b || false) ≡ b
or_false true = refl
or_false false = refl

pub either_left : (a b : Bool) → a ≡ true → (a || b) ≡ true
either_left a b e = ap (λ x. x || b) e

pub either_right : (a b : Bool) → b ≡ true → (a || b) ≡ true
either_right true b e = refl
either_right false b e = e

both : (h k j l : ℕ) → (h == k && j == l) ≡ true → (h ≡ k) × (j ≡ l)
both h k j l e = (ground arith, ground arith)

-- The bucket of a nullifier other than the zero one holds it.
abbrev pub Holds : List Bucket → Nullifier → Type 0
Holds buckets nf =
    nf ≢ empty → (j : ℕ) × (j < bucket_capacity) × (cell buckets (hash_to_bucket nf) j ≡ nf)

pub record Inserted (nfs : List Nullifier) (slots : List (ℕ × ℕ)) (buckets inserted : List Bucket)
    : Type 0 where
  pub shape : Shape inserted
  pub range : InRange slots
  pub size : length slots ≡ length nfs
  pub vacant : (i j : ℕ) → taken slots i j ≡ true → cell buckets i j ≡ empty
  pub kept : (i j : ℕ) → taken slots i j ≡ false → cell inserted i j ≡ cell buckets i j
  pub source : (i j : ℕ) → taken slots i j ≡ true → has_entry (cell inserted i j) nfs ≡ true
  pub holds : All (Holds inserted) nfs

insert_entry-EmptyAt :
    (nf : Nullifier) (entries : Bucket) (slot : ℕ)
    → length entries ≡ bucket_capacity
    → EmptyAt entries slot
    → insert_entry nf entries ≡ some (slot, set entries slot nf)
unfolding insert_entry
insert_entry-EmptyAt nf entries slot size at =
    ap (λ o. o >>= λ s. some (as_u8 s, set entries s nf)) at.found
    ∙ ap (λ n. some (n, set entries slot nf)) (omega (arith, at.bound))

-- one round of the loop
insert_all-step :
    (nf : Nullifier) (nfs : List Nullifier) (j n : ℕ) (buckets : List Bucket)
    → Shape buckets
    → EmptyAt (row buckets (hash_to_bucket nf)) j
    → insert_all (nf ∷ nfs) buckets n ≡ (
        insert_all nfs (store (hash_to_bucket nf) j nf buckets) (add64 n 1) >>= λ r.
        some ((hash_to_bucket nf, j) ∷ r.0, r.1, r.2))
unfolding insert_all store
insert_all-step nf nfs j n buckets shape at =
    let h = hash_to_bucket nf in
    ap
      (λ o. o >>= λ b. insert_entry nf b >>= λ x.
        insert_all nfs (set buckets h x.1) (add64 n 1) >>= λ r. some ((h, x.0) ∷ r.0, r.1, r.2))
      (row-get_elem? buckets h shape (hash_to_bucket-bound nf))
    ∙ ap
        (λ o. o >>= λ x.
          insert_all nfs (set buckets h x.1) (add64 n 1) >>= λ r. some ((h, x.0) ∷ r.0, r.1, r.2))
        (insert_entry-EmptyAt nf (row buckets h) j (shape.rows h (hash_to_bucket-bound nf)) at)

-- the first round writes a vacant cell, and the others follow on the written grid
Inserted-cons :
    (nf : Nullifier) (nfs : List Nullifier) (j : ℕ) (slots : List (ℕ × ℕ))
    (buckets inserted : List Bucket)
    → Shape buckets
    → EmptyAt (row buckets (hash_to_bucket nf)) j
    → Inserted nfs slots (store (hash_to_bucket nf) j nf buckets) inserted
    → Inserted (nf ∷ nfs) ((hash_to_bucket nf, j) ∷ slots) buckets inserted
unfolding taken has_entry
Inserted-cons nf nfs j slots buckets inserted shape at rest =
    let h = hash_to_bucket nf in
    let j_lt : j < bucket_capacity =
      omega (arith, at.bound, shape.rows h (hash_to_bucket-bound nf)) in
    let written : (k l : ℕ)
        → cell (store h j nf buckets) k l ≡ (if h == k && j == l then nf else cell buckets k l) =
      λ k l. cell-store h j k l nf buckets shape (hash_to_bucket-bound nf) j_lt in
    let stored_at = cell-store_self h j nf buckets shape (hash_to_bucket-bound nf) j_lt in
    record {
      shape = rest.shape;
      range = ((hash_to_bucket-bound nf, j_lt), rest.range);
      size = ap suc rest.size;
      vacant = λ k l in_slots. elim (Bool-cases (h == k && j == l)) [
        | inl here ↦
            (let (same, also) = both h k j l here in
              ap₂ (cell buckets) (sym same) (sym also) ∙ (unfold cell in at.vacant))
        | inr away ↦
            sym (written k l ∙ ap (λ b. if b then nf else cell buckets k l) away)
            ∙ rest.vacant k l (sym (ap (λ b. b || taken slots k l) away) ∙ in_slots)
      ];
      kept = λ k l out.
          let (away, rest_out) = neither (h == k && j == l) (taken slots k l) out in
          rest.kept k l rest_out ∙ written k l ∙ ap (λ b. if b then nf else cell buckets k l) away;
      source = λ k l in_slots. elim (Bool-cases (taken slots k l)) [
        | inl later ↦ either_right (bytes_eq nf (cell inserted k l)) _ (rest.source k l later)
        | inr out ↦
            let here : (h == k && j == l) ≡ true =
              sym (or_false (h == k && j == l))
              ∙ ap (λ b. h == k && j == l || b) (sym out)
              ∙ in_slots in
            let value : cell inserted k l ≡ nf =
              rest.kept k l out ∙ written k l ∙ ap (λ b. if b then nf else cell buckets k l) here in
            either_left (bytes_eq nf (cell inserted k l)) _
              (ap (bytes_eq nf) value ∙ bytes_eq_refl nf)
      ];
      holds = (
        λ real. elim (Bool-cases (taken slots h j)) [
          | inl later ↦ absurd (real (sym stored_at ∙ rest.vacant h j later))
          | inr out ↦ (j, j_lt, rest.kept h j out ∙ stored_at)
        ],
        rest.holds,
      );
    }

pub insert_all-Inserted :
    (nfs : List Nullifier) (buckets : List Bucket) (n : ℕ)
    → Shape buckets
    → HasRoom nfs buckets
    → n + length nfs < 2 ^ 64
    → (slots : List (ℕ × ℕ)) × (inserted : List Bucket) × (insert_all nfs buckets n
        ≡ some (slots, inserted, n + length nfs))
      × Inserted nfs slots buckets inserted
unfolding taken has_entry
insert_all-Inserted [] buckets n shape room small = (
  [],
  buckets,
  unfold insert_all in ap (λ m. some ([], buckets, m)) (omega arith),
  record {
    shape = shape;
    range = tt;
    size = refl;
    vacant = λ i j h. absurd (ground arith);
    kept = λ i j h. refl;
    source = λ i j h. absurd (ground arith);
    holds = tt;
  },
)
insert_all-Inserted (nf ∷ nfs) buckets n shape room small =
    let h = hash_to_bucket nf in
    let (j, at) = empty_slot-EmptyAt (row buckets h) (some_room nf nfs buckets room) in
    let (slots, inserted, runs, rest) =
      insert_all-Inserted nfs (store h j nf buckets) (n + 1)
        (store-Shape h j nf buckets shape (hash_to_bucket-bound nf))
        (HasRoom-store nf nfs j buckets shape room) (omega arith) in
    (
      (h, j) ∷ slots,
      inserted,
      insert_all-step nf nfs j n buckets shape at
          ∙ ap (λ m. insert_all nfs (store h j nf buckets) m >>= λ r. some ((h, j) ∷ r.0, r.1, r.2))
              (omega arith)
          ∙ ap (λ o. o >>= λ r. some ((h, j) ∷ r.0, r.1, r.2)) runs
          ∙ ap (λ m. some ((h, j) ∷ slots, inserted, m)) (omega arith),
      Inserted-cons nf nfs j slots buckets inserted shape at rest,
    )
