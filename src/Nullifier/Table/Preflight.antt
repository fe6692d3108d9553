-- ===== src/Nullifier/Table/Preflight.antt =====
-- The preflight of a block: it finds a bucket that overflows exactly when there is one.
use p2p_spendability_pir.Common.{
  ℕ, suc, ◌+◌, ◌^◌, ◌<◌, ◌≤◌, ◌≡◌, refl, ap, ◌∙◌, inl, inr, List, [], ◌∷◌, Option, none, some, Bool,
  true, false, ◌==◌, if◌then◌else◌, length, ltb, All, Bool-cases, if_intro, All-imp, equal_or_not,
  ltb→lt, ltb→le, arith,
}
use p2p_spendability_pir.Orchard.{◌>>=◌}
use p2p_spendability_pir.Nullifier.Types.{Nullifier, num_buckets, hash_to_bucket}
use p2p_spendability_pir.Nullifier.Table.{Bucket, free, require, requirements, overflowing}
use p2p_spendability_pir.Nullifier.Table.Cells.{row, Shape}
use p2p_spendability_pir.Nullifier.Table.Clear.{row-get_elem?}
use p2p_spendability_pir.Nullifier.Table.Space.{occurrences, HasRoom, hash_to_bucket-bound}

unfoldable pub required_of : ℕ → List (ℕ × ℕ) → ℕ
required_of i [] = 0
required_of i ((idx, count) ∷ required) = if i == idx then count else required_of i required

-- The pairs of the map count `f`.
record Counts (f : ℕ → ℕ) (required : List (ℕ × ℕ)) : Type 0 where
  pub exact : (i : ℕ) → required_of i required ≡ f i
  pub upper : All (λ p. p.1 ≤ f p.0) required
  pub range : All (λ p. p.0 < num_buckets) required

one_more : ℕ → (ℕ → ℕ) → ℕ → ℕ
one_more b f i = if b == i then suc (f i) else f i

required_of-require :
    (b i : ℕ) (f : ℕ → ℕ) (required : List (ℕ × ℕ))
    → All (λ p. p.1 + 1 < 2 ^ 64) required
    → required_of i (require b required)
      ≡ (if b == i then suc (required_of i required) else required_of i required)
unfolding required_of require
required_of-require b i f [] small = ground arith
required_of-require b i f ((idx, count) ∷ required) (here, small) =
    ground (arith, required_of-require b i f required small)

require-upper :
    (b : ℕ) (f : ℕ → ℕ) (required : List (ℕ × ℕ))
    → All (λ p. p.1 ≤ f p.0) required
    → All (λ p. p.1 ≤ one_more b f p.0) (require b required)
unfolding one_more require
require-upper b f [] h = (ground arith, tt)
require-upper b f ((idx, count) ∷ required) (here, h) =
    if_intro (All (λ p. p.1 ≤ one_more b f p.0)) (b == idx) _ _
      (λ same. (
        ground arith,
        All-imp (λ p. p.1 ≤ f p.0) (λ p. p.1 ≤ one_more b f p.0) required (λ p le. ground arith) h,
      ))
      (λ other. (ground arith, require-upper b f required h))

require-range :
    (b : ℕ) (required : List (ℕ × ℕ))
    → b < num_buckets
    → All (λ p. p.0 < num_buckets) required
    → All (λ p. p.0 < num_buckets) (require b required)
unfolding require
require-range b [] lt h = (lt, tt)
require-range b ((idx, count) ∷ required) lt (here, h) =
    if_intro (All (λ p. p.0 < num_buckets)) (b == idx) _ _ (λ same. (here, h))
      (λ other. (here, require-range b required lt h))

require-Counts :
    (b : ℕ) (f : ℕ → ℕ) (required : List (ℕ × ℕ))
    → b < num_buckets
    → ((i : ℕ) → f i + 1 < 2 ^ 64)
    → Counts f required
    → Counts (one_more b f) (require b required)
unfolding one_more
require-Counts b f required lt small c = record {
  exact = λ i.
      required_of-require b i f required (
        All-imp (λ p. p.1 ≤ f p.0) (λ p. p.1 + 1 < 2 ^ 64) required
          (λ p le. omega (arith, small p.0)) c.upper)
      ∙ ap (λ n. if b == i then suc n else n) (c.exact i);
  upper = unfold one_more in require-upper b f required c.upper;
  range = require-range b required lt c.range;
}

Counts-congr :
    (f g : ℕ → ℕ) (required : List (ℕ × ℕ))
    → ((i : ℕ) → f i ≡ g i)
    → Counts f required
    → Counts g required
Counts-congr f g required same c = record {
  exact = λ i. c.exact i ∙ same i;
  upper =
      All-imp (λ p. p.1 ≤ f p.0) (λ p. p.1 ≤ g p.0) required (λ p le. omega (arith, same p.0))
        c.upper;
  range = c.range;
}

requirements-Counts :
    (nfs : List Nullifier) (f : ℕ → ℕ) (required : List (ℕ × ℕ))
    → ((i : ℕ) → f i + length nfs < 2 ^ 64)
    → Counts f required
    → Counts (λ i. f i + occurrences i nfs) (requirements nfs required)
unfolding requirements occurrences
requirements-Counts [] f required small c = Counts-congr f _ required (λ i. omega arith) c
requirements-Counts (nf ∷ nfs) f required small c =
    Counts-congr (λ i. one_more (hash_to_bucket nf) f i + occurrences i nfs) _
      (requirements nfs (require (hash_to_bucket nf) required))
      (λ i. unfold one_more in ground arith)
      (requirements-Counts nfs (one_more (hash_to_bucket nf) f)
        (require (hash_to_bucket nf) required) (λ i. unfold one_more in ground (arith, small i))
        (require-Counts (hash_to_bucket nf) f required (hash_to_bucket-bound nf)
          (λ i. omega (arith, small i)) c))

data Outcome (buckets : List Bucket) (f : ℕ → ℕ) (required : List (ℕ × ℕ)) : Type 0 where
  fits :
      overflowing buckets required ≡ some none
      → All (λ p. p.1 ≤ free (row buckets p.0)) required
      → Outcome buckets f required
  overflows :
      (i : ℕ)
      → overflowing buckets required ≡ some (some i)
      → free (row buckets i) < f i
      → i < num_buckets
      → Outcome buckets f required

overflowing-step :
    (buckets : List Bucket) (idx count : ℕ) (required : List (ℕ × ℕ)) (b : Bool)
    → Shape buckets
    → idx < num_buckets
    → ltb (free (row buckets idx)) count ≡ b
    → overflowing buckets ((idx, count) ∷ required)
      ≡ (if b then some (some idx) else overflowing buckets required)
unfolding overflowing
overflowing-step buckets idx count required true shape lt e =
    ap
      (λ o. o >>= λ bucket. elim (ltb (free bucket) count) as (λ _. Option (Option ℕ)) [
        | true ↦ some (some idx)
        | false ↦ overflowing buckets required
      ])
      (row-get_elem? buckets idx shape lt)
    ∙ ground (arith, e)
overflowing-step buckets idx count required false shape lt e =
    ap
      (λ o. o >>= λ bucket. elim (ltb (free bucket) count) as (λ _. Option (Option ℕ)) [
        | true ↦ some (some idx)
        | false ↦ overflowing buckets required
      ])
      (row-get_elem? buckets idx shape lt)
    ∙ ground (arith, e)

overflowing-Outcome :
    (buckets : List Bucket) (f : ℕ → ℕ) (required : List (ℕ × ℕ))
    → Shape buckets
    → All (λ p. p.1 ≤ f p.0) required
    → All (λ p. p.0 < num_buckets) required
    → Outcome buckets f required
unfolding overflowing
overflowing-Outcome buckets f [] shape upper range = fits refl tt
overflowing-Outcome buckets f ((idx, count) ∷ required) shape (le, upper) (lt, range) =
    elim (Bool-cases (ltb (free (row buckets idx)) count)) [
      | inl over ↦
          overflows idx (overflowing-step buckets idx count required true shape lt over)
            (omega (arith, ltb→lt _ _ over)) lt
      | inr under ↦
          let step = overflowing-step buckets idx count required false shape lt under in
          elim (overflowing-Outcome buckets f required shape upper range) [
            | fits runs room ↦ fits (step ∙ runs) (ltb→le _ _ under, room)
            | overflows i runs over i_lt ↦ overflows i (step ∙ runs) over i_lt
          ]
    ]

required_of-le :
    (buckets : List Bucket) (i : ℕ) (required : List (ℕ × ℕ))
    → All (λ p. p.1 ≤ free (row buckets p.0)) required
    → required_of i required ≤ free (row buckets i)
unfolding required_of
required_of-le buckets i [] room = omega arith
required_of-le buckets i ((idx, count) ∷ required) (here, room) = elim (equal_or_not i idx) [
  | inl same ↦
      let at : (if i == idx then count else required_of i required) ≡ count = ground arith in
      omega (arith, at, here, ap (λ n. free (row buckets n)) same)
  | inr away ↦
      let past : (if i == idx then count else required_of i required) ≡ required_of i required =
        ground arith in
      omega (arith, past, required_of-le buckets i required room)
]

-- What the preflight of a block finds: room for all of it, or a bucket that has too little.
pub data Preflight (buckets : List Bucket) (nfs : List Nullifier) : Type 0 where
  has_room :
      overflowing buckets (requirements nfs []) ≡ some none
      → HasRoom nfs buckets
      → Preflight buckets nfs
  too_full :
      (i : ℕ)
      → overflowing buckets (requirements nfs []) ≡ some (some i)
      → free (row buckets i) < occurrences i nfs
      → i < num_buckets
      → Preflight buckets nfs

pub preflight :
    (buckets : List Bucket) (nfs : List Nullifier)
    → Shape buckets
    → length nfs < 2 ^ 64
    → Preflight buckets nfs
preflight buckets nfs shape small =
    let counts =
      requirements-Counts nfs (λ _. 0) [] (λ _. omega arith)
        (record { exact = λ i. unfold required_of in refl; upper = tt; range = tt }) in
    elim (overflowing-Outcome buckets _ _ shape counts.upper counts.range) [
      | fits runs room ↦
          has_room runs λ i lt.
            omega (arith, counts.exact i, required_of-le buckets i (requirements nfs []) room)
      | overflows i runs over lt ↦ too_full i runs (omega (arith, over)) lt
    ]
