-- ===== src/Ingest/Follow/Window.antt =====
-- The window of recent blocks: consecutive heights up to the current one.
use p2p_spendability_pir.Common.{
  ℕ, ◌+◌, ◌<◌, ◌≤◌, ◌≡◌, refl, ap, subst, Option, none, some, List, [], ◌∷◌, ◌++◌, length, drop,
  length-append, ltb, ◌==◌, if◌then◌else◌, Bool-cases, All, All-reverse, Option-cases, equal_or_not,
  if_intro, ltb→lt, ltb→le, le→ltb, inl, inr, arith, reverse,
}
use p2p_spendability_pir.Orchard.{Hash}
use p2p_spendability_pir.Ingest.Range.{ValidatedBlock, IsChain}
use p2p_spendability_pir.Ingest.Follow.{
  History, hash_at, push_history, drop_newer, find_known, find_fork, is_known, oldest_height,
}

-- Entries of consecutive heights.
abbrev pub AreConsecutive : ℕ → History → Type 0
AreConsecutive start [] = Unit
AreConsecutive start ((height, hash) ∷ history) =
    (height ≡ start) × AreConsecutive (start + 1) history

pub record IsWindow (window current : ℕ) (history : History) : Type 0 where
  pub oldest : ℕ
  pub consecutive : AreConsecutive oldest history
  pub reaches : oldest + length history ≡ current + 1
  pub nonempty : 0 < length history
  pub bounded : length history ≤ window

pub hash_at_bounds :
    (history : History) (start k : ℕ) (hash : Hash)
    → AreConsecutive start history
    → hash_at history k ≡ some hash
    → (start ≤ k) × (k < start + length history)
unfolding hash_at
hash_at_bounds [] start k hash c h = absurd (cc)
hash_at_bounds ((height, x) ∷ history) start k hash (at, c) h =
    ground (arith, hash_at_bounds history (start + 1) k hash c)

AreConsecutive-append :
    (history : History) (start n : ℕ) (hash : Hash)
    → AreConsecutive start history
    → n ≡ start + length history
    → AreConsecutive start (history ++ (n, hash) ∷ [])
AreConsecutive-append [] start n hash c e = (omega arith, tt)
AreConsecutive-append ((height, x) ∷ history) start n hash (at, c) e =
    (at, AreConsecutive-append history (start + 1) n hash c (omega arith))

hash_at-append :
    (history : History) (start n : ℕ) (hash : Hash)
    → AreConsecutive start history
    → n ≡ start + length history
    → hash_at (history ++ (n, hash) ∷ []) n ≡ some hash
unfolding hash_at
hash_at-append [] start n hash c e = ground arith
hash_at-append ((height, x) ∷ history) start n hash (at, c) e =
    ground (arith, hash_at-append history (start + 1) n hash c)

drop_newer-nil :
    (history : History) (start fork : ℕ)
    → AreConsecutive start history
    → fork < start
    → drop_newer fork history ≡ []
unfolding drop_newer
drop_newer-nil [] start fork c h = refl
drop_newer-nil ((height, x) ∷ history) start fork (at, c) h =
    rw (drop_newer-nil history (start + 1) fork c (omega arith)) (ground arith)

pub drop_newer-cons :
    (height : ℕ) (x : Hash) (history : History) (fork : ℕ)
    → 0 < length (drop_newer fork history)
    → drop_newer fork ((height, x) ∷ history) ≡ (height, x) ∷ drop_newer fork history
unfolding drop_newer
drop_newer-cons height x history fork h =
    elim (drop_newer fork history)
        as (λ l.
          0 < length l
          → (elim l as (λ _. History) [
            | [] ↦ if ltb fork height then [] else (height, x) ∷ []
            | newer ∷ kept ↦ (height, x) ∷ newer ∷ kept
          ])
            ≡ (height, x) ∷ l) [ [] ↦ λ p. absurd (omega arith) | newer ∷ kept ↦ λ p. refl ]
      h

hash_at-below :
    (history : History) (start k : ℕ)
    → AreConsecutive start history
    → k < start
    → hash_at history k ≡ none
unfolding hash_at
hash_at-below [] start k c h = refl
hash_at-below ((height, x) ∷ history) start k (at, c) h =
    ground (arith, hash_at-below history (start + 1) k c)

drop_newer-last :
    (height : ℕ) (x : Hash) (history : History) (start fork : ℕ)
    → height ≡ start
    → AreConsecutive (start + 1) history
    → start ≡ fork
    → drop_newer fork ((height, x) ∷ history) ≡ (height, x) ∷ []
unfolding drop_newer
drop_newer-last height x history start fork at c same =
    rw (drop_newer-nil history (start + 1) fork c (omega arith), le→ltb fork height (omega arith))
      refl

-- What is left of the window is its part up to the fork.
pub drop_newer_lem :
    (history : History) (start fork : ℕ)
    → AreConsecutive start history
    → start ≤ fork
    → fork < start + length history
    → AreConsecutive start (drop_newer fork history)
      × (start + length (drop_newer fork history) ≡ fork + 1)
      × ((k : ℕ) → k ≤ fork → hash_at (drop_newer fork history) k ≡ hash_at history k)
unfolding hash_at
drop_newer_lem [] start fork c h k = absurd (omega arith)
drop_newer_lem ((height, x) ∷ history) start fork (at, c) h k = elim (equal_or_not start fork) [
  | inl same ↦
      let last : drop_newer fork ((height, x) ∷ history) ≡ (height, x) ∷ [] =
        drop_newer-last height x history start fork at c same in
      rw last ((at, tt), omega arith, λ j le. ground (arith, hash_at-below history (start + 1) j c))
  | inr further ↦
      let (kept, count, same) =
        drop_newer_lem history (start + 1) fork c (omega arith) (omega arith) in
      rw (drop_newer-cons height x history fork (omega arith))
        ((at, kept), omega arith, λ j le. ap (λ o. if height == j then some x else o) (same j le))
]

pub push_history-IsWindow :
    (window current : ℕ) (history : History) (hash : Hash)
    → 0 < window
    → IsWindow window current history
    → IsWindow window (current + 1) (push_history window (current + 1) hash history)
      × (hash_at (push_history window (current + 1) hash history) (current + 1) ≡ some hash)
unfolding push_history hash_at
push_history-IsWindow window current history hash pos w =
    let c = AreConsecutive-append history w.oldest (current + 1) hash w.consecutive (omega arith) in
    let found = hash_at-append history w.oldest (current + 1) hash w.consecutive (omega arith) in
    let longer = length-append history ((current + 1, hash) ∷ []) in
    if_intro (λ l. IsWindow window (current + 1) l × (hash_at l (current + 1) ≡ some hash))
      (ltb window (length (history ++ (current + 1, hash) ∷ []))) _ _
      (λ full.
        let over = ltb→lt _ _ full in
        dropped window current hash w.oldest (history ++ (current + 1, hash) ∷ []) c found
          (omega arith) (omega arith) (omega arith))
      (λ fits.
        let within = ltb→le _ _ fits in
        (
          record {
            oldest = w.oldest;
            consecutive = c;
            reaches = omega arith;
            nonempty = omega arith;
            bounded = within;
          },
          found,
        ))
  where
    dropped :
        (window current : ℕ) (hash : Hash) (start : ℕ) (pushed : History)
        → AreConsecutive start pushed
        → hash_at pushed (current + 1) ≡ some hash
        → start + length pushed ≡ current + 1 + 1
        → 1 < length pushed
        → length pushed ≤ window + 1
        → IsWindow window (current + 1) (drop 1 pushed)
          × (hash_at (drop 1 pushed) (current + 1) ≡ some hash)
    dropped window current hash start [] c found reach many few = absurd (omega arith)
    dropped window current hash start ((height, x) ∷ rest) (at, c) found reach many few = (
      record {
        oldest = start + 1;
        consecutive = c;
        reaches = omega arith;
        nonempty = omega arith;
        bounded = omega arith;
      },
      ground arith,
    )

find_known-hash_at :
    (history : History) (vs : List ValidatedBlock) (fork : ℕ)
    → find_known history vs ≡ some fork
    → (hash : Hash) × (hash_at history fork ≡ some hash)
unfolding find_known is_known
find_known-hash_at history [] fork h = absurd (cc)
find_known-hash_at history (v ∷ vs) fork h = elim (Bool-cases (is_known history v)) [
  | inl known ↦ elim (Option-cases (hash_at history v.block.height)) [
    | inl absent ↦ absurd (ground arith)
    | inr (hash, present) ↦ (
      hash,
      subst (λ k. hash_at history k ≡ some hash) {x = v.block.height} (ground arith) present,
    )
  ]
  | inr new ↦ find_known-hash_at history vs fork (ground arith)
]

-- A fork that is found is a block of the window.
pub find_fork-hash_at :
    (history : History) (vs : List ValidatedBlock) (fork : ℕ)
    → find_fork history vs ≡ some fork
    → (hash : Hash) × (hash_at history fork ≡ some hash)
unfolding find_fork
find_fork-hash_at history vs fork h = find_known-hash_at history (reverse vs) fork h

pub oldest_height_lem :
    (window current : ℕ) (history : History) (w : IsWindow window current history)
    → oldest_height history current ≡ w.oldest
unfolding oldest_height
oldest_height_lem window current [] w = absurd (omega (arith, w.nonempty))
oldest_height_lem window current ((height, x) ∷ history) w = w.consecutive.0

find_known-le :
    (history : History) (vs : List ValidatedBlock) (bound fork : ℕ)
    → All (λ v. v.block.height ≤ bound) vs
    → find_known history vs ≡ some fork
    → fork ≤ bound
unfolding find_known
find_known-le history [] bound fork a h = absurd (cc)
find_known-le history (v ∷ vs) bound fork (le, a) h =
    ground (arith, find_known-le history vs bound fork a)

IsChain-heights :
    (vs : List ValidatedBlock) (start bound : ℕ) (prior : Option Hash)
    → IsChain start prior vs
    → start + length vs ≤ bound + 1
    → All (λ v. v.block.height ≤ bound) vs
IsChain-heights [] start bound prior c h = tt
IsChain-heights (v ∷ vs) start bound prior (f, c) h =
    (omega (arith, f.at_height), IsChain-heights vs (start + 1) bound (some v.hash) c (omega arith))

-- The fork lies in the range that was fetched again.
pub find_fork-le :
    (history : History) (vs : List ValidatedBlock) (start bound fork : ℕ)
    → IsChain start none vs
    → start + length vs ≡ bound + 1
    → find_fork history vs ≡ some fork
    → fork ≤ bound
unfolding find_fork
find_fork-le history vs start bound fork c count h =
    find_known-le history (reverse vs) bound fork
      (All-reverse _ vs (IsChain-heights vs start bound none c (omega arith))) h
