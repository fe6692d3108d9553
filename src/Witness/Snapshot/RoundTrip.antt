-- ===== src/Witness/Snapshot/RoundTrip.antt =====
-- What was written is read back.
use p2p_spendability_pir.Common.{
  ℕ, ◌+◌, ◌^◌, ◌<◌, ◌≤◌, ◌≡◌, refl, sym, ap, subst, ◌∙◌, List, [], ◌∷◌, ◌++◌, concat, length, ltb,
  true, false, take, drop, set, replicate, to_le_bytes, Option, none, some, All, append_assoc,
  length-append, take-append, drop-append, length-to_le_bytes, from_le_bytes-to_le_bytes, le→ltb,
  lt→ltb, arith,
}
use p2p_spendability_pir.Common.Run.{ok}
use p2p_spendability_pir.Orchard.{Hash}
use p2p_spendability_pir.Witness.Types.{l0_db_rows}
use p2p_spendability_pir.Witness.Tree.{BlockRecord, Cache}
use p2p_spendability_pir.Witness.Tree.Rollback.{total}
use p2p_spendability_pir.Witness.Snapshot.{
  SnapshotCorrupted, read_bytes, read_u64, read_roots, read_records, read_hashes, read_cache,
  encode_blocks, encode_cache, cached_count, prefetched_roots_truncated, cache_entry_truncated,
}

-- a part at the front of what is read
pub take-front : (n : ℕ) (xs rest : List ℕ) → length xs ≡ n → take n (xs ++ rest) ≡ xs
take-front n xs rest h = subst (λ k. take k (xs ++ rest) ≡ xs) h (take-append xs rest)

pub drop-front : (n : ℕ) (xs rest : List ℕ) → length xs ≡ n → drop n (xs ++ rest) ≡ rest
drop-front n xs rest h = subst (λ k. drop k (xs ++ rest) ≡ rest) h (drop-append xs rest)

pub read_bytes-front :
    (n : ℕ) (e : SnapshotCorrupted) (xs rest : List ℕ)
    → length xs ≡ n
    → read_bytes n e (xs ++ rest) ≡ ok (xs, rest)
unfolding read_bytes
read_bytes-front n e xs rest h =
    let enough : ltb (length (xs ++ rest)) n ≡ false =
      le→ltb _ n (omega (arith, length-append xs rest)) in
    rw (enough, take-front n xs rest h, drop-front n xs rest h) refl

pub read_u64-to_le_bytes :
    (x : ℕ) (rest : List ℕ) → x < 2 ^ 64 → read_u64 (to_le_bytes 8 x ++ rest) ≡ ok (x, rest)
unfolding read_u64
read_u64-to_le_bytes x rest h =
    rw
      (
        read_bytes-front 8 _ (to_le_bytes 8 x) rest (length-to_le_bytes 8 x),
        from_le_bytes-to_le_bytes 8 x (omega arith),
      )
      refl

pub read_roots-concat :
    (hs : List Hash) (rest : List ℕ)
    → All (λ h. length h ≡ 32) hs
    → read_roots (length hs) (concat hs ++ rest) ≡ ok (hs, rest)
unfolding read_roots concat
read_roots-concat [] rest h = refl
read_roots-concat (x ∷ hs) rest (here, h) =
    rw
      (
        append_assoc x (concat hs) rest,
        read_bytes-front 32 prefetched_roots_truncated x (concat hs ++ rest) here,
        read_roots-concat hs rest h,
      )
      refl

pub read_hashes-concat :
    (hs : List Hash) (rest : List ℕ)
    → All (λ h. length h ≡ 32) hs
    → read_hashes (length hs) (concat hs ++ rest) ≡ (hs, rest)
unfolding read_hashes concat
read_hashes-concat [] rest h = refl
read_hashes-concat (x ∷ hs) rest (here, h) =
    rw
      (
        append_assoc x (concat hs) rest,
        take-front 32 x (concat hs ++ rest) here,
        drop-front 32 x (concat hs ++ rest) here,
        read_hashes-concat hs rest h,
      )
      refl

-- a record whose fields fit their types
abbrev pub IsBlockRecord : BlockRecord → Type 0
IsBlockRecord b = (b.height < 2 ^ 64) × (length b.hash ≡ 32) × (b.num_commitments < 2 ^ 32)

regroup : (a b c d e : List ℕ) → (a ++ (b ++ (c ++ d))) ++ e ≡ a ++ (b ++ (c ++ (d ++ e)))
regroup a b c d e =
    append_assoc a (b ++ (c ++ d)) e
    ∙ ap (λ l. a ++ l) (append_assoc b (c ++ d) e ∙ ap (λ l. b ++ l) (append_assoc c d e))

-- the roots in a cache are hashes
abbrev pub AreHashes : Cache → Type 0
AreHashes [] = Unit
AreHashes (none ∷ cache) = AreHashes cache
AreHashes (some root ∷ cache) = (length root ≡ 32) × AreHashes cache

pub read_records-encode_blocks :
    (bs : List BlockRecord) (rest : List ℕ)
    → All IsBlockRecord bs
    → read_records (length bs) (encode_blocks bs ++ rest) ≡ (bs, total bs, rest)
unfolding read_records encode_blocks total
read_records-encode_blocks [] rest h = refl
read_records-encode_blocks (b ∷ bs) rest ((height, hash, num), h) =
    let h8 = to_le_bytes 8 b.height in
    let n4 = to_le_bytes 4 b.num_commitments in
    let after = encode_blocks bs ++ rest in
    rw
      (
        regroup h8 b.hash n4 (encode_blocks bs) rest,
        take-front 8 h8 (b.hash ++ (n4 ++ after)) (length-to_le_bytes 8 b.height),
        drop-front 8 h8 (b.hash ++ (n4 ++ after)) (length-to_le_bytes 8 b.height),
        take-front 32 b.hash (n4 ++ after) hash,
        drop-front 32 b.hash (n4 ++ after) hash,
        take-front 4 n4 after (length-to_le_bytes 4 b.num_commitments),
        drop-front 4 n4 after (length-to_le_bytes 4 b.num_commitments),
        from_le_bytes-to_le_bytes 8 b.height (omega arith),
        from_le_bytes-to_le_bytes 4 b.num_commitments (omega arith),
        read_records-encode_blocks bs rest h,
      )
      refl

shifted :
    (x : Option Hash) (cache pre : Cache)
    → read_cache
        (cached_count cache)
        (encode_cache (length (pre ++ x ∷ [])) cache)
        ((pre ++ x ∷ []) ++ replicate (length cache) none)
      ≡ ok ((pre ++ x ∷ []) ++ cache)
    → read_cache
        (cached_count cache)
        (encode_cache (length pre + 1) cache)
        (pre ++ x ∷ replicate (length cache) none)
      ≡ ok (pre ++ x ∷ cache)
shifted x cache pre h =
    let longer : length (pre ++ x ∷ []) ≡ length pre + 1 = length-append pre (x ∷ []) in
    rw
      (
        longer,
        append_assoc pre (x ∷ []) (replicate (length cache) none),
        append_assoc pre (x ∷ []) cache,
      )
      at h

set-middle :
    (pre : Cache) (x y : Option Hash) (xs : Cache)
    → set (pre ++ x ∷ xs) (length pre) y ≡ pre ++ y ∷ xs
set-middle [] x y xs = refl
set-middle (z ∷ pre) x y xs = ap (λ l. z ∷ l) (set-middle pre x y xs)

-- The slots of the cache from `length pre` on, read into a cache that is still empty there.
pub read_cache-encode_cache :
    (cache pre : Cache)
    → length pre + length cache ≤ l0_db_rows
    → AreHashes cache
    → read_cache
        (cached_count cache)
        (encode_cache (length pre) cache)
        (pre ++ replicate (length cache) none)
      ≡ ok (pre ++ cache)
unfolding read_cache encode_cache cached_count replicate
read_cache-encode_cache [] pre fits h = refl
read_cache-encode_cache (none ∷ cache) pre fits h = shifted none cache pre (
    read_cache-encode_cache cache (pre ++ none ∷ []) (omega (arith, length-append pre (none ∷ [])))
      h)
read_cache-encode_cache (some root ∷ cache) pre fits (here, h) =
    let slot = length pre in
    let entry = to_le_bytes 4 slot ++ root in
    let after = encode_cache (slot + 1) cache in
    let width : length entry ≡ 36 =
      omega (arith, length-append (to_le_bytes 4 slot) root, length-to_le_bytes 4 slot) in
    let inside : ltb slot l0_db_rows ≡ true = lt→ltb slot l0_db_rows (omega arith) in
    rw
      (
        sym (append_assoc (to_le_bytes 4 slot) root after),
        read_bytes-front 36 cache_entry_truncated entry after width,
        take-front 4 (to_le_bytes 4 slot) root (length-to_le_bytes 4 slot),
        drop-front 4 (to_le_bytes 4 slot) root (length-to_le_bytes 4 slot),
        from_le_bytes-to_le_bytes 4 slot (omega arith),
        inside,
        set-middle pre none (some root) (replicate (length cache) none),
      )
      (shifted (some root) cache pre (
        read_cache-encode_cache cache (pre ++ some root ∷ [])
          (omega (arith, length-append pre (some root ∷ []))) h))
