-- ===== src/Nullifier/Table/Store.antt =====
-- Storing a block keeps the invariant.
use p2p_spendability_pir.Common.{
  ℕ, zero, suc, ◌+◌, ◌^◌, ◌<◌, ◌≡◌, refl, sym, ap, ◌∙◌, ◌⊎◌, inl, inr, List, [], ◌∷◌, none, some,
  true, ◌||◌, ◌≢◌, false, length, All, All-imp, if_intro, ltb, ◌==◌, ltb→lt, bytes_eq,
  bytes_eq_sound, Bool-cases, replicate, get_or, length-replicate, arith,
}
use p2p_spendability_pir.Common.OrderedMap
use p2p_spendability_pir.Common.HashMap
use p2p_spendability_pir.Orchard.{Hash, ◌>>=◌}
use p2p_spendability_pir.Nullifier.Types.{Nullifier, num_buckets, bucket_capacity}
use p2p_spendability_pir.Nullifier.Table.{
  BlockRecord, HashTableDb, contains, has_entry, empty, bucket_overflow, free, insert_block, new,
  new_bucket,
}
use p2p_spendability_pir.Nullifier.Table.Cells.{row, cell}
use p2p_spendability_pir.Nullifier.Table.Clear.{InRange, taken}
use p2p_spendability_pir.Nullifier.Table.Space.{occurrences, HasRoom}
use p2p_spendability_pir.Nullifier.Table.Membership.{contains-insert_block}
use p2p_spendability_pir.Nullifier.Table.Block.{with_block, stored, refused, insert_block-outcome}
use p2p_spendability_pir.Nullifier.Table.Valid.{BlockIndex, Indexed, slot_total, Valid}

new_key :
    (hash : Hash) (h : ℕ) (b : BlockRecord) (hashes : List (Hash × ℕ))
    → HashMap.lookup hash hashes ≡ none
    → HashMap.lookup b.block_hash hashes ≡ some h
    → bytes_eq b.block_hash hash ≡ false
new_key hash h b hashes fresh at = elim (Bool-cases (bytes_eq b.block_hash hash)) [
  | inr other ↦ other
  | inl same ↦
      let both : some h ≡ none =
        sym at
        ∙ ap (λ x. HashMap.lookup x hashes) (bytes_eq_sound b.block_hash hash same)
        ∙ fresh in
      absurd (cc)
]

Indexed-extend :
    (hash : Hash) (height : ℕ) (index : BlockIndex) (hashes : List (Hash × ℕ))
    → HashMap.lookup hash hashes ≡ none
    → Indexed index hashes
    → Indexed index (HashMap.insert hash height hashes)
unfolding Indexed
Indexed-extend hash height [] hashes fresh i = tt
Indexed-extend hash height ((h, b) ∷ index) hashes fresh (at, range, above, i) = (
  HashMap.lookup-insert_other hash b.block_hash height hashes (new_key hash h b hashes fresh at)
      ∙ at,
  range,
  above,
  Indexed-extend hash height index hashes fresh i,
)

All-insert :
    (P : ℕ × BlockRecord → Type 0) (k : ℕ) (block : BlockRecord) (index : BlockIndex)
    → P (k, block)
    → All P index
    → All P (OrderedMap.insert k block index)
unfolding OrderedMap.insert
All-insert P k block [] p h = (p, tt)
All-insert P k block ((key, b) ∷ index) p (here, h) =
    if_intro (All P) (ltb k key) _ _ (λ below. (p, (here, h)))
      (λ above.
        if_intro (All P) (k == key) _ _ (λ same. (p, h))
          (λ other. (here, All-insert P k block index p h)))

Indexed-insert :
    (height : ℕ) (block : BlockRecord) (index : BlockIndex) (hashes : List (Hash × ℕ))
    → HashMap.lookup block.block_hash hashes ≡ none
    → OrderedMap.lookup height index ≡ none
    → InRange block.slots
    → Indexed index hashes
    → Indexed (OrderedMap.insert height block index) (HashMap.insert block.block_hash height hashes)
unfolding Indexed OrderedMap.insert
Indexed-insert height block [] hashes new_hash new_height range i =
    (HashMap.lookup-insert block.block_hash height hashes, range, tt, tt)
Indexed-insert height block ((h, b) ∷ index) hashes new_hash new_height range
      (at, b_range, above, i) =
    let whole : Indexed ((h, b) ∷ index) (HashMap.insert block.block_hash height hashes) =
      Indexed-extend block.block_hash height ((h, b) ∷ index) hashes new_hash
        (at, b_range, above, i) in
    if_intro (λ x. Indexed x (HashMap.insert block.block_hash height hashes)) (ltb height h) _ _
      (λ below. (
        HashMap.lookup-insert block.block_hash height hashes,
        range,
        (
          ltb→lt height h below,
          All-imp (λ x. h < x.0) (λ x. height < x.0) index
              (λ x lt. omega (arith, ltb→lt height h below)) above,
        ),
        whole,
      ))
      (λ over.
        if_intro (λ x. Indexed x (HashMap.insert block.block_hash height hashes)) (height == h) _ _
          (λ same. absurd (ground (arith, same)))
          (λ other. (
            whole.0,
            b_range,
            All-insert (λ x. h < x.0) height block index (ground arith) above,
            Indexed-insert height block index hashes new_hash (ground (arith, other)) range i,
          )))

slot_total-insert :
    (height : ℕ) (block : BlockRecord) (index : BlockIndex)
    → OrderedMap.lookup height index ≡ none
    → slot_total (OrderedMap.insert height block index) ≡ length block.slots + slot_total index
unfolding slot_total OrderedMap.insert
slot_total-insert height block [] fresh = refl
slot_total-insert height block ((h, b) ∷ index) fresh =
    ground (arith, slot_total-insert height block index)

get_or-replicate_lt {ℓ} : {A : Type ℓ} (n i : ℕ) (a d : A) → i < n → get_or (replicate n a) i d ≡ a
unfolding replicate
get_or-replicate_lt zero i a d lt = absurd (omega arith)
get_or-replicate_lt (suc n) zero a d lt = refl
get_or-replicate_lt (suc n) (suc i) a d lt = get_or-replicate_lt n i a d (omega arith)

pub row-new : (i : ℕ) → i < num_buckets → row new.buckets i ≡ new_bucket
unfolding new
row-new i lt = get_or-replicate_lt num_buckets i new_bucket [] lt

-- An empty table is valid.
pub new-Valid : Valid new
unfolding new Indexed slot_total
new-Valid = record {
  shape = record {
    size = length-replicate num_buckets new_bucket;
    rows = λ i lt.
        ap length (row-new i lt) ∙ (unfold new_bucket in length-replicate bucket_capacity _);
  };
  indexed = tt;
  count = refl;
  small = omega arith;
}

-- What a block that is stored whole has changed: the table counts its nullifiers and lists the
-- block under its height and its hash, the slots of the block were empty and hold its nullifiers,
-- the others are untouched, and of the nullifiers other than the zero one `contains` finds exactly
-- those that it found before and those of the block.
pub record StoredWhole (height : ℕ) (block_hash : Hash) (nfs : List Nullifier)
    (db db' : HashTableDb) : Type 0 where
  pub valid : Valid db'
  pub count : db'.num_entries ≡ db.num_entries + length nfs
  pub slots : List (ℕ × ℕ)
  pub slot_count : length slots ≡ length nfs
  pub by_height :
      db'.block_index
      ≡ OrderedMap.insert height (record { block_hash = block_hash; slots = slots }) db.block_index
  pub by_hash : db'.block_hash_to_height ≡ HashMap.insert block_hash height db.block_hash_to_height
  pub vacant : (i j : ℕ) → taken slots i j ≡ true → cell db.buckets i j ≡ empty
  pub filled : (i j : ℕ) → taken slots i j ≡ true → has_entry (cell db'.buckets i j) nfs ≡ true
  pub others : (i j : ℕ) → taken slots i j ≡ false → cell db'.buckets i j ≡ cell db.buckets i j
  pub answers :
      (nf : Nullifier)
      → nf ≢ empty
      → contains nf db' ≡ (contains nf db >>= λ before. some (before || has_entry nf nfs))

-- On a valid table whose count does not overflow with the block, a block with a new hash and height
-- is stored whole: the table stays valid, counts and lists it, and its nullifiers stand in slots
-- that were empty, are found there, and nothing else changed; there was room in every bucket. Or a
-- bucket has less room than the block needs there, which the error names, and the table is what it
-- was. It never panics.
pub insert_block-Valid :
    (height : ℕ) (block_hash : Hash) (nfs : List Nullifier) (db : HashTableDb)
    → Valid db
    → db.num_entries + length nfs < 2 ^ 64
    → HashMap.lookup block_hash db.block_hash_to_height ≡ none
    → OrderedMap.lookup height db.block_index ≡ none
    → ((db' : HashTableDb) × (insert_block height block_hash nfs db ≡ some (db', none))
        × StoredWhole height block_hash nfs db db'
        × HasRoom nfs db.buckets)
      ⊎ ((i : ℕ) × (insert_block height block_hash nfs db ≡ some (db, some (bucket_overflow i)))
          × (free (row db.buckets i) < occurrences i nfs))
insert_block-Valid height block_hash nfs db v small new_hash new_height =
    elim (insert_block-outcome height block_hash nfs db v.shape small) [
      | refused i runs over lt ↦ inr (i, runs, over)
      | stored slots buckets runs inserted room ↦
          let block : BlockRecord = record { block_hash = block_hash; slots = slots } in
          let db' = with_block height block_hash slots buckets (db.num_entries + length nfs) db in
          let total = slot_total-insert height block db.block_index new_height in
          let valid : Valid db' = record {
            shape = inserted.shape;
            indexed =
                Indexed-insert height block db.block_index db.block_hash_to_height new_hash
                  new_height inserted.range v.indexed;
            count = omega (arith, total, v.count, inserted.size);
            small = small;
          } in
          inl (
            db',
            runs,
            record {
              valid = valid;
              count = refl;
              slots = slots;
              slot_count = inserted.size;
              by_height = refl;
              by_hash = refl;
              vacant = inserted.vacant;
              filled = inserted.source;
              others = inserted.kept;
              answers = λ nf real.
                  contains-insert_block height block_hash nfs db db' nf v.shape small real runs;
            },
            room,
          )
    ]
