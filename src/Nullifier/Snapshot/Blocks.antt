-- ===== src/Nullifier/Snapshot/Blocks.antt =====
-- The index of the blocks is read back, and the heights by hash are put together anew.
use p2p_spendability_pir.Common.{
  ℕ, ◌+◌, ◌^◌, ◌<◌, ◌≡◌, refl, sym, ap, ◌∙◌, inl, inr, List, [], ◌∷◌, ◌++◌, length, leb, lt→leb,
  false, drop, some, All, append_assoc, append-nil, to_le_bytes, length-to_le_bytes, bytes_eq,
  bytes_eq_sound, Bool-cases, arith,
}
use p2p_spendability_pir.Common.Run.{ok}
use p2p_spendability_pir.Common.OrderedMap
use p2p_spendability_pir.Common.HashMap
use p2p_spendability_pir.Orchard.{Hash}
use p2p_spendability_pir.Nullifier.Table.{BlockRecord}
use p2p_spendability_pir.Nullifier.Table.Valid.{BlockIndex, Indexed, slot_total}
use p2p_spendability_pir.Nullifier.Snapshot.{read_blocks, encode_index, encode_slots}
use p2p_spendability_pir.Nullifier.Snapshot.Reading.{
  drop-front, read_bytes-front, read_number-front, read_slots-front, AreSlots,
}

-- `block_hash_to_height.insert(block_hash, height)` for one block after the other
unfoldable pub rebuild : BlockIndex → List (Hash × ℕ) → List (Hash × ℕ)
rebuild [] hashes = hashes
rebuild ((height, block) ∷ index) hashes =
    rebuild index (HashMap.insert block.block_hash height hashes)

apart :
    (hash : Hash) (h : ℕ) (index : BlockIndex) (hashes : List (Hash × ℕ))
    → HashMap.lookup hash hashes ≡ some h
    → All (λ b. h < b.0) index
    → Indexed index hashes
    → All (λ b. bytes_eq hash b.1.block_hash ≡ false) index
unfolding Indexed
apart hash h [] hashes here above i = tt
apart hash h ((h', b) ∷ index) hashes here (lt, above) (at, range, over, i) = (
  elim (Bool-cases (bytes_eq hash b.block_hash)) [
    | inr other ↦ other
    | inl same ↦
        let both : some h ≡ some h' =
          sym here
          ∙ ap (λ x. HashMap.lookup x hashes) (bytes_eq_sound hash b.block_hash same)
          ∙ at in
        let equal : h ≡ h' = cc in absurd (omega (arith, lt, equal))
  ],
  apart hash h index hashes here above i,
)

lookup-rebuild :
    (hash : Hash) (index : BlockIndex) (hashes : List (Hash × ℕ))
    → All (λ b. bytes_eq hash b.1.block_hash ≡ false) index
    → HashMap.lookup hash (rebuild index hashes) ≡ HashMap.lookup hash hashes
unfolding rebuild
lookup-rebuild hash [] hashes other = refl
lookup-rebuild hash ((h, b) ∷ index) hashes (here, other) =
    lookup-rebuild hash index (HashMap.insert b.block_hash h hashes) other
    ∙ HashMap.lookup-insert_other b.block_hash hash h hashes here

-- every block is found under its hash again
pub rebuild-Indexed :
    (index : BlockIndex) (hashes acc : List (Hash × ℕ))
    → Indexed index hashes
    → Indexed index (rebuild index acc)
unfolding Indexed rebuild
rebuild-Indexed [] hashes acc i = tt
rebuild-Indexed ((h, b) ∷ index) hashes acc (at, range, above, i) = (
  lookup-rebuild b.block_hash index (HashMap.insert b.block_hash h acc)
        (apart b.block_hash h index hashes at above i)
      ∙ HashMap.lookup-insert b.block_hash h acc,
  range,
  above,
  rebuild-Indexed index hashes (HashMap.insert b.block_hash h acc) i,
)

insert_last :
    (h : ℕ) (block : BlockRecord) (index : BlockIndex)
    → All (λ b. b.0 < h) index
    → OrderedMap.insert h block index ≡ index ++ (h, block) ∷ []
unfolding OrderedMap.insert
insert_last h block [] below = refl
insert_last h block ((k, b) ∷ index) (here, below) = ground (arith, insert_last h block index below)

-- the records fit their types
abbrev pub IsEntry : ℕ × BlockRecord → Type 0
IsEntry (height, block) =
    (height < 2 ^ 64)
    × (length block.block_hash ≡ 32)
    × (length block.slots < 2 ^ 32)
    × AreSlots block.slots

abbrev pub Below : BlockIndex → BlockIndex → Type 0
Below done index = All (λ b. All (λ d. d.0 < b.0) done) index

All-last :
    (P : ℕ × BlockRecord → Type 0) (done : BlockIndex) (b : ℕ × BlockRecord)
    → All P done
    → P b
    → All P (done ++ b ∷ [])
All-last P [] b h p = (p, tt)
All-last P (d ∷ done) b (here, h) p = (here, All-last P done b h p)

Below-last :
    (done index : BlockIndex) (b : ℕ × BlockRecord)
    → Below done index
    → All (λ x. b.0 < x.0) index
    → Below (done ++ b ∷ []) index
Below-last done [] b below above = tt
Below-last done (x ∷ index) b (here, below) (lt, above) =
    (All-last (λ d. d.0 < x.0) done b here lt, Below-last done index b below above)

pub read_blocks-front :
    (payload : List ℕ) (index done : BlockIndex) (known hashes : List (Hash × ℕ)) (n pos : ℕ)
    (rest : List ℕ)
    → Indexed index known
    → All IsEntry index
    → Below done index
    → n + slot_total index < 2 ^ 64
    → drop pos payload ≡ encode_index index ++ rest
    → (end : ℕ) × (read_blocks (length index) payload pos done hashes n
        ≡ ok ((done ++ index, rebuild index hashes, n + slot_total index), end))
      × (drop end payload ≡ rest)
unfolding read_blocks encode_index rebuild Indexed slot_total
read_blocks-front payload [] done known hashes n pos rest i fit below small at =
    (pos, rw (append-nil done) (ap (λ k. ok ((done, hashes, k), pos)) (omega arith)), at)
read_blocks-front payload ((h, b) ∷ index) done known hashes n pos rest (found, range, above, i)
      ((fit_h, fit_hash, fit_n, fit_s), fit) (here, below) small at =
    let slots = encode_slots b.slots in
    let height = to_le_bytes 8 h in
    let count = to_le_bytes 4 (length b.slots) in
    let after_slots = encode_index index ++ rest in
    let after_count = slots ++ after_slots in
    let after_hash = count ++ after_count in
    let after_height = b.block_hash ++ after_hash in
    let grouped : drop pos payload ≡ height ++ after_height =
      at
      ∙ append_assoc (height ++ b.block_hash ++ count ++ slots) (encode_index index) rest
      ∙ append_assoc (height ++ b.block_hash ++ count) slots after_slots
      ∙ append_assoc (height ++ b.block_hash) count after_count
      ∙ append_assoc height b.block_hash after_hash in
    let at₁ = drop-front payload pos 8 height after_height grouped (length-to_le_bytes 8 h) in
    let at₂ = drop-front payload (pos + 8) 32 b.block_hash after_hash at₁ fit_hash in
    let at₃ =
      drop-front payload (pos + 8 + 32) 4 count after_count at₂
        (length-to_le_bytes 4 (length b.slots)) in
    let (pos₄, slots_read, at₄) =
      read_slots-front payload b.slots (pos + 8 + 32 + 4) after_slots fit_s at₃ in
    let (end, blocks_read, left) =
      read_blocks-front payload index (done ++ (h, b) ∷ []) known
        (HashMap.insert b.block_hash h hashes) (n + length b.slots) pos₄ rest i fit
        (Below-last done index (h, b) below above) (omega (arith, small)) at₄ in
    let few : leb (2 ^ 64) (n + length b.slots) ≡ false = lt→leb _ _ (omega (arith, small)) in
    (
      end,
      rw
          (
            read_number-front payload pos 8 h after_height grouped (omega arith)
                (omega (arith, fit_h)),
            read_bytes-front payload (pos + 8) 32 b.block_hash after_hash at₁ fit_hash
                (omega arith),
            read_number-front payload (pos + 8 + 32) 4 (length b.slots) after_count at₂
                (omega arith) (omega (arith, fit_n)),
            few,
            slots_read,
            insert_last h b done here,
            blocks_read,
            append_assoc done ((h, b) ∷ []) index,
          )
          (ap
            (λ k. ok (
              (done ++ (h, b) ∷ index, rebuild index (HashMap.insert b.block_hash h hashes), k),
              end,
            ))
            (omega arith)),
      left,
    )
