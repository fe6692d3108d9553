-- ===== src/Nullifier/Snapshot/Reading.antt =====
-- The readers at a position behind which a written part stands.
use p2p_spendability_pir.Common.{
  ℕ, zero, suc, ◌+◌, ◌^◌, ◌<◌, ◌≤◌, ◌≡◌, refl, sym, ap, ◌∙◌, List, [], ◌∷◌, ◌++◌, length, ltb,
  le→ltb, false, take, drop, slice, drop-add, drop-append, take-append, length-drop, length-append,
  get_elem?, some, All, append_assoc, to_le_bytes, length-to_le_bytes, from_le_bytes-to_le_bytes,
  arith,
}
use p2p_spendability_pir.Common.Run.{ok}
use p2p_spendability_pir.Nullifier.Snapshot.{read_bytes, read_number, read_slots, encode_slots}

module _ (payload : List ℕ) where
  slice-front :
      (pos n : ℕ) (xs rest : List ℕ)
      → drop pos payload ≡ xs ++ rest
      → length xs ≡ n
      → slice pos n payload ≡ xs
  unfolding slice
  slice-front pos n xs rest at width =
      ap (take n) at ∙ ap (λ k. take k (xs ++ rest)) (sym width) ∙ take-append xs rest

  pub drop-front :
      (pos n : ℕ) (xs rest : List ℕ)
      → drop pos payload ≡ xs ++ rest
      → length xs ≡ n
      → drop (pos + n) payload ≡ rest
  drop-front pos n xs rest at width =
      drop-add pos n payload
      ∙ ap (drop n) at
      ∙ ap (λ k. drop k (xs ++ rest)) (sym width)
      ∙ drop-append xs rest

  pub room-front :
      (pos n : ℕ) (xs rest : List ℕ)
      → drop pos payload ≡ xs ++ rest
      → length xs ≡ n
      → 0 < n
      → pos + n ≤ length payload
  room-front pos n xs rest at width pos_n = omega (
    arith,
    length-drop pos payload,
    ap (λ (l : List ℕ). length l) at,
    length-append xs rest,
    width,
  )

  pub read_bytes-front :
      (pos n : ℕ) (xs rest : List ℕ)
      → drop pos payload ≡ xs ++ rest
      → length xs ≡ n
      → 0 < n
      → read_bytes n payload pos ≡ ok (xs, pos + n)
  unfolding read_bytes
  read_bytes-front pos n xs rest at width pos_n =
      let enough : ltb (length payload) (pos + n) ≡ false =
        le→ltb _ _ (room-front pos n xs rest at width pos_n) in
      rw (enough, slice-front pos n xs rest at width) refl

  pub read_number-front :
      (pos n x : ℕ) (rest : List ℕ)
      → drop pos payload ≡ to_le_bytes n x ++ rest
      → 0 < n
      → x < 256 ^ n
      → read_number n payload pos ≡ ok (x, pos + n)
  unfolding read_number
  read_number-front pos n x rest at pos_n small =
      rw
        (
          read_bytes-front pos n (to_le_bytes n x) rest at (length-to_le_bytes n x) pos_n,
          from_le_bytes-to_le_bytes n x small,
        )
        refl

get_elem-drop :
    (xs : List ℕ) (pos x : ℕ) (rest : List ℕ) → drop pos xs ≡ x ∷ rest → get_elem? xs pos ≡ some x
get_elem-drop [] zero x rest at = absurd (cc)
get_elem-drop [] (suc pos) x rest at = absurd (cc)
get_elem-drop (y ∷ xs) zero x rest at = cc
get_elem-drop (y ∷ xs) (suc pos) x rest at = get_elem-drop xs pos x rest at

-- bucket and slot numbers that fit their types
abbrev pub AreSlots : List (ℕ × ℕ) → Type 0
AreSlots slots = All (λ s. s.0 < 2 ^ 32) slots

pub read_slots-front :
    (payload : List ℕ) (slots : List (ℕ × ℕ)) (pos : ℕ) (rest : List ℕ)
    → AreSlots slots
    → drop pos payload ≡ encode_slots slots ++ rest
    → (end : ℕ) × (read_slots (length slots) payload pos ≡ ok (slots, end))
      × (drop end payload ≡ rest)
unfolding read_slots encode_slots
read_slots-front payload [] pos rest h at = (pos, refl, at)
read_slots-front payload ((b, s) ∷ slots) pos rest (small, h) at =
    let more = encode_slots slots ++ rest in
    let number = to_le_bytes 4 b in
    let at₁ : drop pos payload ≡ number ++ (s ∷ 0 ∷ more) = at ∙ append_assoc number _ rest in
    let behind = drop-front payload pos 4 number (s ∷ 0 ∷ more) at₁ (length-to_le_bytes 4 b) in
    let at₂ = drop-front payload (pos + 4) 2 (s ∷ 0 ∷ []) more behind refl in
    let enough : ltb (length payload) (pos + 4 + 2) ≡ false =
      le→ltb _ _ (room-front payload (pos + 4) 2 (s ∷ 0 ∷ []) more behind refl (omega arith)) in
    let (end, reads, left) = read_slots-front payload slots (pos + 4 + 2) rest h at₂ in
    (
      end,
      rw
          (
            read_number-front payload pos 4 b (s ∷ 0 ∷ more) at₁ (omega arith)
                (omega (arith, small)),
            enough,
            get_elem-drop payload (pos + 4) s (0 ∷ more) behind,
            reads,
          )
          refl,
      left,
    )
