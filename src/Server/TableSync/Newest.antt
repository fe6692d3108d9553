-- ===== src/Server/TableSync/Newest.antt =====
-- The newest block of the index of the table, and the blocks up to a height.
use p2p_spendability_pir.Common.{
  ℕ, ◌<◌, ◌≤◌, ◌≡◌, refl, ap, subst, false, some, List, [], ◌∷◌, ◌++◌, length, All, ◌==◌, ltb,
  lt→ltb, le→ltb, if◌then◌else◌, inl, inr, ◌⊎◌, arith,
}
use p2p_spendability_pir.Common.OrderedMap
use p2p_spendability_pir.Common.HashMap
use p2p_spendability_pir.Orchard.{Hash}
use p2p_spendability_pir.Nullifier.Table.{BlockRecord, last_block}
use p2p_spendability_pir.Nullifier.Table.Valid.{BlockIndex, Indexed}

-- the blocks up to the fork, of an index in the order of the heights
unfoldable pub up_to : ℕ → BlockIndex → BlockIndex
up_to fork [] = []
up_to fork ((height, block) ∷ index) =
    let kept = up_to fork index in if ltb fork height then [] else (height, block) ∷ kept

pub All-last {ℓ} : {A : Type ℓ} (P : A → Type 0) (xs : List A) (x : A) → All P (xs ++ x ∷ []) → P x
All-last P [] x h = h.0
All-last P (y ∷ xs) x h = All-last P xs x h.1

-- The last block of an index is found under its height, and its removal leaves the others.
pub record TopBlock (index : BlockIndex) (hashes : List (Hash × ℕ)) : Type 0 where
  pub height : ℕ
  pub block : BlockRecord
  pub init : BlockIndex
  pub is_last : last_block index ≡ some (height, block)
  pub parts : index ≡ init ++ (height, block) ∷ []
  pub found : OrderedMap.lookup height index ≡ some block
  pub removed : OrderedMap.remove height index ≡ init
  pub highest : All (λ b. b.0 ≤ height) index
  pub hashed : HashMap.lookup block.block_hash hashes ≡ some height

find_last :
    (index : BlockIndex) (hashes : List (Hash × ℕ))
    → 0 < length index
    → Indexed index hashes
    → TopBlock index hashes
unfolding last_block Indexed OrderedMap.remove
find_last [] hashes pos i = absurd (omega arith)
find_last ((h, b) ∷ []) hashes pos (at, range, above, i) = record {
  height = h;
  block = b;
  init = [];
  is_last = refl;
  parts = refl;
  found = ground arith;
  removed = ground arith;
  highest = (omega arith, tt);
  hashed = at;
}
find_last ((h, b) ∷ (h', b') ∷ index) hashes pos (at, range, above, i) =
    let l = find_last ((h', b') ∷ index) hashes (omega arith) i in
    let below : h < l.height =
      All-last (λ x. h < x.0) l.init (l.height, l.block)
        (subst (All (λ x. h < x.0)) l.parts above) in
    let apart : (l.height == h) ≡ false = ground (arith, below) in
    record {
      height = l.height;
      block = l.block;
      init = (h, b) ∷ l.init;
      is_last = l.is_last;
      parts = ap (λ x. (h, b) ∷ x) l.parts;
      found = rw apart l.found;
      removed = rw apart (ap (λ x. (h, b) ∷ x) l.removed);
      highest = (omega (arith, below), l.highest);
      hashed = l.hashed;
    }

pub up_to_whole :
    (fork : ℕ) (index : BlockIndex) → All (λ b. b.0 ≤ fork) index → up_to fork index ≡ index
unfolding up_to
up_to_whole fork [] h = refl
up_to_whole fork ((height, block) ∷ index) (le, h) =
    rw (le→ltb fork height le, up_to_whole fork index h) refl

pub up_to_cut :
    (fork height : ℕ) (block : BlockRecord) (index : BlockIndex)
    → fork < height
    → up_to fork (index ++ (height, block) ∷ []) ≡ up_to fork index
unfolding up_to
up_to_cut fork height block [] h = rw (lt→ltb fork height h) refl
up_to_cut fork height block ((k, b) ∷ index) h =
    ap (λ l. if ltb fork k then [] else (k, b) ∷ l) (up_to_cut fork height block index h)

pub All-le :
    (a b : ℕ) (index : BlockIndex) → a ≤ b → All (λ x. x.0 ≤ a) index → All (λ x. x.0 ≤ b) index
All-le a b [] h k = tt
All-le a b (x ∷ index) h (here, k) = (omega arith, All-le a b index h k)

pub find_last_of :
    (index : BlockIndex) (hashes : List (Hash × ℕ))
    → Indexed index hashes
    → (index ≡ []) ⊎ TopBlock index hashes
find_last_of [] hashes i = inl refl
find_last_of (b ∷ index) hashes i = inr (find_last (b ∷ index) hashes (omega arith) i)
