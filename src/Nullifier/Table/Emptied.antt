-- ===== src/Nullifier/Table/Emptied.antt =====
-- The table without the nullifiers of blocks that `rollback_block` has taken away.
use p2p_spendability_pir.Common.{
  ℕ, ◌≡◌, refl, sym, ap, ◌∙◌, List, [], ◌∷◌, ◌++◌, Bool, true, false, ◌||◌, if◌then◌else◌,
}
use p2p_spendability_pir.Nullifier.Table.{BlockRecord, Bucket, empty}
use p2p_spendability_pir.Nullifier.Table.Cells.{cell}
use p2p_spendability_pir.Nullifier.Table.Clear.{taken, Cleared, if_or}
use p2p_spendability_pir.Nullifier.Table.Valid.{BlockIndex}

-- whether a cell is a slot of one of the blocks
unfoldable pub held : BlockIndex → ℕ → ℕ → Bool
held [] i j = false
held ((height, block) ∷ index) i j = taken block.slots i j || held index i j

-- The slots of the blocks are empty afterwards, and no other cell has changed.
abbrev pub Emptied : BlockIndex → List Bucket → List Bucket → Type 0
Emptied index before after =
    (i j : ℕ) → cell after i j ≡ (if held index i j then empty else cell before i j)

pub nothing-Emptied : (buckets : List Bucket) → Emptied [] buckets buckets
unfolding held
nothing-Emptied buckets i j = refl

if_or_last {ℓ} :
    {A : Type ℓ} (b c : Bool) (x y : A)
    → (if c then x else (if b then x else y)) ≡ (if c || (b || false) then x else y)
if_or_last true true x y = refl
if_or_last true false x y = refl
if_or_last false true x y = refl
if_or_last false false x y = refl

or_assoc : (a b c : Bool) → (a || (b || c)) ≡ ((a || b) || c)
or_assoc true b c = refl
or_assoc false b c = refl

held-append : (xs ys : BlockIndex) (i j : ℕ) → held (xs ++ ys) i j ≡ (held xs i j || held ys i j)
unfolding held
held-append [] ys i j = refl
held-append ((height, block) ∷ xs) ys i j =
    ap (λ b. taken block.slots i j || b) (held-append xs ys i j)
    ∙ or_assoc (taken block.slots i j) (held xs i j) (held ys i j)

-- a block is taken away, and then those that follow it
pub Emptied-oldest :
    (b : ℕ × BlockRecord) (rest : BlockIndex) (before between after : List Bucket)
    → Cleared b.1.slots before between
    → Emptied rest between after
    → Emptied (b ∷ rest) before after
unfolding held
Emptied-oldest b rest before between after c e i j =
    e i j
    ∙ ap (λ x. if held rest i j then empty else x) (c.cells i j)
    ∙ if_or (taken b.1.slots i j) (held rest i j) empty (cell before i j)

-- a block is taken away, and then those that precede it
pub Emptied-newest :
    (b : ℕ × BlockRecord) (rest : BlockIndex) (before between after : List Bucket)
    → Cleared b.1.slots before between
    → Emptied rest between after
    → Emptied (rest ++ b ∷ []) before after
unfolding held
Emptied-newest b rest before between after c e i j =
    e i j
    ∙ ap (λ x. if held rest i j then empty else x) (c.cells i j)
    ∙ if_or_last (taken b.1.slots i j) (held rest i j) empty (cell before i j)
    ∙ ap (λ t. if t then empty else cell before i j) (sym (held-append rest (b ∷ []) i j))
