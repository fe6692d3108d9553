-- ===== src/Witness/Tree/Slots.antt =====
-- The loops that clear slots of the sub-shard root cache.
use p2p_spendability_pir.Common.{
  ℕ, zero, suc, ◌+◌, ◌<◌, ◌≤◌, ◌≡◌, ◌≢◌, refl, ◌∙◌, List, [], ◌∷◌, none, some, length, get_elem?,
  set, length-set, ◌⊎◌, arith,
}
use p2p_spendability_pir.Orchard.{Hash}
use p2p_spendability_pir.Witness.Tree.{Cache, clear_slots}

pub length-clear_slots : (f n : ℕ) (c : Cache) → length (clear_slots f n c) ≡ length c
unfolding clear_slots
length-clear_slots f zero c = refl
length-clear_slots f (suc n) c = length-clear_slots (f + 1) n (set c f none) ∙ length-set c f none

get_elem?-set-none :
    (c : Cache) (f s : ℕ) (r : Hash)
    → get_elem? (set c f none) s ≡ some (some r)
    → (s ≢ f) × (get_elem? c s ≡ some (some r))
get_elem?-set-none [] f s r h = absurd (cc)
get_elem?-set-none (x ∷ c) zero zero r h = absurd (ground arith)
get_elem?-set-none (x ∷ c) zero (suc s) r h = (omega arith, h)
get_elem?-set-none (x ∷ c) (suc f) zero r h = (omega arith, h)
get_elem?-set-none (x ∷ c) (suc f) (suc s) r h =
    let (ne, kept) = get_elem?-set-none c f s r h in (omega arith, kept)

-- What still stands in a slot stood there before, and the slot is not one of those cleared.
pub clear_slots-kept :
    (f n : ℕ) (c : Cache) (s : ℕ) (r : Hash)
    → get_elem? (clear_slots f n c) s ≡ some (some r)
    → (get_elem? c s ≡ some (some r)) × ((s < f) ⊎ (f + n ≤ s))
unfolding clear_slots
clear_slots-kept f zero c s r h = (h, omega arith)
clear_slots-kept f (suc n) c s r h =
    let (kept, apart) = clear_slots-kept (f + 1) n (set c f none) s r h in
    let (ne, before) = get_elem?-set-none c f s r kept in (before, omega arith)

pub get_elem?-lt {ℓ} :
    {A : Type ℓ} (xs : List A) (i : ℕ) {a : A} → get_elem? xs i ≡ some a → i < length xs
get_elem?-lt [] i h = absurd (cc)
get_elem?-lt (x ∷ xs) zero h = omega arith
get_elem?-lt (x ∷ xs) (suc i) h = omega (arith, get_elem?-lt xs i h)
