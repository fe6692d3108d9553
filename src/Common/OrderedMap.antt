-- ===== src/Common/OrderedMap.antt =====
-- `BTreeMap` with integer keys: its pairs in the order of the keys.
use p2p_spendability_pir.Common.Tests.{ltb, ◌==◌, if◌then◌else◌}
use Prim.Native.Nat.{ℕ}
use mathlib.Core.Path.{◌≡◌, refl}
use mathlib.Core.Logic.{◌≢◌}
use mathlib.Core.Option.{Option, none, some}
use mathlib.Core.List.{List, [], ◌∷◌}
use native.Mathlib.Omega.{arith}

module _ {ℓ} {V : Type ℓ} where
  abbrev pub lookup : ℕ → List (ℕ × V) → Option V
  lookup k [] = none
  lookup k ((key, v) ∷ m) = if k == key then some v else lookup k m

  unfoldable pub insert : ℕ → V → List (ℕ × V) → List (ℕ × V)
  insert k v [] = (k, v) ∷ []
  insert k v ((key, w) ∷ m) =
      let rest = insert k v m in
      if ltb k key then (k, v) ∷ (key, w) ∷ m else if k == key then (k, v) ∷ m else (key, w) ∷ rest

  unfoldable pub remove : ℕ → List (ℕ × V) → List (ℕ × V)
  remove k [] = []
  remove k ((key, w) ∷ m) = let rest = remove k m in if k == key then rest else (key, w) ∷ rest

  pub remove-absent : (k : ℕ) (m : List (ℕ × V)) → lookup k m ≡ none → remove k m ≡ m
  unfolding remove
  remove-absent k [] h = refl
  remove-absent k ((key, w) ∷ m) h = ground (arith, remove-absent k m)

  pub remove-insert :
      (k : ℕ) (v : V) (m : List (ℕ × V)) → lookup k m ≡ none → remove k (insert k v m) ≡ m
  unfolding insert remove
  remove-insert k v [] h = ground arith
  remove-insert k v ((key, w) ∷ m) h = ground (arith, remove-insert k v m, remove-absent k m)

  pub lookup-insert : (k : ℕ) (v : V) (m : List (ℕ × V)) → lookup k (insert k v m) ≡ some v
  unfolding insert
  lookup-insert k v [] = ground arith
  lookup-insert k v ((key, w) ∷ m) = ground (arith, lookup-insert k v m)

  pub lookup-insert_other :
      (k j : ℕ) (v : V) (m : List (ℕ × V)) → j ≢ k → lookup j (insert k v m) ≡ lookup j m
  unfolding insert
  lookup-insert_other k j v [] ne = ground arith
  lookup-insert_other k j v ((key, w) ∷ m) ne = ground (arith, lookup-insert_other k j v m ne)
