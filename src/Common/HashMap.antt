-- ===== src/Common/HashMap.antt =====
-- `HashMap` with hashes as keys: its pairs, no key twice.
use p2p_spendability_pir.Common.Tests.{if◌then◌else◌}
use p2p_spendability_pir.Common.Bytes.{bytes_eq, bytes_eq_sound, bytes_eq_refl}
use Prim.Native.Nat.{ℕ}
use mathlib.Core.Path.{◌≡◌, refl}
use mathlib.Core.Bool.{false}
use mathlib.Core.Option.{Option, none, some}
use mathlib.Core.List.{List, [], ◌∷◌}
use native.Mathlib.Omega.{arith}

module _ {ℓ} {V : Type ℓ} where
  abbrev pub lookup : List ℕ → List (List ℕ × V) → Option V
  lookup k [] = none
  lookup k ((key, v) ∷ m) = if bytes_eq k key then some v else lookup k m

  unfoldable pub remove : List ℕ → List (List ℕ × V) → List (List ℕ × V)
  remove k [] = []
  remove k ((key, w) ∷ m) =
      let rest = remove k m in if bytes_eq k key then rest else (key, w) ∷ rest

  unfoldable pub insert : List ℕ → V → List (List ℕ × V) → List (List ℕ × V)
  insert k v m = (k, v) ∷ remove k m

  pub remove-absent : (k : List ℕ) (m : List (List ℕ × V)) → lookup k m ≡ none → remove k m ≡ m
  unfolding remove
  remove-absent k [] h = refl
  remove-absent k ((key, w) ∷ m) h = ground (arith, remove-absent k m)

  pub remove-insert :
      (k : List ℕ) (v : V) (m : List (List ℕ × V)) → lookup k m ≡ none → remove k (insert k v m) ≡ m
  unfolding insert remove
  remove-insert k v m h = ground (arith, bytes_eq_refl k, remove-absent k m)

  -- Another key is not touched.
  pub lookup-remove :
      (k j : List ℕ) (m : List (List ℕ × V))
      → bytes_eq j k ≡ false
      → lookup j (remove k m) ≡ lookup j m
  unfolding remove
  lookup-remove k j [] h = refl
  lookup-remove k j ((key, w) ∷ m) h = ground (arith, lookup-remove k j m, bytes_eq_sound k key)

  pub lookup-insert :
      (k : List ℕ) (v : V) (m : List (List ℕ × V)) → lookup k (insert k v m) ≡ some v
  unfolding insert
  lookup-insert k v m = ground (arith, bytes_eq_refl k)

  pub lookup-insert_other :
      (k j : List ℕ) (v : V) (m : List (List ℕ × V))
      → bytes_eq j k ≡ false
      → lookup j (insert k v m) ≡ lookup j m
  unfolding insert
  lookup-insert_other k j v m other = ground (arith, other, lookup-remove k j m other)
