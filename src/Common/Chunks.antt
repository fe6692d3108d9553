-- ===== src/Common/Chunks.antt =====
-- `chunks` of a slice: pieces of the given size, the last one perhaps shorter.
use p2p_spendability_pir.Common.Tests.{ltb, le→ltb, if◌then◌else◌}
use p2p_spendability_pir.Common.Lists.{
  length, take, drop, concat, All, length-take, length-drop, length-append, take-append,
  drop-append,
}
use Prim.Native.Nat.{ℕ, zero, suc, ◌≤◌, ◌<◌}
use mathlib.Core.Path.{◌≡◌, refl, sym, ap, ap₂, ◌∙◌}
use mathlib.Core.Bool.{false}
use mathlib.Core.List.{List, [], ◌∷◌, ◌++◌}
use native.Mathlib.Omega.{arith}

module _ {ℓ} {A : Type ℓ} where
  -- at most as many pieces as there are elements
  unfoldable pub chunk_rounds : ℕ → ℕ → List A → List (List A)
  chunk_rounds zero size xs = []
  chunk_rounds (suc n) size [] = []
  chunk_rounds (suc n) size (x ∷ xs) = take size (x ∷ xs) ∷ chunk_rounds n size (drop size (x ∷ xs))

  unfoldable pub chunks : ℕ → List A → List (List A)
  chunks size xs = chunk_rounds (length xs) size xs

  take-drop : (n : ℕ) (xs : List A) → take n xs ++ drop n xs ≡ xs
  take-drop zero xs = refl
  take-drop (suc n) [] = refl
  take-drop (suc n) (x ∷ xs) = ap (λ l. x ∷ l) (take-drop n xs)

  concat-chunk_rounds :
      (n size : ℕ) (xs : List A) → 0 < size → length xs ≤ n → concat (chunk_rounds n size xs) ≡ xs
  unfolding chunk_rounds concat
  concat-chunk_rounds zero size [] pos le = refl
  concat-chunk_rounds zero size (x ∷ xs) pos le = absurd (omega arith)
  concat-chunk_rounds (suc n) size [] pos le = refl
  concat-chunk_rounds (suc n) size (x ∷ xs) pos le =
      ap (λ l. take size (x ∷ xs) ++ l)
        (concat-chunk_rounds n size (drop size (x ∷ xs)) pos
          (omega (arith, length-drop size (x ∷ xs))))
      ∙ take-drop size (x ∷ xs)

  pub concat-chunks : (size : ℕ) (xs : List A) → 0 < size → concat (chunks size xs) ≡ xs
  unfolding chunks
  concat-chunks size xs pos = concat-chunk_rounds (length xs) size xs pos (omega arith)

  chunk_rounds-bound :
      (n size : ℕ) (xs : List A) → All (λ c. length c ≤ size) (chunk_rounds n size xs)
  unfolding chunk_rounds
  chunk_rounds-bound zero size xs = tt
  chunk_rounds-bound (suc n) size [] = tt
  chunk_rounds-bound (suc n) size (x ∷ xs) =
      (omega (arith, length-take size (x ∷ xs)), chunk_rounds-bound n size (drop size (x ∷ xs)))

  pub chunks-bound : (size : ℕ) (xs : List A) → All (λ c. length c ≤ size) (chunks size xs)
  unfolding chunks
  chunks-bound size xs = chunk_rounds-bound (length xs) size xs

  -- `chunks_exact`: what is left at the end is no piece
  unfoldable pub exact_rounds : ℕ → ℕ → List A → List (List A)
  exact_rounds zero size xs = []
  exact_rounds (suc n) size xs =
      let rest = exact_rounds n size (drop size xs) in
      if ltb (length xs) size then [] else take size xs ∷ rest

  unfoldable pub chunks_exact : ℕ → List A → List (List A)
  chunks_exact size xs = exact_rounds (length xs) size xs

  exact_rounds-concat :
      (n size : ℕ) (xss : List (List A))
      → 0 < size
      → length (concat xss) ≤ n
      → All (λ xs. length xs ≡ size) xss
      → exact_rounds n size (concat xss) ≡ xss
  unfolding exact_rounds concat
  exact_rounds-concat zero size [] pos le h = refl
  exact_rounds-concat zero size (x ∷ xss) pos le (here, h) =
      absurd (omega (arith, here, length-append x (concat xss)))
  exact_rounds-concat (suc n) size [] pos le h = ground arith
  exact_rounds-concat (suc n) size (x ∷ xss) pos le (here, h) =
      let long = length-append x (concat xss) in
      let whole : ltb (length (x ++ concat xss)) size ≡ false =
        le→ltb (length (x ++ concat xss)) size (omega (arith, here, long)) in
      ap
        (λ b.
          if b
          then []
          else take size (x ++ concat xss) ∷ exact_rounds n size (drop size (x ++ concat xss)))
        whole
      ∙ ap (λ k. take k (x ++ concat xss) ∷ exact_rounds n size (drop k (x ++ concat xss)))
          (sym here)
      ∙ ap₂ (λ a b. a ∷ exact_rounds n size b) (take-append x (concat xss))
          (drop-append x (concat xss))
      ∙ ap (λ l. x ∷ l) (exact_rounds-concat n size xss pos (omega (arith, here, long)) h)

  pub chunks_exact-concat :
      (size : ℕ) (xss : List (List A))
      → 0 < size
      → All (λ xs. length xs ≡ size) xss
      → chunks_exact size (concat xss) ≡ xss
  unfolding chunks_exact
  chunks_exact-concat size xss pos h =
      exact_rounds-concat (length (concat xss)) size xss pos (omega arith) h
