-- ===== src/Common/Slices.antt =====
-- Lists laid out in equally long parts, and slices of them.
use Prim.Native.Nat.{ℕ, zero, suc, min, ◌≤◌, ◌+◌, ◌*◌, ◌<◌}
use mathlib.Core.Path.{◌≡◌, refl, ap, ap₂, sym, ◌∙◌}
use mathlib.Core.List.{List, [], ◌∷◌, ◌++◌, append_assoc, map, map-append}
use native.Mathlib.Omega.{arith}
use p2p_spendability_pir.Common.Lists.{
  length, get_or, take, drop, tabulate, tabulate_congr, concat, length-append, take-append,
  drop-append, All, All-append,
}

-- `(start..start + n).map(f).collect()`
module _ {ℓ} {A : Type ℓ} where
  unfoldable pub tabulate_from : ℕ → ℕ → (ℕ → A) → List A
  tabulate_from start zero f = []
  tabulate_from start (suc n) f = f start ∷ tabulate_from (start + 1) n f

  pub tabulate_from-suc :
      (start n : ℕ) (f : ℕ → A)
      → tabulate_from start (suc n) f ≡ f start ∷ tabulate_from (start + 1) n f
  unfolding tabulate_from
  tabulate_from-suc start n f = refl

  pub tabulate_from-eq :
      (start n : ℕ) (f : ℕ → A) → tabulate_from start n f ≡ tabulate n (λ k. f (start + k))
  unfolding tabulate_from tabulate
  tabulate_from-eq start zero f = refl
  tabulate_from-eq start (suc n) f =
      ap₂ ◌∷◌ (ap f (omega arith))
        (tabulate_from-eq (start + 1) n f ∙ tabulate_congr n _ _ (λ k p. ap f (omega arith)))

  pub tabulate_from-add :
      (start m n : ℕ) (f : ℕ → A)
      → tabulate_from start (m + n) f ≡ tabulate_from start m f ++ tabulate_from (start + m) n f
  unfolding tabulate_from
  tabulate_from-add start zero n f =
      ap₂ (λ s k. tabulate_from s k f) {y = start + 0} (omega arith) (omega arith)
  tabulate_from-add start (suc m) n f =
      let count : suc m + n ≡ suc (m + n) = omega arith in
      rw count (
        ap (λ l. f start ∷ l)
          (tabulate_from-add (start + 1) m n f
            ∙ ap (λ s. tabulate_from (start + 1) m f ++ tabulate_from s n f) (omega arith)))

  pub tabulate_from-zero : (n : ℕ) (f : ℕ → A) → tabulate_from 0 n f ≡ tabulate n f
  tabulate_from-zero n f = tabulate_from-eq 0 n f ∙ tabulate_congr n _ _ (λ k p. ap f (omega arith))

  pub tabulate-append :
      (m n : ℕ) (f : ℕ → A) → tabulate (m + n) f ≡ tabulate m f ++ tabulate_from m n f
  tabulate-append m n f =
      sym (tabulate_from-zero (m + n) f)
      ∙ tabulate_from-add 0 m n f
      ∙ ap₂ ◌++◌ (tabulate_from-zero m f) (ap (λ s. tabulate_from s n f) (omega arith))

  -- the numbering of a range may be shifted
  pub tabulate_from-shift :
      (start n s : ℕ) (f g : ℕ → A)
      → ((k : ℕ) → f (s + k) ≡ g k)
      → tabulate_from (s + start) n f ≡ tabulate_from start n g
  unfolding tabulate_from
  tabulate_from-shift start zero s f g h = refl
  tabulate_from-shift start (suc n) s f g h =
      ap₂ ◌∷◌ (h start)
        (ap (λ k. tabulate_from k n f) (omega arith) ∙ tabulate_from-shift (start + 1) n s f g h)

  pub take-tabulate : (k n : ℕ) (f : ℕ → A) → take k (tabulate n f) ≡ tabulate (min k n) f
  unfolding tabulate
  take-tabulate zero zero f = refl
  take-tabulate zero (suc n) f = ap (λ m. tabulate m f) {x = 0} {y = min 0 (suc n)} (omega arith)
  take-tabulate (suc k) zero f = ap (λ m. tabulate m f) {x = 0} {y = min (suc k) 0} (omega arith)
  take-tabulate (suc k) (suc n) f =
      let less : min (suc k) (suc n) ≡ suc (min k n) = omega arith in
      ap (λ l. f 0 ∷ l) (take-tabulate k n (λ i. f (suc i))) ∙ ap (λ m. tabulate m f) (sym less)

  pub take_short : (n : ℕ) (xs : List A) → length xs ≤ n → take n xs ≡ xs
  take_short zero [] h = refl
  take_short zero (x ∷ xs) h = absurd (omega arith)
  take_short (suc n) [] h = refl
  take_short (suc n) (x ∷ xs) h = ap (λ l. x ∷ l) (take_short n xs (omega arith))

module _ {ℓ} {A : Type ℓ} where
  pub concat-append : (xs ys : List (List A)) → concat (xs ++ ys) ≡ concat xs ++ concat ys
  unfolding concat
  concat-append [] ys = refl
  concat-append (x ∷ xs) ys =
      ap (λ l. x ++ l) (concat-append xs ys) ∙ sym (append_assoc x (concat xs) (concat ys))

  pub length-concat :
      (w n : ℕ) (f : ℕ → List A) (start : ℕ)
      → ((k : ℕ) → length (f k) ≡ w)
      → length (concat (tabulate_from start n f)) ≡ n * w
  unfolding concat tabulate_from
  length-concat w zero f start h = omega arith
  length-concat w (suc n) f start h = omega (
    arith,
    length-append (f start) (concat (tabulate_from (start + 1) n f)),
    h start,
    length-concat w n f (start + 1) h,
  )

  -- `&xs[start..start + n]`
  unfoldable pub slice : ℕ → ℕ → List A → List A
  slice start n xs = take n (drop start xs)

  pub drop-add : (m n : ℕ) (xs : List A) → drop (m + n) xs ≡ drop n (drop m xs)
  drop-add zero n xs = ap (λ k. drop k xs) (omega arith)
  drop-add (suc m) n [] =
      ap (λ k. drop {A = A} k []) {y = suc (m + n)} (omega arith) ∙ sym (drop-nil n)
    where
      drop-nil : (k : ℕ) → drop {A = A} k [] ≡ []
      drop-nil zero = refl
      drop-nil (suc k) = refl
  drop-add (suc m) n (x ∷ xs) =
      ap (λ k. drop k (x ∷ xs)) {y = suc (m + n)} (omega arith) ∙ drop-add m n xs

  -- one of the equally long parts of a list
  pub slice-concat :
      (w n r : ℕ) (f : ℕ → List A) (start : ℕ) (rest : List A)
      → ((k : ℕ) → length (f k) ≡ w)
      → r < n
      → slice (r * w) w (concat (tabulate_from start n f) ++ rest) ≡ f (start + r)
  unfolding slice concat tabulate_from
  slice-concat w zero r f start rest h lt = elim lt [ ]
  slice-concat w (suc n) zero f start rest h lt =
      let zeroth : 0 * w ≡ 0 = omega arith in
      rw zeroth (
        ap (take w) (append_assoc (f start) (concat (tabulate_from (start + 1) n f)) rest)
        ∙ ap (λ k. take k (f start ++ (concat (tabulate_from (start + 1) n f) ++ rest)))
            (sym (h start))
        ∙ take-append (f start) (concat (tabulate_from (start + 1) n f) ++ rest)
        ∙ ap f (omega arith))
  slice-concat w (suc n) (suc r) f start rest h lt =
      let step : suc r * w ≡ w + r * w = omega arith in
      rw (step, drop-add w (r * w))
        (ap (λ l. take w (drop (r * w) l))
            (ap (drop w) (append_assoc (f start) (concat (tabulate_from (start + 1) n f)) rest)
              ∙ ap (λ k. drop k (f start ++ (concat (tabulate_from (start + 1) n f) ++ rest)))
                  (sym (h start))
              ∙ drop-append (f start) (concat (tabulate_from (start + 1) n f) ++ rest))
          ∙ slice-concat w n r f (start + 1) rest h (omega arith)
          ∙ ap f (omega arith))

  pub get_or-drop :
      (n : ℕ) (xs : List A) (i : ℕ) (d : A) → get_or (drop n xs) i d ≡ get_or xs (n + i) d
  get_or-drop zero xs i d = ap (λ k. get_or xs k d) (omega arith)
  get_or-drop (suc n) [] i d = refl
  get_or-drop (suc n) (x ∷ xs) i d =
      get_or-drop n xs i d ∙ ap (λ k. get_or (x ∷ xs) k d) {x = suc (n + i)} (omega arith)

  -- one of the parts of equal length that a list is made of
  pub slice-parts :
      (w : ℕ) (xss : List (List A)) (r : ℕ)
      → All (λ xs. length xs ≡ w) xss
      → r < length xss
      → slice (r * w) w (concat xss) ≡ get_or xss r []
  unfolding slice concat
  slice-parts w [] r h lt = absurd (omega arith)
  slice-parts w (x ∷ xss) zero (here, h) lt =
      let zeroth : 0 * w ≡ 0 = omega arith in
      rw zeroth (ap (λ k. take k (x ++ concat xss)) (sym here) ∙ take-append x (concat xss))
  slice-parts w (x ∷ xss) (suc r) (here, h) lt =
      let step : suc r * w ≡ w + r * w = omega arith in
      rw (step, drop-add w (r * w))
        (ap (λ l. take w (drop (r * w) l))
            (ap (λ k. drop k (x ++ concat xss)) (sym here) ∙ drop-append x (concat xss))
          ∙ slice-parts w xss r h (omega arith))

-- `flat_map`: what holds of the parts, and a function on them
module _ {ℓ} {A B : Type ℓ} (parts : A → List B) where
  pub map-flat :
      {C : Type ℓ} (f : B → C) (xs : List A)
      → map f (concat (map parts xs)) ≡ concat (map (λ x. map f (parts x)) xs)
  unfolding concat
  map-flat f [] = refl
  map-flat f (x ∷ xs) =
      map-append f (parts x) (concat (map parts xs))
      ∙ ap (λ l. map f (parts x) ++ l) (map-flat f xs)

  pub All-flat :
      (P : B → Type 0) (xs : List A) → All (λ x. All P (parts x)) xs → All P (concat (map parts xs))
  unfolding concat
  All-flat P [] h = tt
  All-flat P (x ∷ xs) (here, h) =
      All-append P (parts x) (concat (map parts xs)) here (All-flat P xs h)

  pub All-of_flat :
      (P : B → Type 0) (xs : List A) → All P (concat (map parts xs)) → All (λ x. All P (parts x)) xs
  unfolding concat
  All-of_flat P [] h = tt
  All-of_flat P (x ∷ xs) h =
      let (here, rest) = All-parts P (parts x) (concat (map parts xs)) h in
      (here, All-of_flat P xs rest)
    where
      All-parts : (P : B → Type 0) (xs ys : List B) → All P (xs ++ ys) → All P xs × All P ys
      All-parts P [] ys h = (tt, h)
      All-parts P (x ∷ xs) ys (here, h) =
          let (first, second) = All-parts P xs ys h in ((here, first), second)
