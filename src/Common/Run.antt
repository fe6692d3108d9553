-- ===== src/Common/Run.antt =====
-- Code that returns, fails with an error value, or panics.
use mathlib.Core.Path.{◌≡◌, refl}
use mathlib.Core.Logic.{◌⊎◌, inl, inr}
use mathlib.Core.Bool.{Bool, true, false}
use mathlib.Core.List.{List, [], ◌∷◌, map}
use p2p_spendability_pir.Common.Lists.{All}
use mathlib.Core.Option.{Option, none, some}

pub data Run {ℓ} (E A : Type ℓ) : Type ℓ where
  ok : A → Run E A
  err : E → Run E A
  panic : Run E A

infixl 5 ◌>>=◌ ◌>>◌
abbrev pub ◌>>=◌ : {E A B : Type 0} → Run E A → (A → Run E B) → Run E B
ok a >>= f = f a
err e >>= f = err e
panic >>= f = panic

abbrev pub ◌>>◌ : {E B : Type 0} → Run E (Unit {0}) → Run E B → Run E B
m >> k = m >>= λ _. k

-- `if bad { return Err(e) }`
abbrev pub fail_if : {E : Type 0} → Bool → E → Run E (Unit {0})
fail_if true e = err e
fail_if false e = ok tt

-- `ok_or(e)?`
abbrev pub ok_or : {E A : Type 0} → E → Option A → Run E A
ok_or e none = err e
ok_or e (some a) = ok a

-- `expect`, or an index that panics out of range
abbrev pub expect : {E A : Type 0} → Option A → Run E A
expect none = panic
expect (some a) = ok a

-- What a chain that returned has passed.
pub fail_if-ok :
    {E B : Type 0} (b : Bool) (e : E) (k : Run E B) (v : B)
    → (fail_if b e >> k) ≡ ok v
    → (b ≡ false) × (k ≡ ok v)
fail_if-ok true e k v h = absurd (cc)
fail_if-ok false e k v h = (refl, h)

pub bind-ok :
    {E A B : Type 0} (r : Run E A) (k : A → Run E B) (v : B)
    → (r >>= k) ≡ ok v
    → (a : A) × (r ≡ ok a) × (k a ≡ ok v)
bind-ok (ok a) k v h = (a, refl, h)
bind-ok (err e) k v h = absurd (cc)
bind-ok panic k v h = absurd (cc)

-- Where a chain that panicked did so.
pub bind-panic :
    {E A B : Type 0} (r : Run E A) (k : A → Run E B)
    → (r >>= k) ≡ panic
    → (r ≡ panic) ⊎ ((a : A) × (r ≡ ok a) × (k a ≡ panic))
bind-panic (ok a) k h = inr (a, refl, h)
bind-panic (err e) k h = absurd (cc)
bind-panic panic k h = inl refl

pub fail_if_safe : {E : Type 0} (b : Bool) (e : E) → fail_if b e ≡ panic → ⊥
fail_if_safe true e h = cc
fail_if_safe false e h = cc

pub ok_or_safe : {E A : Type 0} (e : E) (o : Option A) → ok_or e o ≡ panic → ⊥
ok_or_safe e none h = cc
ok_or_safe e (some a) h = cc

-- To split on a run and keep the equation.
pub Run-cases :
    {E A : Type 0} (r : Run E A) → ((a : A) × (r ≡ ok a)) ⊎ ((e : E) × (r ≡ err e)) ⊎ (r ≡ panic)
Run-cases (ok a) = inl (a, refl)
Run-cases (err e) = inr (inl (e, refl))
Run-cases panic = inr (inr refl)

-- `collect` into a `Result`: the first failure wins
unfoldable pub gather : {E A : Type 0} → List (Run E A) → Run E (List A)
gather [] = ok []
gather (r ∷ rs) = do a ← r; rest ← gather rs; ok (a ∷ rest)

-- A `map` whose results are gathered, where the function is a test and a value.
module _ {E A B : Type 0} (f : A → Run E B) (g : A → B) (P : A → Type 0) where
  pub gather_sound :
      (xs : List A) (ys : List B)
      → ((x : A) (y : B) → f x ≡ ok y → P x × (y ≡ g x))
      → gather (map f xs) ≡ ok ys
      → All P xs × (ys ≡ map g xs)
  unfolding gather
  gather_sound [] ys sound h = (tt, cc)
  gather_sound (x ∷ xs) ys sound h =
      let (y, here, h1) = bind-ok (f x) _ ys h in
      let (zs, there, h2) = bind-ok (gather (map f xs)) _ ys h1 in
      let (p, y_is) = sound x y here in
      let (ps, zs_are) = gather_sound xs zs sound there in ((p, ps), cc)

  pub gather_complete :
      (xs : List A)
      → ((x : A) → P x → f x ≡ ok (g x))
      → All P xs
      → gather (map f xs) ≡ ok (map g xs)
  unfolding gather
  gather_complete [] complete h = refl
  gather_complete (x ∷ xs) complete (p, ps) = rw (complete x p, gather_complete xs complete ps) refl

-- A list of results that do not panic is gathered without a panic.
pub gather_safe :
    {E A B : Type 0} (f : A → Run E B) (xs : List A)
    → ((x : A) → (f x ≡ panic) → ⊥)
    → gather (map f xs) ≡ panic
    → ⊥
unfolding gather
gather_safe f [] safe h = cc
gather_safe f (x ∷ xs) safe h = elim (bind-panic (f x) _ h) [
  | inl here ↦ safe x here
  | inr (a, returned, h1) ↦ elim (bind-panic (gather (map f xs)) _ h1) [
    | inl there ↦ gather_safe f xs safe there
    | inr (rest, gathered, h2) ↦ cc
  ]
]
