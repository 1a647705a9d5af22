-- ===== src/Base/Fallible.antt =====
-- The result of a function that returns a value or an error.
use Prim.Native.Nat.{ℕ, suc}
use mathlib.Core.Path.{◌≡◌, refl, subst}
use mathlib.Core.Logic.{◌↔◌, ◌⊎◌, inl, inr}
use mathlib.Core.List.{List, [], ◌∷◌, map}
use native.Mathlib.Omega.{arith}
use oc_mirror.Base.Lists.{All, Pointwise}

pub data Result {ℓ κ} (E : Type ℓ) (A : Type κ) : Type (ℓ ⊔ κ) where
  ok : A → Result E A
  err : E → Result E A

infixl 5 ◌>>=◌
abbrev pub ◌>>=◌ {ℓ κ μ} :
    {E : Type ℓ} {A : Type κ} {B : Type μ} → Result E A → (A → Result E B) → Result E B
ok a >>= f = f a
err e >>= f = err e

pub Result-cases {ℓ κ} :
    {E : Type ℓ} {A : Type κ} (r : Result E A) → ((a : A) × (r ≡ ok a)) ⊎ ((e : E) × (r ≡ err e))
Result-cases (ok a) = inl (a, refl)
Result-cases (err e) = inr (e, refl)

pub >>=-eq-ok {ℓ κ μ} :
    {E : Type ℓ} {A : Type κ} {B : Type μ} (r : Result E A) (next : A → Result E B) {last : B}
    → (r >>= next) ≡ ok last
    → (x : A) × (r ≡ ok x) × (next x ≡ ok last)
>>=-eq-ok (ok x) next h = (x, refl, h)
>>=-eq-ok (err e) next h = cc

module _ {E A B : Type 0} where
  -- A loop over a slice that fills another one and returns at the first error. The body is given the
  -- index.
  unfoldable pub traverse : (ℕ → A → Result E B) → ℕ → List A → Result E (List B)
  traverse f i [] = ok []
  traverse f i (x ∷ xs) = f i x >>= λ y. traverse f (suc i) xs >>= λ ys. ok (y ∷ ys)

  -- Where the body succeeds exactly on `P`, with the value of `g`, so does the loop.
  pub traverse_iff :
      (P : A → Type 0) (g : A → B) (f : ℕ → A → Result E B)
      → ((i : ℕ) (x : A) (y : B) → (f i x ≡ ok y) ↔ (P x × (y ≡ g x)))
      → (i : ℕ) (xs : List A) (ys : List B)
      → (traverse f i xs ≡ ok ys) ↔ (All P xs × (ys ≡ map g xs))
  unfolding traverse
  traverse_iff P g f h i [] ys = ground arith
  traverse_iff P g f h i (x ∷ xs) ys = (
    λ e.
        let (y, done, more) = >>=-eq-ok (f i x) _ e in
        let (zs, rest, last) = >>=-eq-ok (traverse f (suc i) xs) _ more in
        let (p, q) = (h i x y).0 done in
        let (ps, qs) = (traverse_iff P g f h (suc i) xs zs).0 rest in ((p, ps), cc),
    λ ((p, ps), q).
        let now = (h i x (g x)).1 (p, refl) in
        let later = (traverse_iff P g f h (suc i) xs (map g xs)).1 (ps, refl) in cc,
  )

  -- A loop over a slice or a map that fills a slice, without the index.
  unfoldable pub each : (A → Result E B) → List A → Result E (List B)
  each f [] = ok []
  each f (x ∷ xs) = f x >>= λ y. each f xs >>= λ ys. ok (y ∷ ys)

  pub each-Pointwise :
      (R : A → B → Type 0) (f : A → Result E B)
      → ((x : A) (y : B) → f x ≡ ok y → R x y)
      → (xs : List A) (ys : List B) → each f xs ≡ ok ys
      → Pointwise R xs ys
  unfolding each
  each-Pointwise R f h [] [] e = tt
  each-Pointwise R f h [] (y ∷ ys) e = absurd (cc)
  each-Pointwise R f h (x ∷ xs) zs e =
      let (y, now, more) = >>=-eq-ok (f x) _ e in
      let (ys, later, last) = >>=-eq-ok (each f xs) _ more in
      let same : y ∷ ys ≡ zs = cc in
      subst (Pointwise R (x ∷ xs)) same (h x y now, each-Pointwise R f h xs ys later)
