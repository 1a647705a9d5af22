-- ===== src/Base/Sort.antt =====
-- `sort.Slice`: the elements in an order in which no later one is less than an earlier one. The
-- program sorts by keys that differ, where that order is the only one; equal keys stay in place.
use mathlib.Core.Path.{◌≡◌, sym, subst}
use mathlib.Core.Bool.{Bool, true, false}
use mathlib.Core.List.{List, [], ◌∷◌, Perm}
use mathlib.Core.List.Perm
use mathlib.Core.Option.{some}
use Prim.Native.Nat.{ℕ, zero, suc}
use native.Mathlib.Omega.{arith}
use oc_mirror.Base.Tests.{if◌then◌else◌, Bool-cases}
use oc_mirror.Base.Lists.{All, AllDistinct, In, get_elem?, last?}
use mathlib.Core.Logic.{inl, inr, ◌≢◌, ◌↔◌, ◌⊎◌}

module _ {A : Type 0} (less : A → A → Bool) where
  unfoldable pub sort_insert : A → List A → List A
  sort_insert a [] = a ∷ []
  sort_insert a (x ∷ xs) = if less x a then x ∷ sort_insert a xs else a ∷ (x ∷ xs)

  unfoldable pub sort : List A → List A
  unfolding sort_insert
  sort [] = []
  sort (x ∷ xs) = sort_insert x (sort xs)

  -- No element is less than one before it.
  abbrev pub IsSorted : List A → Type 0
  IsSorted [] = Unit
  IsSorted (x ∷ xs) = All (λ y. less y x ≡ false) xs × IsSorted xs

  sort_insert-perm : (a : A) (xs : List A) → Perm (sort_insert a xs) (a ∷ xs)
  unfolding sort_insert
  sort_insert-perm a [] = Perm.refl _
  sort_insert-perm a (x ∷ xs) = elim (Bool-cases (less x a)) [
    | inl t ↦ rw t (Perm.trans (Perm.cons x (sort_insert-perm a xs)) (Perm.swap a x xs))
    | inr f ↦ rw f (Perm.refl _)
  ]

  pub sort-perm : (xs : List A) → Perm (sort xs) xs
  unfolding sort
  sort-perm [] = Perm.refl _
  sort-perm (x ∷ xs) = Perm.trans (sort_insert-perm x (sort xs)) (Perm.cons x (sort-perm xs))

  sort_insert-In : (a b : A) (xs : List A) → In b (sort_insert a xs) ↔ ((a ≡ b) ⊎ In b xs)
  unfolding sort_insert
  sort_insert-In a b [] = ground arith
  sort_insert-In a b (x ∷ xs) = ground (arith, sort_insert-In a b xs)

  -- Sorting keeps the elements.
  pub sort-In : (b : A) (xs : List A) → In b (sort xs) ↔ In b xs
  unfolding sort
  sort-In b [] = ground arith
  sort-In b (x ∷ xs) = ground (arith, sort_insert-In x b (sort xs), sort-In b xs)

  sort_insert-All :
      (P : A → Type 0) (a : A) (xs : List A) → P a → All P xs → All P (sort_insert a xs)
  unfolding sort_insert
  sort_insert-All P a [] p h = (p, tt)
  sort_insert-All P a (x ∷ xs) p h = elim (Bool-cases (less x a)) [
    | inl t ↦ rw t (h.0, sort_insert-All P a xs p h.1)
    | inr f ↦ rw f (p, h)
  ]

  pub sort-All : (P : A → Type 0) (xs : List A) → All P xs → All P (sort xs)
  unfolding sort
  sort-All P [] h = tt
  sort-All P (x ∷ xs) h = sort_insert-All P x (sort xs) h.0 (sort-All P xs h.1)

  sort_insert-AllDistinct :
      (a : A) (xs : List A) → All (λ y. y ≢ a) xs → AllDistinct xs → AllDistinct (sort_insert a xs)
  unfolding sort_insert
  sort_insert-AllDistinct a [] h d = (tt, tt)
  sort_insert-AllDistinct a (x ∷ xs) h d = elim (Bool-cases (less x a)) [
    | inl t ↦ rw t (
      sort_insert-All (λ y. y ≢ x) a xs (λ e. h.0 (sym e)) d.0,
      sort_insert-AllDistinct a xs h.1 d.1,
    )
    | inr f ↦ rw f (h, d)
  ]

  pub sort-AllDistinct : (xs : List A) → AllDistinct xs → AllDistinct (sort xs)
  unfolding sort
  sort-AllDistinct [] d = tt
  sort-AllDistinct (x ∷ xs) d =
      sort_insert-AllDistinct x (sort xs) (sort-All (λ y. y ≢ x) xs d.0) (sort-AllDistinct xs d.1)

  All-last : (P : A → Type 0) (xs : List A) (l : A) → All P xs → last? xs ≡ some l → P l
  All-last P [] l h e = cc
  All-last P (x ∷ []) l h e = let same : x ≡ l = cc in subst P same h.0
  All-last P (x ∷ (y ∷ ys)) l h e = All-last P (y ∷ ys) l h.1 e

  module _ (asym : (a b : A) → less a b ≡ true → less b a ≡ false)
      (le_trans : (a b c : A) → less b a ≡ false → less c b ≡ false → less c a ≡ false) where
    All-le :
        (a x : A) (xs : List A)
        → less x a ≡ false
        → All (λ y. less y x ≡ false) xs
        → All (λ y. less y a ≡ false) xs
    All-le a x [] h g = tt
    All-le a x (y ∷ ys) h g = (le_trans a x y h g.0, All-le a x ys h g.1)

    sort_insert-IsSorted : (a : A) (xs : List A) → IsSorted xs → IsSorted (sort_insert a xs)
    unfolding sort_insert
    sort_insert-IsSorted a [] s = (tt, tt)
    sort_insert-IsSorted a (x ∷ xs) s = elim (Bool-cases (less x a)) [
      | inl t ↦ rw t (
        sort_insert-All (λ y. less y x ≡ false) a xs (asym x a t) s.0,
        sort_insert-IsSorted a xs s.1,
      )
      | inr f ↦ rw f ((f, All-le a x xs f s.0), s)
    ]

    pub sort-IsSorted : (xs : List A) → IsSorted (sort xs)
    unfolding sort
    sort-IsSorted [] = tt
    sort-IsSorted (x ∷ xs) = sort_insert-IsSorted x (sort xs) (sort-IsSorted xs)

    less_irrefl : (a : A) → less a a ≡ false
    less_irrefl a = elim (Bool-cases (less a a)) [ inl t ↦ asym a a t | inr f ↦ f ]

    -- The last element of a sorted list is less than none of it.
    pub last-IsSorted :
        (xs : List A) (i : ℕ) (a l : A)
        → IsSorted xs
        → get_elem? xs i ≡ some a
        → last? xs ≡ some l
        → less l a ≡ false
    last-IsSorted [] i a l s g e = cc
    last-IsSorted (x ∷ []) zero a l s g e =
        let same : a ≡ l = cc in subst (λ t. less t a ≡ false) same (less_irrefl a)
    last-IsSorted (x ∷ []) (suc i) a l s g e = cc
    last-IsSorted (x ∷ (y ∷ ys)) zero a l s g e =
        let same : x ≡ a = cc in
        subst (λ t. less l t ≡ false) same (All-last (λ t. less t x ≡ false) (y ∷ ys) l s.0 e)
    last-IsSorted (x ∷ (y ∷ ys)) (suc i) a l s g e = last-IsSorted (y ∷ ys) i a l s.1 g e
