-- ===== src/Base/GoMap.antt =====
-- Go maps as association lists. The list's order is the order in which `range` visits the entries:
-- a theorem about every list with distinct keys is one about every order.
use oc_mirror.Base.Tests.{if◌then◌else◌, is_some, Bool-cases}
use oc_mirror.Base.Equality.{Eq, ◌==◌}
use mathlib.Core.Path.{◌≡◌, refl, subst}
use oc_mirror.Base.Lists.{All}
use mathlib.Core.Bool.{Bool, true, false}
use mathlib.Core.Option.{Option, none, some}
use mathlib.Core.List.{List, [], ◌∷◌}
use mathlib.Core.Logic.{inl, inr}
use native.Mathlib.Omega.{arith}

abbrev pub Map {ℓ κ} : Type ℓ → Type κ → Type (ℓ ⊔ κ)
Map K V = List (K × V)

module _ {ℓ κ} {K : Type ℓ} {V : Type κ} where
  abbrev pub keys : Map K V → List K
  keys [] = []
  keys ((k, v) ∷ m) = k ∷ keys m

  abbrev pub values : Map K V → List V
  values [] = []
  values ((k, v) ∷ m) = v ∷ values m

module _ {ℓ κ} {K : Type ℓ} {V : Type κ} ⦃e : Eq K⦄ where
  -- v, found := m[k]
  unfoldable pub lookup : K → Map K V → Option V
  lookup k [] = none
  lookup k ((j, v) ∷ m) = if j == k then some v else lookup k m

  unfoldable pub has : K → Map K V → Bool
  has k [] = false
  has k ((j, v) ∷ m) = if j == k then true else has k m

  -- m[k] = v
  unfoldable pub insert : K → V → Map K V → Map K V
  insert key value [] = (key, value) ∷ []
  insert key value ((k, v) ∷ m) = if k == key then (key, value) ∷ m else (k, v) ∷ insert key value m

  -- delete(m, k)
  unfoldable pub delete : K → Map K V → Map K V
  delete k [] = []
  delete k ((j, w) ∷ m) = let rest = delete k m in if j == k then rest else (j, w) ∷ rest

  abbrev pub Distinct : Map K V → Type κ
  Distinct [] = Unit
  Distinct ((k, v) ∷ m) = (lookup k m ≡ none) × Distinct m

  pub lookup-insert :
      (key other : K) (value : V) (m : Map K V)
      → lookup other (insert key value m) ≡ (if key == other then some value else lookup other m)
  unfolding lookup insert
  lookup-insert key other value [] = refl
  lookup-insert key other value ((k, v) ∷ m) = ground (
    arith,
    lookup-insert key other value m,
    e.beq_iff key other,
    e.beq_iff k key,
    e.beq_iff k other,
  )

  pub lookup-delete :
      (k j : K) (m : Map K V) → lookup j (delete k m) ≡ (if k == j then none else lookup j m)
  unfolding lookup delete
  lookup-delete k j [] = ground arith
  lookup-delete k j ((i, w) ∷ m) =
      ground (arith, e.beq_iff k j, e.beq_iff i k, e.beq_iff i j, lookup-delete k j m)

  pub has-eq-is_some : (k : K) (m : Map K V) → has k m ≡ is_some (lookup k m)
  unfolding has lookup
  has-eq-is_some k [] = refl
  has-eq-is_some k ((j, w) ∷ m) = ground (arith, has-eq-is_some k m)

  pub Distinct-insert : (k : K) (v : V) (m : Map K V) → Distinct m → Distinct (insert k v m)
  unfolding insert lookup
  Distinct-insert k v [] d = (refl, tt)
  Distinct-insert k v ((j, w) ∷ m) d =
      ground (arith, e.beq_iff j k, Distinct-insert k v m, lookup-insert k j v m, e.beq_iff k j)

  pub Distinct-delete : (k : K) (m : Map K V) → Distinct m → Distinct (delete k m)
  unfolding delete
  Distinct-delete k [] d = tt
  Distinct-delete k ((j, w) ∷ m) d = ground (arith, Distinct-delete k m, lookup-delete k j m)

  -- What holds of all entries holds of the one that a lookup finds.
  pub lookup-All :
      (P : K × V → Type 0) (k : K) (m : Map K V) {v : V} → All P m → lookup k m ≡ some v → P (k, v)
  unfolding lookup
  lookup-All P k [] a h = cc
  lookup-All P k ((j, w) ∷ m) a h = elim (Bool-cases (j == k)) [
    | inl t ↦ subst P (ground (arith, e.beq_iff j k)) a.0
    | inr f ↦ lookup-All P k m a.1 (ground arith)
  ]

  pub All-insert :
      (P : K × V → Type 0) (k : K) (v : V) (m : Map K V) → P (k, v) → All P m → All P (insert k v m)
  unfolding insert
  All-insert P k v [] p h = (p, tt)
  All-insert P k v ((j, w) ∷ m) p h = elim (Bool-cases (j == k)) [
    | inl t ↦ rw t (p, h.1)
    | inr f ↦ rw f (h.0, All-insert P k v m p h.1)
  ]

  -- `for _, x := range xs { m[key(x)] = val(x) }`
  unfoldable pub fill {μ} : {A : Type μ} → (A → K) → (A → V) → List A → Map K V → Map K V
  fill key val [] m = m
  fill key val (x ∷ xs) m = fill key val xs (insert (key x) (val x) m)
