-- ===== src/Operator/IncludeConfig/NextVersion.antt =====
-- The binary search for the next version: what it finds, and where it does not end.
use mathlib.Core.Path.{subst}
use oc_mirror.Base.{
  ℕ, zero, suc, ◌+◌, ◌/◌, ◌≤◌, ◌≡◌, ◌⊎◌, List, [], ◌∷◌, true, false, some, ok, err, arith, ap, ◌∙◌,
  ◌-◌, >>=-eq-ok, refl, ltb, length, get_elem?, last?, Bool-cases, Option-cases, inl, inr,
}
use oc_mirror.Base.Sort.{sort, sort-IsSorted, last-IsSorted}
use oc_mirror.Api.Version.{Semver}
use oc_mirror.Api.Include.{IncludeBundle}
use oc_mirror.Operator.IncludeConfig.{out_of_fuel, search, next_version, find_next_bundle}

module _ {V : Type 0} ⦃sv : Semver V⦄ where
  -- Below the middle of the range that it looks at, the search calls itself with the same range.
  search_diverges :
      (fuel : ℕ) (versions : List V) (target last v : V) (low high : ℕ)
      → low ≤ high
      → last? versions ≡ some last
      → sv.eq last target ≡ false
      → get_elem? versions (low + (high + low) / 2) ≡ some v
      → sv.eq v target ≡ false
      → sv.lt v target ≡ false
      → search fuel versions target low high ≡ err out_of_fuel
  unfolding search
  search_diverges zero versions target last v low high le l ne g ne' nl = refl
  search_diverges (suc fuel) versions target last v low high le l ne g ne' nl =
      ground (arith, search_diverges fuel versions target last v low high le l ne g ne' nl)

  -- The version that a search returns stands right behind one that equals the target, unless it is
  -- the zero version.
  search_sound :
      (fuel : ℕ) (versions : List V) (target r : V) (low high : ℕ)
      → search fuel versions target low high ≡ ok r
      → (r ≡ sv.none_version)
        ⊎ ((i : ℕ) × (v : V) × (get_elem? versions i ≡ some v)
            × (sv.eq v target ≡ true)
            × (get_elem? versions (i + 1) ≡ some r))
  unfolding search
  search_sound zero versions target r low high h = ground arith
  search_sound (suc fuel) versions target r low high h = elim (Bool-cases (ltb high low)) [
    | inl t ↦ inl (ground arith)
    | inr f ↦ elim (Option-cases (last? versions)) [
      | inl e ↦ absurd (ground arith)
      | inr (l, e) ↦ elim (Bool-cases (sv.eq l target)) [
        | inl t ↦ inl (ground arith)
        | inr n ↦ elim (Option-cases (get_elem? versions (low + (high + low) / 2))) [
          | inl g ↦ absurd (ground arith)
          | inr (v, g) ↦ elim (Bool-cases (sv.eq v target)) [
            | inl t ↦ inr (low + (high + low) / 2, v, g, t, ground arith)
            | inr m ↦ elim (Bool-cases (sv.lt v target)) [
              | inl up ↦
                  search_sound fuel versions target r (low + (high + low) / 2 + 1) high
                    (ground arith)
              | inr down ↦ search_sound fuel versions target r low high (ground arith)
            ]
          ]
        ]
      ]
    ]
  ]

  last?-get_elem? :
      (xs : List V) (i : ℕ) (v : V) → get_elem? xs i ≡ some v → (l : V) × (last? xs ≡ some l)
  last?-get_elem? [] i v g = absurd (cc)
  last?-get_elem? (x ∷ []) i v g = (x, refl)
  last?-get_elem? (x ∷ (y ∷ ys)) zero v g = last?-get_elem? (y ∷ ys) zero y refl
  last?-get_elem? (x ∷ (y ∷ ys)) (suc i) v g = last?-get_elem? (y ∷ ys) i v g

  next_version-diverges :
      (fuel : ℕ) (versions : List V) (target v l : V)
      → get_elem? versions ((length versions - 1) / 2) ≡ some v
      → last? versions ≡ some l
      → sv.eq v target ≡ false
      → sv.lt v target ≡ false
      → sv.eq l target ≡ false
      → next_version fuel versions target ≡ err out_of_fuel
  unfolding next_version
  next_version-diverges fuel [] target v l g e n m k = cc
  next_version-diverges fuel (x ∷ xs) target v l g e n m k =
      let middle : (0 + (length xs + 0) / 2) ≡ (suc (length xs) - 1) / 2 = omega arith in
      search_diverges fuel (x ∷ xs) target l v 0 (length xs) (omega arith) e k
        (ap (get_elem? (x ∷ xs)) middle ∙ g) n m

  -- Where the target is less than the middle one of the sorted versions, the search for the next
  -- version calls itself without end, whatever the fuel.
  pub find_next_bundle-diverges :
      (fuel : ℕ) (versions : List V) (target v : V)
      → get_elem? (sort sv.lt versions) ((length (sort sv.lt versions) - 1) / 2) ≡ some v
      → sv.lt target v ≡ true
      → find_next_bundle fuel versions target ≡ err out_of_fuel
  unfolding find_next_bundle
  find_next_bundle-diverges fuel versions target v g less =
      let sorted = sort sv.lt versions in
      let (l, e) = last?-get_elem? sorted _ v g in
      let le_last =
        last-IsSorted sv.lt sv.lt_asym sv.le_trans sorted _ v l
          (sort-IsSorted sv.lt sv.lt_asym sv.le_trans versions) g e in
      let at_middle = sv.eq_iff v target in
      let at_last = sv.eq_iff l target in
      let over = sv.le_trans v l target le_last in
      let stuck = next_version-diverges fuel sorted target v l g e in
      ground (arith, sv.lt_asym target v less)

  -- The version stands behind one that equals the target.
  abbrev pub IsNext : List V → V → V → Type 0
  IsNext versions target r =
      (r ≡ sv.none_version)
      ⊎ ((i : ℕ) × (v : V) × (get_elem? versions i ≡ some v)
          × (sv.eq v target ≡ true)
          × (get_elem? versions (i + 1) ≡ some r))

  next_version-IsNext :
      (fuel : ℕ) (versions : List V) (target r : V)
      → next_version fuel versions target ≡ ok r
      → IsNext versions target r
  unfolding next_version
  next_version-IsNext fuel [] target r h = inl (cc)
  next_version-IsNext fuel (x ∷ xs) target r h = search_sound fuel (x ∷ xs) target r 0 _ h

  -- The version that the search gives is the zero version, or it stands in the sorted versions right
  -- behind one that equals the target.
  pub find_next_bundle-IsNext :
      (fuel : ℕ) (versions : List V) (target : V) (b : IncludeBundle V)
      → find_next_bundle fuel versions target ≡ ok b
      → IsNext (sort sv.lt versions) target b.starting_version
  unfolding find_next_bundle
  find_next_bundle-IsNext fuel versions target b h =
      let sorted = sort sv.lt versions in
      let (r, found, e) = >>=-eq-ok (next_version fuel sorted target) _ h in
      let same : r ≡ b.starting_version = ground arith in
      subst (IsNext sorted target) same (next_version-IsNext fuel sorted target r found)
