-- ===== src/Operator/Merge/Last.antt =====
-- pkg/operator/merge.go: what mergeDCPreferLast keeps, against a search for the last element with a
-- key.
use oc_mirror.Base.{
  String, List, [], ◌∷◌, ◌++◌, Bool, true, Option, none, some, ◌≡◌, refl, sym, ◌∙◌, ◌↔◌, inl, inr,
  if◌then◌else◌, ◌==◌, string_eq, or_default, or_else, last?, In, All, Bool-cases, arith,
}
use oc_mirror.Base.GoMap
use oc_mirror.Base.GoMap.{Map, Distinct}
use oc_mirror.Base.Sort.{sort-In}
use oc_mirror.Operator.Catalog.{DeclarativeConfig}
use oc_mirror.Operator.Merge.{
  group_by, last_of, lasts, prefer_last, package_key, channel_key, bundle_key, package_lt,
  channel_lt, bundle_lt, merge_dc_prefer_last, kept_last,
}

last?-snoc : {A : Type 0} (xs : List A) (a : A) → last? (xs ++ a ∷ []) ≡ some a
last?-snoc [] a = refl
last?-snoc (x ∷ []) a = refl
last?-snoc (x ∷ (y ∷ ys)) a = last?-snoc (y ∷ ys) a

last?-last_of : {A : Type 0} (a : A) (xs : List A) → last? (a ∷ xs) ≡ some (last_of a xs)
last?-last_of a [] = refl
last?-last_of a (x ∷ xs) = last?-last_of x xs

or_else-none : {A : Type 0} (o : Option A) → or_else o none ≡ o
or_else-none none = refl
or_else-none (some a) = refl

module _ {A : Type 0} (key : A → String) where
  -- The last element of the list with the key.
  unfoldable pub last_with : String → List A → Option A
  last_with k [] = none
  last_with k (a ∷ as') = or_else (last_with k as') (if key a == k then some a else none)

  abbrev last_among : Option (List A) → Option A
  last_among none = none
  last_among (some xs) = last? xs

  last_in : String → Map String (List A) → Option A
  last_in k groups = last_among (GoMap.lookup k groups)

  abbrev Keyed : String × List A → Type 0
  Keyed (k, xs) = (l : A) → last? xs ≡ some l → key l ≡ k

  last_in-insert :
      (k : String) (xs : List A) (a : A) (groups : Map String (List A))
      → last_in k (GoMap.insert (key a) (xs ++ a ∷ []) groups)
        ≡ (if key a == k then some a else last_in k groups)
  unfolding last_in
  last_in-insert k xs a groups = elim (Bool-cases (key a == k)) [
    | inl t ↦
        simp t (rw (GoMap.lookup-insert (key a) k (xs ++ a ∷ []) groups) (rw t (last?-snoc xs a)))
    | inr f ↦ rw (GoMap.lookup-insert (key a) k (xs ++ a ∷ []) groups) (rw f refl)
  ]

  last_in-group_by :
      (k : String) (xs : List A) (groups : Map String (List A))
      → last_in k (group_by key xs groups) ≡ or_else (last_with k xs) (last_in k groups)
  unfolding group_by last_with
  last_in-group_by k [] groups = refl
  last_in-group_by k (a ∷ xs) groups =
      let old = or_default [] (GoMap.lookup (key a) groups) in
      ground (
        arith,
        last_in-group_by k xs (GoMap.insert (key a) (old ++ a ∷ []) groups),
        last_in-insert k old a groups,
      )

  All-insert :
      (k : String) (xs : List A) (groups : Map String (List A))
      → Keyed (k, xs)
      → All Keyed groups
      → All Keyed (GoMap.insert k xs groups)
  unfolding GoMap.insert
  All-insert k xs [] h g = (h, tt)
  All-insert k xs ((j, ys) ∷ groups) h g = elim (Bool-cases (j == k)) [
    | inl t ↦ rw t (h, g.1)
    | inr f ↦ rw f (g.0, All-insert k xs groups h g.1)
  ]

  group_by-Keyed :
      (xs : List A) (groups : Map String (List A))
      → All Keyed groups
      → All Keyed (group_by key xs groups)
  unfolding group_by
  group_by-Keyed [] groups h = h
  group_by-Keyed (a ∷ xs) groups h =
      let old = or_default [] (GoMap.lookup (key a) groups) in
      group_by-Keyed xs _
        (All-insert (key a) (old ++ a ∷ []) groups (λ l e. let snoc = last?-snoc old a in cc) h)

  group_by-Distinct :
      (xs : List A) (groups : Map String (List A))
      → Distinct groups
      → Distinct (group_by key xs groups)
  unfolding group_by
  group_by-Distinct [] groups h = h
  group_by-Distinct (a ∷ xs) groups h =
      group_by-Distinct xs _ (GoMap.Distinct-insert (key a) _ groups h)

  In-lasts :
      (a : A) (groups : Map String (List A))
      → All Keyed groups
      → Distinct groups
      → In a (lasts groups) ↔ (last_in (key a) groups ≡ some a)
  unfolding lasts last_in GoMap.lookup
  In-lasts a [] h d = ground arith
  In-lasts a ((k, []) ∷ groups) h d =
      ground (arith, In-lasts a groups h.1 d.1, string_eq.beq_iff k (key a))
  In-lasts a ((k, x ∷ xs) ∷ groups) h d =
      let l = last?-last_of x xs in
      ground (arith, In-lasts a groups h.1 d.1, string_eq.beq_iff k (key a), h.0 (last_of x xs) l)

  In-prefer_last :
      (less : A → A → Bool) (a : A) (xs : List A)
      → In a (prefer_last key less xs) ↔ (last_with (key a) xs ≡ some a)
  unfolding prefer_last last_with last_in GoMap.lookup
  In-prefer_last less a [] = ground arith
  In-prefer_last less a (x ∷ xs) =
      let groups = group_by key (x ∷ xs) [] in
      let member =
        In-lasts a groups (group_by-Keyed (x ∷ xs) [] tt) (group_by-Distinct (x ∷ xs) [] tt) in
      let sorted = sort-In less a (lasts groups) in
      let kept : last_in (key a) groups ≡ last_with (key a) (x ∷ xs) =
        last_in-group_by (key a) (x ∷ xs) [] ∙ or_else-none (last_with (key a) (x ∷ xs)) in
      (λ i. sym kept ∙ member.0 (sorted.0 i), λ e. sorted.1 (member.1 (kept ∙ e)))

  -- A list holds exactly the last element with each key that stands in another one.
  abbrev pub KeepsLast : List A → List A → Type 0
  KeepsLast xs out = (a : A) → In a out ↔ (last_with (key a) xs ≡ some a)

-- Whatever the validation says, the packages, channels and bundles that mergeDCPreferLast leaves are
-- exactly the last ones with their key in the input, and the objects of other schemas stay. The error
-- is the one of the validation of what is left.
pub merge_dc_prefer_last-KeepsLast :
    (valid : DeclarativeConfig → Bool) (cfg : DeclarativeConfig)
    → let out = (merge_dc_prefer_last valid cfg).0 in
      KeepsLast package_key cfg.packages out.packages
      × (KeepsLast channel_key cfg.channels out.channels
          × (KeepsLast bundle_key cfg.bundles out.bundles
              × ((out.others ≡ cfg.others)
                  × (((merge_dc_prefer_last valid cfg).1 ≡ none) ↔ (valid out ≡ true)))))
unfolding merge_dc_prefer_last
merge_dc_prefer_last-KeepsLast valid cfg =
    let p = In-prefer_last package_key package_lt in
    let c = In-prefer_last channel_key channel_lt in
    let b = In-prefer_last bundle_key bundle_lt in
    elim (Bool-cases (valid (kept_last cfg))) [
      | inl t ↦ rw t (
        λ a. p a cfg.packages,
        (λ a. c a cfg.channels, (λ a. b a cfg.bundles, (refl, (λ e. t, λ e. refl)))),
      )
      | inr f ↦ rw f (
        λ a. p a cfg.packages,
        (λ a. c a cfg.channels, (λ a. b a cfg.bundles, (refl, ground arith))),
      )
    ]
