-- ===== src/Image/Convert/Kept.antt =====
-- What is in the set after a conversion is an accepted association under its name, so an association
-- whose name no other has is there itself. Of associations that share a name one may be left out.
use mathlib.Core.Path.{subst}
use text.Mathlib.TextEquality.{eq_iff}
use oc_mirror.Base.{
  String, ◌≡◌, List, [], ◌∷◌, true, Option, none, some, refl, sym, ap, ◌∙◌, string_eq, ◌==◌, ◌&&◌,
  Bool-cases, Option-cases, inl, inr, In, All, All-In, All-map, arith, is_some,
}
use oc_mirror.Base.GoMap
use oc_mirror.Base.GoMap.{Map}
use oc_mirror.Api.Image.{Association, is_empty}
use oc_mirror.Image.AssociationSet.{AssociationSet, add}
use oc_mirror.Image.AssociationSet.Lookups.{find, find-add}
use oc_mirror.Image.Convert.{
  Progress, ConvertError, mapping_key, add_children, ensure_key, add_index, and_then, add_indexes,
  add_orphans, blank, finish, group_associations,
}
use oc_mirror.Image.Convert.Grows.{find-ensure_key, set-mark, with_index}
use oc_mirror.Image.Convert.Complete.{round, IsGrouped, group_associations-IsGrouped}

lookup-In :
    {V : Type 0} (k : String) (m : Map String V) (v : V)
    → GoMap.lookup k m ≡ some v
    → In v (GoMap.values m)
unfolding GoMap.lookup
lookup-In k [] v h = absurd (cc)
lookup-In k ((j, w) ∷ m) v h = elim (Bool-cases (j == k)) [
  | inl t ↦ inl (ground arith)
  | inr f ↦ inr (lookup-In k m v (ground arith))
]

is_some-eq-true : {A : Type 0} (o : Option A) → is_some o ≡ true → (a : A) × (o ≡ some a)
is_some-eq-true none h = absurd (cc)
is_some-eq-true (some a) h = (a, refl)

All-In_self : {A : Type 0} (xs : List A) → All (λ x. In x xs) xs
All-In_self [] = tt
All-In_self (x ∷ xs) = (inl refl, All-map _ _ xs (λ y i. inr i) (All-In_self xs))

module _ (mapping : Map String Association) where
  -- What is found is accepted, and has the name.
  abbrev IsSound : AssociationSet → Type 0
  IsSound set =
      (j n : String) (a : Association)
      → find set j n ≡ some a
      → In a (GoMap.values mapping) × (a.name ≡ n)

  add-IsSound :
      (set : AssociationSet) (key : String) (a : Association)
      → IsSound set
      → In a (GoMap.values mapping)
      → IsSound (add set key (a ∷ []))
  add-IsSound set key a s i j n b found =
      let e = sym (find-add set key a j n) ∙ found in
      elim (Bool-cases ((key == j) && (a.name == n))) [
        | inl t ↦
            let same : a ≡ b = ground arith in
            subst (λ c. In c (GoMap.values mapping) × (c.name ≡ n)) same
              (i, ground (arith, eq_iff a.name n))
        | inr f ↦ s j n b (ground arith)
      ]

  add_children-IsSound :
      (value : Association) (ds : List String) (p : Progress)
      → IsSound p.set
      → IsSound (add_children mapping value ds p).0.set
  unfolding add_children
  add_children-IsSound value [] p s = s
  add_children-IsSound value (d ∷ ds) p s =
      elim (Option-cases (GoMap.lookup (mapping_key d value.path) mapping)) [
        | inl e ↦ rw (e, add_children) s
        | inr (child, e) ↦
            rw (e, add_children)
              (add_children-IsSound value ds _
                (add-IsSound p.set value.name child s (lookup-In _ mapping child e)))
      ]

  add_index-IsSound :
      (value : Association) (p : Progress)
      → In value (GoMap.values mapping)
      → IsSound p.set
      → IsSound (add_index mapping value p).0.set
  unfolding add_index
  add_index-IsSound value p i s =
      subst IsSound
        (sym
          (set-mark value (add_children mapping value value.manifest_digests (with_index value p))))
        (add_children-IsSound value value.manifest_digests (with_index value p) (
          add-IsSound (ensure_key value.name p.set) value.name value
            (λ j n a h. s j n a (sym (find-ensure_key value.name p.set j n) ∙ h)) i))

  and_then-IsSound :
      (r : Progress × Option ConvertError) (f : Progress → Progress × Option ConvertError)
      → IsSound r.0.set
      → ((q : Progress) → IsSound q.set → IsSound (f q).0.set)
      → IsSound (and_then r f).0.set
  and_then-IsSound (q, some e) f s g = s
  and_then-IsSound (q, none) f s g = g q s

  add_indexes-IsSound :
      (values : List Association) (p : Progress)
      → All (λ v. In v (GoMap.values mapping)) values
      → IsSound p.set
      → IsSound (add_indexes mapping values p).0.set
  unfolding add_indexes
  add_indexes-IsSound [] p all s = s
  add_indexes-IsSound (value ∷ rest) p all s =
      and_then-IsSound (round mapping value p) (add_indexes mapping rest)
        (elim (Bool-cases (is_empty value.manifest_digests)) [
          | inl t ↦ rw t s
          | inr f ↦ rw f (add_index-IsSound value p all.0 s)
        ])
        (λ q. add_indexes-IsSound rest q all.1)

  add_orphans-IsSound :
      (values : List Association) (visited : Map String (Unit {0})) (set : AssociationSet)
      → All (λ v. In v (GoMap.values mapping)) values
      → IsSound set
      → IsSound (add_orphans values visited set)
  unfolding add_orphans
  add_orphans-IsSound [] visited set all s = s
  add_orphans-IsSound (value ∷ rest) visited set all s =
      elim (Bool-cases (GoMap.has value.name visited)) [
        | inl t ↦ rw t (add_orphans-IsSound rest visited set all.1 s)
        | inr f ↦
            rw f
              (add_orphans-IsSound rest visited _ all.1 (add-IsSound set value.name value s all.0))
      ]

  finish-IsSound :
      (r : Progress × Option ConvertError) → IsSound r.0.set → IsSound (finish mapping r).0
  finish-IsSound (p, some e) s = s
  finish-IsSound (p, none) s =
      add_orphans-IsSound (GoMap.values mapping) p.visited p.set
        (All-In_self (GoMap.values mapping)) s

  group_associations-IsSound : IsSound (group_associations mapping).0
  unfolding group_associations GoMap.lookup
  group_associations-IsSound = finish-IsSound _ (
      add_indexes-IsSound (GoMap.values mapping) blank (All-In_self (GoMap.values mapping))
        (λ j n a h. absurd (cc)))

  -- When the grouping of the accepted associations succeeds, one whose name no other of them has is in
  -- the set itself, under some image. If it is an index, the set has under its name one of its name, and
  -- for each child manifest, which is accepted too, one of the child's name.
  pub group_associations-IsKept :
      (value : Association)
      → (group_associations mapping).1 ≡ none
      → In value (GoMap.values mapping)
      → ((other : Association)
          → In other (GoMap.values mapping)
          → other.name ≡ value.name
          → other ≡ value)
      → ((image : String) × (find (group_associations mapping).0 image value.name ≡ some value))
        × IsGrouped mapping (group_associations mapping).0 value
  group_associations-IsKept value done i alone =
      let ((image, held), grouped) =
        All-In _ value (GoMap.values mapping) (group_associations-IsGrouped mapping done) i in
      let (a, found) = is_some-eq-true _ held in
      let (accepted, named) = group_associations-IsSound image value.name a found in
      ((image, found ∙ ap some (alone a accepted named)), grouped)
