-- ===== src/Image/Convert/Complete.antt =====
-- A conversion to an association set loses no association's name.
use mathlib.Core.Path.{subst}
use mathlib.Core.Path.{sym, ap, ◌∙◌}
use oc_mirror.Base.{
  String, ◌≡◌, List, [], ◌∷◌, Option, none, some, refl, string_eq, if◌then◌else◌, true, ◌⊎◌,
  Bool-cases, inl, inr, All, All-map, All-zip,
}
use oc_mirror.Base.GoMap
use oc_mirror.Base.GoMap.{Map, has-eq-is_some}
use oc_mirror.Api.Image.{Association, is_empty}
use oc_mirror.Image.AssociationSet.{AssociationSet, add}
use oc_mirror.Image.Convert.{
  Progress, ConvertError, add_children, ensure_key, add_index, and_then, add_indexes, add_orphans,
  blank, finish, group_associations,
}
use oc_mirror.Image.Convert.Grows.{
  Grows, Grows-refl, Grows-trans, HasChildren-Grows, HasIndex, Holds, Holds-add, Holds-add_self,
  HoldsSomewhere, Inv, add_children-Grows, add_children-HasChildren, error-mark, mark-Grows,
  set-mark, with_index, with_index-Grows,
}

is_empty-nil {ℓ} : {A : Type ℓ} (xs : List A) → is_empty xs ≡ true → xs ≡ []
is_empty-nil [] h = refl
is_empty-nil (x ∷ xs) h = cc

module _ (mapping : Map String Association) where
  abbrev children_of : Association → Progress → Progress × Option ConvertError
  children_of value p = add_children mapping value value.manifest_digests (with_index value p)

  children_of-Grows : (value : Association) (p : Progress) → Grows p (children_of value p).0
  children_of-Grows value p =
      Grows-trans (with_index-Grows value p)
        (add_children-Grows mapping value value.manifest_digests (with_index value p))

  children_of-Holds :
      (value : Association) (p : Progress) → Holds (children_of value p).0.set value.name value.name
  children_of-Holds value p =
      (add_children-Grows mapping value value.manifest_digests (with_index value p)).holds
        value.name value.name (Holds-add_self (ensure_key value.name p.set) value.name value)

  add_index-Grows : (value : Association) (p : Progress) → Grows p (add_index mapping value p).0
  unfolding add_index
  add_index-Grows value p =
      Grows-trans (children_of-Grows value p)
        (mark-Grows value (children_of value p) (children_of-Holds value p))

  add_index-HasIndex :
      (value : Association) (p : Progress)
      → (add_index mapping value p).1 ≡ none
      → HasIndex mapping (add_index mapping value p).0.set value
  unfolding add_index
  add_index-HasIndex value p h =
      subst (λ set. HasIndex mapping set value) (sym (set-mark value (children_of value p)))
        (
          children_of-Holds value p,
          add_children-HasChildren mapping value value.manifest_digests (with_index value p)
              (sym (error-mark value (children_of value p)) ∙ h),
        )

  -- One round of the second loop.
  abbrev pub round : Association → Progress → Progress × Option ConvertError
  round value p = if is_empty value.manifest_digests then (p, none) else add_index mapping value p

  round-Grows : (value : Association) (p : Progress) → Grows p (round value p).0
  round-Grows value p = elim (Bool-cases (is_empty value.manifest_digests)) [
    | inl t ↦ rw t (Grows-refl p)
    | inr f ↦ rw f (add_index-Grows value p)
  ]

  and_then-Grows :
      (p : Progress) (r : Progress × Option ConvertError)
      (f : Progress → Progress × Option ConvertError)
      → Grows p r.0
      → ((q : Progress) → Grows q (f q).0)
      → Grows p (and_then r f).0
  and_then-Grows p (q, some e) f g h = g
  and_then-Grows p (q, none) f g h = Grows-trans g (h q)

  add_indexes-Grows :
      (values : List Association) (p : Progress) → Grows p (add_indexes mapping values p).0
  unfolding add_indexes
  add_indexes-Grows [] p = Grows-refl p
  add_indexes-Grows (value ∷ rest) p =
      and_then-Grows p (round value p) (add_indexes mapping rest) (round-Grows value p)
        (add_indexes-Grows rest)

  and_then-eq-none :
      (r : Progress × Option ConvertError) (f : Progress → Progress × Option ConvertError)
      → (and_then r f).1 ≡ none
      → (r.1 ≡ none) × (and_then r f ≡ f r.0)
  and_then-eq-none (q, some e) f h = absurd (cc)
  and_then-eq-none (q, none) f h = (refl, refl)

  -- An association with manifests is in the set with its children.
  abbrev pub IsGrouped : AssociationSet → Association → Type 0
  IsGrouped set value = (value.manifest_digests ≡ []) ⊎ HasIndex mapping set value

  IsGrouped-Grows :
      (p q : Progress) (value : Association)
      → Grows p q
      → IsGrouped p.set value
      → IsGrouped q.set value
  IsGrouped-Grows p q value g (inl e) = inl e
  IsGrouped-Grows p q value g (inr (held, children)) = inr (
    g.holds value.name value.name held,
    HasChildren-Grows mapping p q value value.manifest_digests g children,
  )

  round-IsGrouped :
      (value : Association) (p : Progress)
      → (round value p).1 ≡ none
      → IsGrouped (round value p).0.set value
  round-IsGrouped value p h = elim (Bool-cases (is_empty value.manifest_digests)) [
    | inl t ↦ inl (is_empty-nil value.manifest_digests t)
    | inr f ↦ inr (rw f (add_index-HasIndex value p (rw f at h)))
  ]

  add_indexes-IsGrouped :
      (values : List Association) (p : Progress)
      → (add_indexes mapping values p).1 ≡ none
      → All (IsGrouped (add_indexes mapping values p).0.set) values
  unfolding add_indexes
  add_indexes-IsGrouped [] p h = tt
  add_indexes-IsGrouped (value ∷ rest) p h =
      let r = round value p in
      let (done, step) = and_then-eq-none r (add_indexes mapping rest) h in
      subst (λ s. All (IsGrouped s.0.set) (value ∷ rest)) (sym step)
        (
          IsGrouped-Grows r.0 (add_indexes mapping rest r.0).0 value (add_indexes-Grows rest r.0)
              (round-IsGrouped value p done),
          add_indexes-IsGrouped rest r.0 (sym (ap (λ s. s.1) step) ∙ h),
        )

  add_orphans-Holds :
      (values : List Association) (visited : Map String (Unit {0})) (set : AssociationSet)
      (j n : String)
      → Holds set j n
      → Holds (add_orphans values visited set) j n
  unfolding add_orphans
  add_orphans-Holds [] visited set j n h = h
  add_orphans-Holds (value ∷ rest) visited set j n h =
      elim (Bool-cases (GoMap.has value.name visited)) [
        | inl t ↦ rw t (add_orphans-Holds rest visited set j n h)
        | inr f ↦ rw f (
            add_orphans-Holds rest visited (add set value.name (value ∷ [])) j n
              (Holds-add set value.name value j n h))
      ]

  -- The set after one round of the third loop.
  abbrev orphan_set : Association → Map String (Unit {0}) → AssociationSet → AssociationSet
  orphan_set value visited set =
      if GoMap.has value.name visited then set else add set value.name (value ∷ [])

  orphan_set-holds :
      (value : Association) (visited : Map String (Unit {0})) (set : AssociationSet)
      → ((n : String) → GoMap.has n visited ≡ true → HoldsSomewhere set n)
      → HoldsSomewhere (orphan_set value visited set) value.name
        × ((n : String) → HoldsSomewhere set n → HoldsSomewhere (orphan_set value visited set) n)
  orphan_set-holds value visited set i = elim (Bool-cases (GoMap.has value.name visited)) [
    | inl t ↦ rw t (i value.name t, λ n h. h)
    | inr f ↦ rw f (
      (value.name, Holds-add_self set value.name value),
      λ n (j, h). (j, Holds-add set value.name value j n h),
    )
  ]

  -- After the third loop every value is in the set, under some image.
  add_orphans-HoldsSomewhere :
      (values : List Association) (visited : Map String (Unit {0})) (set : AssociationSet)
      → ((n : String) → GoMap.has n visited ≡ true → HoldsSomewhere set n)
      → All (λ v. HoldsSomewhere (add_orphans values visited set) v.name) values
  unfolding add_orphans
  add_orphans-HoldsSomewhere [] visited set i = tt
  add_orphans-HoldsSomewhere (value ∷ rest) visited set i =
      let next = orphan_set value visited set in
      let ((image, held), kept) = orphan_set-holds value visited set i in
      (
        (image, add_orphans-Holds rest visited next image value.name held),
        add_orphans-HoldsSomewhere rest visited next (λ n v. kept n (i n v)),
      )

  add_orphans-Grows :
      (values : List Association) (p : Progress)
      → Grows p (record p { set = add_orphans values p.visited p.set })
  add_orphans-Grows values p = record {
    holds = add_orphans-Holds values p.visited p.set;
    inv = λ i n v.
        let (image, held) = i n v in (image, add_orphans-Holds values p.visited p.set image n held);
  }

  finish-eq-none :
      (r : Progress × Option ConvertError)
      → (finish mapping r).1 ≡ none
      → (r.1 ≡ none)
        × ((finish mapping r).0 ≡ add_orphans (GoMap.values mapping) r.0.visited r.0.set)
  finish-eq-none (p, some e) h = absurd (cc)
  finish-eq-none (p, none) h = (refl, refl)

  Inv-blank : Inv blank
  unfolding GoMap.has
  Inv-blank n h = cc

  -- When the grouping of the accepted associations succeeds, each one's name is in the set under some
  -- image, and each index's under its own, with the names of all its child manifests.
  pub group_associations-IsGrouped :
      (group_associations mapping).1 ≡ none
      → All
          (λ v.
            HoldsSomewhere (group_associations mapping).0 v.name
            × IsGrouped (group_associations mapping).0 v)
          (GoMap.values mapping)
  unfolding group_associations
  group_associations-IsGrouped h =
      let values = GoMap.values mapping in
      let r = add_indexes mapping values blank in
      let (done, e) = finish-eq-none r h in
      let last = add_orphans values r.0.visited r.0.set in
      subst (λ s. All (λ v. HoldsSomewhere s v.name × IsGrouped s v) values) (sym e)
        (All-zip (λ v. HoldsSomewhere last v.name) (IsGrouped last) values
          (add_orphans-HoldsSomewhere values r.0.visited r.0.set
            ((add_indexes-Grows values blank).inv Inv-blank))
          (All-map (IsGrouped r.0.set) (IsGrouped last) values
            (λ v. IsGrouped-Grows r.0 _ v (add_orphans-Grows values r.0))
            (add_indexes-IsGrouped values blank done)))
