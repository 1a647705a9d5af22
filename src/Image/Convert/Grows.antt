-- ===== src/Image/Convert/Grows.antt =====
-- The loops of the conversion to an association set only add to the set.
use mathlib.Core.Path.{subst}
use text.Mathlib.TextEquality.{eq_iff}
use mathlib.Core.Path.{sym}
use oc_mirror.Base.{
  String, ◌≡◌, ◌≢◌, List, [], ◌∷◌, Option, none, some, arith, ◌==◌, refl, string_eq, if◌then◌else◌,
  true, Bool-cases, Option-cases, inl, inr, is_some, All,
}
use oc_mirror.Base.GoMap
use oc_mirror.Base.GoMap.{Map, has-eq-is_some}
use oc_mirror.Api.Image.{Association}
use oc_mirror.Image.AssociationSet.{AssociationSet, add}
use oc_mirror.Image.AssociationSet.Lookups.{find, find-add}
use oc_mirror.Image.Convert.{Progress, ConvertError, mapping_key, add_children, ensure_key, mark}

-- The set holds an association of the name under the image.
abbrev pub Holds : AssociationSet → String → String → Type 0
Holds set image name = is_some (find set image name) ≡ true

-- It does so under some image.
abbrev pub HoldsSomewhere : AssociationSet → String → Type 0
HoldsSomewhere set name = (image : String) × Holds set image name

pub Holds-add :
    (set : AssociationSet) (key : String) (a : Association) (j n : String)
    → Holds set j n
    → Holds (add set key (a ∷ [])) j n
Holds-add set key a j n h = ground (arith, find-add set key a j n)

pub Holds-add_self :
    (set : AssociationSet) (key : String) (a : Association)
    → Holds (add set key (a ∷ [])) key a.name
Holds-add_self set key a =
    ground (arith, find-add set key a key a.name, eq_iff key key, eq_iff a.name a.name)

pub find-ensure_key :
    (name : String) (set : AssociationSet) (j n : String)
    → find (ensure_key name set) j n ≡ find set j n
unfolding GoMap.lookup
find-ensure_key name set j n =
    ground (arith, has-eq-is_some name set, GoMap.lookup-insert name j [] set, eq_iff name j)

pub has-insert :
    (k n : String) (m : Map String (Unit {0}))
    → GoMap.has n (GoMap.insert k tt m) ≡ (if k == n then true else GoMap.has n m)
has-insert k n m = ground (
  arith,
  has-eq-is_some n (GoMap.insert k tt m),
  has-eq-is_some n m,
  GoMap.lookup-insert k n tt m,
)

-- What was visited is held.
abbrev pub Inv : Progress → Type 0
Inv p = (n : String) → GoMap.has n p.visited ≡ true → HoldsSomewhere p.set n

-- A step of the loops only adds to the set, and keeps `Inv`.
pub record Grows (p q : Progress) : Type 0 where
  pub holds : (j n : String) → Holds p.set j n → Holds q.set j n
  pub inv : Inv p → Inv q

pub Grows-refl : (p : Progress) → Grows p p
Grows-refl p = record { holds = λ j n h. h; inv = λ i. i }

pub Grows-trans : {p q r : Progress} → Grows p q → Grows q r → Grows p r
Grows-trans g h = record {
  holds = λ j n x. h.holds j n (g.holds j n x);
  inv = λ i. h.inv (g.inv i);
}

-- To add an association under a key and to mark its name.
pub Grows-add :
    (p : Progress) (key : String) (a : Association)
    → Grows p (record { set = add p.set key (a ∷ []); visited = GoMap.insert a.name tt p.visited })
Grows-add p key a = record {
  holds = Holds-add p.set key a;
  inv = λ i n h. elim (Bool-cases (a.name == n)) [
    | inl t ↦ (
      key,
      subst (Holds (add p.set key (a ∷ [])) key) ((eq_iff a.name n).0 t)
          (Holds-add_self p.set key a),
    )
    | inr f ↦
        let (image, x) = i n (ground (arith, has-insert a.name n p.visited)) in
        (image, Holds-add p.set key a image n x)
  ];
}

-- The children of an index that are in the set under its name.
abbrev pub HasChildren :
    Map String Association → AssociationSet → Association → List String → Type 0
HasChildren mapping set value digests =
    All
      (λ digest.
        (child : Association) × (GoMap.lookup (mapping_key digest value.path) mapping ≡ some child)
        × Holds set value.name child.name)
      digests

pub HasChildren-Grows :
    (mapping : Map String Association) (p q : Progress) (value : Association) (ds : List String)
    → Grows p q
    → HasChildren mapping p.set value ds
    → HasChildren mapping q.set value ds
HasChildren-Grows mapping p q value [] g h = tt
HasChildren-Grows mapping p q value (d ∷ ds) g ((child, found, held), later) = (
  (child, found, g.holds value.name child.name held),
  HasChildren-Grows mapping p q value ds g later,
)

pub add_children-Grows :
    (mapping : Map String Association) (value : Association) (ds : List String) (p : Progress)
    → Grows p (add_children mapping value ds p).0
unfolding add_children
add_children-Grows mapping value [] p = Grows-refl p
add_children-Grows mapping value (d ∷ ds) p =
    elim (Option-cases (GoMap.lookup (mapping_key d value.path) mapping)) [
      | inl e ↦ rw (e, add_children) (Grows-refl p)
      | inr (child, e) ↦
          rw (e, add_children)
            (Grows-trans (Grows-add p value.name child) (add_children-Grows mapping value ds _))
    ]

abbrev pub with_child : Association → Association → Progress → Progress
with_child value child p = record {
  set = add p.set value.name (child ∷ []);
  visited = GoMap.insert child.name tt p.visited;
}

pub add_children-found :
    (mapping : Map String Association) (value child : Association) (d : String) (ds : List String)
    (p : Progress)
    → GoMap.lookup (mapping_key d value.path) mapping ≡ some child
    → add_children mapping value (d ∷ ds) p
      ≡ add_children mapping value ds (with_child value child p)
unfolding add_children
add_children-found mapping value child d ds p e = rw (e, add_children) refl

pub add_children-missing :
    (mapping : Map String Association) (value : Association) (d : String) (ds : List String)
    (p : Progress)
    → GoMap.lookup (mapping_key d value.path) mapping ≡ none
    → (add_children mapping value (d ∷ ds) p).1 ≢ none
unfolding add_children
add_children-missing mapping value d ds p e h = ground arith

pub add_children-HasChildren :
    (mapping : Map String Association) (value : Association) (ds : List String) (p : Progress)
    → (add_children mapping value ds p).1 ≡ none
    → HasChildren mapping (add_children mapping value ds p).0.set value ds
add_children-HasChildren mapping value [] p h = tt
add_children-HasChildren mapping value (d ∷ ds) p h =
    elim (Option-cases (GoMap.lookup (mapping_key d value.path) mapping)) [
      | inl e ↦ absurd (add_children-missing mapping value d ds p e h)
      | inr (child, e) ↦
          let p' = with_child value child p in
          let step = add_children-found mapping value child d ds p e in
          let held =
            (add_children-Grows mapping value ds p').holds value.name child.name
              (Holds-add_self p.set value.name child) in
          subst (λ r. HasChildren mapping r.0.set value (d ∷ ds)) (sym step)
            ((child, e, held), add_children-HasChildren mapping value ds p' (rw step at h))
    ]

-- The children of an index, and the index itself, are in the set under its name.
abbrev pub HasIndex : Map String Association → AssociationSet → Association → Type 0
HasIndex mapping set value =
    Holds set value.name value.name × HasChildren mapping set value value.manifest_digests

-- The set of an index before its children.
abbrev pub with_index : Association → Progress → Progress
with_index value p = record p { set = add (ensure_key value.name p.set) value.name (value ∷ []) }

pub with_index-Holds :
    (value : Association) (p : Progress) (j n : String)
    → Holds p.set j n
    → Holds (with_index value p).set j n
with_index-Holds value p j n h =
    Holds-add (ensure_key value.name p.set) value.name value j n
      (rw (find-ensure_key value.name p.set j n) h)

pub with_index-Grows : (value : Association) (p : Progress) → Grows p (with_index value p)
with_index-Grows value p = record {
  holds = with_index-Holds value p;
  inv = λ i n v. let (image, x) = i n v in (image, with_index-Holds value p image n x);
}

pub mark-Grows :
    (value : Association) (r : Progress × Option ConvertError)
    → Holds r.0.set value.name value.name
    → Grows r.0 (mark value r).0
mark-Grows value (q, some e) held = Grows-refl q
mark-Grows value (q, none) held = record {
  holds = λ j n h. h;
  inv = λ i n h. elim (Bool-cases (value.name == n)) [
    | inl t ↦ (value.name, subst (Holds q.set value.name) ((eq_iff value.name n).0 t) held)
    | inr f ↦ i n (ground (arith, has-insert value.name n q.visited))
  ];
}

pub set-mark :
    (value : Association) (r : Progress × Option ConvertError) → (mark value r).0.set ≡ r.0.set
set-mark value (q, some e) = refl
set-mark value (q, none) = refl

pub error-mark : (value : Association) (r : Progress × Option ConvertError) → (mark value r).1 ≡ r.1
error-mark value (q, some e) = refl
error-mark value (q, none) = refl
