-- ===== src/Image/AssociationSet/Lookups.antt =====
-- What is found in a set after `Add`, `UpdateValue`, `UpdateKey` and `Merge`.
use mathlib.Core.Path.{subst}
use text.Mathlib.TextEquality.{eq_iff}
use oc_mirror.Base.{
  String, ◌≡◌, ◌≢◌, ◌↔◌, List, [], ◌∷◌, ◌++◌, false, Option, none, some, ok, err, arith, ◌==◌,
  string_eq, refl, if◌then◌else◌, ◌&&◌, or_else, Bool-cases, Option-cases, inl, inr,
}
use oc_mirror.Base.GoMap
use oc_mirror.Base.GoMap.{Map}
use oc_mirror.Api.Image.{Association}
use oc_mirror.Image.AssociationSet.{
  Associations, AssociationSet, assocs_of, add, add_loop, add_each, merge, update_key, search,
  key_not_in_map,
}

-- The association that the set holds for an image under a name.
abbrev pub find : AssociationSet → String → String → Option Association
find set key name = GoMap.lookup name (assocs_of (GoMap.lookup key set))

-- Every association of an inner map stands under its own name, and names differ.
abbrev pub IsNamed : Associations → Type 0
IsNamed [] = Unit
IsNamed ((n, a) ∷ m) = (a.name ≡ n) × IsNamed m

abbrev pub IsWellFormed : AssociationSet → Type 0
IsWellFormed [] = Unit
IsWellFormed ((k, m) ∷ set) =
    (GoMap.lookup k set ≡ none) × GoMap.Distinct m × IsNamed m × IsWellFormed set

add_one :
    (set : AssociationSet) (key : String) (a : Association)
    → add set key (a ∷ [])
      ≡ GoMap.insert key (GoMap.insert a.name a (assocs_of (GoMap.lookup key set))) set
unfolding add GoMap.insert
add_one set key a = elim (Option-cases (GoMap.lookup key set)) [
  | inl e ↦ simp e
  | inr (m, e) ↦ simp e
]

-- One `Add` writes the association under its own name, and nothing else.
pub find-add :
    (set : AssociationSet) (key : String) (a : Association) (j n : String)
    → find (add set key (a ∷ [])) j n
      ≡ (if (key == j) && (a.name == n) then some a else find set j n)
find-add set key a j n =
    let inner = assocs_of (GoMap.lookup key set) in
    rw (add_one set key a) (
      ground (
        arith,
        GoMap.lookup-insert key j (GoMap.insert a.name a inner) set,
        GoMap.lookup-insert a.name n a inner,
        eq_iff key j,
      ))

find-add_each :
    (key : String) (m : Associations) (set : AssociationSet) (j n : String)
    → GoMap.Distinct m
    → IsNamed m
    → find (add_each key (GoMap.values m) set) j n
      ≡ (if key == j then or_else (GoMap.lookup n m) (find set j n) else find set j n)
unfolding add_each GoMap.lookup
find-add_each key [] set j n d w = ground arith
find-add_each key ((k, a) ∷ m) set j n d w = ground (
  arith,
  find-add_each key m (add set key (a ∷ [])) j n,
  find-add set key a j n,
  eq_iff k n,
  eq_iff a.name n,
)

-- A merge overrides: what the other set holds wins, and all else stays.
pub find-merge :
    (set other : AssociationSet) (j n : String)
    → IsWellFormed other
    → find (merge set other) j n ≡ or_else (find other j n) (find set j n)
unfolding merge GoMap.lookup
find-merge set [] j n w = refl
find-merge set ((key, m) ∷ other) j n w = ground (
  arith,
  find-merge (add_each key (GoMap.values m) set) other j n,
  find-add_each key m set j n,
  eq_iff key j,
)

-- What a lookup finds in a well-formed set is well formed.
pub IsWellFormed-lookup :
    (set : AssociationSet) (key : String) (m : Associations)
    → IsWellFormed set
    → GoMap.lookup key set ≡ some m
    → GoMap.Distinct m × IsNamed m
unfolding GoMap.lookup
IsWellFormed-lookup [] key m w h = cc
IsWellFormed-lookup ((k, m') ∷ set) key m w h = elim (Bool-cases (k == key)) [
  | inl t ↦ let e : m' ≡ m = ground arith in subst (λ x. GoMap.Distinct x × IsNamed x) e (w.1, w.2)
  | inr f ↦ IsWellFormed-lookup set key m w.3 (ground arith)
]

-- A key moved to another one: the old key is gone, the new one holds what both held, with the old
-- key's associations first, and the other keys stay.
pub find-update_key :
    (set : AssociationSet) (old_key new_key : String) (result : AssociationSet) (j n : String)
    → IsWellFormed set
    → new_key ≢ old_key
    → update_key set old_key new_key ≡ ok result
    → find result j n ≡ (
        if old_key == j
        then none
        else if new_key == j
        then or_else (find set old_key n) (find set new_key n)
        else find set j n)
unfolding update_key search GoMap.lookup
find-update_key set old_key new_key result j n w ne h =
    elim (Option-cases (GoMap.lookup old_key set)) [
      | inl e ↦ ground (arith, eq_iff new_key old_key)
      | inr (m, e) ↦
          let (d, named) = IsWellFormed-lookup set old_key m w e in
          ground (
            arith,
            eq_iff new_key old_key,
            eq_iff new_key j,
            find-add_each new_key m set j n d named,
            GoMap.lookup-delete old_key j (add_each new_key (GoMap.values m) set),
          )
    ]

-- `UpdateKey` fails exactly when the old key is missing and differs from the new one.
pub update_key-eq-err :
    (set : AssociationSet) (old_key new_key : String)
    → (update_key set old_key new_key ≡ err key_not_in_map)
      ↔ ((GoMap.lookup old_key set ≡ none) × (new_key ≢ old_key))
unfolding update_key search
update_key-eq-err set old_key new_key = ground (arith, eq_iff new_key old_key)

fresh_loop :
    (values : List Association) (key : String) (last : Association) (set : AssociationSet)
    (m : Associations)
    → GoMap.lookup key (add_loop false m key (values ++ last ∷ []) set)
      ≡ some ((last.name, last) ∷ [])
unfolding add_loop
fresh_loop [] key last set m =
    ground (arith, GoMap.lookup-insert key key ((last.name, last) ∷ []) set, eq_iff key key)
fresh_loop (v ∷ vs) key last set m =
    fresh_loop vs key last (GoMap.insert key ((v.name, v) ∷ []) set) ((v.name, v) ∷ [])

-- `Add` of several values under a key that the set lacks keeps the last of them only.
pub lookup-add_fresh :
    (set : AssociationSet) (key : String) (values : List Association) (last : Association)
    → GoMap.lookup key set ≡ none
    → GoMap.lookup key (add set key (values ++ last ∷ [])) ≡ some ((last.name, last) ∷ [])
unfolding add
lookup-add_fresh set key values last h = rw h (fresh_loop values key last set [])
