-- ===== src/Image/AssociationSet/Invariant.antt =====
-- Every method keeps the set well formed: no key twice, each association under its own name.
use text.Mathlib.TextEquality.{eq_iff}
use oc_mirror.Base.{
  String, ◌≡◌, List, [], ◌∷◌, Result, ok, err, arith, string_eq, Bool, true, false, refl,
  Option-cases, inl, inr,
}
use oc_mirror.Base.GoMap
use oc_mirror.Api.Image.{Association}
use oc_mirror.Image.AssociationSet.{
  SetError, Associations, AssociationSet, add, add_loop, add_each, merge, update_key, update_value,
  prune, prune_loop, search,
}
use oc_mirror.Image.AssociationSet.Lookups.{IsNamed, IsWellFormed, IsWellFormed-lookup}

IsNamed-insert :
    (a : Association) (m : Associations) → IsNamed m → IsNamed (GoMap.insert a.name a m)
unfolding GoMap.insert
IsNamed-insert a [] w = (refl, tt)
IsNamed-insert a ((k, b) ∷ m) w = ground (arith, IsNamed-insert a m)

IsWellFormed-insert :
    (key : String) (m : Associations) (set : AssociationSet)
    → GoMap.Distinct m
    → IsNamed m
    → IsWellFormed set
    → IsWellFormed (GoMap.insert key m set)
unfolding GoMap.insert GoMap.lookup
IsWellFormed-insert key m [] d n w = (refl, d, n, tt)
IsWellFormed-insert key m ((k, m') ∷ set) d n w = ground (
  arith,
  eq_iff k key,
  eq_iff key k,
  GoMap.lookup-insert key k m set,
  IsWellFormed-insert key m set,
)

IsWellFormed-delete :
    (key : String) (set : AssociationSet) → IsWellFormed set → IsWellFormed (GoMap.delete key set)
unfolding GoMap.delete
IsWellFormed-delete key [] w = tt
IsWellFormed-delete key ((k, m) ∷ set) w =
    ground (arith, GoMap.lookup-delete key k set, IsWellFormed-delete key set)

Distinct-single : (v : Association) → GoMap.Distinct ((v.name, v) ∷ [])
unfolding GoMap.lookup
Distinct-single v = (refl, tt)

add_loop-IsWellFormed :
    (found : Bool) (values : List Association) (m : Associations) (key : String)
    (set : AssociationSet)
    → GoMap.Distinct m
    → IsNamed m
    → IsWellFormed set
    → IsWellFormed (add_loop found m key values set)
unfolding add_loop
add_loop-IsWellFormed found [] m key set d n w = w
add_loop-IsWellFormed true (v ∷ vs) m key set d n w =
    let d' = GoMap.Distinct-insert v.name v m d in
    let n' = IsNamed-insert v m n in
    add_loop-IsWellFormed true vs (GoMap.insert v.name v m) key _ d' n'
      (IsWellFormed-insert key _ set d' n' w)
add_loop-IsWellFormed false (v ∷ vs) m key set d n w =
    let d' = Distinct-single v in
    add_loop-IsWellFormed false vs ((v.name, v) ∷ []) key _ d' (refl, tt)
      (IsWellFormed-insert key _ set d' (refl, tt) w)

pub add-IsWellFormed :
    (set : AssociationSet) (key : String) (values : List Association)
    → IsWellFormed set
    → IsWellFormed (add set key values)
unfolding add
add-IsWellFormed set key values w = elim (Option-cases (GoMap.lookup key set)) [
  | inl e ↦ rw e (add_loop-IsWellFormed false values [] key set tt tt w)
  | inr (m, e) ↦
      let (d, n) = IsWellFormed-lookup set key m w e in
      rw e (add_loop-IsWellFormed true values m key set d n w)
]

add_each-IsWellFormed :
    (key : String) (values : List Association) (set : AssociationSet)
    → IsWellFormed set
    → IsWellFormed (add_each key values set)
unfolding add_each
add_each-IsWellFormed key [] set w = w
add_each-IsWellFormed key (v ∷ vs) set w =
    add_each-IsWellFormed key vs (add set key (v ∷ [])) (add-IsWellFormed set key (v ∷ []) w)

pub merge-IsWellFormed :
    (set other : AssociationSet) → IsWellFormed set → IsWellFormed (merge set other)
unfolding merge
merge-IsWellFormed set [] w = w
merge-IsWellFormed set ((key, m) ∷ other) w =
    merge-IsWellFormed (add_each key (GoMap.values m) set) other
      (add_each-IsWellFormed key (GoMap.values m) set w)

update_key-IsWellFormed :
    (set : AssociationSet) (old_key new_key : String) (result : AssociationSet)
    → IsWellFormed set
    → update_key set old_key new_key ≡ ok result
    → IsWellFormed result
unfolding update_key
update_key-IsWellFormed set old_key new_key result w h =
    let vs = (search set old_key).0 in
    let moved = add_each new_key vs set in
    let kept = IsWellFormed-delete old_key moved (add_each-IsWellFormed new_key vs set w) in
    ground arith

update_value-IsWellFormed :
    (set : AssociationSet) (key : String) (value : Association) (result : AssociationSet)
    → IsWellFormed set
    → update_value set key value ≡ ok result
    → IsWellFormed result
unfolding update_value
update_value-IsWellFormed set key value result w h = elim (Option-cases (GoMap.lookup key set)) [
  | inl e ↦ ground arith
  | inr (m, e) ↦
      let (d, n) = IsWellFormed-lookup set key m w e in
      let kept =
        IsWellFormed-insert key (GoMap.insert value.name value m) set
          (GoMap.Distinct-insert value.name value m d) (IsNamed-insert value m n) w in
      ground arith
]

prune_loop-IsWellFormed :
    (set : AssociationSet) (keep : List String) (pruned : AssociationSet)
    → IsWellFormed set
    → IsWellFormed pruned
    → IsWellFormed (prune_loop set keep pruned).0
unfolding prune_loop
prune_loop-IsWellFormed set [] pruned w p = p
prune_loop-IsWellFormed set (key ∷ rest) pruned w p = elim (Option-cases (GoMap.lookup key set)) [
  | inl e ↦ rw (e, prune_loop) p
  | inr (m, e) ↦
      let (d, n) = IsWellFormed-lookup set key m w e in
      rw (e, prune_loop)
        (prune_loop-IsWellFormed set rest (GoMap.insert key m pruned) w
          (IsWellFormed-insert key m pruned d n p))
]

-- The set that a method gives, if it gives one, is well formed.
abbrev pub GivesWellFormed : Result SetError AssociationSet → Type 0
GivesWellFormed (ok set) = IsWellFormed set
GivesWellFormed (err e) = Unit

gives :
    (r : Result SetError AssociationSet)
    → ((set : AssociationSet) → r ≡ ok set → IsWellFormed set)
    → GivesWellFormed r
gives (ok set) h = h set refl
gives (err e) h = tt

-- The invariant: in a well-formed set no key occurs twice on either level and every association
-- stands under its own name. `Add`, `Merge` and `Prune` keep it, and so do `UpdateKey` and
-- `UpdateValue` whenever they succeed.
pub methods-IsWellFormed :
    (set other : AssociationSet) (key new_key : String) (values : List Association)
    (value : Association) (keep : List String)
    → IsWellFormed set
    → IsWellFormed (add set key values)
      × IsWellFormed (merge set other)
      × IsWellFormed (prune set keep).0
      × GivesWellFormed (update_key set key new_key)
      × GivesWellFormed (update_value set key value)
unfolding prune
methods-IsWellFormed set other key new_key values value keep w = (
  add-IsWellFormed set key values w,
  merge-IsWellFormed set other w,
  prune_loop-IsWellFormed set keep [] w tt,
  gives (update_key set key new_key) (λ r. update_key-IsWellFormed set key new_key r w),
  gives (update_value set key value) (λ r. update_value-IsWellFormed set key value r w),
)
