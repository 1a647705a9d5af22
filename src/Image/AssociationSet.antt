-- ===== src/Image/AssociationSet.antt =====
-- pkg/image/association_set.go. The two levels of Go maps are association lists. A method that
-- changes its receiver returns the new set; one that may fail leaves the receiver as it was.
pub mod Lookups
pub mod Contents
pub mod Invariant
use oc_mirror.Base.{
  String, List, [], ◌∷◌, ◌++◌, Bool, true, false, Option, none, some, Result, ok, err, ◌>>=◌, ◌==◌,
  string_eq, if◌then◌else◌, foldl, mem, is_some, not,
}
use oc_mirror.Base.GoMap
use oc_mirror.Base.GoMap.{Map}
use oc_mirror.Api.Image
use oc_mirror.Api.Image.{Association, ImageError}

abbrev pub Associations : Type 0
Associations = Map String Association

abbrev pub AssociationSet : Type 0
AssociationSet = Map String Associations

pub data SetError : Type 0 where
  key_not_in_map : SetError
  key_not_in_associations : String → SetError

-- The inner map of a key, nil (which reads as empty) if the key is missing.
abbrev pub assocs_of : Option Associations → Associations
assocs_of none = []
assocs_of (some assocs) = assocs

unfoldable pub search : AssociationSet → String → List Association × Bool
search set key = (GoMap.values (assocs_of (GoMap.lookup key set)), is_some (GoMap.lookup key set))

-- The loop of `Add`; `found` and the inner map are read before it, so a key that is new stays
-- not found in every round, and each round replaces the inner map.
unfoldable pub add_loop :
    Bool → Associations → String → List Association → AssociationSet → AssociationSet
add_loop found assocs key [] set = set
add_loop found assocs key (value ∷ rest) set =
    let next = if found then GoMap.insert value.name value assocs else (value.name, value) ∷ [] in
    add_loop found next key rest (GoMap.insert key next set)

unfoldable pub add : AssociationSet → String → List Association → AssociationSet
unfolding add_loop
add set key values =
    let assocs = GoMap.lookup key set in add_loop (is_some assocs) (assocs_of assocs) key values set

-- The loops of `UpdateKey` and `Merge` over the values of an inner map: one `Add` for each.
unfoldable pub add_each : String → List Association → AssociationSet → AssociationSet
add_each key [] set = set
add_each key (value ∷ rest) set = add_each key rest (add set key (value ∷ []))

unfoldable pub update_key : AssociationSet → String → String → Result SetError AssociationSet
unfolding search
update_key set old_key new_key =
    if new_key == old_key
    then ok set
    else if (search set old_key).1
    then ok (GoMap.delete old_key (add_each new_key (search set old_key).0 set))
    else err key_not_in_map

unfoldable pub update_value : AssociationSet → String → Association → Result SetError AssociationSet
update_value set key value = elim (GoMap.lookup key set) [
  | none ↦ err key_not_in_map
  | some assocs ↦ ok (GoMap.insert key (GoMap.insert value.name value assocs) set)
]

abbrev pub set_contains_key : AssociationSet → String → Bool
set_contains_key set key = GoMap.has key set

unfoldable pub contains_key : AssociationSet → String → String → Bool
contains_key set set_key key = elim (GoMap.lookup set_key set) [
  | none ↦ false
  | some assocs ↦ GoMap.has key assocs
]

unfoldable pub merge : AssociationSet → AssociationSet → AssociationSet
merge set [] = set
merge set ((image_name, assocs) ∷ rest) = merge (add_each image_name (GoMap.values assocs) set) rest

-- The errors of `Validate`: a manifest that has no association, and what each association's own
-- validation finds.
pub data ValidationError : Type 0 where
  digest_not_found : String → String → ValidationError
  invalid_association : ImageError → ValidationError

unfoldable pub check_digests : String → Associations → List String → List ValidationError
check_digests image_name assocs [] = []
check_digests image_name assocs (digest ∷ rest) =
    let later = check_digests image_name assocs rest in
    if GoMap.has digest assocs then later else digest_not_found image_name digest ∷ later

abbrev pub association_errors : Option ImageError → List ValidationError
association_errors none = []
association_errors (some e) = invalid_association e ∷ []

unfoldable pub check_associations : String → Associations → List Association → List ValidationError
check_associations image_name assocs [] = []
check_associations image_name assocs (a ∷ rest) =
    check_digests image_name assocs a.manifest_digests
    ++ (association_errors (Image.validate a) ++ check_associations image_name assocs rest)

unfoldable pub validate : AssociationSet → List ValidationError
validate [] = []
validate ((image_name, assocs) ∷ rest) =
    check_associations image_name assocs (GoMap.values assocs) ++ validate rest

abbrev pub association_digests : Association → List String
association_digests a = a.layer_digests ++ (a.manifest_digests ++ (a.id ∷ []))

abbrev pub digests_of : List Association → List String
digests_of [] = []
digests_of (a ∷ rest) = association_digests a ++ digests_of rest

unfoldable pub get_digests : AssociationSet → List String
get_digests [] = []
get_digests ((image_name, assocs) ∷ rest) = digests_of (GoMap.values assocs) ++ get_digests rest

-- Whether the inner loops of `GetImageFromBlob` return.
abbrev pub holds_layer : String → List Association → Bool
holds_layer digest [] = false
holds_layer digest (a ∷ rest) = if mem digest a.layer_digests then true else holds_layer digest rest

unfoldable pub get_image_from_blob : AssociationSet → String → String
get_image_from_blob [] digest = ""
get_image_from_blob ((image_name, assocs) ∷ rest) digest =
    if holds_layer digest (GoMap.values assocs) then image_name else get_image_from_blob rest digest

-- `Prune` returns the set built so far beside the error.
unfoldable pub prune_loop :
    AssociationSet → List String → AssociationSet → AssociationSet × Option SetError
prune_loop set [] pruned = (pruned, none)
prune_loop set (key ∷ rest) pruned = elim (GoMap.lookup key set) [
  | none ↦ (pruned, some (key_not_in_associations key))
  | some assocs ↦ prune_loop set rest (GoMap.insert key assocs pruned)
]

unfoldable pub prune : AssociationSet → List String → AssociationSet × Option SetError
prune set keep_key = prune_loop set keep_key []
