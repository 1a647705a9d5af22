-- ===== src/Image/Convert.antt =====
-- pkg/image/convert.go: association sets to and from the lists that the metadata stores.

pub mod Grows
pub mod Complete
pub mod Kept
use Prim.Native.String.{◌++◌ as concat}
use oc_mirror.Base.{
  String, List, [], ◌∷◌, ◌++◌, Bool, true, false, not, Option, none, some, string_eq, if◌then◌else◌,
}
use oc_mirror.Base.GoMap
use oc_mirror.Base.GoMap.{Map}
use oc_mirror.Api.Image
use oc_mirror.Api.Image.{Association, ImageError, is_empty}
use oc_mirror.Image.AssociationSet.{AssociationSet, Associations, add}

-- Names are not unique, since images can share a child manifest: the key is name and path.
abbrev pub mapping_key : String → String → String
mapping_key name path = concat name path

-- The first loop: the accepted associations by key, and the errors of the others.
unfoldable pub index_associations :
    List Association → Map String Association → Map String Association × List ImageError
index_associations [] mapping = (mapping, [])
index_associations (a ∷ rest) mapping = elim (Image.validate a) [
  | none ↦ index_associations rest (GoMap.insert (mapping_key a.name a.path) a mapping)
  | some e ↦ let (m, errs) = index_associations rest mapping in (m, e ∷ errs)
]

-- The variables of the second loop.
pub record Progress : Type 0 where
  pub set : AssociationSet
  pub visited : Map String (Unit {0})

pub data ConvertError : Type 0 where
  invalid_associations : List ImageError → ConvertError
  association_missing : String → ConvertError

-- The loop over the child manifests of an index.
unfoldable pub add_children :
    Map String Association → Association → List String → Progress → Progress × Option ConvertError
add_children mapping value [] p = (p, none)
add_children mapping value (digest ∷ rest) p =
    elim (GoMap.lookup (mapping_key digest value.path) mapping) [
      | none ↦ (p, some (association_missing digest))
      | some child ↦ add_children mapping value rest (record {
        set = add p.set value.name (child ∷ []);
        visited = GoMap.insert child.name tt p.visited;
      })
    ]

-- An empty inner map for an image that has none.
abbrev pub ensure_key : String → AssociationSet → AssociationSet
ensure_key name set = if GoMap.has name set then set else GoMap.insert name [] set

abbrev pub mark : Association → Progress × Option ConvertError → Progress × Option ConvertError
mark value (p, some e) = (p, some e)
mark value (p, none) = (record p { visited = GoMap.insert value.name tt p.visited }, none)

-- The body of the second loop, for an index.
unfoldable pub add_index :
    Map String Association → Association → Progress → Progress × Option ConvertError
add_index mapping value p = mark value (
    add_children mapping value value.manifest_digests
      (record p { set = add (ensure_key value.name p.set) value.name (value ∷ []) }))

-- Goes on unless there was an error.
abbrev pub and_then :
    Progress × Option ConvertError
    → (Progress → Progress × Option ConvertError)
    → Progress × Option ConvertError
and_then (p, some e) f = (p, some e)
and_then (p, none) f = f p

-- The second loop, over the values of the mapping.
unfoldable pub add_indexes :
    Map String Association → List Association → Progress → Progress × Option ConvertError
add_indexes mapping [] p = (p, none)
add_indexes mapping (value ∷ rest) p =
    and_then (if is_empty value.manifest_digests then (p, none) else add_index mapping value p)
      (add_indexes mapping rest)

-- The third loop: image manifests with no parent.
unfoldable pub add_orphans :
    List Association → Map String (Unit {0}) → AssociationSet → AssociationSet
add_orphans [] visited set = set
add_orphans (value ∷ rest) visited set =
    add_orphans rest visited
      (if GoMap.has value.name visited then set else add set value.name (value ∷ []))

abbrev pub blank : Progress
blank = record { set = []; visited = [] }

abbrev pub finish :
    Map String Association → Progress × Option ConvertError → AssociationSet × Option ConvertError
finish mapping (p, some e) = (p.set, some e)
finish mapping (p, none) = (add_orphans (GoMap.values mapping) p.visited p.set, none)

-- The second and the third loop, once the mapping is made.
unfoldable pub group_associations : Map String Association → AssociationSet × Option ConvertError
group_associations mapping = finish mapping (add_indexes mapping (GoMap.values mapping) blank)

abbrev pub check_errors :
    Map String Association × List ImageError → AssociationSet × Option ConvertError
check_errors (mapping, []) = group_associations mapping
check_errors (mapping, e ∷ errs) = ([], some (invalid_associations (e ∷ errs)))

unfoldable pub convert_to_association_set : List Association → AssociationSet × Option ConvertError
convert_to_association_set assocs = check_errors (index_associations assocs [])

-- The inner loop of `ConvertFromAssociationSet`: what passes validation, and the errors.
unfoldable pub collect : List Association → List Association × List ImageError
collect [] = ([], [])
collect (a ∷ rest) =
    let (as', errs) = collect rest in
    elim (Image.validate a) [ none ↦ (a ∷ as', errs) | some e ↦ (as', e ∷ errs) ]

abbrev pub all_values : AssociationSet → List Association
all_values [] = []
all_values ((k, m) ∷ set) = GoMap.values m ++ all_values set

unfoldable pub convert_from_association_set : AssociationSet → List Association × List ImageError
unfolding collect
convert_from_association_set set = collect (all_values set)
