-- ===== src/Api/Image.antt =====
-- pkg/api/v1alpha2/types_image.go
pub mod Accepts
use oc_mirror.Base.{
  String, ℕ, List, [], ◌∷◌, Bool, true, false, ◌&&◌, not, Option, none, some, ◌==◌, string_eq,
  Result, ok, err, if◌then◌else◌, is_some,
}

-- `ImageType` is an `int`; `unknown` stands for the values that are no constant of the block.
pub data ImageType : Type 0 where
  invalid ocp_release ocp_release_content cincinnati_graph operator_catalog : ImageType
  operator_bundle operator_related_image generic : ImageType
  unknown : ℕ → ImageType

-- A lookup in `imageTypeStrings`.
unfoldable pub image_type_strings : ImageType → Option String
image_type_strings invalid = none
image_type_strings ocp_release = some "ocpRelease"
image_type_strings ocp_release_content = some "ocpReleaseContent"
image_type_strings cincinnati_graph = some "cincinnatiGraph"
image_type_strings operator_catalog = some "operatorCatalog"
image_type_strings operator_bundle = some "operatorBundle"
image_type_strings operator_related_image = some "operatorRelatedImage"
image_type_strings generic = some "generic"
image_type_strings (unknown n) = none

-- A lookup in `imageStringsType`; a key that is missing gives the zero value, `TypeInvalid`.
unfoldable pub image_strings_type : String → ImageType
image_strings_type s =
    if s == "ocpReleaseContent"
    then ocp_release_content
    else if s == "cincinnatiGraph"
    then cincinnati_graph
    else if s == "ocpRelease"
    then ocp_release
    else if s == "operatorCatalog"
    then operator_catalog
    else if s == "operatorBundle"
    then operator_bundle
    else if s == "operatorRelatedImage"
    then operator_related_image
    else if s == "generic"
    then generic
    else invalid

pub data ImageError : Type 0 where
  must_set_image_type : ImageError
  unknown_image_type : ℕ → ImageError
  both_manifests_and_layers no_child_descriptors no_tag_or_id : String → ImageError

unfoldable pub validate_type : ImageType → Option ImageError
unfolding image_type_strings
validate_type it = if is_some (image_type_strings it) then none else type_error it
  where
    type_error : ImageType → Option ImageError
    type_error (unknown n) = some (unknown_image_type n)
    type_error other = some must_set_image_type

-- `String` gives the empty string for a type with no name.
unfoldable pub type_string : ImageType → String
unfolding image_type_strings
type_string it = elim (image_type_strings it) [ none ↦ "" | some s ↦ s ]

-- The string that `MarshalJSON` hands to `json.Marshal`.
unfoldable pub marshal_type : ImageType → Result ImageError String
unfolding validate_type type_string
marshal_type it = elim (validate_type it) [ some e ↦ err e | none ↦ ok (type_string it) ]

pub record Association : Type 0 where
  pub name : String
  pub path : String
  pub id : String
  pub tag_symlink : String
  pub type : ImageType
  pub manifest_digests : List String
  pub layer_digests : List String

abbrev pub is_empty {ℓ} : {A : Type ℓ} → List A → Bool
is_empty [] = true
is_empty (x ∷ xs) = false

unfoldable pub validate : Association → Option ImageError
unfolding validate_type
validate a =
    if not (is_empty a.manifest_digests) && not (is_empty a.layer_digests)
    then some (both_manifests_and_layers a.name)
    else if is_empty a.manifest_digests && is_empty a.layer_digests
    then some (no_child_descriptors a.name)
    else if a.id == "" && a.tag_symlink == ""
    then some (no_tag_or_id a.name)
    else validate_type a.type
