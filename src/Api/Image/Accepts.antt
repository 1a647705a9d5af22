-- ===== src/Api/Image/Accepts.antt =====
-- What validation of an association accepts, and the names of image types in JSON.
use mathlib.Core.Path.{subst}
use text.Mathlib.TextEquality.{eq_iff}
use oc_mirror.Base.{
  String, ◌≡◌, refl, ◌≢◌, none, some, ok, [], ◌↔◌, ◌⊎◌, inl, inr, arith, string_eq,
}
use oc_mirror.Api.Image.{
  ImageType, Association, invalid, ocp_release, ocp_release_content, cincinnati_graph,
  operator_catalog, operator_bundle, operator_related_image, generic, unknown, image_strings_type,
  image_type_strings, marshal_type, validate,
}

read_name :
    {it : ImageType} (n s : String)
    → some n ≡ some s
    → image_strings_type n ≡ it
    → image_strings_type s ≡ it
read_name {it} n s h r = let e : n ≡ s = cc in subst (λ t. image_strings_type t ≡ it) e r

-- A name in one table is found in the other.
image_strings_type-image_type_strings :
    (it : ImageType) (s : String) → image_type_strings it ≡ some s → image_strings_type s ≡ it
unfolding image_type_strings image_strings_type
image_strings_type-image_type_strings invalid s h = cc
image_strings_type-image_type_strings (unknown n) s h = cc
image_strings_type-image_type_strings ocp_release s h = read_name _ s h refl
image_strings_type-image_type_strings ocp_release_content s h = read_name _ s h refl
image_strings_type-image_type_strings cincinnati_graph s h = read_name _ s h refl
image_strings_type-image_type_strings operator_catalog s h = read_name _ s h refl
image_strings_type-image_type_strings operator_bundle s h = read_name _ s h refl
image_strings_type-image_type_strings operator_related_image s h = read_name _ s h refl
image_strings_type-image_type_strings generic s h = read_name _ s h refl

-- What is read from a name is the invalid type, or the type with that name.
image_strings_type-cases :
    (s : String)
    → (image_strings_type s ≡ invalid) ⊎ (image_type_strings (image_strings_type s) ≡ some s)
unfolding image_strings_type image_type_strings
image_strings_type-cases s = ground (
  arith,
  eq_iff s "ocpReleaseContent",
  eq_iff s "cincinnatiGraph",
  eq_iff s "ocpRelease",
  eq_iff s "operatorCatalog",
  eq_iff s "operatorBundle",
  eq_iff s "operatorRelatedImage",
  eq_iff s "generic",
)

marshal_type-eq-ok :
    (it : ImageType) (s : String) → (marshal_type it ≡ ok s) ↔ (image_type_strings it ≡ some s)
unfolding marshal_type
marshal_type-eq-ok it s = ground arith

not_invalid : (it : ImageType) (s : String) → image_type_strings it ≡ some s → it ≢ invalid
unfolding image_type_strings
not_invalid it s h i = ground arith

-- Marshalling an image type succeeds with a name exactly when the name is read back as that type
-- and the type is not the invalid one.
pub marshal_type-image_strings_type :
    (it : ImageType) (s : String)
    → (marshal_type it ≡ ok s) ↔ ((image_strings_type s ≡ it) × (it ≢ invalid))
marshal_type-image_strings_type it s =
    let named = image_strings_type-image_type_strings it s in
    let marshalled = marshal_type-eq-ok it s in
    (
      λ h. (named (marshalled.0 h), not_invalid it s (marshalled.0 h)),
      λ (read, valid). elim (image_strings_type-cases s) [
        | inl e ↦ absurd (valid (cc))
        | inr e ↦ marshalled.1 (cc)
      ],
    )

-- An association is accepted exactly when it has manifests or layers and not both, an ID or a tag,
-- and a type that has a name.
pub validate-eq-none :
    (a : Association)
    → (validate a ≡ none) ↔ (
        ((a.manifest_digests ≡ []) × (a.layer_digests ≢ [])
          ⊎ (a.manifest_digests ≢ []) × (a.layer_digests ≡ []))
        × ((a.id ≢ "") ⊎ (a.tag_symlink ≢ ""))
        × (image_type_strings a.type ≢ none))
unfolding validate
validate-eq-none a = ground (arith, eq_iff a.id "", eq_iff a.tag_symlink "")
