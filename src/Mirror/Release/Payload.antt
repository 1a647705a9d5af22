-- ===== src/Mirror/Release/Payload.antt =====
-- release.go: the mapping of one release and its signature files. Running the release mirror, which
-- writes the lines of the mapping, and the verification of signatures are parameters.
use Prim.Native.String.{◌++◌ as concat, len, slice}
use oc_mirror.Base.{
  String, ℕ, List, [], ◌∷◌, ◌++◌, Bool, ◌||◌, Option, none, some, Result, ok, err, ◌>>=◌,
  if◌then◌else◌, ◌==◌, string_eq, ltb, ◌≡◌, refl,
}
use oc_mirror.Base.Paths
use oc_mirror.Base.GoMap
use oc_mirror.Api.Image.{ocp_release, ocp_release_content}
use oc_mirror.Image.Reference.{TypedImage, References, image_eq}
use oc_mirror.Image.Mapping.{TypedImageMapping, MappingError, read_image_mapping, parse_typed_image}

pub data PayloadError : Type 0 where
  mapping_failed : MappingError → PayloadError
  not_in_mapping : String → PayloadError
  bad_digest : String → PayloadError
  no_digest signature_failed : PayloadError

abbrev from_mapping {ℓ} : {A : Type ℓ} → Result MappingError A → Result PayloadError A
from_mapping (ok a) = ok a
from_mapping (err e) = err (mapping_failed e)

abbrev as_release : TypedImage → TypedImage
as_release img = record img { category = ocp_release }

abbrev release_repo : String
release_repo = "release-images"

abbrev in_release_repo : TypedImage → TypedImage
in_release_repo img = record {
  type = img.type;
  ref = record img.ref { name = release_repo };
  category = ocp_release;
}

abbrev add_release :
    String
    → TypedImage
    → TypedImageMapping
    → Option TypedImage
    → Result PayloadError TypedImageMapping
add_release from release mappings none = err (not_in_mapping from)
add_release from release mappings (some dst) =
    ok (GoMap.insert (as_release release) (in_release_repo dst) mappings)

-- `getMapping`, from the lines that `Run` writes for the release.
unfoldable pub get_mapping :
    References → List String → String → Result PayloadError TypedImageMapping
get_mapping refs lines from =
    from_mapping (read_image_mapping refs lines 32 ocp_release_content) >>= λ mappings.
    from_mapping (parse_typed_image refs from ocp_release_content) >>= λ release.
    add_release from release mappings (GoMap.lookup release mappings)

abbrev max_digest_hash_len : ℕ
max_digest_hash_len = 16

-- The name from the parts of the digest.
abbrev signature_name : String → List String → Result PayloadError String
signature_name digest (algo ∷ (hash ∷ [])) =
    let short =
      if ltb max_digest_hash_len (len hash) then slice hash 0 max_digest_hash_len else hash in
    if (algo == "") || (hash == "")
    then err (bad_digest digest)
    else ok (concat "signature-" (concat algo (concat "-" (concat short ".json"))))
signature_name digest _ = err (bad_digest digest)

unfoldable pub create_signature_file_name : String → Result PayloadError String
unfolding Paths.split_on
create_signature_file_name digest = signature_name digest (Paths.split_on 58 digest)

-- `strings.Split(image, "@")[1]`, where the index can be out of range.
abbrev digest_part : List String → Result PayloadError String
digest_part [] = err no_digest
digest_part (w ∷ []) = err no_digest
digest_part (w ∷ (v ∷ ws)) = ok v

module _ (verify : String → Bool) (config_map : String → Option String) where
  abbrev write_signature :
      String → List (String × String) → Option String → Result PayloadError (List (String × String))
  unfolding create_signature_file_name
  write_signature digest files none = err signature_failed
  write_signature digest files (some text) =
      create_signature_file_name digest >>= λ name. ok (files ++ (name, text) ∷ [])

  -- The files of `generateReleaseSignatures`. An image that is not verified is skipped.
  unfoldable pub generate_release_signatures :
      List String → List (String × String) → Result PayloadError (List (String × String))
  unfolding Paths.split_on write_signature
  generate_release_signatures [] files = ok files
  generate_release_signatures (image ∷ downloads) files =
      digest_part (Paths.split_on 64 image) >>= λ digest.
      (if verify digest then write_signature digest files (config_map digest) else ok files)
      >>= generate_release_signatures downloads

signature_example :
    create_signature_file_name "sha256:0123456789abcdef0123"
    ≡ ok "signature-sha256-0123456789abcdef.json"
unfolding create_signature_file_name Paths.split_on
signature_example = refl
