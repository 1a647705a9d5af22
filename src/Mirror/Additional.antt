-- ===== src/Mirror/Additional.antt =====
-- pkg/cli/mirror/additional.go: the mapping of the additional images. `DockerClientDefaults` and
-- resolving a tag are parameters; an error of the resolution carries whether the image was not found.
use oc_mirror.Base.{
  String, List, [], ◌∷◌, Bool, ◌&&◌, ◌||◌, Option, none, some, Result, ok, err, ◌>>=◌,
  if◌then◌else◌, ◌==◌, string_eq,
}
use oc_mirror.Api.Config.{Image}
use oc_mirror.Api.Image.{generic}
use oc_mirror.Image.Mapping
use oc_mirror.Image.Mapping.{TypedImageMapping}
use oc_mirror.Image.Reference.{TypedImageReference, DockerImageReference, References}

pub data AdditionalError : Type 0 where
  invalid_image : String → AdditionalError
  not_resolved : AdditionalError

-- `true` for an image that was not found.
pub record Resolver : Type 0 where
  pub is_image_pinned : String → Bool
  pub resolve_to_pin : String → Result Bool String
  pub docker_client_defaults : DockerImageReference → DockerImageReference

-- `setLatest`
abbrev pub set_latest : TypedImageReference → Bool
set_latest img = (img.ref.id == "") && (img.ref.tag == "")

abbrev pub with_tag : String → TypedImageReference → TypedImageReference
with_tag tag img = record {
  type = img.type;
  ref = record {
    registry = img.ref.registry;
    namespace = img.ref.namespace;
    name = img.ref.name;
    tag = tag;
    id = img.ref.id;
  };
}

abbrev pub with_id : String → TypedImageReference → TypedImageReference
with_id id img = record {
  type = img.type;
  ref = record {
    registry = img.ref.registry;
    namespace = img.ref.namespace;
    name = img.ref.name;
    tag = img.ref.tag;
    id = id;
  };
}

module _ (refs : References) (resolver : Resolver) (continue_on_error skip_missing : Bool) where
  -- The destination: a file, without the registry.
  abbrev pub file_of : TypedImageReference → TypedImageReference
  file_of src =
      let ref = resolver.docker_client_defaults src.ref in
      record {
        type = "file";
        ref = record {
          registry = "";
          namespace = ref.namespace;
          name = ref.name;
          tag = ref.tag;
          id = ref.id;
        };
      }

  -- The source with its digest; `none` for an image that is skipped.
  abbrev pub pinned_source :
      String → TypedImageReference → Result AdditionalError (Option TypedImageReference)
  pinned_source name src =
      if resolver.is_image_pinned (refs.exact src.ref)
      then ok (some src)
      else (elim (resolver.resolve_to_pin (refs.exact src.ref)) [
        | err not_found ↦
            if continue_on_error || (skip_missing && not_found) then ok none else err not_resolved
        | ok pin ↦ elim (refs.parse_reference pin) [
          | none ↦ err (invalid_image name)
          | some pinned ↦ ok (some (with_id pinned.ref.id src))
        ]
      ])

  abbrev pub add_source : TypedImageMapping → Option TypedImageReference → TypedImageMapping
  add_source mappings none = mappings
  add_source mappings (some src) = Mapping.add mappings src (file_of src) generic

  -- The body of the loop of `Plan`.
  unfoldable pub plan_image : Image → TypedImageMapping → Result AdditionalError TypedImageMapping
  plan_image img mappings = elim (refs.parse_reference img.name) [
    | none ↦ err (invalid_image img.name)
    | some parsed ↦
        pinned_source img.name (if set_latest parsed then with_tag "latest" parsed else parsed)
        >>= λ src. ok (add_source mappings src)
  ]

  unfoldable pub plan_images :
      List Image → TypedImageMapping → Result AdditionalError TypedImageMapping
  plan_images [] mappings = ok mappings
  plan_images (img ∷ imgs) mappings = plan_image img mappings >>= plan_images imgs

  unfoldable pub plan_additional : List Image → Result AdditionalError TypedImageMapping
  plan_additional image_list = plan_images image_list []
