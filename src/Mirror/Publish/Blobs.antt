-- ===== src/Mirror/Publish/Blobs.antt =====
-- pkg/cli/mirror/publish.go, `fetchBlobs` and `findBlobRepo`: layers that no archive has are read from
-- the registry, where an earlier run put them.
use oc_mirror.Base.{String, List, [], ◌∷◌, ◌++◌, Option, none, some, if◌then◌else◌, ◌==◌, string_eq}
use oc_mirror.Base.Paths
use oc_mirror.Base.GoMap.{Map}
use oc_mirror.Api.Config.{Metadata}
use oc_mirror.Image.AssociationSet.{AssociationSet, get_image_from_blob}
use oc_mirror.Image.Convert.{ConvertError, convert_to_association_set}
use oc_mirror.Image.Reference.{DockerImageReference, References}
use oc_mirror.Mirror.Publish.{
  PublishError, layer_unknown, invalid_reference, blob_not_fetched, not_converted, Outside,
}

-- Where the destination is: `o.ToMirror` and `o.UserNamespace`.
pub record Destination : Type 0 where
  pub to_mirror : String
  pub user_namespace : String

abbrev pub blank_ref : DockerImageReference
blank_ref = record { registry = ""; namespace = ""; name = ""; tag = ""; id = "" }

unfoldable pub in_mirror : Destination → DockerImageReference → DockerImageReference
in_mirror dest ref = record {
  registry = dest.to_mirror;
  namespace = Paths.path_join (dest.user_namespace ∷ (ref.namespace ∷ []));
  name = ref.name;
  tag = ref.tag;
  id = ref.id;
}

abbrev pub error_list : Option PublishError → List PublishError
error_list none = []
error_list (some e) = e ∷ []

module _ (refs : References) (out : Outside) (dest : Destination) where
  -- The reference, which Go returns beside an error too, and the error.
  unfoldable pub find_blob_repo :
      AssociationSet → String → DockerImageReference × Option PublishError
  find_blob_repo assocs layer_digest =
      let src_ref = get_image_from_blob assocs layer_digest in
      if src_ref == ""
      then (blank_ref, some (layer_unknown layer_digest))
      else (elim (refs.parse_reference src_ref) [
        | none ↦ (in_mirror dest blank_ref, some (invalid_reference src_ref))
        | some r ↦ (in_mirror dest r.ref, none)
      ])

  -- The loop over the missing layers. A layer without a repository is fetched all the same, from the
  -- empty reference.
  unfoldable pub fetch_layers : AssociationSet → Map String (List String) → List PublishError
  fetch_layers as_set [] = []
  fetch_layers as_set ((layer_digest, paths) ∷ rest) =
      let found = find_blob_repo as_set layer_digest in
      let later = fetch_layers as_set rest in
      error_list found.1
      ++ (if out.fetch_blob found.0 layer_digest paths
          then later
          else blob_not_fetched layer_digest ∷ later)

  abbrev pub fetch_converted :
      Map String (List String) → AssociationSet × Option ConvertError → List PublishError
  fetch_converted missing (as_set, some e) = not_converted e ∷ []
  fetch_converted missing (as_set, none) = fetch_layers as_set missing

  unfoldable pub fetch_blobs :
      {V : Type 0} → Metadata V → Map String (List String) → List PublishError
  fetch_blobs meta missing =
      fetch_converted missing (convert_to_association_set meta.past_associations)
