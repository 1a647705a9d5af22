-- ===== src/Mirror/Publish/Layers.antt =====
-- pkg/cli/mirror/publish.go, `Publish`: the child manifests and the layers of one association.
use oc_mirror.Base.{String, List, [], ◌∷◌, ◌++◌, none, some, if◌then◌else◌, string_eq, or_default}
use oc_mirror.Base.Paths
use oc_mirror.Base.GoMap
use oc_mirror.Base.GoMap.{Map}
use oc_mirror.Api.Image.{Association}
use oc_mirror.Image.AssociationSet.{AssociationSet, contains_key}
use oc_mirror.Mirror.Publish.{
  not_exist, file_failed, PublishError, archive_file_not_found, file_error, manifest_missing,
  Outside, unpack,
}
use oc_mirror.Mirror.Publish.Blobs.{error_list}

unfoldable pub manifest_path : Association → String
manifest_path assoc = Paths.path_join ("v2" ∷ (assoc.path ∷ ("manifests" ∷ [])))

-- The layers that no archive has, with the paths that they go to, and the errors.
pub record LayerState : Type 0 where
  pub missing : Map String (List String)
  pub errs : List PublishError

abbrev pub add_missing : String → String → Map String (List String) → Map String (List String)
add_missing digest path missing =
    GoMap.insert digest (or_default [] (GoMap.lookup digest missing) ++ path ∷ []) missing

module _ (out : Outside) (files : Map String String) (unpack_dir : String) where
  -- A child manifest that is on the disk already is not unpacked.
  abbrev pub unpack_manifest : String → List PublishError
  unpack_manifest path = elim (out.stat path) [
    | none ↦ []
    | some not_exist ↦ error_list (unpack out path unpack_dir files)
    | some file_failed ↦ file_error file_failed ∷ []
  ]

  -- The loop over the child manifests: its errors.
  unfoldable pub unpack_manifests :
      AssociationSet → String → String → List String → List PublishError
  unpack_manifests assocs image_name path [] = []
  unpack_manifests assocs image_name path (digest ∷ rest) =
      let later = unpack_manifests assocs image_name path rest in
      (if contains_key assocs image_name digest
        then unpack_manifest (Paths.path_join (path ∷ (digest ∷ [])))
        else manifest_missing image_name digest ∷ [])
      ++ later

  unfoldable pub unpack_layer : String → String → LayerState → LayerState
  unpack_layer image_path digest s =
      let blob_path = Paths.path_join ("blobs" ∷ (digest ∷ [])) in
      let absent : LayerState = record {
        missing = add_missing digest (Paths.path_join (image_path ∷ (blob_path ∷ []))) s.missing;
        errs = s.errs;
      } in
      elim (unpack out blob_path image_path files) [
        | none ↦ s
        | some (file_error not_exist) ↦ absent
        | some (archive_file_not_found name) ↦ absent
        | some e ↦ record { missing = s.missing; errs = s.errs ++ e ∷ [] }
      ]

  unfoldable pub unpack_layers : String → List String → LayerState → LayerState
  unpack_layers image_path [] s = s
  unpack_layers image_path (digest ∷ rest) s =
      unpack_layers image_path rest (unpack_layer image_path digest s)
