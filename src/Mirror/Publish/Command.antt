-- ===== src/Mirror/Publish/Command.antt =====
-- pkg/cli/mirror/publish.go, `Publish`. What comes before the check of the sequence number is taken as
-- done: the archives are read into `files`, and the incoming metadata is loaded. `Run` drops the
-- mappings that Go returns beside an error, so an error stands alone here.
use oc_mirror.Base.{
  String, List, [], ◌∷◌, Bool, true, false, Option, none, some, Result, ok, err, ◌>>=◌,
  if◌then◌else◌, ◌==◌, string_eq,
}
use oc_mirror.Base.GoMap
use oc_mirror.Base.GoMap.{Map}
use oc_mirror.Api.Config.{Metadata}
use oc_mirror.Image.AssociationSet.{AssociationSet}
use oc_mirror.Image.Convert.{ConvertError, convert_to_association_set}
use oc_mirror.Image.Mapping
use oc_mirror.Image.Mapping.{TypedImageMapping}
use oc_mirror.Image.Reference.{TypedImageReference, References, destination_registry}
use oc_mirror.Mirror.Publish.{
  PublishError, invalid_reference, not_a_registry, not_converted, preparation_failed,
  signatures_failed, custom_images_failed, metadata_failed, Outside, check_sequence, unpack,
}
use oc_mirror.Mirror.Publish.Blobs.{Destination}
use oc_mirror.Mirror.Publish.Images.{process_images}

-- `unpackCatalog`, `rebuildCatalogs`, `unpackRelease` and `buildGraphImage`; `none` is an error.
pub record CustomImages : Type 0 where
  pub unpack_catalog : Map String String → Option Bool
  pub rebuild_catalogs : Option TypedImageMapping
  pub unpack_release : Map String String → Option Bool
  pub build_graph_image : Option TypedImageMapping

-- A part of `processCustomImages`: images are built where the archive has the data.
unfoldable pub add_built :
    Option Bool
    → Option TypedImageMapping
    → TypedImageMapping
    → Result (List PublishError) TypedImageMapping
add_built none built all_mappings = err (custom_images_failed ∷ [])
add_built (some false) built all_mappings = ok all_mappings
add_built (some true) none all_mappings = err (custom_images_failed ∷ [])
add_built (some true) (some refs) all_mappings = ok (Mapping.merge all_mappings refs)

unfoldable pub process_custom_images :
    CustomImages → Map String String → Result (List PublishError) TypedImageMapping
process_custom_images custom files =
    add_built (custom.unpack_catalog files) custom.rebuild_catalogs [] >>= λ catalogs.
    add_built (custom.unpack_release files) custom.build_graph_image catalogs

-- What `Publish` is given: the options, the names of the directories, `UpdatePath`, unpacking the
-- release signatures, and the functions above. `no_metadata` is the zero value.
pub record Setting (V : Type 0) : Type 0 where
  pub refs : References
  pub out : Outside
  pub dest : Destination
  pub custom : CustomImages
  pub output_dir : String
  pub unpack_dir : String → String
  pub update_path : AssociationSet → Option AssociationSet
  pub unpack_signatures : String → Map String String → Bool
  pub no_metadata : Metadata V

abbrev pub set_of : AssociationSet × Option ConvertError → Result (List PublishError) AssociationSet
set_of (set, none) = ok set
set_of (set, some e) = err (not_converted e ∷ [])

abbrev pub collected :
    List PublishError → TypedImageMapping → Result (List PublishError) TypedImageMapping
collected [] all_mappings = ok all_mappings
collected (e ∷ es) all_mappings = err (e ∷ es)

abbrev pub as_result : Option PublishError → Result {0, 0} (List PublishError) Unit
as_result none = ok tt
as_result (some e) = err (e ∷ [])

abbrev pub helm_dir : String
helm_dir = "charts"

-- The metadata in the workspace, and that in the registry by the identifier of the workspace: its
-- image's name is made of it.
pub record Stores (V : Type 0) : Type 0 where
  pub workspace : Option (Metadata V)
  pub registry : Map String (Metadata V)

abbrev pub unreadable :
    {V : Type 0}
    → Option (Metadata V)
    → Option (Metadata V) × Result (List PublishError) TypedImageMapping
unreadable current = (current, err (metadata_failed ∷ []))

abbrev pub put :
    {V : Type 0} → String → Option (Metadata V) → Map String (Metadata V) → Map String (Metadata V)
put uid none registry = registry
put uid (some m) registry = GoMap.insert uid m registry

abbrev pub written :
    {V : Type 0}
    → Bool
    → Option (Metadata V)
    → Metadata V
    → Result (List PublishError) TypedImageMapping
    → Option (Metadata V) × Result (List PublishError) TypedImageMapping
written writable current incoming (err es) = (current, err es)
written true current incoming (ok all_mappings) = (some incoming, ok all_mappings)
written false current incoming (ok all_mappings) = (current, err (metadata_failed ∷ []))

module _ {V : Type 0} (setting : Setting V) where
  unfoldable pub mirror_registry : Result (List PublishError) TypedImageReference
  mirror_registry = elim (setting.refs.parse_reference setting.dest.to_mirror) [
    | none ↦ err (invalid_reference setting.dest.to_mirror ∷ [])
    | some r ↦
        if r.type == destination_registry
        then ok r
        else err (not_a_registry setting.dest.to_mirror ∷ [])
  ]

  abbrev pub current_metadata : Option (Metadata V) → Metadata V
  current_metadata none = setting.no_metadata
  current_metadata (some m) = m

  -- The images of the associations of the incoming run, to the registry.
  unfoldable pub publish_images :
      Map String String → Metadata V → Metadata V → Result (List PublishError) TypedImageMapping
  publish_images files current incoming =
      set_of (convert_to_association_set incoming.past_mirror.associations) >>= λ converted.
      as_set (setting.update_path converted) >>= λ assocs. mirror_registry >>= λ to_mirror.
      process_images setting.refs setting.out setting.dest to_mirror current files assocs
        setting.unpack_dir (GoMap.keys assocs)
        (record { all_mappings = []; mmapping = []; errs = [] })
      >>= λ s. collected s.errs s.all_mappings
    where
      as_set : Option AssociationSet → Result (List PublishError) AssociationSet
      as_set none = err (preparation_failed ∷ [])
      as_set (some set) = ok set

  -- From the check of the sequence number to where the metadata is written.
  unfoldable pub publish_incoming :
      Map String String
      → Option (Metadata V)
      → Metadata V
      → Result (List PublishError) TypedImageMapping
  publish_incoming files current incoming =
      as_result (check_sequence current incoming) >>= λ checked.
      as_result (unpack setting.out helm_dir setting.output_dir files) >>= λ charts.
      publish_images files (current_metadata current) incoming >>= λ all_mappings.
      as_result (
        if setting.unpack_signatures setting.output_dir files then none else some signatures_failed)
      >>= λ signed. process_custom_images setting.custom files >>= λ mappings.
          ok (Mapping.merge all_mappings mappings)

  -- The part after the backend is chosen, on what it stores: the metadata is written last.
  unfoldable pub publish_to :
      Bool
      → Map String String
      → Option (Metadata V)
      → Metadata V
      → Option (Metadata V) × Result (List PublishError) TypedImageMapping
  publish_to writable files current incoming =
      written writable current incoming (publish_incoming files current incoming)

  unfoldable pub publish_read :
      Bool
      → Bool
      → Map String String
      → Option (Metadata V)
      → Metadata V
      → Option (Metadata V) × Result (List PublishError) TypedImageMapping
  publish_read readable writable files current incoming =
      if readable then publish_to writable files current incoming else unreadable current

  -- Metadata for a single use goes to the workspace, which is cleaned up in the end; other metadata to
  -- the registry. A read fails for other reasons than missing metadata where `readable` is false.
  unfoldable pub publish :
      Bool
      → Bool
      → Map String String
      → Metadata V
      → Stores V
      → Stores V × Result (List PublishError) TypedImageMapping
  publish readable writable files incoming stores =
      if incoming.single_use
      then (
        record { workspace = none; registry = stores.registry },
        (publish_read readable writable files stores.workspace incoming).1,
      )
      else (let current = GoMap.lookup incoming.uid stores.registry in
          let r = publish_read readable writable files current incoming in
          (
            record {
              workspace = stores.workspace;
              registry = put incoming.uid r.0 stores.registry;
            },
            r.1,
          ))
