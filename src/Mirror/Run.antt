-- ===== src/Mirror/Run.antt =====
-- pkg/cli/mirror/mirror.go: `checkErr`, `mirrorMappings`, and the case of `Run` that mirrors to the
-- disk, put together from its parts. Mirroring images and reading directories are parameters.
pub mod Archived
use oc_mirror.Base.{
  String, ℕ, List, [], ◌∷◌, Bool, true, false, not, ◌&&◌, Option, none, some, Result, ok, err,
  ◌>>=◌, if◌then◌else◌,
}
use oc_mirror.Api.Config.{ImageSetConfiguration, Image, Metadata, storage_is_set}
use oc_mirror.Api.Include.{IncludeConfig}
use oc_mirror.Bundle.{Root, is_blocked}
use oc_mirror.Image.AssociationSet.{AssociationSet}
use oc_mirror.Image.Builder.{
  BuildError, invalid_image, invalid_component, Disk, associate_local_image_layers,
}
use oc_mirror.Image.Mapping.{TypedImageMapping, write_image_mapping}
use oc_mirror.Image.Reference.{TypedImage, TypedImageReference, References}
use oc_mirror.Metadata.{Catalogs}
use oc_mirror.Mirror.Create.{BackendError, CreateError, Planned, Planners, create}
use oc_mirror.Mirror.Pack.{PackError, pack}
use oc_mirror.Mirror.Pack
use oc_mirror.Mirror.Previous.{PreviousError, Previous, remove_previously_mirrored}
use oc_mirror.Mirror.Previous

pub data RunError : Type 0 where
  plan_failed : CreateError → RunError
  previous_failed : PreviousError → RunError
  images_failed : RunError
  layers_failed : BuildError → RunError
  pack_failed : PackError → RunError
  sync_failed continued_on_error : RunError

-- `checkErr`, with `continuedOnError`: an error is noted and not returned where the options say so and
-- it is acceptable, as every error is without a test.
unfoldable pub check_err : {E : Type 0} → Bool → Option (E → Bool) → Bool → Option E → Result E Bool
check_err continue_on_error acceptable continued none = ok continued
check_err continue_on_error none continued (some e) = if continue_on_error then ok true else err e
check_err continue_on_error (some acceptable) continued (some e) =
    if continue_on_error && acceptable e then ok true else err e

-- The loop over several errors.
unfoldable pub check_errs : {E : Type 0} → Bool → (E → Bool) → Bool → List E → Result E Bool
check_errs continue_on_error acceptable continued [] = ok continued
check_errs continue_on_error acceptable continued (e ∷ es) =
    check_err continue_on_error (some acceptable) continued (some e) >>= λ noted.
    check_errs continue_on_error acceptable noted es

-- The errors of images that the command may go on without.
abbrev pub skip_err : BuildError → Bool
skip_err (invalid_image image) = true
skip_err (invalid_component image tag) = true
skip_err e = false

pub record MappedImage : Type 0 where
  pub source : TypedImageReference
  pub destination : TypedImageReference
  pub name : String

abbrev pub reference_of : TypedImage → TypedImageReference
reference_of image = record { type = image.type; ref = image.ref }

-- The images that `mirrorMappings` mirrors: those that are not blocked.
unfoldable pub mirrored_images : List Image → TypedImageMapping → List MappedImage
mirrored_images blocked [] = []
mirrored_images blocked ((src, dst) ∷ rest) =
    let later = mirrored_images blocked rest in
    if is_blocked blocked src.ref
    then later
    else record { source = reference_of src; destination = reference_of dst; name = src.ref.name }
      ∷ later

unfoldable pub mirror_mappings :
    {V : Type 0}
    → (List MappedImage → Bool)
    → Bool
    → Bool
    → ImageSetConfiguration V
    → TypedImageMapping
    → Result RunError Bool
mirror_mappings mirror continue_on_error continued cfg images =
    check_err continue_on_error none continued (
      if mirror (mirrored_images cfg.mirror.blocked_images images)
      then none
      else some images_failed)

-- What the command is run with. `roots` reads the v2 directory when the files are packed, `archive`
-- writes the archive, `sync` writes the metadata to the configured storage.
pub record Command (V : Type 0) : Type 0 where
  pub refs : References
  pub image_string : TypedImage → String
  pub planners : Planners V
  pub catalogs : Catalogs V
  pub include : IncludeConfig V
  pub mirror : List MappedImage → Bool
  pub disk : Disk
  pub source_dir : String
  pub fuel : ℕ
  pub roots : List Root
  pub archive : ℕ → ℕ → List String → List String → Bool
  pub writable : Bool
  pub sync : Metadata V → Bool
  pub now : ℕ
  pub uid : String
  pub empty : Metadata V
  pub continue_on_error : Bool
  pub ignore_history : Bool
  pub dry_run : Bool

-- What a run does without an error: nothing for lack of updates, write the mapping, or make an image
-- set with its metadata.
pub data Outcome (V : Type 0) : Type 0 where
  no_updates : Outcome V
  mapping_written : List String → Outcome V
  image_set : Metadata V → Outcome V

module _ {V : Type 0} (command : Command V) where
  abbrev pub planned : Metadata V × Planned → Result RunError (Metadata V × TypedImageMapping)
  planned (meta, (mapping, none)) = ok (meta, mapping)
  planned (meta, (mapping, some e)) = err (plan_failed e)

  abbrev pub layer_errors : Result BuildError Bool → Result RunError Bool
  layer_errors (ok continued) = ok continued
  layer_errors (err e) = err (layers_failed e)

  -- After the archive: the metadata is synchronized, and an error that was noted is reported.
  abbrev pub finish_run :
      ImageSetConfiguration V → Bool → Result PackError (Metadata V) → Result RunError (Outcome V)
  finish_run cfg continued (err Pack.no_updates_exist) = ok no_updates
  finish_run cfg continued (err e) = err (pack_failed e)
  finish_run cfg continued (ok packed) =
      if storage_is_set cfg.storage_config && not (command.sync packed)
      then err sync_failed
      else if continued
      then err continued_on_error
      else ok (image_set packed)

  -- From the mapping that is left to the archive.
  abbrev pub make_image_set :
      ImageSetConfiguration V
      → Metadata V
      → AssociationSet
      → TypedImageMapping
      → Result RunError (Outcome V)
  make_image_set cfg meta prev images =
      mirror_mappings command.mirror command.continue_on_error false cfg images >>= λ mirrored.
      let built =
        associate_local_image_layers command.refs command.image_string command.fuel command.disk
          command.source_dir images in
      layer_errors (check_errs command.continue_on_error skip_err mirrored built.errs)
      >>= λ continued. finish_run cfg continued (
          pack command.catalogs command.include command.archive command.writable
            command.ignore_history cfg.archive_size prev built.set command.roots meta)

  abbrev pub run_left :
      ImageSetConfiguration V
      → Metadata V
      → Previous
      → Option PreviousError
      → Result RunError (Outcome V)
  run_left cfg meta previous (some Previous.no_updates_exist) = ok no_updates
  run_left cfg meta previous (some e) = err (previous_failed e)
  run_left cfg meta previous none =
      if command.dry_run
      then ok (mapping_written (write_image_mapping command.refs previous.images))
      else make_image_set cfg meta previous.associations previous.images

  -- The case of `Run` for a destination on the disk.
  unfoldable pub mirror_to_disk :
      ImageSetConfiguration V → Result BackendError (Metadata V) → Result RunError (Outcome V)
  mirror_to_disk cfg stored =
      planned (create command.planners command.now command.uid command.empty cfg stored)
      >>= λ (meta, mapping).
          let previous =
            remove_previously_mirrored command.refs command.ignore_history mapping
              meta.past_associations in
          run_left cfg meta previous previous.failure
