-- ===== src/Mirror/Publish.antt =====
-- pkg/cli/mirror/publish.go: the check of the sequence number, and unpacking from the archives. What
-- the file system, the archives and the registry answer are parameters.
pub mod Blobs
pub mod Layers
pub mod Images
pub mod Command
pub mod Advances
use Prim.Native.String.{◌++◌ as concat}
use oc_mirror.Base.{
  String, ℕ, suc, ◌+◌, List, [], ◌∷◌, Bool, true, false, Option, none, some, Result, ok, err,
  if◌then◌else◌, ◌==◌, string_eq, nat_eq, not,
}
use oc_mirror.Base.Paths
use oc_mirror.Base.GoMap
use oc_mirror.Base.GoMap.{Map}
use oc_mirror.Api.Config.{Metadata}
use oc_mirror.Image.Convert.{ConvertError}
use oc_mirror.Image.Reference.{TypedImageReference, DockerImageReference}
use oc_mirror.Image.Mapping.{TypedImageMapping}

-- What the file system reports: `os.ErrNotExist`, or another error.
pub data FileError : Type 0 where
  not_exist file_failed : FileError

-- An aggregate of errors is a list of them, and nil the empty list.
pub data PublishError : Type 0 where
  sequence_error : ℕ → ℕ → PublishError
  archive_file_not_found : String → PublishError
  file_error : FileError → PublishError
  manifest_missing : String → String → PublishError
  invalid_reference : String → PublishError
  not_a_registry : String → PublishError
  not_converted : ConvertError → PublishError
  layer_unknown : String → PublishError
  blob_not_fetched : String → PublishError
  image_not_published : PublishError
  preparation_failed signatures_failed custom_images_failed metadata_failed : PublishError

-- A member of the mirror library's list of mappings.
pub record ImageMapping : Type 0 where
  pub name : String
  pub source : TypedImageReference
  pub destination : TypedImageReference

-- Extracting a file of an archive into a directory, `os.Stat` as it stands when it is called, fetching
-- a blob to several paths, and mirroring the mappings of an image. `none` is success.
pub record Outside : Type 0 where
  pub extract : String → String → String → Option FileError
  pub stat : String → Option FileError
  pub fetch_blob : DockerImageReference → String → List String → Bool
  pub publish_image : List ImageMapping → Bool

module _ {V : Type 0} where
  -- The check of the incoming metadata against the current one, `none` where there is none yet.
  unfoldable pub check_sequence : Option (Metadata V) → Metadata V → Option PublishError
  check_sequence none incoming =
      if incoming.past_mirror.sequence == 1
      then none
      else some (sequence_error 1 incoming.past_mirror.sequence)
  check_sequence (some current) incoming =
      if incoming.past_mirror.sequence == current.past_mirror.sequence + 1
      then none
      else some (sequence_error (current.past_mirror.sequence + 1) incoming.past_mirror.sequence)

-- `unpack`
unfoldable pub unpack : Outside → String → String → Map String String → Option PublishError
unpack out file dest files = elim (GoMap.lookup file files) [
  | none ↦ some (archive_file_not_found file)
  | some archive ↦ elim (out.extract archive file dest) [
    | some e ↦ some (file_error e)
    | none ↦ elim (out.stat (Paths.path_join (dest ∷ (file ∷ [])))) [
      | some e ↦ some (file_error e)
      | none ↦ none
    ]
  ]
]
