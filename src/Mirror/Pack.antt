-- ===== src/Mirror/Pack.antt =====
-- pkg/cli/mirror/pack.go: the metadata of a run is completed and the new files are archived. Writing the
-- archive is a parameter; its files are those of `Archive`.
pub mod Number
use oc_mirror.Base.{
  String, ℕ, ◌*◌, ◌%◌, ◌^◌, List, [], ◌∷◌, Bool, true, false, Option, none, some, Result, ok, err,
  ◌>>=◌, if◌then◌else◌, ◌==◌, nat_eq,
}
use oc_mirror.Api.Config.{Metadata}
use oc_mirror.Api.Include.{IncludeConfig}
use oc_mirror.Api.Image.{Association, ImageError}
use oc_mirror.Bundle.{Root, BundleError, reconcile_v2_dir}
use oc_mirror.Image.AssociationSet
use oc_mirror.Image.AssociationSet.{AssociationSet}
use oc_mirror.Image.Convert.{convert_from_association_set}
use oc_mirror.Metadata.{Catalogs, MetadataError, update_metadata}

pub data PackError : Type 0 where
  not_reconciled : BundleError → PackError
  no_updates_exist : PackError
  not_converted : List ImageError → PackError
  not_updated : List MetadataError → PackError
  not_archived : PackError

abbrev pub converted : List Association × List ImageError → Result PackError (List Association)
converted (as', []) = ok as'
converted (as', e ∷ es) = err (not_converted (e ∷ es))

abbrev pub reconciled :
    Result BundleError (List String × List String) → Result PackError (List String × List String)
reconciled (err e) = err (not_reconciled e)
reconciled (ok (manifests, [])) = err no_updates_exist
reconciled (ok (manifests, b ∷ blobs)) = ok (manifests, b ∷ blobs)

-- The size of an archive in bytes, from the configured one in GiB, as an int64.
unfoldable pub segment_size : ℕ → ℕ
segment_size archive_size =
    ((if archive_size == 0 then 500 else archive_size) * (1024 * 1024 * 1024)) % 2 ^ 64

module _ {V : Type 0} where
  abbrev pub with_associations : List Association → List Association → Metadata V → Metadata V
  with_associations current past meta = record {
    uid = meta.uid;
    single_use = meta.single_use;
    past_mirror = record {
      timestamp = meta.past_mirror.timestamp;
      sequence = meta.past_mirror.sequence;
      mirror = meta.past_mirror.mirror;
      operators = meta.past_mirror.operators;
      platforms = meta.past_mirror.platforms;
      associations = current;
    };
    past_associations = past;
  }

  abbrev pub updated : Result (List MetadataError) (Metadata V) → Result PackError (Metadata V)
  updated (err es) = err (not_updated es)
  updated (ok meta) = ok meta

  abbrev pub archived : Bool → Metadata V → Result PackError (Metadata V)
  archived true packed = ok packed
  archived false packed = err not_archived

  -- `Pack` with `prepareArchive`: the metadata that goes into the archive, with the files. The backend is
  -- a temporary one, which has no metadata yet. `archive` is given the size, the number, and the files.
  unfoldable pub pack :
      Catalogs V
      → IncludeConfig V
      → (ℕ → ℕ → List String → List String → Bool)
      → Bool
      → Bool
      → ℕ
      → AssociationSet
      → AssociationSet
      → List Root
      → Metadata V
      → Result PackError (Metadata V)
  pack catalogs empty archive writable ignore_history archive_size prev curr roots meta =
      reconciled (reconcile_v2_dir (if ignore_history then [] else prev) roots)
      >>= λ (manifests, blobs). converted (convert_from_association_set curr) >>= λ current.
          converted (convert_from_association_set (AssociationSet.merge prev curr)) >>= λ past.
          updated (
            update_metadata catalogs empty writable (ok none) (with_associations current past meta))
          >>= λ packed.
              archived
                (archive (segment_size archive_size) packed.past_mirror.sequence manifests blobs)
                packed
