-- ===== src/Metadata.antt =====
-- pkg/metadata/store.go: the metadata of a run completed with what it says of catalogs and channels, and
-- written. The resolvers and the registry of catalogs are parameters.
use oc_mirror.Base.{
  String, List, [], ◌∷◌, ◌++◌, Bool, Option, none, some, Result, ok, err, ◌>>=◌, if◌then◌else◌,
  string_eq, or_default,
}
use oc_mirror.Base.GoMap
use oc_mirror.Base.GoMap.{Map}
use oc_mirror.Api.Config.{
  ReleaseChannel, Operator, OperatorMetadata, PlatformMetadata, Metadata, channel_heads_only,
  operator_heads_only,
}
use oc_mirror.Api.Include.{IncludeConfig}

pub data MetadataError : Type 0 where
  not_read not_written : MetadataError
  unresolved no_catalog_directory not_rendered : String → MetadataError

-- `ResolveToPin` for a catalog that is not pinned, and the include configuration of the catalog that is
-- rendered from the workspace.
pub record Catalogs (V : Type 0) : Type 0 where
  pub is_image_pinned : String → Bool
  pub resolve_to_pin : String → Option String
  pub include_config_of : String → Result MetadataError (IncludeConfig V)

module _ {V : Type 0} (catalogs : Catalogs V) where
  abbrev pub pin_of : String → Result MetadataError String
  pin_of catalog =
      if catalogs.is_image_pinned catalog
      then ok catalog
      else (elim (catalogs.resolve_to_pin catalog) [
        | none ↦ err (unresolved catalog)
        | some pin ↦ ok pin
      ])

  -- `resolveOperatorMetadata`. `empty` is the zero include configuration.
  unfoldable pub resolve_operator_metadata :
      IncludeConfig V → Operator V → Result MetadataError (OperatorMetadata V)
  resolve_operator_metadata empty ctlg = pin_of ctlg.catalog >>= λ pin.
      (if operator_heads_only ctlg then catalogs.include_config_of ctlg.catalog else ok empty)
      >>= λ ic. ok (record { catalog = ctlg.catalog; image_pin = pin; include_config = ic })

  -- The metadata of the catalogs, and the errors.
  unfoldable pub resolve_operators :
      IncludeConfig V → List (Operator V) → List (OperatorMetadata V) × List MetadataError
  resolve_operators empty [] = ([], [])
  resolve_operators empty (ctlg ∷ ctlgs) =
      let rest = resolve_operators empty ctlgs in
      elim (resolve_operator_metadata empty ctlg) [
        | ok m ↦ (m ∷ rest.0, rest.1)
        | err e ↦ (rest.0, e ∷ rest.1)
      ]

-- The minimum versions of the channels in the metadata that is stored already.
unfoldable pub past_releases : {V : Type 0} → Option (Metadata V) → Map String String
past_releases none = []
past_releases (some past) =
    GoMap.fill (λ p. p.release_channel) (λ p. p.min_version) past.past_mirror.platforms []

-- The channels of the heads-only workflow, with the minimum that they began with.
unfoldable pub release_metadata : Map String String → List ReleaseChannel → List PlatformMetadata
release_metadata past [] = []
release_metadata past (channel ∷ channels) =
    let rest = release_metadata past channels in
    if channel_heads_only channel
    then record {
      release_channel = channel.name;
      min_version = or_default channel.min_version (GoMap.lookup channel.name past);
    }
      ∷ rest
    else rest

module _ {V : Type 0} where
  abbrev pub with_resolved :
      Metadata V → List (OperatorMetadata V) → List PlatformMetadata → Metadata V
  with_resolved meta operators platforms = record {
    uid = meta.uid;
    single_use = meta.single_use;
    past_mirror = record {
      timestamp = meta.past_mirror.timestamp;
      sequence = meta.past_mirror.sequence;
      mirror = meta.past_mirror.mirror;
      operators = meta.past_mirror.operators ++ operators;
      platforms = meta.past_mirror.platforms ++ platforms;
      associations = meta.past_mirror.associations;
    };
    past_associations = meta.past_associations;
  }

  abbrev pub write_resolved :
      Bool
      → Option (Metadata V)
      → Metadata V
      → List (OperatorMetadata V) × List MetadataError
      → Result (List MetadataError) (Metadata V)
  write_resolved writable stored meta (operators, e ∷ es) = err (e ∷ es)
  write_resolved writable stored meta (operators, []) =
      let platforms =
        release_metadata (past_releases stored) meta.past_mirror.mirror.platform.channels in
      if writable then ok (with_resolved meta operators platforms) else err (not_written ∷ [])

  -- `UpdateMetadata`: the metadata that is written. `stored` is what the backend has, an error where it
  -- cannot be read.
  unfoldable pub update_metadata :
      Catalogs V
      → IncludeConfig V
      → Bool
      → Result MetadataError (Option (Metadata V))
      → Metadata V
      → Result (List MetadataError) (Metadata V)
  update_metadata catalogs empty writable (err e) meta = err (e ∷ [])
  update_metadata catalogs empty writable (ok stored) meta =
      write_resolved writable stored meta
        (resolve_operators catalogs empty meta.past_mirror.mirror.operators)

-- `SyncMetadata`: the metadata of the first backend goes to the second one.
unfoldable pub sync_metadata :
    {V : Type 0} → Bool → Result MetadataError (Metadata V) → Result MetadataError (Metadata V)
sync_metadata writable (err e) = err e
sync_metadata writable (ok meta) = if writable then ok meta else err not_written
