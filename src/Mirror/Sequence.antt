-- ===== src/Mirror/Sequence.antt =====
-- Runs of the command that create image sets, with one storage or without, and runs that publish them to
-- one registry, in any order (create.go, pack.go, mirror.go, publish.go). A run that fails before its
-- archive is written is no step, and neither is one that mirrors from registry to registry.
pub mod Order
pub mod Reached
use oc_mirror.Base.{
  String, ℕ, List, [], ◌∷◌, ◌++◌, Bool, true, false, Option, none, some, Result, ok, err, ◌≡◌, In,
  if◌then◌else◌,
}
use oc_mirror.Base.GoMap.{Map}
use oc_mirror.Api.Config.{ImageSetConfiguration, Metadata, storage_is_set}
use oc_mirror.Image.Mapping.{TypedImageMapping}
use oc_mirror.Mirror.Create.{BackendError, metadata_not_exist, Planners, create}
use oc_mirror.Api.Include.{IncludeConfig}
use oc_mirror.Bundle.{Root}
use oc_mirror.Image.AssociationSet.{AssociationSet}
use oc_mirror.Metadata.{Catalogs}
use oc_mirror.Mirror.Pack.{pack}
use oc_mirror.Mirror.Publish.Command.{Setting, Stores, publish}

-- The metadata in the configured storage, that of the archives in the order of their creation, and the
-- stores that are published to.
pub record System (V : Type 0) : Type 0 where
  pub source : Option (Metadata V)
  pub archives : List (Metadata V)
  pub stores : Stores V

abbrev pub start : {V : Type 0} → System V
start = record { source = none; archives = []; stores = record { workspace = none; registry = [] } }

abbrev pub stored_in : {V : Type 0} → Option (Metadata V) → Result BackendError (Metadata V)
stored_in none = err metadata_not_exist
stored_in (some m) = ok m

-- What a run reads: without a configured storage it has one of its own, which is cleaned up after it.
abbrev pub read_by : {V : Type 0} → Bool → Option (Metadata V) → Result BackendError (Metadata V)
read_by is_set source = if is_set then stored_in source else err metadata_not_exist

-- What the storage has after the archive is written: the metadata is synchronized only to a configured
-- storage, and that may fail.
abbrev pub synced_to :
    {V : Type 0} → Bool → Bool → Metadata V → Option (Metadata V) → Option (Metadata V)
synced_to false synced packed source = source
synced_to true false packed source = source
synced_to true true packed source = some packed

module _ {V : Type 0} (planners : Planners V) (catalogs : Catalogs V) (include : IncludeConfig V)
    (archive : ℕ → ℕ → List String → List String → Bool) (setting : Setting V)
    (empty : Metadata V) where
  pub data Step : System V → System V → Type 0 where
    created :
        (s : System V) (now : ℕ) (uid : String) (cfg : ImageSetConfiguration V)
        (m packed : Metadata V) (mapping : TypedImageMapping)
        (writable ignore_history synced : Bool) (prev curr : AssociationSet) (roots : List Root)
        → create planners now uid empty cfg (read_by (storage_is_set cfg.storage_config) s.source)
          ≡ (m, (mapping, none))
        → pack catalogs include archive writable ignore_history cfg.archive_size prev curr roots m
          ≡ ok packed
        → Step s (record {
          source = synced_to (storage_is_set cfg.storage_config) synced packed s.source;
          archives = s.archives ++ packed ∷ [];
          stores = s.stores;
        })
    published :
        (s : System V) (readable writable : Bool) (files : Map String String) (m : Metadata V)
        → In m s.archives
        → Step s (record {
          source = s.source;
          archives = s.archives;
          stores = (publish setting readable writable files m s.stores).0;
        })

  pub data Reach : System V → Type 0 where
    started : Reach start
    after : {s t : System V} → Reach s → Step s t → Reach t

-- The number of the run that made the metadata, 0 without metadata.
abbrev pub number : {V : Type 0} → Option (Metadata V) → ℕ
number none = 0
number (some m) = m.past_mirror.sequence
