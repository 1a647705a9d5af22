-- ===== src/Mirror/Create.antt =====
-- pkg/cli/mirror/create.go: the plan of a run, with its sequence number. The planners for releases,
-- operators, additional images and charts are those of the other parts of the command; the cleanup of
-- the backend in stateless mode is not modelled.
use oc_mirror.Base.{
  String, ℕ, ◌+◌, List, [], ◌∷◌, ◌++◌, Bool, not, Option, none, some, Result, ok, err,
  if◌then◌else◌,
}
use oc_mirror.Api.Config.{
  ImageSetConfiguration, ReleaseChannel, Mirror, Image, Metadata, PastMirror, storage_is_set,
}
use oc_mirror.Image.Mapping
use oc_mirror.Image.Mapping.{TypedImageMapping}

pub data CreateError : Type 0 where
  backend_failed metadata_not_read : CreateError
  release_plan_failed graph_failed operator_plan_failed additional_plan_failed charts_failed :
      CreateError

-- A backend that cannot be opened, one without metadata, and one that cannot be read.
pub data BackendError : Type 0 where
  cannot_open metadata_not_exist cannot_read : BackendError

-- The release planner gives the channels too, with their versions filled in.
pub record Planners (V : Type 0) : Type 0 where
  pub plan_releases :
      PastMirror V → ImageSetConfiguration V → Option (TypedImageMapping × List ReleaseChannel)
  pub download_graph_data : Bool
  pub plan_full : ImageSetConfiguration V → Option TypedImageMapping
  pub plan_diff : ImageSetConfiguration V → PastMirror V → Option TypedImageMapping
  pub plan_additional : List Image → Option TypedImageMapping
  pub pull_charts : ImageSetConfiguration V → Option TypedImageMapping

-- A mapping, which Go returns beside an error too, and the error.
abbrev pub Planned : Type 0
Planned = TypedImageMapping × Option CreateError

abbrev pub graph_base_image : String
graph_base_image = "registry.access.redhat.com/ubi8/ubi:latest"

-- The planned mapping merged into the one so far, or the error.
abbrev pub and_merge :
    CreateError
    → Option TypedImageMapping
    → TypedImageMapping
    → (TypedImageMapping → Planned)
    → Planned
and_merge e none mmappings rest = (mmappings, some e)
and_merge e (some mappings) mmappings rest = rest (Mapping.merge mmappings mappings)

module _ {V : Type 0} where
  abbrev pub fill_in : List ReleaseChannel → Mirror V → Mirror V
  fill_in channels mirror = record {
    platform = record { graph = mirror.platform.graph; channels = channels };
    operators = mirror.operators;
    additional_images = mirror.additional_images;
    helm = mirror.helm;
    blocked_images = mirror.blocked_images;
    samples = mirror.samples;
  }

  abbrev pub with_channels : List ReleaseChannel → ImageSetConfiguration V → ImageSetConfiguration V
  with_channels channels cfg = record {
    mirror = fill_in channels cfg.mirror;
    archive_size = cfg.archive_size;
    storage_config = cfg.storage_config;
  }

  abbrev pub add_graph_image : ImageSetConfiguration V → ImageSetConfiguration V
  add_graph_image cfg = record {
    mirror = record {
      platform = cfg.mirror.platform;
      operators = cfg.mirror.operators;
      additional_images = cfg.mirror.additional_images ++ record { name = graph_base_image } ∷ [];
      helm = cfg.mirror.helm;
      blocked_images = cfg.mirror.blocked_images;
      samples = cfg.mirror.samples;
    };
    archive_size = cfg.archive_size;
    storage_config = cfg.storage_config;
  }

  -- Metadata is for a single use where no storage is configured.
  abbrev pub for_use : Metadata V → Bool → Metadata V
  for_use meta is_set = record {
    uid = meta.uid;
    single_use = not is_set;
    past_mirror = meta.past_mirror;
    past_associations = meta.past_associations;
  }

  abbrev pub with_uid : String → Metadata V → Metadata V
  with_uid uid meta = record {
    uid = uid;
    single_use = meta.single_use;
    past_mirror = meta.past_mirror;
    past_associations = meta.past_associations;
  }

  -- The configuration of the run shares its channels with the plan, so their versions are filled in;
  -- the images that the plan adds are not among its own.
  abbrev pub this_run : ℕ → ℕ → ImageSetConfiguration V → List ReleaseChannel → PastMirror V
  this_run now sequence cfg channels = record {
    timestamp = now;
    sequence = sequence;
    mirror = fill_in channels cfg.mirror;
    operators = [];
    platforms = [];
    associations = [];
  }

  abbrev pub finish :
      ℕ
      → ℕ
      → String
      → ImageSetConfiguration V
      → Metadata V
      → List ReleaseChannel × Planned
      → Metadata V × Planned
  finish now sequence uid cfg meta r = (
    record {
      uid = uid;
      single_use = meta.single_use;
      past_mirror = this_run now sequence cfg r.0;
      past_associations = meta.past_associations;
    },
    r.1,
  )

  -- The operator plan that is made of a planner: nothing without operators.
  abbrev pub operator_plan_of :
      (ImageSetConfiguration V → Option TypedImageMapping)
      → ImageSetConfiguration V
      → Option TypedImageMapping
  operator_plan_of planner cfg = elim cfg.mirror.operators [ [] ↦ some [] | o ∷ os ↦ planner cfg ]

  module _ (planners : Planners V) where
    abbrev pub run_charts : ImageSetConfiguration V → TypedImageMapping → Planned
    run_charts cfg mmappings = elim cfg.mirror.helm.local_charts [
      | chart ∷ charts ↦
          and_merge charts_failed (planners.pull_charts cfg) mmappings (λ m. (m, none))
      | [] ↦ elim cfg.mirror.helm.repositories [
        | [] ↦ (mmappings, none)
        | r ∷ rs ↦ and_merge charts_failed (planners.pull_charts cfg) mmappings (λ m. (m, none))
      ]
    ]

    abbrev pub run_additional : ImageSetConfiguration V → TypedImageMapping → Planned
    run_additional cfg mmappings = elim cfg.mirror.additional_images [
      | [] ↦ run_charts cfg mmappings
      | image ∷ images ↦
          and_merge additional_plan_failed (planners.plan_additional (image ∷ images)) mmappings
            (run_charts cfg)
    ]

    abbrev pub run_operators :
        (ImageSetConfiguration V → Option TypedImageMapping)
        → ImageSetConfiguration V
        → TypedImageMapping
        → Planned
    run_operators operator_plan cfg mmappings =
        and_merge operator_plan_failed (operator_plan cfg) mmappings (run_additional cfg)

    abbrev pub run_graph :
        (ImageSetConfiguration V → Option TypedImageMapping)
        → ImageSetConfiguration V
        → TypedImageMapping
        → Planned
    run_graph operator_plan cfg mmappings =
        if cfg.mirror.platform.graph
        then (if planners.download_graph_data
            then run_operators operator_plan (add_graph_image cfg) mmappings
            else (mmappings, some graph_failed))
        else run_operators operator_plan cfg mmappings

    -- `run`, with the channels as the release planner leaves them.
    unfoldable pub run :
        (ImageSetConfiguration V → Option TypedImageMapping)
        → ImageSetConfiguration V
        → Metadata V
        → List ReleaseChannel × Planned
    run operator_plan cfg meta = elim cfg.mirror.platform.channels [
      | [] ↦ ([], run_operators operator_plan cfg [])
      | ch ∷ chs ↦ elim (planners.plan_releases meta.past_mirror cfg) [
        | none ↦ (ch ∷ chs, ([], some release_plan_failed))
        | some (mappings, filled) ↦
            (filled, run_graph operator_plan (with_channels filled cfg) (Mapping.merge [] mappings))
      ]
    ]

    -- The metadata of the run with the plan. `empty` is `NewMetadata`, `uid` a new identifier, `stored` what
    -- the backend has.
    unfoldable pub create :
        ℕ
        → String
        → Metadata V
        → ImageSetConfiguration V
        → Result BackendError (Metadata V)
        → Metadata V × Planned
    create now uid empty cfg (err cannot_open) =
        (for_use empty (storage_is_set cfg.storage_config), ([], some backend_failed))
    create now uid empty cfg (err cannot_read) =
        (for_use empty (storage_is_set cfg.storage_config), ([], some metadata_not_read))
    create now uid empty cfg (err metadata_not_exist) =
        let meta = for_use empty (storage_is_set cfg.storage_config) in
        finish now 1 uid cfg meta
          (run (operator_plan_of planners.plan_full) cfg (with_uid uid meta))
    create now uid empty cfg (ok meta) =
        finish now (meta.past_mirror.sequence + 1) meta.uid cfg meta
          (run (operator_plan_of (λ c. planners.plan_diff c meta.past_mirror)) cfg meta)
