-- ===== src/Tests/Runs.antt =====
-- The theorems on the runs of the command at small mappings and metadata.
use oc_mirror.Base.{
  String, ℕ, ◌≡◌, ◌≢◌, ◌⊎◌, ◌↔◌, [], ◌∷◌, true, false, none, some, ok, refl, mem, if◌then◌else◌,
  string_eq, List, err, Bool,
}
use oc_mirror.Base.GoMap
use oc_mirror.Base.GoMap.{Map}
use oc_mirror.Api.Image.{Association, generic, validate, validate_type}
use oc_mirror.Api.Config.{ImageSetConfiguration, Mirror, Metadata, PastMirror}
use oc_mirror.Image.Mapping.{TypedImageMapping}
use oc_mirror.Image.AssociationSet.{AssociationSet, SetError, add, add_loop}
use oc_mirror.Image.Convert.{
  convert_to_association_set, index_associations, group_associations, add_indexes, add_index,
  add_children, add_orphans,
}
use oc_mirror.Mirror.Previous.{no_updates_exist, not_pruned, remove_previously_mirrored}
use oc_mirror.Mirror.Previous.Removed.{
  LeavesOthers, previous_names, remove_previously_mirrored-LeavesOthers,
}
use oc_mirror.Mirror.Publish.{check_sequence}
use oc_mirror.Mirror.Publish.Command.{Setting, Stores, publish}
use oc_mirror.Mirror.Publish.Advances.{publish-Advances}
use oc_mirror.Api.Include.{IncludeConfig}
use oc_mirror.Image.AssociationSet
use oc_mirror.Metadata.{Catalogs, not_read}
use oc_mirror.Mirror.Create.{Planners}
use oc_mirror.Mirror.Sequence.{System, number}
use oc_mirror.Mirror.Options.{
  mirror_to_disk, mirror_to_mirror, MirrorOptions, nothing_to_do, publish_from_disk,
  validate as validate_options, check_architectures, run_case,
}
use oc_mirror.Mirror.Options.Dispatch.{run_case-nothing}
use oc_mirror.Tests.Mappings.{two_images, plain_refs}
use oc_mirror.Tests.Versions.{numbers}

abbrev past_association : Association
past_association = record {
  name = "quay.io/a";
  path = "a";
  id = "sha256:1";
  tag_symlink = "";
  type = generic;
  manifest_digests = [];
  layer_digests = "l" ∷ [];
}

abbrev past_set : AssociationSet
past_set = ("quay.io/a", ("quay.io/a", past_association) ∷ []) ∷ []

past_converted : convert_to_association_set (past_association ∷ []) ≡ (past_set, none)
unfolding convert_to_association_set index_associations group_associations add_indexes add_index
    add_children add_orphans add add_loop GoMap.insert GoMap.lookup GoMap.has validate validate_type
past_converted = refl

remove_previously_mirrored-LeavesOthers_example :
    let r = remove_previously_mirrored plain_refs false two_images (past_association ∷ []) in
    LeavesOthers plain_refs past_set two_images r.images
    × (((r.failure ≡ some no_updates_exist) ↔ (r.images ≡ []))
        × (((e : SetError) → r.failure ≢ some (not_pruned e))
            × ((r.images ≢ [])
                → (name : String)
                → GoMap.lookup name r.associations ≡ (
                    if mem name (previous_names plain_refs past_set two_images)
                    then GoMap.lookup name past_set
                    else none))))
remove_previously_mirrored-LeavesOthers_example =
    remove_previously_mirrored-LeavesOthers plain_refs two_images (past_association ∷ []) past_set
      past_converted

abbrev no_mirror : Mirror ℕ
no_mirror = record {
  platform = record { graph = false; channels = [] };
  operators = [];
  additional_images = [];
  helm = record { repositories = []; local_charts = [] };
  blocked_images = [];
  samples = [];
}

abbrev no_run : PastMirror ℕ
no_run = record {
  timestamp = 0;
  sequence = 0;
  mirror = no_mirror;
  operators = [];
  platforms = [];
  associations = [];
}

abbrev pub no_metadata : Metadata ℕ
no_metadata = record { uid = ""; single_use = false; past_mirror = no_run; past_associations = [] }

-- Metadata of the first run, stored for good.
abbrev first_run : Metadata ℕ
first_run = record {
  uid = "u";
  single_use = false;
  past_mirror = record {
    timestamp = 7;
    sequence = 1;
    mirror = no_mirror;
    operators = [];
    platforms = [];
    associations = [];
  };
  past_associations = [];
}

abbrev a_setting : Setting ℕ
a_setting = record {
  refs = plain_refs;
  out = record {
    extract = λ archive file dest. none;
    stat = λ path. none;
    fetch_blob = λ ref digest paths. true;
    publish_image = λ ms. true;
  };
  dest = record { to_mirror = "mirror"; user_namespace = "" };
  custom = record {
    unpack_catalog = λ files. some false;
    rebuild_catalogs = none;
    unpack_release = λ files. some false;
    build_graph_image = none;
  };
  output_dir = "out";
  unpack_dir = λ name. name;
  update_path = λ set. some set;
  unpack_signatures = λ dir files. true;
  no_metadata = no_metadata;
}

abbrev no_stores : Stores ℕ
no_stores = record { workspace = none; registry = [] }

publish-Advances_example :
    let r = publish a_setting true true (("charts", "archive") ∷ []) first_run no_stores in
    (r.0.workspace ≡ (if first_run.single_use then none else no_stores.workspace))
    × ((GoMap.lookup "u" r.0.registry ≡ GoMap.lookup "u" no_stores.registry)
        ⊎ (("u" ≡ first_run.uid)
            × ((GoMap.lookup "u" r.0.registry ≡ some first_run)
                × ((check_sequence (GoMap.lookup "u" no_stores.registry) first_run ≡ none)
                    × ((mappings : TypedImageMapping) × (r.1 ≡ ok mappings))))))
publish-Advances_example =
    publish-Advances a_setting true true (("charts", "archive") ∷ []) first_run no_stores "u"

abbrev a_config : ImageSetConfiguration ℕ
a_config = record {
  mirror = no_mirror;
  archive_size = 0;
  storage_config = record { registry = none; local_dir = some (record { path = "store" }) };
}

abbrev no_planners : Planners ℕ
no_planners = record {
  plan_releases = λ last cfg. none;
  download_graph_data = true;
  plan_full = λ cfg. none;
  plan_diff = λ cfg last. none;
  plan_additional = λ images. none;
  pull_charts = λ cfg. none;
}

abbrev one_archive : System ℕ
one_archive = record { source = some first_run; archives = first_run ∷ []; stores = no_stores }

abbrev pub no_catalogs : Catalogs ℕ
no_catalogs = record {
  is_image_pinned = λ name. true;
  resolve_to_pin = λ name. none;
  include_config_of = λ name. err not_read;
}

abbrev pub include_nothing : IncludeConfig ℕ
include_nothing = record { packages = [] }

abbrev pub written_always : ℕ → ℕ → List String → List String → Bool
written_always size number manifests blobs = true

abbrev options_of : String → String → MirrorOptions
options_of from config_path = record {
  dir = "oc-mirror-workspace";
  output_dir = "";
  config_path = config_path;
  from = from;
  to_mirror = "registry.example";
  user_namespace = "";
  filter_options = "amd64" ∷ [];
  manifests_only = false;
}

abbrev is_archive : String → Bool
is_archive path = true

archive_valid : validate_options is_archive is_archive (options_of "archive.tar" "") ≡ none
unfolding validate_options check_architectures
archive_valid = refl

run_case-nothing_example :
    let o = options_of "archive.tar" "" in
    ((run_case o ≡ nothing_to_do) ↔ ((o.output_dir ≡ "") × (o.to_mirror ≡ "")))
    × (((run_case o ≡ publish_from_disk) ↔ (o.from ≢ ""))
        × (((o.from ≡ "") ⊎ (o.to_mirror ≢ ""))
            × (((run_case o ≡ mirror_to_disk) ↔ ((o.output_dir ≢ "") × (o.from ≡ "")))
                × ((run_case o ≡ mirror_to_mirror)
                    ↔ ((o.to_mirror ≢ "") × ((o.output_dir ≡ "") × (o.from ≡ "")))))))
run_case-nothing_example =
    run_case-nothing is_archive is_archive (options_of "archive.tar" "") archive_valid refl
