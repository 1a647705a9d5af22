-- ===== src/Tests/Commands.antt =====
-- The theorem on a run that mirrors to the disk, at one additional image and empty storage.
use oc_mirror.Base.{ℕ, suc, ◌≡◌, [], ◌∷◌, true, false, none, some, ok, refl}
use oc_mirror.Api.Image.{Association}
use oc_mirror.Api.Config.{ImageSetConfiguration, Mirror, Metadata, storage_is_set}
use oc_mirror.Image.Mapping.{TypedImageMapping, merge}
use oc_mirror.Image.Reference.{References, TypedImage}
use oc_mirror.Image.Builder.{
  Disk, symlink, layers, associate_local_image_layers, associate_local_loop, associate_local_image,
  associate, local_manifest,
}
use oc_mirror.Mirror.Create.{Planners, create, run}
use oc_mirror.Mirror.Pack.{pack}
use oc_mirror.Mirror.Previous.{remove_previously_mirrored, remove_known, remove_loop, is_previous}
use oc_mirror.Mirror.Run.{
  Command, image_set, mirror_to_disk, mirror_mappings, mirrored_images, check_err, check_errs,
}
use oc_mirror.Mirror.Run.Archived.{IsFinished, mirror_to_disk-IsFinished}
use oc_mirror.Mirror.Sequence.{number, stored_in}
use oc_mirror.Base.GoMap
use oc_mirror.Base.Paths
use oc_mirror.Api.Image.{validate, validate_type}
use oc_mirror.Image.AssociationSet
use oc_mirror.Image.AssociationSet.{
  check_digests, add, add_loop, add_each, search, prune, prune_loop, check_associations,
  get_digests,
}
use oc_mirror.Image.Convert.{
  convert_to_association_set, index_associations, group_associations, add_indexes, add_orphans,
  convert_from_association_set, collect,
}
use oc_mirror.Bundle.{
  reconcile_v2_dir, in_blob_dir, visit_roots, walk_dir, visit_entry, dir, is_blocked,
}
use oc_mirror.Metadata.{update_metadata, release_metadata, past_releases, resolve_operators}
use oc_mirror.Tests.Bundles.{one_root}
use oc_mirror.Tests.Mappings.{from_quay}
use oc_mirror.Tests.Runs.{no_metadata, no_catalogs, include_nothing, written_always}

abbrev on_disk : TypedImage
on_disk = record { type = "file"; ref = from_quay.ref; category = from_quay.category }

abbrev one_image : TypedImageMapping
one_image = (from_quay, on_disk) ∷ []

abbrev name_refs : References
name_refs = record {
  parse_reference = λ s. none;
  exact = λ r. r.name;
  ref_string = λ r. r.name;
  as_repository = λ r. r;
}

abbrev image_planners : Planners ℕ
image_planners = record {
  plan_releases = λ last cfg. none;
  download_graph_data = true;
  plan_full = λ cfg. none;
  plan_diff = λ cfg last. none;
  plan_additional = λ images. some one_image;
  pull_charts = λ cfg. none;
}

-- Each manifest is a link to the one of its digest.
abbrev link_disk : Disk
link_disk = record {
  dir_exists = λ path. true;
  lstat = λ path. symlink "sha256:1";
  make_symlink = λ id path. true;
  read_file = λ path. some (layers ("l1" ∷ []) "config");
}

abbrev disk_command : Command ℕ
disk_command = record {
  refs = name_refs;
  image_string = λ image. image.ref.name;
  planners = image_planners;
  catalogs = no_catalogs;
  include = include_nothing;
  mirror = λ images. true;
  disk = link_disk;
  source_dir = "src";
  fuel = 1;
  roots = one_root;
  archive = written_always;
  writable = true;
  sync = λ meta. true;
  now = 7;
  uid = "u";
  empty = no_metadata;
  continue_on_error = false;
  ignore_history = false;
  dry_run = false;
}

abbrev image_mirror : Mirror ℕ
image_mirror = record {
  platform = record { graph = false; channels = [] };
  operators = [];
  additional_images = record { name = "quay.io/a" } ∷ [];
  helm = record { repositories = []; local_charts = [] };
  blocked_images = [];
  samples = [];
}

abbrev image_config : ImageSetConfiguration ℕ
image_config = record {
  mirror = image_mirror;
  archive_size = 0;
  storage_config = record { registry = none; local_dir = some (record { path = "store" }) };
}

abbrev image_association : Association
image_association = record {
  name = from_quay.ref.name;
  path = on_disk.ref.name;
  id = "sha256:1";
  tag_symlink = on_disk.ref.id;
  type = from_quay.category;
  manifest_digests = [];
  layer_digests = "l1" ∷ ("config" ∷ []);
}

abbrev image_metadata : Metadata ℕ
image_metadata = record {
  uid = "u";
  single_use = false;
  past_mirror = record {
    timestamp = 7;
    sequence = 1;
    mirror = image_mirror;
    operators = [];
    platforms = [];
    associations = image_association ∷ [];
  };
  past_associations = image_association ∷ [];
}

image_set-made :
    mirror_to_disk disk_command image_config (stored_in none) ≡ ok (image_set image_metadata)
unfolding mirror_to_disk create run merge storage_is_set remove_previously_mirrored remove_known
    remove_loop is_previous prune prune_loop AssociationSet.validate check_associations
    check_digests convert_to_association_set index_associations group_associations add_indexes
    add_orphans mirror_mappings mirrored_images is_blocked check_err check_errs
    associate_local_image_layers associate_local_loop associate_local_image associate local_manifest
    add add_loop GoMap.insert GoMap.lookup GoMap.has Paths.path_join Paths.clean Paths.split_on
    Paths.join_with Paths.base pack convert_from_association_set collect validate validate_type
    AssociationSet.merge add_each search update_metadata release_metadata past_releases
    resolve_operators reconcile_v2_dir in_blob_dir visit_roots walk_dir visit_entry get_digests dir
image_set-made = refl

mirror_to_disk-IsFinished_example :
    (disk_command.dry_run ≡ false)
    × ((image_metadata.past_mirror.sequence ≡ suc (number {V = ℕ} none))
        × ((meta : Metadata ℕ) × ((mapping : TypedImageMapping) × (let previous =
                  remove_previously_mirrored disk_command.refs disk_command.ignore_history mapping
                    meta.past_associations in
                (create disk_command.planners disk_command.now disk_command.uid disk_command.empty
                    image_config
                    (stored_in none)
                  ≡ (meta, (mapping, none)))
                × ((previous.failure ≡ none)
                    × IsFinished disk_command image_config previous image_metadata)))))
mirror_to_disk-IsFinished_example =
    mirror_to_disk-IsFinished disk_command image_config none image_metadata image_set-made
