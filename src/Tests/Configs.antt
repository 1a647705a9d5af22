-- ===== src/Tests/Configs.antt =====
-- The theorems on configurations and image types at small inputs.
use oc_mirror.Base.{ℕ, ◌≡◌, ◌≢◌, ◌⊎◌, ◌↔◌, [], ◌∷◌, false, none, some, ok, All, map}
use oc_mirror.Api.Image.{
  ImageType, Association, generic, invalid, image_strings_type, image_type_strings, marshal_type,
}
use oc_mirror.Api.Image
use oc_mirror.Api.Image.Accepts.{marshal_type-image_strings_type, validate-eq-none}
use oc_mirror.Api.Include.{IncludeBundle, IncludeConfig, convert_to_diff_include_config}
use oc_mirror.Api.Include.Accepts.{ValidPackage, diff_package, convert_to_diff_include_config_iff}
use oc_mirror.Api.Config.{ImageSetConfiguration}
use oc_mirror.Config
use oc_mirror.Config.Accepts.{ValidOperator, DistinctNames, validate-eq-nil}
use oc_mirror.Tests.Versions.{numbers}

marshal_type-image_strings_type_example :
    (marshal_type generic ≡ ok "generic")
    ↔ ((image_strings_type "generic" ≡ generic) × (generic ≢ invalid))
marshal_type-image_strings_type_example = marshal_type-image_strings_type generic "generic"

abbrev no_digests : Association
no_digests = record {
  name = "n";
  path = "p";
  id = "id";
  tag_symlink = "";
  type = generic;
  manifest_digests = [];
  layer_digests = [];
}

validate-eq-none_example : (Image.validate no_digests ≡ none) ↔ (
    ((no_digests.manifest_digests ≡ []) × (no_digests.layer_digests ≢ [])
      ⊎ (no_digests.manifest_digests ≢ []) × (no_digests.layer_digests ≡ []))
    × ((no_digests.id ≢ "") ⊎ (no_digests.tag_symlink ≢ ""))
    × (image_type_strings no_digests.type ≢ none))
validate-eq-none_example = validate-eq-none no_digests

abbrev from_version : ℕ → IncludeBundle ℕ
from_version v = record { starting_version = v; starting_bundle = "" }

abbrev one_package : IncludeConfig ℕ
one_package = record {
  packages =
      record {
        name = "pkg";
        channels = record { name = "stable"; include_bundle = from_version 0 } ∷ [];
        include_bundle = from_version 2;
      }
      ∷ [];
}

convert_to_diff_include_config_iff_example :
    (convert_to_diff_include_config (some one_package) ≡ ok (map diff_package one_package.packages))
    ↔ (All ValidPackage one_package.packages
        × (map diff_package one_package.packages ≡ map diff_package one_package.packages))
convert_to_diff_include_config_iff_example =
    convert_to_diff_include_config_iff one_package (map diff_package one_package.packages)

abbrev config : ImageSetConfiguration ℕ
config = record {
  mirror = record {
    platform = record { graph = false; channels = [] };
    operators =
        record {
          include_config = one_package;
          catalog = "c";
          full = false;
          skip_dependencies = false;
        }
        ∷ [];
    additional_images = [];
    helm = record { repositories = []; local_charts = [] };
    blocked_images = [];
    samples = [];
  };
  archive_size = 4;
  storage_config = record { registry = none; local_dir = none };
}

validate-eq-nil_example :
    (Config.validate config ≡ [])
    ↔ (All ValidOperator config.mirror.operators × DistinctNames config.mirror.platform.channels)
validate-eq-nil_example = validate-eq-nil config
