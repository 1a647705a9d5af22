-- ===== src/Tests/Mappings.antt =====
-- The theorems on mappings and on the objects made from them at small mappings.
use oc_mirror.Base.{
  String, ℕ, ◌+◌, ◌≡◌, ◌≢◌, ◌⊎◌, List, [], ◌∷◌, false, Option, none, some, ok, err, refl, or_else,
  mem, if◌then◌else◌,
}
use oc_mirror.Base.Paths
use oc_mirror.Base.GoMap
use oc_mirror.Base.GoMap.{Map}
use oc_mirror.Api.Image.{ImageType, generic, operator_bundle}
use oc_mirror.Image.Reference.{TypedImage, References, type_eq, image_eq}
use oc_mirror.Image.Mapping.{TypedImageMapping, merge, by_category, to_registry}
use oc_mirror.Image.Mapping.Lookups.{
  IsRedirected, lookup-merge, lookup-by_category, to_registry-IsRedirected,
}
use oc_mirror.Mirror.Icsp.{
  Icsp, IcspError, generic_builder, out_of_fuel, generate_icsp, get_mapping, get_registry_mapping,
  registry_mapping_loop, mirror_pair, fill_icsp, generate_loop, new_icsp, icsp_name, itoa_loop,
}
use oc_mirror.Mirror.Icsp.Partition.{IsPartition}
use oc_mirror.Mirror.Icsp.Generate.{generate_icsp-IsPartition, name-generate_icsp}

abbrev pub image_at : String → String → ImageType → TypedImage
image_at registry name category = record {
  type = "docker";
  ref = record {
    registry = registry;
    namespace = "ns";
    name = name;
    tag = "";
    id = "sha256:0123456789";
  };
  category = category;
}

abbrev pub from_quay : TypedImage
from_quay = image_at "quay.io" "a" generic

abbrev from_redhat : TypedImage
from_redhat = image_at "registry.redhat.io" "b" operator_bundle

abbrev pub to_file : TypedImage
to_file = image_at "file" "a" generic

abbrev pub two_images : TypedImageMapping
two_images = (from_quay, to_file) ∷ ((from_redhat, image_at "mirror" "b" operator_bundle) ∷ [])

lookup-merge_example :
    GoMap.lookup from_quay (merge two_images ((from_quay, from_quay) ∷ []))
    ≡ or_else
        (GoMap.lookup from_quay two_images)
        (GoMap.lookup from_quay ((from_quay, from_quay) ∷ []))
lookup-merge_example = lookup-merge two_images ((from_quay, from_quay) ∷ []) from_quay

two_images-Distinct : GoMap.Distinct two_images
unfolding GoMap.lookup
two_images-Distinct = (refl, (refl, tt))

lookup-by_category_example :
    GoMap.lookup from_quay (by_category two_images (operator_bundle ∷ [])) ≡ (
      if mem from_quay.category (operator_bundle ∷ [])
      then GoMap.lookup from_quay two_images
      else none)
lookup-by_category_example =
    lookup-by_category two_images (operator_bundle ∷ []) from_quay two_images-Distinct

from_quay_found : GoMap.lookup from_quay two_images ≡ some to_file
unfolding GoMap.lookup
from_quay_found = refl

to_registry-IsRedirected_example :
    (new : TypedImage) × (GoMap.lookup from_quay (to_registry "mirror" "oc" two_images) ≡ some new)
    × IsRedirected "mirror" from_quay to_file new
to_registry-IsRedirected_example =
    to_registry-IsRedirected "mirror" "oc" two_images from_quay to_file from_quay_found

-- References that print as registry and name.
abbrev pub plain_refs : References
plain_refs = record {
  parse_reference = λ s. none;
  exact = λ r. r.name;
  ref_string = λ r. Paths.path_join (r.registry ∷ r.name ∷ []);
  as_repository = λ r. r;
}

-- Ten bytes for an object and ten for each mirror.
abbrev ten_each : Icsp → Option ℕ
ten_each i = some (10 + tens i.digest_mirrors)
  where
    tens : {A : Type 0} → List A → ℕ
    tens [] = 0
    tens (x ∷ xs) = 10 + tens xs

abbrev two_mirrors : Map String String
two_mirrors = ("quay.io/a", "file/a") ∷ (("registry.redhat.io/b", "mirror/b") ∷ [])

two_mirrors_got : get_mapping plain_refs generic_builder "repository" two_images ≡ ok two_mirrors
unfolding get_mapping get_registry_mapping registry_mapping_loop mirror_pair GoMap.insert
    Paths.path_join Paths.clean Paths.split_on Paths.join_with
two_mirrors_got = refl

generate_icsp-IsPartition_example :
    ((icsps : List Icsp) × (generate_icsp ten_each 25 plain_refs "generic" "repository" two_images
          generic_builder
        ≡ ok icsps)
      × IsPartition ten_each 25 generic_builder "generic" two_mirrors icsps)
    ⊎ ((e : IcspError) × (generate_icsp ten_each 25 plain_refs "generic" "repository" two_images
            generic_builder
          ≡ err e)
        × (e ≢ out_of_fuel))
generate_icsp-IsPartition_example =
    generate_icsp-IsPartition ten_each 25 plain_refs generic_builder "generic" "repository"
      two_images two_mirrors two_mirrors_got

abbrev icsp_of : String → String → Icsp
icsp_of source mirror = record {
  name = "generic-0";
  catalog_label = false;
  digest_mirrors = record { source = source; mirrors = mirror ∷ [] } ∷ [];
}

abbrev two_icsps : List Icsp
two_icsps = icsp_of "quay.io/a" "file/a" ∷ (icsp_of "registry.redhat.io/b" "mirror/b" ∷ [])

two_icsps_generated :
    generate_icsp ten_each 25 plain_refs "generic" "repository" two_images generic_builder
    ≡ ok two_icsps
unfolding generate_icsp generate_loop fill_icsp new_icsp icsp_name itoa_loop get_mapping
    get_registry_mapping registry_mapping_loop mirror_pair GoMap.insert Paths.path_join Paths.clean
    Paths.split_on Paths.join_with
two_icsps_generated = refl

name-generate_icsp_example :
    (icsp_of "quay.io/a" "file/a").name ≡ (icsp_of "registry.redhat.io/b" "mirror/b").name
name-generate_icsp_example =
    name-generate_icsp ten_each 25 plain_refs generic_builder "generic" "repository" two_images
      two_mirrors two_icsps 0 1 (icsp_of "quay.io/a" "file/a")
      (icsp_of "registry.redhat.io/b" "mirror/b") two_mirrors_got two_icsps_generated refl refl
