-- ===== src/Tests/Catalogs.antt =====
-- The theorems on the merging of catalogs at small catalogs.
use oc_mirror.Base.{
  String, ℕ, ◌≡◌, ◌⊎◌, ◌↔◌, [], ◌∷◌, Bool, true, Option, none, some, ok, refl, ltb, string_eq,
}
use oc_mirror.Base.Sort.{sort, sort_insert}
use oc_mirror.Base.GoMap
use oc_mirror.Base.GoMap.{Map}
use oc_mirror.Operator.Catalog.{DcPackage, DeclarativeConfig, ModelBundle}
use oc_mirror.Operator.Merge.{package_key, channel_key, bundle_key, merge_dc_prefer_last}
use oc_mirror.Operator.Merge.Last.{KeepsLast, merge_dc_prefer_last-KeepsLast}
use oc_mirror.Operator.Heads.{
  split_last, incoming_of, heads_of, resolve_sorted, remove_heads, remove_head, resolve_bundles,
}
use oc_mirror.Operator.Heads.Removed.{IsSkipped, resolve_bundles-IsSkipped}
use oc_mirror.Tests.Versions.{numbers}

abbrev package_of : String → String → DcPackage
package_of name description = record {
  name = name;
  default_channel = "stable";
  description = description;
}

abbrev two_packages : DeclarativeConfig
two_packages = record {
  packages = package_of "a" "old" ∷ (package_of "b" "" ∷ (package_of "a" "new" ∷ []));
  channels = [];
  bundles = [];
  others = [];
}

abbrev always : DeclarativeConfig → Bool
always cfg = true

merge_dc_prefer_last-KeepsLast_example :
    let out = (merge_dc_prefer_last always two_packages).0 in
    KeepsLast package_key two_packages.packages out.packages
    × (KeepsLast channel_key two_packages.channels out.channels
        × (KeepsLast bundle_key two_packages.bundles out.bundles
            × ((out.others ≡ two_packages.others)
                × (((merge_dc_prefer_last always two_packages).1 ≡ none) ↔ (always out ≡ true)))))
merge_dc_prefer_last-KeepsLast_example = merge_dc_prefer_last-KeepsLast always two_packages

abbrev bundle_of : String → ℕ → ModelBundle ℕ
bundle_of name version = record {
  name = name;
  replaces = "";
  skips = [];
  skip_range = "<";
  image = "";
  properties = [];
  related_images = [];
  csv_json = "";
  objects = [];
  version = version;
}

-- Every range stands for the versions below 3.
abbrev below_three : String → Option (ℕ → Bool)
below_three s = some (λ w. ltb w 3)

abbrev three_bundles : Map String (ModelBundle ℕ)
three_bundles = ("x", bundle_of "x" 1) ∷ (("y", bundle_of "y" 3) ∷ (("z", bundle_of "z" 4) ∷ []))

abbrev two_bundles : Map String (ModelBundle ℕ)
two_bundles = ("y", bundle_of "y" 3) ∷ (("z", bundle_of "z" 4) ∷ [])

old_removed : resolve_bundles below_three three_bundles ≡ ok two_bundles
unfolding resolve_bundles incoming_of heads_of GoMap.has GoMap.insert GoMap.lookup GoMap.delete
    split_last resolve_sorted remove_heads remove_head sort sort_insert
old_removed = refl

resolve_bundles-IsSkipped_example :
    (GoMap.lookup "x" two_bundles ≡ GoMap.lookup "x" three_bundles)
    ⊎ ((GoMap.lookup "x" two_bundles ≡ none)
        × IsSkipped below_three (GoMap.values three_bundles) "x")
resolve_bundles-IsSkipped_example =
    resolve_bundles-IsSkipped below_three three_bundles two_bundles "x" old_removed
