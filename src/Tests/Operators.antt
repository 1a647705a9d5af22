-- ===== src/Tests/Operators.antt =====
-- The theorems on include configurations at small packages.
use oc_mirror.Base.{
  String, ℕ, ◌-◌, ◌/◌, ◌≡◌, List, [], ◌∷◌, some, ok, err, refl, ltb, length, get_elem?, Pointwise,
  each,
}
use oc_mirror.Base.GoMap
use oc_mirror.Base.Sort.{sort, sort_insert}
use oc_mirror.Api.Include.{IncludeBundle, IncludeChannel}
use oc_mirror.Operator.Model.{Bundle, Channel, Package}
use oc_mirror.Operator.IncludeConfig.{
  out_of_fuel, search, next_version, find_next_bundle, first_version, get_first_bundle,
}
use oc_mirror.Operator.IncludeConfig.NextVersion.{
  IsNext, find_next_bundle-diverges, find_next_bundle-IsNext,
}
use oc_mirror.Operator.IncludeConfig.FirstVersion.{StartsLowest, get_first_bundle-StartsLowest}
use oc_mirror.Tests.Versions.{numbers}

abbrev three_versions : List ℕ
three_versions = 3 ∷ (1 ∷ (2 ∷ []))

middle_version :
    get_elem? (sort ltb three_versions) ((length (sort ltb three_versions) - 1) / 2) ≡ some 2
unfolding sort sort_insert
middle_version = refl

find_next_bundle-diverges_example : find_next_bundle 1000 three_versions 1 ≡ err out_of_fuel
find_next_bundle-diverges_example =
    find_next_bundle-diverges 1000 three_versions 1 2 middle_version refl

abbrev at_three : IncludeBundle ℕ
at_three = record { starting_version = 3; starting_bundle = "" }

next_of_two : find_next_bundle 5 three_versions 2 ≡ ok at_three
unfolding find_next_bundle next_version search sort sort_insert
next_of_two = refl

find_next_bundle-IsNext_example : IsNext (sort ltb three_versions) 2 3
find_next_bundle-IsNext_example = find_next_bundle-IsNext 5 three_versions 2 at_three next_of_two

abbrev bundle_at : String → ℕ → String × Bundle ℕ
bundle_at name v = (name, record { name = name; version = v })

abbrev stable : Channel ℕ
stable = record { name = "stable"; bundles = bundle_at "b" 2 ∷ (bundle_at "a" 1 ∷ []) }

abbrev operator_package : Package ℕ
operator_package = record { name = "pkg"; channels = ("stable", stable) ∷ [] }

abbrev from_one : IncludeChannel ℕ
from_one = record {
  name = "stable";
  include_bundle = record { starting_version = 1; starting_bundle = "" };
}

from_one_included : get_first_bundle operator_package ≡ ok (from_one ∷ [])
unfolding get_first_bundle first_version each sort sort_insert
from_one_included = refl

get_first_bundle-StartsLowest_example :
    Pointwise StartsLowest (GoMap.values operator_package.channels) (from_one ∷ [])
get_first_bundle-StartsLowest_example =
    get_first_bundle-StartsLowest operator_package (from_one ∷ []) from_one_included
