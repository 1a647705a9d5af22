-- ===== src/Api/Include.antt =====
-- pkg/api/v1alpha2/types_include_config.go: the include configuration and its conversion to the
-- configuration of operator-registry's diff (`action.DiffIncludeConfig`).
pub mod Accepts
use oc_mirror.Base.{
  String, ℕ, List, [], ◌∷◌, Bool, ◌&&◌, not, Option, none, some, ◌==◌, string_eq, Result, ok, err,
  ◌>>=◌, traverse, if◌then◌else◌,
}
use oc_mirror.Api.Version.{Semver}

pub record IncludeBundle (V : Type 0) : Type 0 where
  pub starting_version : V
  pub starting_bundle : String

pub record IncludeChannel (V : Type 0) : Type 0 where
  pub name : String
  pub include_bundle : IncludeBundle V

pub record IncludePackage (V : Type 0) : Type 0 where
  pub name : String
  pub channels : List (IncludeChannel V)
  pub include_bundle : IncludeBundle V

pub record IncludeConfig (V : Type 0) : Type 0 where
  pub packages : List (IncludePackage V)

-- The structs of operator-registry's action package that the conversion fills.
pub record DiffIncludeChannel (V : Type 0) : Type 0 where
  pub name : String
  pub versions : List V
  pub bundles : List String

pub record DiffIncludePackage (V : Type 0) : Type 0 where
  pub name : String
  pub channels : List (DiffIncludeChannel V)
  pub versions : List V
  pub bundles : List String

pub data IncludeError : Type 0 where
  package_requires_name : ℕ → IncludeError
  package_exclusive : String → IncludeError
  channel_requires_name : String → ℕ → IncludeError
  channel_exclusive : String → IncludeError

module _ {V : Type 0} ⦃sv : Semver V⦄ where
  -- !b.StartingVersion.EQ(semver.Version{})
  abbrev pub has_version : IncludeBundle V → Bool
  has_version b = not (sv.eq b.starting_version sv.none_version)

  abbrev pub has_bundle : IncludeBundle V → Bool
  has_bundle b = not (b.starting_bundle == "")

  -- `validate`: whether it returns nil.
  unfoldable pub valid_bundle : IncludeBundle V → Bool
  valid_bundle b = not (has_version b && has_bundle b)

  -- The two arms of the `switch`.
  abbrev pub chosen_versions : IncludeBundle V → List V
  chosen_versions b = if has_version b then b.starting_version ∷ [] else []

  abbrev pub chosen_bundles : IncludeBundle V → List String
  chosen_bundles b =
      if has_version b then [] else if has_bundle b then b.starting_bundle ∷ [] else []

  -- The body of the inner loop.
  unfoldable pub convert_channel :
      String → ℕ → IncludeChannel V → Result IncludeError (DiffIncludeChannel V)
  convert_channel pkg i ch =
      if ch.name == ""
      then err (channel_requires_name pkg i)
      else if valid_bundle ch.include_bundle
      then ok (record {
        name = ch.name;
        versions = chosen_versions ch.include_bundle;
        bundles = chosen_bundles ch.include_bundle;
      })
      else err (channel_exclusive ch.name)

  unfoldable pub convert_channels :
      String → List (IncludeChannel V) → Result IncludeError (List (DiffIncludeChannel V))
  convert_channels pkg chs = traverse (convert_channel pkg) 0 chs

  -- The body of the outer loop.
  unfoldable pub convert_package : ℕ → IncludePackage V → Result IncludeError (DiffIncludePackage V)
  convert_package i pkg =
      if pkg.name == ""
      then err (package_requires_name i)
      else if valid_bundle pkg.include_bundle
      then (convert_channels pkg.name pkg.channels >>= λ chs. ok (record {
        name = pkg.name;
        channels = chs;
        versions = chosen_versions pkg.include_bundle;
        bundles = chosen_bundles pkg.include_bundle;
      }))
      else err (package_exclusive pkg.name)

  -- A nil receiver gives the zero `DiffIncludeConfig`.
  unfoldable pub convert_to_diff_include_config :
      Option (IncludeConfig V) → Result IncludeError (List (DiffIncludePackage V))
  convert_to_diff_include_config none = ok []
  convert_to_diff_include_config (some ic) = traverse convert_package 0 ic.packages
