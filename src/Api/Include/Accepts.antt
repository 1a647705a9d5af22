-- ===== src/Api/Include/Accepts.antt =====
-- When the conversion to a diff configuration succeeds, and what it then gives.
use text.Mathlib.TextEquality.{eq_iff}
use oc_mirror.Base.{
  String, ℕ, ◌≡◌, ◌≢◌, ◌⊎◌, ◌↔◌, List, map, true, some, ok, arith, traverse_iff, Result-cases, All,
  string_eq, inl, inr,
}
use oc_mirror.Api.Version.{Semver}
use oc_mirror.Api.Include.{
  IncludeBundle, IncludeChannel, IncludePackage, IncludeConfig, DiffIncludeChannel,
  DiffIncludePackage, chosen_versions, chosen_bundles, valid_bundle, convert_channel,
  convert_channels, convert_package, convert_to_diff_include_config,
}

module _ {V : Type 0} ⦃sv : Semver V⦄ where
  -- A starting version and a starting bundle exclude each other.
  abbrev pub ValidBundle : IncludeBundle V → Type 0
  ValidBundle b = (sv.eq b.starting_version sv.none_version ≡ true) ⊎ (b.starting_bundle ≡ "")

  abbrev pub ValidChannel : IncludeChannel V → Type 0
  ValidChannel ch = (ch.name ≢ "") × ValidBundle ch.include_bundle

  abbrev pub ValidPackage : IncludePackage V → Type 0
  ValidPackage pkg =
      (pkg.name ≢ "") × ValidBundle pkg.include_bundle × All ValidChannel pkg.channels

  abbrev pub diff_channel : IncludeChannel V → DiffIncludeChannel V
  diff_channel ch = record {
    name = ch.name;
    versions = chosen_versions ch.include_bundle;
    bundles = chosen_bundles ch.include_bundle;
  }

  abbrev pub diff_package : IncludePackage V → DiffIncludePackage V
  diff_package pkg = record {
    name = pkg.name;
    channels = map diff_channel pkg.channels;
    versions = chosen_versions pkg.include_bundle;
    bundles = chosen_bundles pkg.include_bundle;
  }

  valid_bundle_iff : (b : IncludeBundle V) → (valid_bundle b ≡ true) ↔ ValidBundle b
  unfolding valid_bundle
  valid_bundle_iff b = ground (arith, eq_iff b.starting_bundle "")

  convert_channel_iff :
      (pkg : String) (i : ℕ) (ch : IncludeChannel V) (d : DiffIncludeChannel V)
      → (convert_channel pkg i ch ≡ ok d) ↔ (ValidChannel ch × (d ≡ diff_channel ch))
  unfolding convert_channel
  convert_channel_iff pkg i ch d =
      ground (arith, valid_bundle_iff ch.include_bundle, eq_iff ch.name "")

  convert_channels_iff :
      (pkg : String) (chs : List (IncludeChannel V)) (ds : List (DiffIncludeChannel V))
      → (convert_channels pkg chs ≡ ok ds) ↔ (All ValidChannel chs × (ds ≡ map diff_channel chs))
  unfolding convert_channels
  convert_channels_iff pkg chs ds =
      traverse_iff ValidChannel diff_channel (convert_channel pkg) (convert_channel_iff pkg) 0 chs
        ds

  convert_package_iff :
      (i : ℕ) (pkg : IncludePackage V) (d : DiffIncludePackage V)
      → (convert_package i pkg ≡ ok d) ↔ (ValidPackage pkg × (d ≡ diff_package pkg))
  unfolding convert_package
  convert_package_iff i pkg d = elim (Result-cases (convert_channels pkg.name pkg.channels)) [
    | inl (chs, e) ↦ ground (
      arith,
      valid_bundle_iff pkg.include_bundle,
      eq_iff pkg.name "",
      convert_channels_iff pkg.name pkg.channels chs,
    )
    | inr (x, e) ↦ ground (
      arith,
      valid_bundle_iff pkg.include_bundle,
      eq_iff pkg.name "",
      convert_channels_iff pkg.name pkg.channels (map diff_channel pkg.channels),
    )
  ]

  -- The conversion of a configuration succeeds exactly when each package and each channel has a name
  -- and none sets both a starting version and a starting bundle. It then keeps all packages and
  -- channels in order, each with its starting version if it has one and else with its starting
  -- bundle.
  pub convert_to_diff_include_config_iff :
      (ic : IncludeConfig V) (ds : List (DiffIncludePackage V))
      → (convert_to_diff_include_config (some ic) ≡ ok ds)
        ↔ (All ValidPackage ic.packages × (ds ≡ map diff_package ic.packages))
  unfolding convert_to_diff_include_config
  convert_to_diff_include_config_iff ic ds =
      traverse_iff ValidPackage diff_package convert_package convert_package_iff 0 ic.packages ds
