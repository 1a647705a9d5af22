-- ===== src/Operator/ToModel.antt =====
-- pkg/operator/merge.go: `convertToModelNoValidate`. A model refers to its parts by
-- name, so filling in a bundle replaces it in the maps of the channels that hold it.
use oc_mirror.Base.{
  String, List, [], ◌∷◌, Bool, true, false, Option, none, some, Result, ok, err, ◌>>=◌,
  if◌then◌else◌, ◌==◌, string_eq, or_default,
}
use oc_mirror.Base.GoMap
use oc_mirror.Base.GoMap.{Map}
use oc_mirror.Api.Version.{Semver}
use oc_mirror.Operator.Catalog.{
  Property, PackageProperty, DcPackage, ChannelEntry, DcChannel, DcBundle, DeclarativeConfig,
  ModelBundle, ModelChannel, ModelPackage, PackageModel, CatalogTools,
}

pub data ToModelError : Type 0 where
  package_without_name channel_without_name bundle_without_package : ToModelError
  duplicate_package duplicate_channel duplicate_entry duplicate_bundle : ToModelError
  unknown_package invalid_properties not_one_package package_mismatch invalid_version
        not_in_channel :
      ToModelError
  entries_without_bundle : ToModelError

-- A set of strings as the keys of a map.
abbrev pub Names : Type 0
Names = Map {0, 0} String Unit

pub record BundleState (V : Type 0) : Type 0 where
  pub mpkgs : PackageModel V
  pub defined : Map String Names
  pub seen : Map String Names

abbrev pub names_in : String → Map String Names → Names
names_in pkg sets = or_default [] (GoMap.lookup pkg sets)

-- `relatedImagesToModelRelatedImages`
abbrev pub related_images_to_model : List (String × String) → List (String × String)
related_images_to_model [] = []
related_images_to_model ((name, image) ∷ rest) = (name, image) ∷ related_images_to_model rest

abbrev pub is_empty : Names → Bool
is_empty [] = true
is_empty (n ∷ ns) = false

unfoldable pub has_leftover : Map String Names → Bool
has_leftover [] = false
has_leftover ((pkg, entries) ∷ rest) = if is_empty entries then has_leftover rest else true

module _ {V : Type 0} ⦃sv : Semver V⦄ where
  abbrev new_package : DcPackage → ModelPackage V
  new_package p = record {
    name = p.name;
    description = p.description;
    channels = [];
    default_channel = none;
  }

  -- The packages of the model, and the default channels.
  unfoldable pub add_packages :
      List DcPackage
      → PackageModel V
      → Map String String
      → Result ToModelError (PackageModel V × Map String String)
  add_packages [] mpkgs defaults = ok (mpkgs, defaults)
  add_packages (p ∷ ps) mpkgs defaults =
      let rest =
        add_packages ps (GoMap.insert p.name (new_package p) mpkgs)
          (GoMap.insert p.name p.default_channel defaults) in
      if p.name == ""
      then err package_without_name
      else if GoMap.has p.name mpkgs
      then err duplicate_package
      else rest

  abbrev entry_bundle : ChannelEntry → ModelBundle V
  entry_bundle e = record {
    name = e.name;
    replaces = e.replaces;
    skips = e.skips;
    skip_range = e.skip_range;
    image = "";
    properties = [];
    related_images = [];
    csv_json = "";
    objects = [];
    version = sv.none_version;
  }

  -- The bundles of a channel by its entries, and the entries' names.
  unfoldable pub add_entries :
      List ChannelEntry
      → Map String (ModelBundle V)
      → Names
      → Result ToModelError (Map String (ModelBundle V) × Names)
  add_entries [] bundles defined = ok (bundles, defined)
  add_entries (e ∷ es) bundles defined =
      let rest =
        add_entries es (GoMap.insert e.name (entry_bundle e) bundles)
          (GoMap.insert e.name tt defined) in
      if GoMap.has e.name bundles then err duplicate_entry else rest

  abbrev pub add_channel :
      ModelPackage V → String → Map String (ModelBundle V) → Option String → ModelPackage V
  add_channel p name bundles default_name = record {
    name = p.name;
    description = p.description;
    channels = GoMap.insert name (record { name = name; bundles = bundles }) p.channels;
    default_channel = elim default_name [
      | none ↦ p.default_channel
      | some d ↦ if d == name then some name else p.default_channel
    ];
  }

  unfoldable pub convert_channel :
      Map String String
      → DcChannel
      → PackageModel V
      → Map String Names
      → Result ToModelError (PackageModel V × Map String Names)
  convert_channel defaults c mpkgs defined = elim (GoMap.lookup c.package_name mpkgs) [
    | none ↦ err unknown_package
    | some mpkg ↦
        if c.name == ""
        then err channel_without_name
        else if GoMap.has c.name mpkg.channels
        then err duplicate_channel
        else (add_entries c.entries [] [] >>= λ (bundles, cde).
            let default_name : String = or_default "" (GoMap.lookup c.package_name defaults) in
            ok (
              GoMap.insert c.package_name (add_channel mpkg c.name bundles (some default_name))
                  mpkgs,
              GoMap.insert c.package_name cde defined,
            ))
  ]

  unfoldable pub convert_channels :
      Map String String
      → List DcChannel
      → PackageModel V
      → Map String Names
      → Result ToModelError (PackageModel V × Map String Names)
  convert_channels defaults [] mpkgs defined = ok (mpkgs, defined)
  convert_channels defaults (c ∷ cs) mpkgs defined =
      convert_channel defaults c mpkgs defined >>= λ (mpkgs', defined').
      convert_channels defaults cs mpkgs' defined'

  abbrev pub fill_bundle : DcBundle → V → ModelBundle V → ModelBundle V
  fill_bundle b ver mb = record {
    name = mb.name;
    replaces = mb.replaces;
    skips = mb.skips;
    skip_range = mb.skip_range;
    image = b.image;
    properties = b.properties;
    related_images = related_images_to_model b.related_images;
    csv_json = b.csv_json;
    objects = b.objects;
    version = ver;
  }

  -- Each channel with an entry for the bundle gets its contents. The test says whether one has.
  unfoldable pub fill_channels :
      DcBundle → V → Map String (ModelChannel V) → Map String (ModelChannel V) × Bool
  fill_channels b ver [] = ([], false)
  fill_channels b ver ((k, ch) ∷ chs) =
      let (rest, found) = fill_channels b ver chs in
      elim (GoMap.lookup b.name ch.bundles) [
        | none ↦ ((k, ch) ∷ rest, found)
        | some mb ↦ (
          (
            k,
            record {
              name = ch.name;
              bundles = GoMap.insert b.name (fill_bundle b ver mb) ch.bundles;
            },
          )
              ∷ rest,
          true,
        )
      ]

  -- The version in the one package property of a bundle.
  unfoldable pub bundle_version :
      (List Property → Option (List PackageProperty)) → DcBundle → Result ToModelError V
  bundle_version parse_properties b = elim (parse_properties b.properties) [
    | none ↦ err invalid_properties
    | some [] ↦ err not_one_package
    | some (p ∷ (q ∷ qs)) ↦ err not_one_package
    | some (p ∷ []) ↦
        if b.package_name == p.package_name
        then (elim (sv.parse p.version) [ none ↦ err invalid_version | some v ↦ ok v ])
        else err package_mismatch
  ]

  abbrev pub with_package_channels : ModelPackage V → Map String (ModelChannel V) → ModelPackage V
  with_package_channels p chs = record {
    name = p.name;
    description = p.description;
    channels = chs;
    default_channel = p.default_channel;
  }

  -- A bundle that no channel holds is an error.
  unfoldable pub place_bundle :
      DcBundle → V → ModelPackage V → BundleState V → Result ToModelError (BundleState V)
  place_bundle b ver mpkg s =
      let (chs, found) = fill_channels b ver mpkg.channels in
      if found
      then ok (record {
        mpkgs = GoMap.insert b.package_name (with_package_channels mpkg chs) s.mpkgs;
        defined =
            GoMap.insert b.package_name (GoMap.delete b.name (names_in b.package_name s.defined))
              s.defined;
        seen =
            GoMap.insert b.package_name (GoMap.insert b.name tt (names_in b.package_name s.seen))
              s.seen;
      })
      else err not_in_channel

  unfoldable pub convert_bundle :
      (List Property → Option (List PackageProperty))
      → DcBundle
      → BundleState V
      → Result ToModelError (BundleState V)
  convert_bundle parse_properties b s =
      if b.package_name == ""
      then err bundle_without_package
      else (elim (GoMap.lookup b.package_name s.mpkgs) [
        | none ↦ err unknown_package
        | some mpkg ↦
            if GoMap.has b.name (names_in b.package_name s.seen)
            then err duplicate_bundle
            else (bundle_version parse_properties b >>= λ ver. place_bundle b ver mpkg s)
      ])

  unfoldable pub convert_bundles :
      (List Property → Option (List PackageProperty))
      → List DcBundle
      → BundleState V
      → Result ToModelError (BundleState V)
  convert_bundles parse_properties [] s = ok s
  convert_bundles parse_properties (b ∷ bs) s =
      convert_bundle parse_properties b s >>= convert_bundles parse_properties bs

  -- A default channel that no channel of the package is gets an empty channel.
  abbrev pub with_default : String → ModelPackage V → ModelPackage V
  with_default default_name p = if default_name == "" then p else (elim p.default_channel [
    | some d ↦ p
    | none ↦ add_channel p default_name [] (some default_name)
  ])

  unfoldable pub add_defaults : Map String String → PackageModel V → PackageModel V
  add_defaults defaults [] = []
  add_defaults defaults ((k, p) ∷ ps) =
      (k, with_default (or_default "" (GoMap.lookup p.name defaults)) p) ∷ add_defaults defaults ps

  unfoldable pub convert_to_model_no_validate :
      CatalogTools V → DeclarativeConfig → Result ToModelError (PackageModel V)
  convert_to_model_no_validate tools cfg = add_packages cfg.packages [] [] >>= λ (mpkgs, defaults).
      convert_channels defaults cfg.channels mpkgs [] >>= λ (mpkgs', defined).
      convert_bundles tools.parse_properties cfg.bundles
        (record { mpkgs = mpkgs'; defined = defined; seen = [] })
      >>= λ s.
          if has_leftover s.defined
          then err entries_without_bundle
          else ok (tools.normalize (add_defaults defaults s.mpkgs))
