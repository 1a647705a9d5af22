-- ===== src/Operator/Catalog.antt =====
-- Declarative configurations and their model (operator-registry's alpha/declcfg and alpha/model), with
-- the fields that pkg/operator/merge.go reads or writes, and the functions of other projects that it
-- calls.
use oc_mirror.Base.{String, List, Option, some, ◌≡◌, if◌then◌else◌, ◌==◌, string_eq}
use oc_mirror.Base.GoMap.{Map}

pub record Property : Type 0 where
  pub type : String
  pub value : String

pub record DcPackage : Type 0 where
  pub name : String
  pub default_channel : String
  pub description : String

pub record ChannelEntry : Type 0 where
  pub name : String
  pub replaces : String
  pub skips : List String
  pub skip_range : String

pub record DcChannel : Type 0 where
  pub name : String
  pub package_name : String
  pub entries : List ChannelEntry

pub record DcBundle : Type 0 where
  pub name : String
  pub package_name : String
  pub image : String
  pub properties : List Property
  pub related_images : List (String × String)
  pub csv_json : String
  pub objects : List String

-- `Meta` of a schema without a model, as its text.
pub record DeclarativeConfig : Type 0 where
  pub packages : List DcPackage
  pub channels : List DcChannel
  pub bundles : List DcBundle
  pub others : List String

pub record ModelBundle (V : Type 0) : Type 0 where
  pub name : String
  pub replaces : String
  pub skips : List String
  pub skip_range : String
  pub image : String
  pub properties : List Property
  pub related_images : List (String × String)
  pub csv_json : String
  pub objects : List String
  pub version : V

pub record ModelChannel (V : Type 0) : Type 0 where
  pub name : String
  pub bundles : Map String (ModelBundle V)

-- `default_channel` is the name of the channel that `DefaultChannel` points to, `none` for nil.
pub record ModelPackage (V : Type 0) : Type 0 where
  pub name : String
  pub description : String
  pub channels : Map String (ModelChannel V)
  pub default_channel : Option String

abbrev pub PackageModel : Type 0 → Type 0
PackageModel V = Map String (ModelPackage V)

-- `mergo.Merge` with `WithOverride`: a field of the second value replaces that of the first, unless
-- it is empty. The laws say so of the fields that make up the keys.
pub record Mergo : Type 0 where
  pub merge_package : DcPackage → DcPackage → Option DcPackage
  pub merge_channel : DcChannel → DcChannel → Option DcChannel
  pub merge_entry : ChannelEntry → ChannelEntry → Option ChannelEntry
  pub merge_bundle : DcBundle → DcBundle → Option DcBundle
  pub name-merge_package :
      (a b c : DcPackage)
      → merge_package a b ≡ some c
      → c.name ≡ (if b.name == "" then a.name else b.name)
  pub name-merge_entry :
      (a b c : ChannelEntry)
      → merge_entry a b ≡ some c
      → c.name ≡ (if b.name == "" then a.name else b.name)

-- A package property of a bundle, and what the program takes from operator-registry: `property.Parse`
-- (its package properties), `Normalize` and `ConvertFromModel`.
pub record PackageProperty : Type 0 where
  pub package_name : String
  pub version : String

pub record CatalogTools (V : Type 0) : Type 0 where
  pub parse_properties : List Property → Option (List PackageProperty)
  pub normalize : PackageModel V → PackageModel V
  pub convert_from_model : PackageModel V → DeclarativeConfig
