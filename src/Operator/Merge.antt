-- ===== src/Operator/Merge.antt =====
-- pkg/operator/merge.go: merging the packages, channels and bundles of a declarative configuration
-- that have one key. A Go map that groups them is an association list, in the order of the first
-- elements.
pub mod Last
use Prim.Native.String.{◌++◌ as concat}
use oc_mirror.Base.{
  String, ℕ, List, [], ◌∷◌, ◌++◌, Bool, true, false, Option, none, some, Result, ok, err, ◌>>=◌,
  each, if◌then◌else◌, ◌==◌, string_eq, str_lt, or_default,
}
use oc_mirror.Base.GoMap
use oc_mirror.Base.GoMap.{Map}
use oc_mirror.Base.Sort.{sort}
use oc_mirror.Operator.Catalog.{
  DcPackage, ChannelEntry, DcChannel, DcBundle, DeclarativeConfig, Mergo,
}

pub data MergeError : Type 0 where
  merge_failed invalid_config : MergeError

-- `keyForDCObj`
abbrev pub package_key : DcPackage → String
package_key p = p.name

abbrev pub channel_key : DcChannel → String
channel_key c = concat c.package_name c.name

abbrev pub bundle_key : DcBundle → String
bundle_key b = concat b.package_name b.name

-- The orders of `sortPackages`, `sortChannels` and `sortBundles`.
abbrev pub package_lt : DcPackage → DcPackage → Bool
package_lt a b = str_lt a.name b.name

abbrev pub channel_lt : DcChannel → DcChannel → Bool
channel_lt a b =
    if a.package_name == b.package_name
    then str_lt a.name b.name
    else str_lt a.package_name b.package_name

abbrev pub bundle_lt : DcBundle → DcBundle → Bool
bundle_lt a b =
    if a.package_name == b.package_name
    then str_lt a.name b.name
    else str_lt a.package_name b.package_name

abbrev pub entry_lt : ChannelEntry → ChannelEntry → Bool
entry_lt a b = str_lt a.name b.name

module _ {A : Type 0} where
  abbrev pub last_of : A → List A → A
  last_of a [] = a
  last_of a (b ∷ bs) = last_of b bs

  -- The last element of each group. A group is never empty.
  unfoldable pub lasts : Map String (List A) → List A
  lasts [] = []
  lasts ((k, []) ∷ groups) = lasts groups
  lasts ((k, a ∷ as') ∷ groups) = last_of a as' ∷ lasts groups

  -- The elements of a group merged into the first one, in order.
  unfoldable pub merge_group : (A → A → Option A) → A → List A → Result MergeError A
  merge_group merge a [] = ok a
  merge_group merge a (b ∷ bs) = elim (merge a b) [
    | none ↦ err merge_failed
    | some c ↦ merge_group merge c bs
  ]

  unfoldable pub merge_groups :
      (A → A → Option A) → Map String (List A) → Result MergeError (List A)
  merge_groups merge [] = ok []
  merge_groups merge ((k, []) ∷ groups) = merge_groups merge groups
  merge_groups merge ((k, a ∷ as') ∷ groups) =
      merge_group merge a as' >>= λ c. merge_groups merge groups >>= λ cs. ok (c ∷ cs)

module _ {A : Type 0} (key : A → String) where
  -- The elements by key, each list in the order of the input.
  unfoldable pub group_by : List A → Map String (List A) → Map String (List A)
  group_by [] groups = groups
  group_by (a ∷ as') groups =
      group_by as'
        (GoMap.insert (key a) (or_default [] (GoMap.lookup (key a) groups) ++ a ∷ []) groups)

  unfoldable pub prefer_last : (A → A → Bool) → List A → List A
  prefer_last less [] = []
  prefer_last less (a ∷ as') = sort less (lasts (group_by (a ∷ as') []))

  unfoldable pub merge_all :
      (A → A → Option A) → (A → A → Bool) → List A → Result MergeError (List A)
  merge_all merge less xs = merge_groups merge (group_by xs []) >>= λ out. ok (sort less out)

abbrev pub validated :
    (DeclarativeConfig → Bool) → DeclarativeConfig → DeclarativeConfig × Option MergeError
validated valid cfg = if valid cfg then (cfg, none) else (cfg, some invalid_config)

abbrev pub kept_last : DeclarativeConfig → DeclarativeConfig
kept_last cfg = record {
  packages = prefer_last package_key package_lt cfg.packages;
  channels = prefer_last channel_key channel_lt cfg.channels;
  bundles = prefer_last bundle_key bundle_lt cfg.bundles;
  others = cfg.others;
}

-- `mergeDCPreferLast`, with `validate` as a parameter.
unfoldable pub merge_dc_prefer_last :
    (DeclarativeConfig → Bool) → DeclarativeConfig → DeclarativeConfig × Option MergeError
merge_dc_prefer_last valid cfg = validated valid (kept_last cfg)

module _ (mergo : Mergo) where
  unfoldable pub merge_packages : List DcPackage → Result MergeError (List DcPackage)
  merge_packages pkgs = merge_all package_key mergo.merge_package package_lt pkgs

  unfoldable pub merge_bundles : List DcBundle → Result MergeError (List DcBundle)
  merge_bundles bundles = merge_all bundle_key mergo.merge_bundle bundle_lt bundles

  abbrev pub entry_key : ChannelEntry → String
  entry_key e = e.name

  -- The entries of all channels of a group.
  unfoldable pub entries_of : List DcChannel → List ChannelEntry
  entries_of [] = []
  entries_of (ch ∷ chs) = ch.entries ++ entries_of chs

  abbrev pub with_entries : DcChannel → List ChannelEntry → DcChannel
  with_entries ch es = record { name = ch.name; package_name = ch.package_name; entries = es }

  unfoldable pub merge_channel_group : DcChannel → List DcChannel → Result MergeError DcChannel
  merge_channel_group ch chs = merge_group mergo.merge_channel ch chs >>= λ merged.
      merge_all entry_key mergo.merge_entry entry_lt (entries_of (ch ∷ chs)) >>= λ entries.
      ok (with_entries merged entries)

  unfoldable pub merge_channel_groups :
      Map String (List DcChannel) → Result MergeError (List DcChannel)
  merge_channel_groups [] = ok []
  merge_channel_groups ((k, []) ∷ groups) = merge_channel_groups groups
  merge_channel_groups ((k, ch ∷ chs) ∷ groups) =
      merge_channel_group ch chs >>= λ c. merge_channel_groups groups >>= λ cs. ok (c ∷ cs)

  unfoldable pub merge_channels : List DcChannel → Result MergeError (List DcChannel)
  merge_channels chs =
      merge_channel_groups (group_by channel_key chs []) >>= λ out. ok (sort channel_lt out)
