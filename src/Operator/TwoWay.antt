-- ===== src/Operator/TwoWay.antt =====
-- pkg/operator/merge.go: `mergeDCTwoWay`, on a configuration that it changes in place: what was merged
-- before an error stays.
use oc_mirror.Base.{String, List, [], Bool, Option, none, some, ok, err}
use oc_mirror.Api.Version.{Semver}
use oc_mirror.Operator.Catalog.{
  DcPackage, DcChannel, DcBundle, DeclarativeConfig, Mergo, CatalogTools,
}
use oc_mirror.Operator.Merge.{MergeError, merge_packages, merge_channels, merge_bundles, validated}
use oc_mirror.Operator.ToModel.{ToModelError, convert_to_model_no_validate}
use oc_mirror.Operator.Heads.{HeadError, resolve_channel_heads}

pub data TwoWayError : Type 0 where
  merging : MergeError → TwoWayError
  converting : ToModelError → TwoWayError
  resolving : HeadError → TwoWayError

-- On an error Go assigns the nil slice that comes with it.
abbrev pub with_packages : DeclarativeConfig → List DcPackage → DeclarativeConfig
with_packages cfg ps = record {
  packages = ps;
  channels = cfg.channels;
  bundles = cfg.bundles;
  others = cfg.others;
}

abbrev pub with_channels : DeclarativeConfig → List DcChannel → DeclarativeConfig
with_channels cfg cs = record {
  packages = cfg.packages;
  channels = cs;
  bundles = cfg.bundles;
  others = cfg.others;
}

abbrev pub with_bundles : DeclarativeConfig → List DcBundle → DeclarativeConfig
with_bundles cfg bs = record {
  packages = cfg.packages;
  channels = cfg.channels;
  bundles = bs;
  others = cfg.others;
}

abbrev pub validation_error :
    DeclarativeConfig × Option MergeError → DeclarativeConfig × Option TwoWayError
validation_error (cfg, none) = (cfg, none)
validation_error (cfg, some e) = (cfg, some (merging e))

module _ {V : Type 0} ⦃sv : Semver V⦄ (mergo : Mergo) (tools : CatalogTools V)
    (parse_range : String → Option (V → Bool)) (valid : DeclarativeConfig → Bool) where
  unfoldable pub resolve_merged : DeclarativeConfig → DeclarativeConfig × Option TwoWayError
  resolve_merged cfg = elim (convert_to_model_no_validate tools cfg) [
    | err e ↦ (cfg, some (converting e))
    | ok model ↦ elim (resolve_channel_heads parse_range model) [
      | err e ↦ (cfg, some (resolving e))
      | ok resolved ↦ validation_error (validated valid (tools.convert_from_model resolved))
    ]
  ]

  unfoldable pub merge_dc_two_way : DeclarativeConfig → DeclarativeConfig × Option TwoWayError
  merge_dc_two_way cfg = elim (merge_packages mergo cfg.packages) [
    | err e ↦ (with_packages cfg [], some (merging e))
    | ok ps ↦
        let cfg1 = with_packages cfg ps in
        elim (merge_channels mergo cfg.channels) [
          | err e ↦ (with_channels cfg1 [], some (merging e))
          | ok cs ↦
              let cfg2 = with_channels cfg1 cs in
              elim (merge_bundles mergo cfg.bundles) [
                | err e ↦ (with_bundles cfg2 [], some (merging e))
                | ok bs ↦ resolve_merged (with_bundles cfg2 bs)
              ]
        ]
  ]
