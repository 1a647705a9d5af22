-- ===== src/Operator/IncludeConfig/FirstVersion.antt =====
-- The include configuration of a heads-only catalog starts each channel at its lowest version.
use mathlib.Core.Path.{subst}
use oc_mirror.Base.{
  ◌≡◌, List, true, false, some, ok, arith, last?, In-last, In-get_elem?, In, >>=-eq-ok, refl, ◌>>=◌,
  Pointwise, each-Pointwise,
}
use oc_mirror.Base.GoMap
use oc_mirror.Base.Sort.{sort, sort-In, sort-IsSorted, last-IsSorted}
use oc_mirror.Api.Version.{Semver}
use oc_mirror.Api.Include.{IncludeChannel}
use oc_mirror.Operator.Model.{Channel, Package}
use oc_mirror.Operator.IncludeConfig.{
  first_version, get_first_bundle, versions_of, gt, include_channel, at_version,
}

module _ {V : Type 0} ⦃sv : Semver V⦄ where
  gt_le_trans : (a b c : V) → gt b a ≡ false → gt c b ≡ false → gt c a ≡ false
  gt_le_trans a b c h g = sv.le_trans c b a g h

  gt_asym : (a b : V) → gt a b ≡ true → gt b a ≡ false
  gt_asym a b h = sv.lt_asym b a h

  -- A version of the channel, and none of the channel's versions is less.
  abbrev pub IsLowest : Channel V → V → Type 0
  IsLowest ch v =
      In v (versions_of ch.bundles) × ((w : V) → In w (versions_of ch.bundles) → sv.lt w v ≡ false)

  first_version-IsLowest : (ch : Channel V) (v : V) → first_version ch ≡ ok v → IsLowest ch v
  unfolding first_version
  first_version-IsLowest ch v h =
      let all = versions_of ch.bundles in
      let e : last? (sort gt all) ≡ some v = ground arith in
      (
        (sort-In gt v all).0 (In-last (sort gt all) v e),
        λ w i.
            let (n, at) = In-get_elem? (sort gt all) w ((sort-In gt w all).1 i) in
            last-IsSorted gt gt_asym gt_le_trans (sort gt all) n w v
              (sort-IsSorted gt gt_asym gt_le_trans all) at e,
      )

  -- What is included of a channel.
  abbrev pub StartsLowest : Channel V → IncludeChannel V → Type 0
  StartsLowest ch c =
      (c.name ≡ ch.name)
      × IsLowest ch c.include_bundle.starting_version
      × (c.include_bundle.starting_bundle ≡ "")

  starts_lowest :
      (ch : Channel V) (c : IncludeChannel V)
      → (first_version ch >>= λ v. ok (include_channel ch.name (at_version v))) ≡ ok c
      → StartsLowest ch c
  starts_lowest ch c h =
      let (v, e, last) = >>=-eq-ok (first_version ch) _ h in
      let same : include_channel ch.name (at_version v) ≡ c = cc in
      subst (StartsLowest ch) same (refl, first_version-IsLowest ch v e, refl)

  -- Each channel of a package is included, in the order of the map, by name and from its lowest
  -- version on.
  pub get_first_bundle-StartsLowest :
      (mpkg : Package V) (cs : List (IncludeChannel V))
      → get_first_bundle mpkg ≡ ok cs
      → Pointwise StartsLowest (GoMap.values mpkg.channels) cs
  unfolding get_first_bundle
  get_first_bundle-StartsLowest mpkg cs h =
      each-Pointwise StartsLowest _ starts_lowest (GoMap.values mpkg.channels) cs h
