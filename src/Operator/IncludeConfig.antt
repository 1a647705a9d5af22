-- ===== src/Operator/IncludeConfig.antt =====
-- pkg/operator/declcfg_to_includecfg.go
pub mod NextVersion
pub mod FirstVersion
use oc_mirror.Base.{
  String, ℕ, zero, suc, ◌+◌, ◌-◌, ◌/◌, List, [], ◌∷◌, ◌++◌, Bool, true, false, ◌||◌, Option, none,
  some, Result, ok, err, ◌>>=◌, each, ◌==◌, string_eq, str_lt, if◌then◌else◌, ltb, length,
  get_elem?, last?, map,
}
use oc_mirror.Base.GoMap
use oc_mirror.Base.GoMap.{Map}
use oc_mirror.Base.Sort.{sort}
use oc_mirror.Api.Version.{Semver}
use oc_mirror.Api.Include.{IncludeBundle, IncludeChannel, IncludePackage, IncludeConfig}
use oc_mirror.Operator.Model.{Bundle, Channel, Package, ModelError, Registry}

-- A run of the program can also stop with a panic, or call itself without end.
pub data Failure : Type 0 where
  model_error : ModelError → Failure
  index_out_of_range out_of_fuel : Failure

abbrev pub or_panic {ℓ} : {A : Type ℓ} → Option A → Result Failure A
or_panic none = err index_out_of_range
or_panic (some a) = ok a

abbrev pub from_model {ℓ} : {A : Type ℓ} → Result ModelError A → Result Failure A
from_model (ok a) = ok a
from_model (err e) = err (model_error e)

module _ {V : Type 0} ⦃sv : Semver V⦄ where
  abbrev pub no_bundle : IncludeBundle V
  no_bundle = record { starting_version = sv.none_version; starting_bundle = "" }

  abbrev pub at_version : V → IncludeBundle V
  at_version v = record { starting_version = v; starting_bundle = "" }

  -- `search`, with fuel for its calls of itself. The midpoint is `low + (high+low)/2`, and the call
  -- for the lower half passes `low` and `high` on.
  unfoldable pub search : ℕ → List V → V → ℕ → ℕ → Result Failure V
  search zero versions target low high = err out_of_fuel
  search (suc fuel) versions target low high =
      let mid = low + (high + low) / 2 in
      let upper = search fuel versions target (mid + 1) high in
      let again = search fuel versions target low high in
      let compared = or_panic (get_elem? versions mid) >>= λ v.
      if sv.eq v target
      then or_panic (get_elem? versions (mid + 1))
      else if sv.lt v target
      then upper
      else again in
      if ltb high low
      then ok sv.none_version
      else or_panic (last? versions) >>= λ last.
          if sv.eq last target then ok sv.none_version else compared

  -- The call of `search` over all of a slice. For an empty slice `high` is -1, below `low`.
  unfoldable pub next_version : ℕ → List V → V → Result Failure V
  next_version fuel [] target = ok sv.none_version
  next_version fuel (v ∷ vs) target = search fuel (v ∷ vs) target 0 (length vs)

  unfoldable pub find_next_bundle : ℕ → List V → V → Result Failure (IncludeBundle V)
  find_next_bundle fuel versions target =
      next_version fuel (sort sv.lt versions) target >>= λ v. ok (at_version v)

  -- The name and version of each bundle of a channel.
  abbrev pub versions_of : Map String (Bundle V) → List V
  versions_of bundles = map (λ b. b.version) (GoMap.values bundles)

  -- The order in which `getFirstBundle` sorts: the highest version first.
  abbrev pub gt : V → V → Bool
  gt a b = sv.lt b a

  -- The last version of a channel in that order, a panic if the channel has no bundle.
  unfoldable pub first_version : Channel V → Result Failure V
  first_version ch = or_panic (last? (sort gt (versions_of ch.bundles)))

  abbrev pub channel_name_lt : IncludeChannel V → IncludeChannel V → Bool
  channel_name_lt a b = str_lt a.name b.name

  abbrev pub package_name_lt : IncludePackage V → IncludePackage V → Bool
  package_name_lt a b = str_lt a.name b.name

  abbrev pub include_channel : String → IncludeBundle V → IncludeChannel V
  include_channel name b = record { name = name; include_bundle = b }

  unfoldable pub get_first_bundle : Package V → Result Failure (List (IncludeChannel V))
  get_first_bundle mpkg =
      each (λ ch. first_version ch >>= λ v. ok (include_channel ch.name (at_version v)))
        (GoMap.values mpkg.channels)

  abbrev pub include_package : String → List (IncludeChannel V) → IncludePackage V
  include_package name chs = record {
    name = name;
    channels = sort channel_name_lt chs;
    include_bundle = no_bundle;
  }

  module _ {D : Type 0} (registry : Registry V D) where
    unfoldable pub convert_dc_to_include_config : D → Result Failure (IncludeConfig V)
    convert_dc_to_include_config dc = from_model (registry.convert_to_model dc) >>= λ model.
        each (λ mpkg. get_first_bundle mpkg >>= λ chs. ok (include_package mpkg.name chs))
          (GoMap.values model)
        >>= λ pkgs. ok (record { packages = sort package_name_lt pkgs })

    unfoldable pub get_head_bundle : Channel V → Result Failure (IncludeBundle V)
    get_head_bundle ch = from_model (registry.head ch) >>= λ b. ok (at_version b.version)

    unfoldable pub get_channel_heads : Package V → Result Failure (List (IncludeChannel V))
    get_channel_heads mpkg =
        each (λ ch. get_head_bundle ch >>= λ b. ok (include_channel ch.name b))
          (GoMap.values mpkg.channels)

    -- The keys of `bundleSet`: the versions as strings.
    abbrev pub bundle_set : Channel V → Map String (Unit {0})
    bundle_set ch = GoMap.fill sv.to_string (λ v. tt) (versions_of ch.bundles) []

    abbrev pub include_channels : List (IncludeChannel V) → Map String (IncludeBundle V)
    include_channels chs = GoMap.fill (λ c. c.name) (λ c. c.include_bundle) chs []

    -- The body of the loop of `getCurrBundle`.
    unfoldable pub starting_bundle :
        ℕ → Map String (IncludeBundle V) → Channel V → Result Failure (IncludeBundle V)
    starting_bundle fuel included ch = elim (GoMap.lookup ch.name included) [
      | none ↦ get_head_bundle ch
      | some b ↦
          if GoMap.has (sv.to_string b.starting_version) (bundle_set ch)
          then ok b
          else find_next_bundle fuel (versions_of ch.bundles ++ b.starting_version ∷ [])
              b.starting_version
    ]

    unfoldable pub get_curr_bundle :
        ℕ → Package V → IncludePackage V → Result Failure (List (IncludeChannel V))
    get_curr_bundle fuel mpkg ic_pkg =
        each
          (λ ch. starting_bundle fuel (include_channels ic_pkg.channels) ch >>= λ b.
            ok (include_channel ch.name b))
          (GoMap.values mpkg.channels)

    abbrev pub curr_packages : List (IncludePackage V) → Map String (IncludePackage V)
    curr_packages pkgs = GoMap.fill (λ p. p.name) (λ p. p) pkgs []

    -- The body of the loop of `UpdateIncludeConfig`.
    unfoldable pub update_package :
        ℕ → Map String (IncludePackage V) → Package V → Result Failure (IncludePackage V)
    update_package fuel current mpkg = elim (GoMap.lookup mpkg.name current) [
      | none ↦ get_channel_heads mpkg >>= λ chs. ok (include_package mpkg.name chs)
      | some p ↦ get_curr_bundle fuel mpkg p >>= λ chs. ok (include_package mpkg.name chs)
    ]

    unfoldable pub update_include_config :
        ℕ → D → IncludeConfig V → Result Failure (IncludeConfig V)
    update_include_config fuel dc curr = from_model (registry.convert_to_model dc) >>= λ model.
        each (update_package fuel (curr_packages curr.packages)) (GoMap.values model) >>= λ pkgs.
        ok (record { packages = sort package_name_lt pkgs })
