-- ===== src/Cincinnati/Find.antt =====
-- find.go: the release with the least or the greatest version of the channels.
pub mod Extreme
use oc_mirror.Base.{
  String, List, [], ◌∷◌, Bool, Result, ok, err, ◌>>=◌, if◌then◌else◌, string_eq, last?,
}
use oc_mirror.Base.GoMap
use oc_mirror.Base.GoMap.{Map}
use oc_mirror.Base.Sort.{sort}
use oc_mirror.Api.Version.{Semver}
use oc_mirror.Api.Config.{ReleaseChannel}
use oc_mirror.Cincinnati.Client.{Failure, no_previous_release, invalid_version, panic, or_fail}

module _ {V : Type 0} ⦃sv : Semver V⦄ where
  unfoldable pub find_releases_loop :
      Bool → List ReleaseChannel → Map String V → Result Failure (Map String V)
  find_releases_loop min [] vers = ok vers
  find_releases_loop min (ch ∷ channels) vers =
      or_fail invalid_version (sv.parse (if min then ch.min_version else ch.max_version)) >>= λ v.
      find_releases_loop min channels (GoMap.insert ch.name v vers)

  abbrev pub not_empty : Map String V → Result Failure (Map String V)
  not_empty [] = err no_previous_release
  not_empty (e ∷ vers) = ok (e ∷ vers)

  unfoldable pub find_releases : Bool → List ReleaseChannel → Result Failure (Map String V)
  find_releases min channels = find_releases_loop min channels [] >>= not_empty

  -- The order of the keys: the greatest version first for the minimum, the least first otherwise.
  abbrev pub before : Bool → String × V → String × V → Bool
  before min a b = if min then sv.lt b.1 a.1 else sv.lt a.1 b.1

  unfoldable pub find_release : Bool → List ReleaseChannel → Result Failure (String × V)
  find_release min channels =
      find_releases min channels >>= λ vers. or_fail panic (last? (sort (before min) vers))
