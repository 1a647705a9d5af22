-- ===== src/Mirror/Release/Plan.antt =====
-- release.go, `Plan` up to the downloads: the channels' versions are filled in, and the downloads of
-- all channels and architectures are gathered. An error of one channel is kept and the others go on.
use oc_mirror.Base.{
  String, ℕ, List, [], ◌∷◌, ◌++◌, true, false, ◌||◌, ◌&&◌, Option, none, some, Result, ok, err,
  ◌>>=◌, if◌then◌else◌, ◌==◌, string_eq, or_default, map, ltb, length,
}
use oc_mirror.Base.GoMap
use oc_mirror.Base.GoMap.{Map}
use oc_mirror.Api.Version.{Semver}
use oc_mirror.Api.Platform.{PlatformType, ocp, okd, unknown}
use oc_mirror.Api.Config.{ReleaseChannel, PlatformMetadata, channel_heads_only}
use oc_mirror.Cincinnati.Client.{
  Graph, Client, Query, Failure, Run, ◌>>>◌, is_stop, ocp_client, okd_client,
}
use oc_mirror.Cincinnati.Updates.{get_channel_min_or_max}
use oc_mirror.Cincinnati.Upgrades.{Minors}
use oc_mirror.Mirror.Release.{
  Ranges, Downloads, merge_downloads, get_channel_downloads, get_cross_channel_downloads,
}

pub data PlanError : Type 0 where
  invalid_platform_type : PlatformType → PlanError
  request_failed : Failure → PlanError

abbrev pub no_query : Query
no_query = record { id = []; arch = []; channel = []; version = [] }

-- `NewOCPClient` and `NewOKDClient`, whose errors concern the system's certificates.
unfoldable pub new_client : String → PlatformType → Option Client
new_client id ocp = some (ocp_client id no_query)
new_client id okd = some (okd_client no_query)
new_client id (unknown n) = none

abbrev pub with_max : String → ReleaseChannel → ReleaseChannel
with_max v ch = record ch { max_version = v }

abbrev pub with_min : String → ReleaseChannel → ReleaseChannel
with_min v ch = record ch { min_version = v }

-- The releases of the last run, by channel.
unfoldable pub previous_minimums : List PlatformMetadata → Map String String
previous_minimums platforms = GoMap.fill (λ p. p.release_channel) (λ p. p.min_version) platforms []

pub record PlanState : Type 0 where
  pub versions : Map String ReleaseChannel
  pub downloads : Downloads
  pub errs : List PlanError

abbrev pub add_error : PlanState → PlanError → PlanState
add_error s e = record s { errs = s.errs ++ e ∷ [] }

abbrev pub set_version : PlanState → ReleaseChannel → PlanState
set_version s ch = record s { versions = GoMap.insert ch.name ch s.versions }

abbrev pub add_downloads : PlanState → Downloads → PlanState
add_downloads s d = record s { downloads = merge_downloads s.downloads d }

-- An error is kept, a panic is not.
abbrev pub keep_error {ℓ} :
    {A : Type ℓ}
    → PlanState
    → Result Failure A
    → (A → Result Failure PlanState)
    → Result Failure PlanState
keep_error s (ok a) f = f a
keep_error s (err e) f = if is_stop e then err e else ok (add_error s (request_failed e))

module _ {V : Type 0} ⦃sv : Semver V⦄ where
  module _ (minors : Minors V) (ranges : Ranges V) (fetch : Query → Option (Graph V)) (fuel : ℕ)
      (id : String) where
    -- The maximum, and with heads only the minimum, of a channel that has no maximum.
    unfoldable pub fill_max : Map String String → String → ReleaseChannel → Run ReleaseChannel
    fill_max prev_channels arch ch c =
        let filled = get_channel_min_or_max fetch arch ch.name false c >>> λ latest c.
        let at_max = with_max (sv.to_string latest) ch in
        let min = or_default (sv.to_string latest) (GoMap.lookup ch.name prev_channels) in
        (
          c,
          ok (
              if (ch.min_version == "") && channel_heads_only ch
              then with_min min at_max
              else at_max),
        ) in
        let same : Client × Result Failure ReleaseChannel = (c, ok ch) in
        if ch.max_version == "" then filled else same

    unfoldable pub fill_min : String → ReleaseChannel → Run ReleaseChannel
    fill_min arch ch c =
        let filled = get_channel_min_or_max fetch arch ch.name true c >>> λ first c.
        (c, ok (with_min (sv.to_string first) ch)) in
        let same : Client × Result Failure ReleaseChannel = (c, ok ch) in
        if ch.min_version == "" then filled else same

    -- The channel with both versions set. A channel that has both is marked as full.
    unfoldable pub resolve_channel :
        Map String String → String → ReleaseChannel → Run ReleaseChannel
    resolve_channel prev_channels arch ch c =
        let filled = fill_max prev_channels arch ch c >>> λ at_max c. fill_min arch at_max c in
        let full : Client × Result Failure ReleaseChannel = (c, ok (record ch { full = true })) in
        if (ch.max_version == "") || (ch.min_version == "") then filled else full

    abbrev pub plan_with :
        Map String String
        → List ReleaseChannel
        → String
        → ReleaseChannel
        → PlanState
        → Option Client
        → Result Failure PlanState
    plan_with prev_channels last_channels arch ch s none =
        ok (add_error s (invalid_platform_type ch.type))
    plan_with prev_channels last_channels arch ch s (some c) =
        let (d, resolved) = resolve_channel prev_channels arch ch c in
        keep_error s resolved (λ found.
          keep_error (set_version s found)
            (get_channel_downloads minors ranges fetch fuel arch last_channels found d).1
            (λ downloads. ok (add_downloads (set_version s found) downloads)))

    -- The loop over the channels, for one architecture.
    unfoldable pub plan_channels :
        Map String String
        → List ReleaseChannel
        → String
        → List ReleaseChannel
        → PlanState
        → Result Failure PlanState
    plan_channels prev_channels last_channels arch [] s = ok s
    plan_channels prev_channels last_channels arch (ch ∷ channels) s =
        plan_with prev_channels last_channels arch ch s (new_client id ch.type)
        >>= plan_channels prev_channels last_channels arch channels

    -- What the configuration's channels become.
    unfoldable pub update_channels :
        Map String ReleaseChannel → List ReleaseChannel → List ReleaseChannel
    update_channels versions channels =
        map (λ ch. or_default ch (GoMap.lookup ch.name versions)) channels

    abbrev pub plan_across : String → List ReleaseChannel → PlanState → Result Failure PlanState
    plan_across arch channels s =
        let across =
          keep_error s (get_cross_channel_downloads minors ranges fetch fuel arch id channels)
            (λ downloads. ok (add_downloads s downloads)) in
        if ltb 1 (length channels) then across else ok s

    -- The loop over the architectures. The versions that one of them fills in stay for the next.
    unfoldable pub plan_archs :
        Map String String
        → List ReleaseChannel
        → List String
        → List ReleaseChannel
        → Downloads
        → List PlanError
        → Result Failure (List ReleaseChannel × Downloads × List PlanError)
    plan_archs prev_channels last_channels [] channels downloads errs =
        ok (channels, downloads, errs)
    plan_archs prev_channels last_channels (arch ∷ archs) channels downloads errs =
        plan_channels prev_channels last_channels arch channels
          (record { versions = []; downloads = downloads; errs = errs })
        >>= λ s. plan_across arch (update_channels s.versions channels) s >>= λ t.
            plan_archs prev_channels last_channels archs (update_channels s.versions channels)
              t.downloads t.errs

    abbrev pub no_errors :
        List ReleaseChannel × Downloads × List PlanError
        → Result (List PlanError) (List ReleaseChannel × Downloads)
    no_errors (channels, downloads, []) = ok (channels, downloads)
    no_errors (channels, downloads, e ∷ errs) = err (e ∷ errs)

    -- The downloads and the configuration's channels, or the errors; outside of it a panic.
    unfoldable pub plan_releases :
        List PlatformMetadata
        → List ReleaseChannel
        → List String
        → List ReleaseChannel
        → Result Failure (Result (List PlanError) (List ReleaseChannel × Downloads))
    plan_releases last_platforms last_channels archs channels =
        plan_archs (previous_minimums last_platforms) last_channels archs channels [] [] >>= λ r.
        ok (no_errors r)
