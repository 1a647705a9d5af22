-- ===== src/Mirror/Release.antt =====
-- pkg/cli/mirror/release.go: which release images a channel or several channels need. A set of
-- downloads is the list of its images. `fuel` is that of `calculate`.
pub mod Plan
pub mod Payload
pub mod InRange
use Prim.Native.String.{◌++◌ as concat}
use oc_mirror.Base.{
  String, ℕ, List, [], ◌∷◌, ◌++◌, Bool, true, false, not, Option, none, some, Result, ok, err,
  if◌then◌else◌, ◌==◌, string_eq, str_lt, mem, ◌&&◌, ◌≡◌,
}
use oc_mirror.Api.Version.{Semver}
use oc_mirror.Api.Platform.{PlatformType, ocp}
use oc_mirror.Api.Config.{ReleaseChannel}
use oc_mirror.Cincinnati.Client.{
  Node, Graph, Client, Query, Failure, invalid_version, Run, ◌>>>◌, or_fail, ocp_client,
}
use oc_mirror.Cincinnati.Updates.{get_updates_in_range}
use oc_mirror.Cincinnati.Upgrades.{Minors, no_update, calculate_upgrades}
use oc_mirror.Cincinnati.Find.{find_release}

-- `semver.ParseRange`, on the two ranges that the program makes.
pub record Ranges (V : Type 0) ⦃sv : Semver V⦄ : Type 0 where
  pub parse_range : String → Option (V → Bool)
  pub parse_at_least :
      (v : V) → parse_range (concat ">=" (sv.to_string v)) ≡ some (λ w. not (sv.lt w v))
  pub parse_at_most :
      (v : V) → parse_range (concat "<=" (sv.to_string v)) ≡ some (λ w. not (sv.lt v w))

abbrev pub Downloads : Type 0
Downloads = List String

abbrev pub add_download : String → Downloads → Downloads
add_download image d = if mem image d then d else d ++ image ∷ []

-- `Merge`: what is there stays.
unfoldable pub merge_downloads : Downloads → Downloads → Downloads
merge_downloads d [] = d
merge_downloads d (image ∷ rest) = merge_downloads (add_download image d) rest

-- The last of the channels with the name.
unfoldable pub previous_channel : String → List ReleaseChannel → Option ReleaseChannel
previous_channel name [] = none
previous_channel name (ch ∷ channels) = elim (previous_channel name channels) [
  | some later ↦ some later
  | none ↦ if ch.name == name then some ch else none
]

abbrev pub is_ocp : PlatformType → Bool
is_ocp ocp = true
is_ocp other = false

unfoldable pub ocp_channels : List ReleaseChannel → List ReleaseChannel
ocp_channels [] = []
ocp_channels (ch ∷ channels) =
    let rest = ocp_channels channels in if is_ocp ch.type then ch ∷ rest else rest

module _ {V : Type 0} ⦃sv : Semver V⦄ where
  unfoldable pub images_of : List (Node V) → Downloads → Downloads
  images_of [] d = d
  images_of (update ∷ updates) d = images_of updates (add_download update.image d)

  abbrev pub add_named : Node V → Downloads → Downloads
  add_named node d = if node.image == "" then d else add_download node.image d

  unfoldable pub gather_updates : Node V → Node V → List (Node V) → Downloads
  gather_updates current newest updates =
      add_named newest (add_named current (images_of updates []))

  abbrev pub parse_version : String → Run V
  parse_version v c = (c, or_fail invalid_version (sv.parse v))

  module _ (minors : Minors V) (ranges : Ranges V) (fetch : Query → Option (Graph V)) (fuel : ℕ)
      (arch : String) where
    -- The upgrades between two versions of one channel, as downloads.
    unfoldable pub between : String → String → String → Run Downloads
    between name first_version last_version c = parse_version first_version c >>> λ first c.
        parse_version last_version c >>> λ last c.
        calculate_upgrades minors fetch fuel arch name name first last c
        >>> λ (current, newest, updates) c. (c, ok (gather_updates current newest updates))

    -- What is added for a channel that was mirrored before. The last version of the second case is the
    -- channel's minimum.
    unfoldable pub previous_downloads : Option ReleaseChannel → ReleaseChannel → Run Downloads
    previous_downloads none channel c = (c, ok [])
    previous_downloads (some prev) channel c =
        let lower = between channel.name channel.min_version prev.min_version c in
        let same : Client × Result Failure Downloads = (c, ok []) in
        (if prev.name == ""
          then same
          else if str_lt channel.min_version prev.min_version
          then lower
          else same)
        >>> λ d c.
            let higher = between channel.name prev.max_version channel.min_version c in
            let stay : Client × Result Failure Downloads = (c, ok []) in
            (if prev.name == ""
              then stay
              else if str_lt prev.max_version channel.max_version
              then higher
              else stay)
            >>> λ e c. (c, ok (merge_downloads d e))

    -- All the releases of the channel between two versions.
    unfoldable pub range_downloads : ReleaseChannel → V → V → Run Downloads
    range_downloads channel first last c =
        (c, or_fail invalid_version (ranges.parse_range (concat ">=" (sv.to_string first))))
        >>> λ low c.
            (c, or_fail invalid_version (ranges.parse_range (concat "<=" (sv.to_string last))))
            >>> λ high c.
                get_updates_in_range fetch channel.name arch (λ w. high w && low w) c
                >>> λ versions c. (c, ok (gather_updates no_update no_update versions))

    unfoldable pub path_downloads : ReleaseChannel → V → V → Run Downloads
    path_downloads channel first last c =
        calculate_upgrades minors fetch fuel arch channel.name channel.name first last c
        >>> λ (current, newest, updates) c. (c, ok (gather_updates current newest updates))

    unfoldable pub get_channel_downloads : List ReleaseChannel → ReleaseChannel → Run Downloads
    get_channel_downloads last_channels channel c =
        previous_downloads (previous_channel channel.name last_channels) channel c
        >>> λ all_downloads c. parse_version channel.min_version c >>> λ first c.
            parse_version channel.max_version c >>> λ last c.
            let path = path_downloads channel first last c in
            let range = range_downloads channel first last c in
            (if channel.shortest_path then path else range) >>> λ new_downloads c.
            (c, ok (merge_downloads all_downloads new_downloads))

    abbrev pub cross_downloads : List ReleaseChannel → Run Downloads
    cross_downloads [] c = (c, ok [])
    cross_downloads (ch ∷ channels) c =
        (c, find_release true (ch ∷ channels)) >>> λ (first_channel, first) c.
        (c, find_release false (ch ∷ channels)) >>> λ (last_channel, last) c.
        calculate_upgrades minors fetch fuel arch first_channel last_channel first last c
        >>> λ (current, newest, updates) c. (c, ok (gather_updates current newest updates))

    -- The client is a new one.
    unfoldable pub get_cross_channel_downloads :
        String → List ReleaseChannel → Result Failure Downloads
    unfolding ocp_channels
    get_cross_channel_downloads id channels =
        (cross_downloads (ocp_channels channels)
          (ocp_client id (record { id = []; arch = []; channel = []; version = [] }))).1
