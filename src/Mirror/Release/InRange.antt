-- ===== src/Mirror/Release/InRange.antt =====
-- Which releases are downloaded for a channel.
use text.Mathlib.TextEquality.{eq_iff}
use oc_mirror.Base.{
  String, ℕ, ◌≡◌, ◌↔◌, ◌⊎◌, List, [], ◌∷◌, ◌++◌, Bool, true, false, not, ◌&&◌, ◌||◌, Option, none,
  some, ok, ◌==◌, string_eq, mem, arith, refl,
}
use oc_mirror.Api.Version.{Semver}
use oc_mirror.Api.Config.{ReleaseChannel}
use oc_mirror.Cincinnati.Client.{Node, Graph, Client, Query, query, set_query_params}
use oc_mirror.Cincinnati.Updates.{in_range, get_updates_in_range, get_graph_data}
use oc_mirror.Cincinnati.Upgrades.{Minors, no_update}
use oc_mirror.Cincinnati.Upgrades.Unseen.{HasImage}
use oc_mirror.Mirror.Release.{
  Ranges, Downloads, add_download, merge_downloads, images_of, gather_updates, previous_channel,
  previous_downloads, range_downloads, get_channel_downloads,
}

mem-append : (i : String) (xs ys : List String) → mem i (xs ++ ys) ≡ (mem i xs || mem i ys)
mem-append i [] ys = refl
mem-append i (x ∷ xs) ys = ground (arith, mem-append i xs ys)

mem-add_download :
    (i image : String) (d : Downloads) → mem i (add_download image d) ≡ ((image == i) || mem i d)
mem-add_download i image d = ground (arith, mem-append i d (image ∷ []), eq_iff image i)

-- A merge holds what one of the two holds.
pub mem-merge_downloads :
    (i : String) (d e : Downloads)
    → (mem i (merge_downloads d e) ≡ true) ↔ ((mem i d ≡ true) ⊎ (mem i e ≡ true))
unfolding merge_downloads
mem-merge_downloads i d [] = ground arith
mem-merge_downloads i d (image ∷ e) =
    ground (arith, mem-merge_downloads i (add_download image d) e, mem-add_download i image d)

module _ {V : Type 0} ⦃sv : Semver V⦄ where
  mem-images_of :
      (i : String) (us : List (Node V)) (d : Downloads)
      → (mem i (images_of us d) ≡ true) ↔ (HasImage i us ⊎ (mem i d ≡ true))
  unfolding images_of
  mem-images_of i [] d = ground arith
  mem-images_of i (u ∷ us) d = ground (
    arith,
    mem-images_of i us (add_download u.image d),
    mem-add_download i u.image d,
    eq_iff u.image i,
  )

  -- A node with the image and a version that passes the test.
  abbrev pub Provides : (V → Bool) → String → List (Node V) → Type 0
  Provides p i [] = ⊥
  Provides p i (n ∷ nodes) = ((n.image ≡ i) × (p n.version ≡ true)) ⊎ Provides p i nodes

  module _ (minors : Minors V) (ranges : Ranges V) (fetch : Query → Option (Graph V)) (fuel : ℕ)
      (arch : String) where
    HasImage-in_range :
        (p : V → Bool) (i : String) (nodes : List (Node V))
        → HasImage i (in_range fetch p nodes) ↔ Provides p i nodes
    HasImage-in_range p i [] = ground arith
    HasImage-in_range p i (n ∷ nodes) = ground (arith, HasImage-in_range p i nodes)

    abbrev pub between_versions : V → V → V → Bool
    between_versions first last = λ w. not (sv.lt last w) && not (sv.lt w first)

    range_downloads_ok :
        (channel : ReleaseChannel) (first last : V) (c : Client) (graph : Graph V)
        → fetch (query (set_query_params arch channel.name "" c)) ≡ some graph
        → range_downloads minors ranges fetch fuel arch channel first last c ≡ (
          set_query_params arch channel.name "" c,
          ok (
              gather_updates no_update no_update
                (in_range fetch (between_versions first last) graph.nodes)),
        )
    unfolding range_downloads get_updates_in_range get_graph_data
    range_downloads_ok channel first last c graph got =
        rw (ranges.parse_at_least first, ranges.parse_at_most last, got) refl

    -- The downloads of a channel that was not mirrored before and whose path is not shortened: once the
    -- service gives the channel's graph, they are exactly the images of the nodes from the channel's
    -- minimum to its maximum.
    pub get_channel_downloads-Provides :
        (last_channels : List ReleaseChannel) (channel : ReleaseChannel) (first last : V)
        (c : Client) (graph : Graph V) (image : String)
        → previous_channel channel.name last_channels ≡ none
        → channel.shortest_path ≡ false
        → sv.parse channel.min_version ≡ some first
        → sv.parse channel.max_version ≡ some last
        → fetch (query (set_query_params arch channel.name "" c)) ≡ some graph
        → (d : Downloads) × (get_channel_downloads minors ranges fetch fuel arch last_channels
              channel c
            ≡ (set_query_params arch channel.name "" c, ok d))
          × ((mem image d ≡ true) ↔ Provides (between_versions first last) image graph.nodes)
    unfolding get_channel_downloads previous_downloads gather_updates
    get_channel_downloads-Provides last_channels channel first last c graph image new all min max
          got =
        let nodes = in_range fetch (between_versions first last) graph.nodes in
        let range = range_downloads_ok channel first last c graph got in
        (
          merge_downloads [] (images_of nodes []),
          rw (new, min, max) (simp all (rw range refl)),
          ground (
            arith,
            mem-merge_downloads image [] (images_of nodes []),
            mem-images_of image nodes [],
            HasImage-in_range (between_versions first last) image graph.nodes,
          ),
        )
