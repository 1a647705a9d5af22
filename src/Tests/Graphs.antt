-- ===== src/Tests/Graphs.antt =====
-- The theorems on update graphs at a small graph.
use Prim.Native.Char.{Char}
use text.Mathlib.TextLemmas.{cons-append, nil-append}
use Prim.Native.String.{◌++◌}
use oc_mirror.Base.{
  String, arith, inr, ℕ, ◌≡◌, ◌↔◌, ◌⊎◌, Bool, not, ltb, none, false, mem, ap, ◌∙◌, string_eq,
  if◌then◌else◌, ◌==◌, List, [], ◌∷◌, true, false, Option, some, ok, refl, inl,
}
use oc_mirror.Base.GoMap
use oc_mirror.Base.GoMap.{Map}
use oc_mirror.Api.Config.{ReleaseChannel}
use oc_mirror.Api.Platform.{ocp}
use oc_mirror.Cincinnati.Client.{Node, Graph, Query, Client, ocp_client, set_query_params}
use oc_mirror.Cincinnati.Updates.{find_node, get_updates}
use oc_mirror.Cincinnati.Updates.Route.{IsRoute, get_updates-IsRoute}
use oc_mirror.Cincinnati.Upgrades.{unseen}
use oc_mirror.Cincinnati.Upgrades.Unseen.{HasImage, DistinctImages, unseen-keeps}
use oc_mirror.Cincinnati.Find.{find_releases_loop, find_releases, find_release}
use oc_mirror.Cincinnati.Find.Extreme.{IsExtreme, find_release-IsExtreme}
use oc_mirror.Cincinnati.Upgrades.{Minors}
use oc_mirror.Mirror.Release.{Ranges, Downloads, previous_channel, get_channel_downloads}
use oc_mirror.Mirror.Release.InRange.{Provides, between_versions, get_channel_downloads-Provides}
use oc_mirror.Tests.Versions.{numbers, count, count-tally}
use oc_mirror.Cincinnati.ShortestPath.{Adjacency, shortest_path}
use oc_mirror.Cincinnati.ShortestPath.Walk.{Walk, shortest_path-Walk}
use oc_mirror.Cincinnati.ShortestPath.Complete.{shortest_path_complete}

abbrev graph : Adjacency
graph = (0, 1 ∷ (2 ∷ [])) ∷ ((1, 3 ∷ []) ∷ ((3, 2 ∷ []) ∷ []))

shortest_path-Walk_example :
    (path : List ℕ) × (shortest_path graph 0 2 ≡ ok path) × ((path ≡ []) ⊎ Walk graph 0 2 path)
shortest_path-Walk_example = shortest_path-Walk graph 0 2

long-Walk : Walk graph 0 2 (0 ∷ (1 ∷ (3 ∷ (2 ∷ []))))
unfolding GoMap.lookup
long-Walk = (refl, inl refl, (refl, inl refl, (refl, inl refl, (refl, refl))))

shortest_path_complete_example :
    (path : List ℕ) × (shortest_path graph 0 2 ≡ ok path) × Walk graph 0 2 path
shortest_path_complete_example =
    shortest_path_complete graph 0 2 (0 ∷ (1 ∷ (3 ∷ (2 ∷ [])))) long-Walk

abbrev node_of : ℕ → String → Node ℕ
node_of version image = record { version = version; image = image; metadata = [] }

unseen-keeps_example :
    HasImage "a" (unseen [] (node_of 1 "b" ∷ (node_of 2 "a" ∷ (node_of 2 "a" ∷ []))))
    × DistinctImages (unseen [] (node_of 1 "b" ∷ (node_of 2 "a" ∷ (node_of 2 "a" ∷ []))))
unseen-keeps_example =
    unseen-keeps (node_of 1 "b" ∷ (node_of 2 "a" ∷ (node_of 2 "a" ∷ []))) "a" (inr (inl refl))

abbrev channel_of : String → String → ReleaseChannel
channel_of name min_version = record {
  name = name;
  type = ocp;
  min_version = min_version;
  max_version = "111";
  shortest_path = false;
  full = false;
}

abbrev two_channels : List ReleaseChannel
two_channels = channel_of "stable" "11" ∷ (channel_of "fast" "1" ∷ [])

abbrev release_versions : Map String ℕ
release_versions = ("stable", 2) ∷ (("fast", 1) ∷ [])

two_releases : find_releases true two_channels ≡ ok release_versions
unfolding find_releases find_releases_loop GoMap.insert
two_releases = refl

find_release-IsExtreme_example :
    (r : String × ℕ) × (find_release true two_channels ≡ ok r) × IsExtreme true release_versions r
find_release-IsExtreme_example =
    find_release-IsExtreme true two_channels release_versions two_releases

-- Three releases, and the edges from the first to the second and on to the third.
abbrev three_releases : Graph ℕ
three_releases = record {
  nodes = node_of 1 "a" ∷ (node_of 2 "b" ∷ (node_of 3 "c" ∷ []));
  edges = record { origin = 0; destination = 1 } ∷ (record { origin = 1; destination = 2 } ∷ []);
}

abbrev a_client : Client
a_client = ocp_client "id" (record { id = []; arch = []; channel = []; version = [] })

abbrev no_failure : Query → Option (Graph ℕ)
no_failure q = some three_releases

first_found : find_node 1 three_releases.nodes 0 ≡ some (0, node_of 1 "a")
unfolding find_node
first_found = refl

third_found : find_node 3 three_releases.nodes 0 ≡ some (2, node_of 3 "c")
unfolding find_node
third_found = refl

get_updates-IsRoute_example :
    (updates : List (Node ℕ)) × (get_updates no_failure "amd64" "stable" 1 3 a_client ≡ (
      set_query_params "amd64" "stable" "1" a_client,
      ok (node_of 1 "a", node_of 3 "c", updates),
    ))
    × IsRoute three_releases 0 2 updates
get_updates-IsRoute_example =
    get_updates-IsRoute no_failure "amd64" "stable" 1 3 a_client three_releases 0 2 (node_of 1 "a")
      (node_of 3 "c") refl (omega arith, (omega arith, tt)) first_found third_found

-- Versions of one minor release.
abbrev one_minor : Minors ℕ
one_minor = record { major_minor = λ v. ""; bump_minor = λ v. v }

-- A range is read by its first character; the bound stands behind two characters.
abbrev range_of : String → Option (ℕ → Bool)
range_of (String.◌∷◌ c (String.◌∷◌ d s)) =
    if (String.◌∷◌ c String.[]) == ">"
    then some (λ w. not (ltb w (count s)))
    else some (λ w. not (ltb (count s) w))
range_of s = none

-- A text of two characters before another one.
bound_lem :
    (c d : Char) (s : String)
    → (String.◌∷◌ c (String.◌∷◌ d String.[])) ++ s ≡ String.◌∷◌ c (String.◌∷◌ d s)
bound_lem c d s =
    cons-append c (String.◌∷◌ d String.[]) s
    ∙ ap (String.◌∷◌ c) (cons-append d String.[] s ∙ ap (String.◌∷◌ d) (nil-append s))

at_least : (v : ℕ) → range_of (">=" ++ numbers.to_string v) ≡ some (λ w. not (ltb w v))
at_least v =
    ap range_of (bound_lem ">" "=" (numbers.to_string v))
    ∙ ap (λ n. some (λ w. not (ltb w n))) (count-tally v)

at_most : (v : ℕ) → range_of ("<=" ++ numbers.to_string v) ≡ some (λ w. not (ltb v w))
at_most v =
    ap range_of (bound_lem "<" "=" (numbers.to_string v))
    ∙ ap (λ n. some (λ w. not (ltb n w))) (count-tally v)

abbrev number_ranges : Ranges ℕ
number_ranges = record {
  parse_range = range_of;
  parse_at_least = at_least;
  parse_at_most = at_most;
}

no_previous : previous_channel "stable" [] ≡ none
unfolding previous_channel
no_previous = refl

get_channel_downloads-Provides_example :
    (d : Downloads) × (get_channel_downloads one_minor number_ranges no_failure 9 "amd64" []
        (channel_of "stable" "11")
        a_client
      ≡ (set_query_params "amd64" "stable" "" a_client, ok d))
    × ((mem "b" d ≡ true)
        ↔ Provides
            (between_versions one_minor number_ranges no_failure 9 "amd64" 2 3)
            "b"
            three_releases.nodes)
get_channel_downloads-Provides_example =
    get_channel_downloads-Provides one_minor number_ranges no_failure 9 "amd64" []
      (channel_of "stable" "11") 2 3 a_client three_releases "b" no_previous refl refl refl refl
