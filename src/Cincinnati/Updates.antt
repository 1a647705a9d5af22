-- ===== src/Cincinnati/Updates.antt =====
-- cincinnati.go: the functions that ask for one graph. `fetch` is `getGraphData`, whose error the
-- callers replace by their own.
pub mod Route
use oc_mirror.Base.{
  String, ℕ, suc, List, [], ◌∷◌, Bool, false, Option, none, some, Result, ok, err, ◌>>=◌, each,
  if◌then◌else◌, string_eq, length, get_elem?, last?, map, ltb, leb, all, or_default, ◌||◌,
}
use oc_mirror.Base.GoMap
use oc_mirror.Base.GoMap.{Map}
use oc_mirror.Base.Paths
use oc_mirror.Base.Sort.{sort}
use oc_mirror.Api.Version.{Semver}
use oc_mirror.Cincinnati.Client.{
  Node, Graph, Query, query, set_query_params, Failure, no_graph, version_not_found,
  no_versions_found, panic, Run, ◌>>>◌, or_fail,
}
use oc_mirror.Cincinnati.ShortestPath.{Adjacency, edges_by_origin, shortest_path}

module _ {V : Type 0} ⦃sv : Semver V⦄ where
  -- The index and the node of the first node with a version that equals the given one.
  unfoldable pub find_node : V → List (Node V) → ℕ → Option (ℕ × Node V)
  find_node version [] i = none
  find_node version (node ∷ nodes) i =
      if sv.eq version node.version then some (i, node) else find_node version nodes (suc i)

  -- The node at an index that may be out of range.
  abbrev pub node_at : List (Node V) → ℕ → Result Failure (Node V)
  node_at nodes i = or_fail panic (get_elem? nodes i)

  abbrev pub newer_at : List (Node V) → ℕ → ℕ → Bool
  newer_at nodes i j = newer (get_elem? nodes i) (get_elem? nodes j)
    where
      newer : Option (Node V) → Option (Node V) → Bool
      newer (some a) (some b) = sv.lt b.version a.version
      newer (some a) none = false
      newer none b = false

  -- Sorting two or more targets looks each of them up in the nodes.
  unfoldable pub sort_destinations : List (Node V) → Adjacency → Result Failure Adjacency
  sort_destinations nodes [] = ok []
  sort_destinations nodes ((origin, ds) ∷ g) =
      let rest = sort_destinations nodes g in
      if leb (length ds) 1 || all (λ d. ltb d (length nodes)) ds
      then (rest >>= λ sorted. ok ((origin, sort (newer_at nodes) ds) ∷ sorted))
      else err panic

  abbrev pub versions_of : List (Node V) → List V
  versions_of nodes = map (λ n. n.version) nodes

  module _ (fetch : Query → Option (Graph V)) where
    unfoldable pub get_graph_data : Run (Graph V)
    get_graph_data c = (c, or_fail no_graph (fetch (query c)))

    -- The part of `GetUpdates` behind the request.
    unfoldable pub updates_in : Graph V → V → V → Result Failure (Node V × Node V × List (Node V))
    updates_in graph version req_ver =
        or_fail version_not_found (find_node version graph.nodes 0) >>= λ (current_idx, current).
        or_fail version_not_found (find_node req_ver graph.nodes 0)
        >>= λ (destination_idx, requested).
            sort_destinations graph.nodes (edges_by_origin graph.edges []) >>= λ g.
            shortest_path g current_idx destination_idx >>= λ next_idxs.
            each (node_at graph.nodes) next_idxs >>= λ updates. ok (current, requested, updates)

    unfoldable pub get_updates : String → String → V → V → Run (Node V × Node V × List (Node V))
    get_updates arch channel version req_ver c =
        get_graph_data (set_query_params arch channel (sv.to_string version) c) >>> λ graph d.
        (d, updates_in graph version req_ver)

    -- The least or the greatest of the sorted versions.
    unfoldable pub min_or_max : Bool → List V → Result Failure V
    min_or_max min [] = err no_versions_found
    min_or_max min (v ∷ vs) = if min then ok v else or_fail panic (last? (v ∷ vs))

    unfoldable pub get_channel_min_or_max : String → String → Bool → Run V
    get_channel_min_or_max arch channel min c =
        get_graph_data (set_query_params arch channel "" c) >>> λ graph d.
        (d, min_or_max min (sort sv.lt (versions_of graph.nodes)))

    unfoldable pub get_versions : String → Run (List V)
    get_versions channel c = get_graph_data (set_query_params "" channel "" c) >>> λ graph d.
        (d, some_versions (sort sv.lt (versions_of graph.nodes)))
      where
        some_versions : List V → Result Failure (List V)
        some_versions [] = err no_versions_found
        some_versions (v ∷ vs) = ok (v ∷ vs)

    abbrev channels_key : String
    channels_key = "io.openshift.upgrades.graph.release.channels"

    abbrev add_channels : List String → Map {0, 0} String Unit → Map {0, 0} String Unit
    add_channels [] channels = channels
    add_channels (value ∷ values) channels = add_channels values (GoMap.insert value tt channels)

    unfoldable pub channels_of : List (Node V) → Map {0, 0} String Unit → Map {0, 0} String Unit
    channels_of [] channels = channels
    channels_of (node ∷ nodes) channels = channels_of nodes (
        add_channels (Paths.split_on 44 (or_default "" (GoMap.lookup channels_key node.metadata)))
          channels)

    unfoldable pub get_channels : String → Run (Map {0, 0} String Unit)
    get_channels channel c = get_graph_data (set_query_params "" channel "" c) >>> λ graph d.
        (d, ok (channels_of graph.nodes []))

    abbrev pub in_range : (V → Bool) → List (Node V) → List (Node V)
    in_range update_range [] = []
    in_range update_range (node ∷ nodes) =
        let rest = in_range update_range nodes in
        if update_range node.version then node ∷ rest else rest

    unfoldable pub get_updates_in_range : String → String → (V → Bool) → Run (List (Node V))
    get_updates_in_range channel arch update_range c =
        get_graph_data (set_query_params arch channel "" c) >>> λ graph d.
        (d, ok (in_range update_range graph.nodes))
