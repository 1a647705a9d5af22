-- ===== src/Cincinnati/ShortestPath.antt =====
-- cincinnati.go, `shortestPath`: a search by breadth in the graph of indices. A node's predecessor is
-- `none` where the code has -1. Go gives 0 for an index that `prev` lacks.
pub mod Ends
pub mod Walk
pub mod Complete
use mathlib.Core.List.{reverse}
use oc_mirror.Base.{
  ℕ, zero, suc, ◌+◌, List, [], ◌∷◌, ◌++◌, Bool, true, false, Option, none, some, Result, ok, err,
  ◌>>=◌, if◌then◌else◌, ◌==◌, nat_eq, length, or_default, mem, ◌≡◌, refl,
}
use oc_mirror.Base.GoMap
use oc_mirror.Base.GoMap.{Map}
use oc_mirror.Cincinnati.Client.{Failure, out_of_fuel, Edge}

abbrev pub Adjacency : Type 0
Adjacency = Map ℕ (List ℕ)

unfoldable pub edges_by_origin : List Edge → Adjacency → Adjacency
edges_by_origin [] g = g
edges_by_origin (e ∷ es) g =
    edges_by_origin es
      (GoMap.insert e.origin (or_default [] (GoMap.lookup e.origin g) ++ e.destination ∷ []) g)

-- The targets of the edges from a node. Go gives the empty slice for an origin without edges.
abbrev pub neighbors : Adjacency → ℕ → List ℕ
neighbors g node = or_default [] (GoMap.lookup node g)

abbrev pub destinations : Adjacency → List ℕ
destinations [] = []
destinations ((origin, ds) ∷ g) = ds ++ destinations g

-- The keys of `prev` are the nodes of `visited`, so one map stands for both.
abbrev pub Prev : Type 0
Prev = Map ℕ (Option ℕ)

unfoldable pub visit_neighbors : ℕ → List ℕ → Prev → List ℕ → Prev × List ℕ
visit_neighbors node [] prev queue = (prev, queue)
visit_neighbors node (neighbor ∷ rest) prev queue =
    let skip = visit_neighbors node rest prev queue in
    let visit =
      visit_neighbors node rest (GoMap.insert neighbor (some node) prev) (queue ++ neighbor ∷ []) in
    if GoMap.has neighbor prev then skip else visit

unfoldable pub bfs_loop : ℕ → Adjacency → ℕ → Prev → List ℕ → Result Failure Prev
bfs_loop fuel g end prev [] = ok prev
bfs_loop zero g end prev (node ∷ queue) = err out_of_fuel
bfs_loop (suc fuel) g end prev (node ∷ queue) =
    let next = visit_neighbors node (neighbors g node) prev queue in
    let rest = bfs_loop fuel g end next.0 next.1 in if node == end then ok prev else rest

-- The loop that goes back from the end along `prev`.
unfoldable pub follow : ℕ → Prev → Option ℕ → List ℕ → Result Failure (List ℕ)
follow fuel prev none path = ok path
follow zero prev (some next) path = err out_of_fuel
follow (suc fuel) prev (some next) path =
    follow fuel prev (or_default (some 0) (GoMap.lookup next prev)) (path ++ next ∷ [])

unfoldable pub shortest_path : Adjacency → ℕ → ℕ → Result Failure (List ℕ)
shortest_path g start end =
    bfs_loop (suc (length (destinations g))) g end ((start, none) ∷ []) (start ∷ []) >>= λ prev.
    if GoMap.has end prev
    then (follow (length prev) prev (or_default (some 0) (GoMap.lookup end prev)) (end ∷ [])
        >>= λ path. ok (reverse path))
    else ok []

abbrev edge : ℕ → ℕ → Edge
edge o d = record { origin = o; destination = d }

path_example :
    shortest_path
      (edges_by_origin (edge 0 1 ∷ (edge 1 2 ∷ (edge 0 3 ∷ (edge 3 4 ∷ (edge 2 4 ∷ []))))) [])
      0
      4
    ≡ ok (0 ∷ (3 ∷ (4 ∷ [])))
unfolding shortest_path bfs_loop visit_neighbors GoMap.lookup edges_by_origin GoMap.insert GoMap.has
    follow
path_example = refl
