-- ===== src/Cincinnati/Updates/Route.antt =====
-- What `GetUpdates` makes of a graph whose edges lead to nodes of the graph.
use oc_mirror.Base.{
  String, ℕ, zero, suc, ◌+◌, ◌<◌, ◌≡◌, List, [], ◌∷◌, true, Option, some, ok, each, ◌==◌, nat_eq,
  length, get_elem?, get_elem?-lt, ltb, all, All, All-In, All-append, Pointwise, arith, refl,
  Bool-cases, Option-cases, inl, inr, ◌⊎◌,
}
use oc_mirror.Base.GoMap
use oc_mirror.Base.GoMap.{Map}
use oc_mirror.Base.Sort.{sort, sort-All}
use oc_mirror.Api.Version.{Semver}
use oc_mirror.Cincinnati.Client.{Node, Edge, Graph, Query, Client, query, set_query_params}
use oc_mirror.Cincinnati.ShortestPath.{Adjacency, edges_by_origin, neighbors}
use oc_mirror.Cincinnati.ShortestPath.Walk.{Walk, shortest_path-Walk}
use oc_mirror.Cincinnati.Updates.{
  find_node, node_at, newer_at, sort_destinations, updates_in, get_updates, get_graph_data,
}

-- All edges lead to indices below the bound.
abbrev Below : ℕ → Adjacency → Type 0
Below n g = All (λ e. All (λ d. d < n) e.1) g

Below-insert :
    (n k : ℕ) (ds : List ℕ) (g : Adjacency)
    → All (λ d. d < n) ds
    → Below n g
    → Below n (GoMap.insert k ds g)
unfolding GoMap.insert
Below-insert n k ds [] h b = (h, tt)
Below-insert n k ds ((j, es) ∷ g) h b = elim (Bool-cases (j == k)) [
  | inl t ↦ rw t (h, b.1)
  | inr f ↦ rw f (b.0, Below-insert n k ds g h b.1)
]

Below-neighbors : (n x : ℕ) (g : Adjacency) → Below n g → All (λ d. d < n) (neighbors g x)
Below-neighbors n x g b = elim (Option-cases (GoMap.lookup x g)) [
  | inl e ↦ rw e tt
  | inr (ds, e) ↦ rw e (GoMap.lookup-All (λ e. All (λ d. d < n) e.1) x g b e)
]

edges_by_origin-Below :
    (n : ℕ) (es : List Edge) (g : Adjacency)
    → All (λ e. e.destination < n) es
    → Below n g
    → Below n (edges_by_origin es g)
unfolding edges_by_origin
edges_by_origin-Below n [] g h b = b
edges_by_origin-Below n (e ∷ es) g h b = edges_by_origin-Below n es _ h.1 (
    Below-insert n e.origin _ g
      (All-append (λ d. d < n) (neighbors g e.origin) (e.destination ∷ [])
        (Below-neighbors n e.origin g b) (h.0, tt))
      b)

Walk-Below :
    (n a b : ℕ) (g : Adjacency) (xs : List ℕ)
    → Below n g
    → a < n
    → Walk g a b xs
    → All (λ d. d < n) xs
Walk-Below n a b g [] h less w = absurd w
Walk-Below n a b g (x ∷ []) h less w = (rw w.0 less, tt)
Walk-Below n a b g (x ∷ (y ∷ ys)) h less w = (
  rw w.0 less,
  Walk-Below n y b g (y ∷ ys) h
      (All-In (λ d. d < n) y (neighbors g x) (Below-neighbors n x g h) w.1) w.2,
)

all_below : (n : ℕ) (ds : List ℕ) → All (λ d. d < n) ds → all (λ d. ltb d n) ds ≡ true
all_below n [] h = refl
all_below n (d ∷ ds) h = let rest = all_below n ds h.1 in ground arith

get_elem?-le : {A : Type 0} (xs : List A) (i : ℕ) (a : A) → get_elem? xs i ≡ some a → i < length xs
get_elem?-le [] i a h = absurd (cc)
get_elem?-le (x ∷ xs) zero a h = omega arith
get_elem?-le (x ∷ xs) (suc i) a h = omega (arith, get_elem?-le xs i a h)

module _ {V : Type 0} ⦃sv : Semver V⦄ where
  sort_destinations-Below :
      (nodes : List (Node V)) (g : Adjacency)
      → Below (length nodes) g
      → (s : Adjacency) × (sort_destinations nodes g ≡ ok s) × Below (length nodes) s
  unfolding sort_destinations
  sort_destinations-Below nodes [] b = ([], refl, tt)
  sort_destinations-Below nodes ((o, ds) ∷ g) b =
      let (s, e, rest) = sort_destinations-Below nodes g b.1 in
      let fits = all_below (length nodes) ds b.0 in
      (
        (o, sort (newer_at nodes) ds) ∷ s,
        ground arith,
        (sort-All (newer_at nodes) (λ d. d < length nodes) ds b.0, rest),
      )

  find_node-at :
      (version : V) (nodes : List (Node V)) (k i : ℕ) (node : Node V)
      → find_node version nodes k ≡ some (i, node)
      → (d : ℕ) × (i ≡ k + d) × (get_elem? nodes d ≡ some node)
  unfolding find_node
  find_node-at version [] k i node h = absurd (cc)
  find_node-at version (n ∷ nodes) k i node h = elim (Bool-cases (sv.eq version n.version)) [
    | inl t ↦ (0, ground arith, ground arith)
    | inr f ↦
        let (d, e, at) = find_node-at version nodes (suc k) i node (rw f at h) in
        (suc d, omega arith, at)
  ]

  abbrev pub NodeAt : List (Node V) → ℕ → Node V → Type 0
  NodeAt nodes i node = get_elem? nodes i ≡ some node

  nodes_at :
      (nodes : List (Node V)) (xs : List ℕ)
      → All (λ d. d < length nodes) xs
      → (us : List (Node V)) × (each (node_at nodes) xs ≡ ok us) × Pointwise (NodeAt nodes) xs us
  unfolding each
  nodes_at nodes [] h = ([], refl, tt)
  nodes_at nodes (x ∷ xs) h =
      let (u, at) = get_elem?-lt nodes x h.0 in
      let (us, e, more) = nodes_at nodes xs h.1 in (u ∷ us, rw (at, e) refl, (at, more))

  -- The updates are none, or the nodes of a walk in the graph.
  abbrev pub IsRoute : Graph V → ℕ → ℕ → List (Node V) → Type 0
  IsRoute graph i j updates =
      (g : Adjacency) × (sort_destinations graph.nodes (edges_by_origin graph.edges []) ≡ ok g)
      × (xs : List ℕ) × Pointwise (NodeAt graph.nodes) xs updates
      × ((xs ≡ []) ⊎ Walk g i j xs)

  updates_in-IsRoute :
      (fetch : Query → Option (Graph V)) (graph : Graph V) (version req_ver : V) (i j : ℕ)
      (current requested : Node V)
      → All (λ e. e.destination < length graph.nodes) graph.edges
      → find_node version graph.nodes 0 ≡ some (i, current)
      → find_node req_ver graph.nodes 0 ≡ some (j, requested)
      → (updates : List (Node V)) × (updates_in fetch graph version req_ver
          ≡ ok (current, requested, updates))
        × IsRoute graph i j updates
  unfolding updates_in
  updates_in-IsRoute fetch graph version req_ver i j current requested below from to =
      let n = length graph.nodes in
      let (d, same, at) = find_node-at version graph.nodes 0 i current from in
      let less : i < n = omega (arith, get_elem?-le graph.nodes d current at) in
      let (g, sorted, b) =
        sort_destinations-Below graph.nodes (edges_by_origin graph.edges [])
          (edges_by_origin-Below n graph.edges [] below tt) in
      let (xs, found, walk) = shortest_path-Walk g i j in
      let bound : All (λ d. d < n) xs = elim walk [
        | inl e ↦ rw e tt
        | inr w ↦ Walk-Below n i j g xs b less w
      ] in
      let (us, e, points) = nodes_at graph.nodes xs bound in
      (us, rw (from, to, sorted, found, e) refl, (g, sorted, xs, points, walk))

  -- Where the service gives a graph whose edges lead to its nodes, and that has nodes of both
  -- versions, `GetUpdates` succeeds: it gives the two nodes, and updates that are none or the nodes of
  -- a walk from the one to the other.
  pub get_updates-IsRoute :
      (fetch : Query → Option (Graph V)) (arch channel : String) (version req_ver : V) (c : Client)
      (graph : Graph V) (i j : ℕ) (current requested : Node V)
      → fetch (query (set_query_params arch channel (sv.to_string version) c)) ≡ some graph
      → All (λ e. e.destination < length graph.nodes) graph.edges
      → find_node version graph.nodes 0 ≡ some (i, current)
      → find_node req_ver graph.nodes 0 ≡ some (j, requested)
      → (updates : List (Node V)) × (get_updates fetch arch channel version req_ver c ≡ (
        set_query_params arch channel (sv.to_string version) c,
        ok (current, requested, updates),
      ))
        × IsRoute graph i j updates
  unfolding get_updates get_graph_data
  get_updates-IsRoute fetch arch channel version req_ver c graph i j current requested got below
        from to =
      let (updates, e, route) =
        updates_in-IsRoute fetch graph version req_ver i j current requested below from to in
      (updates, rw (got, e) refl, route)
