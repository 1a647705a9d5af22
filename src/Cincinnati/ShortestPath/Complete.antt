-- ===== src/Cincinnati/ShortestPath/Complete.antt =====
-- `shortestPath` finds a path wherever there is one.
use oc_mirror.Base.{
  ℕ, zero, suc, ◌≡◌, List, [], ◌∷◌, ◌++◌, true, none, some, ok, ◌==◌, nat_eq, In, In-append_left,
  In-append_right, All, All-In, All-map, arith, Bool-cases, inl, inr, ◌⊎◌, sym,
}
use oc_mirror.Base.GoMap
use oc_mirror.Cincinnati.ShortestPath.{
  Adjacency, neighbors, Prev, visit_neighbors, bfs_loop, shortest_path,
}
use oc_mirror.Cincinnati.ShortestPath.Ends.{has-insert, bfs_loop_ends_from}
use oc_mirror.Cincinnati.ShortestPath.Walk.{
  Walk, Inv, Visited, visit_neighbors-Inv, All-neighbors, bfs_loop-LeadsBack, Inv-start, path_from,
}

-- What visiting the neighbors `ns` does to the visited nodes and the queue.
record Visits (ns : List ℕ) (prev : Prev) (queue : List ℕ) (r : Prev × List ℕ) : Type 0 where
  keeps : (n : ℕ) → GoMap.has n prev ≡ true → GoMap.has n r.0 ≡ true
  queued : (n : ℕ) → In n queue → In n r.1
  fresh : (n : ℕ) → GoMap.has n r.0 ≡ true → (GoMap.has n prev ≡ true) ⊎ In n r.1
  visited : All (λ n. GoMap.has n r.0 ≡ true) ns

visit_neighbors-Visits :
    (node : ℕ) (ns : List ℕ) (prev : Prev) (queue : List ℕ)
    → Visits ns prev queue (visit_neighbors node ns prev queue)
unfolding visit_neighbors
visit_neighbors-Visits node [] prev queue = record {
  keeps = λ n h. h;
  queued = λ n i. i;
  fresh = λ n h. inl h;
  visited = tt;
}
visit_neighbors-Visits node (m ∷ ns) prev queue = elim (Bool-cases (GoMap.has m prev)) [
  | inl t ↦
      let v = visit_neighbors-Visits node ns prev queue in
      rw t (record {
        keeps = v.keeps;
        queued = v.queued;
        fresh = v.fresh;
        visited = (v.keeps m t, v.visited);
      })
  | inr f ↦
      let v = visit_neighbors-Visits node ns (GoMap.insert m (some node) prev) (queue ++ m ∷ []) in
      let at_m : GoMap.has m (GoMap.insert m (some node) prev) ≡ true =
        ground (arith, has-insert m m (some node) prev) in
      rw f (record {
        keeps = λ n h. v.keeps n (ground (arith, has-insert m n (some node) prev));
        queued = λ n i. v.queued n (In-append_left n queue (m ∷ []) i);
        fresh = λ n h. elim (v.fresh n h) [
          | inr i ↦ inr i
          | inl old ↦ elim (Bool-cases (m == n)) [
            | inl same ↦ inr (v.queued n (In-append_right n queue (m ∷ []) (inl (ground arith))))
            | inr other ↦ inl (ground (arith, has-insert m n (some node) prev))
          ]
        ];
        visited = (v.keeps m at_m, v.visited);
      })
]

module _ (g : Adjacency) (start end : ℕ) where
  -- Each visited node waits in the queue, or all its neighbors are visited.
  Progress : Prev → List ℕ → Type 0
  Progress prev queue =
      (n : ℕ) → GoMap.has n prev ≡ true → In n queue ⊎ Visited g start prev (neighbors g n)

  Closed : Prev → Type 0
  Closed prev = (n : ℕ) → GoMap.has n prev ≡ true → Visited g start prev (neighbors g n)

  Progress-visit :
      (node : ℕ) (prev : Prev) (queue : List ℕ)
      → Progress prev (node ∷ queue)
      → Progress
          (visit_neighbors node (neighbors g node) prev queue).0
          (visit_neighbors node (neighbors g node) prev queue).1
  unfolding Progress
  Progress-visit node prev queue p n h =
      let v = visit_neighbors-Visits node (neighbors g node) prev queue in
      elim (v.fresh n h) [
        | inr i ↦ inl i
        | inl old ↦ elim (p n old) [
          | inl (inl same) ↦ inr (rw (sym same) v.visited)
          | inl (inr i) ↦ inl (v.queued n i)
          | inr closed ↦ inr (All-map _ _ (neighbors g n) v.keeps closed)
        ]
      ]

  bfs_loop-Closed :
      (fuel : ℕ) (prev : Prev) (queue : List ℕ) (r : Prev)
      → Inv g start prev queue
      → Progress prev queue
      → GoMap.has start prev ≡ true
      → bfs_loop fuel g end prev queue ≡ ok r
      → (GoMap.has end r ≡ true) ⊎ (Closed r × (GoMap.has start r ≡ true))
  unfolding bfs_loop Progress Closed
  bfs_loop-Closed fuel prev [] r inv p s h =
      let same : prev ≡ r = cc in
      rw (sym same) (inr (λ n seen. elim (p n seen) [ inl i ↦ absurd i | inr c ↦ c ], s))
  bfs_loop-Closed zero prev (node ∷ queue) r inv p s h = cc
  bfs_loop-Closed (suc fuel) prev (node ∷ queue) r inv p s h = elim (Bool-cases (node == end)) [
    | inl t ↦ let seen = inv.1.0 in inl (ground arith)
    | inr f ↦
        let next = visit_neighbors node (neighbors g node) prev queue in
        let v = visit_neighbors-Visits node (neighbors g node) prev queue in
        let kept =
          visit_neighbors-Inv g start node (neighbors g node) prev queue
            (All-neighbors g start (neighbors g node) (neighbors g node) (λ n i. i)) inv.1.0
            (inv.0, inv.1.1) in
        bfs_loop-Closed fuel next.0 next.1 r kept (Progress-visit node prev queue p)
          (v.keeps start s) (rw f at h)
  ]

  Walk-Closed :
      (r : Prev) (a : ℕ) (xs : List ℕ)
      → Closed r
      → GoMap.has a r ≡ true
      → Walk g a end xs
      → GoMap.has end r ≡ true
  unfolding Closed
  Walk-Closed r a [] c h w = absurd w
  Walk-Closed r a (x ∷ []) c h w = cc (w.0, w.1)
  Walk-Closed r a (x ∷ (y ∷ ys)) c h w =
      Walk-Closed r y (y ∷ ys) c
        (All-In (λ n. GoMap.has n r ≡ true) y (neighbors g x) (c x (cc (w.0))) w.1) w.2

-- Where any walk along edges leads from the start to the end, the search gives one.
pub shortest_path_complete :
    (g : Adjacency) (start end : ℕ) (xs : List ℕ)
    → Walk g start end xs
    → (path : List ℕ) × (shortest_path g start end ≡ ok path) × Walk g start end path
unfolding shortest_path Progress GoMap.has
shortest_path_complete g start end xs w =
    let (prev, e) = bfs_loop_ends_from g start end in
    let inv = Inv-start g start in
    let first : Progress g start end ((start, none) ∷ []) (start ∷ []) =
      λ n h. inl (inl (ground arith)) in
    let seen : GoMap.has end prev ≡ true =
      elim (bfs_loop-Closed g start end _ _ _ prev inv first inv.1.0 e) [
        | inl t ↦ t
        | inr (c, s) ↦ Walk-Closed g start end prev start xs c s w
      ] in
    let (path, found, walk) =
      path_from g start end prev (bfs_loop-LeadsBack g start _ end _ _ prev inv e) seen in
    (path, rw (e, seen) found, walk)
