-- ===== src/Cincinnati/ShortestPath/Walk.antt =====
-- The path of `shortestPath` leads from the start to the end along edges of the graph.
use mathlib.Core.List.{reverse, reverse-append, append_assoc}
use oc_mirror.Base.{
  ℕ, zero, suc, ◌≤◌, ◌<◌, ◌≡◌, List, [], ◌∷◌, ◌++◌, true, false, Option, none, some, ok, ◌>>=◌,
  ◌==◌, nat_eq, length, In, All, arith, refl, Bool-cases, inl, inr, ◌⊎◌, or_default, sym, ◌∙◌, ap,
}
use oc_mirror.Base.GoMap
use oc_mirror.Base.GoMap.{Map}
use oc_mirror.Cincinnati.ShortestPath.{
  Adjacency, neighbors, Prev, visit_neighbors, bfs_loop, follow, shortest_path,
}
use oc_mirror.Cincinnati.ShortestPath.Ends.{has-insert, bfs_loop_ends_from}

-- The list leads from one node to another, each next node a neighbor of the one before it.
abbrev pub Walk : Adjacency → ℕ → ℕ → List ℕ → Type 0
Walk g a b [] = ⊥
Walk g a b (x ∷ []) = (x ≡ a) × (x ≡ b)
Walk g a b (x ∷ (y ∷ ys)) = (x ≡ a) × In y (neighbors g x) × Walk g y b (y ∷ ys)

Walk-snoc :
    (g : Adjacency) (a b n : ℕ) (xs : List ℕ)
    → Walk g a b xs
    → In n (neighbors g b)
    → Walk g a n (xs ++ n ∷ [])
Walk-snoc g a b n [] w i = absurd w
Walk-snoc g a b n (x ∷ []) w i = (w.0, rw w.1 i, (refl, refl))
Walk-snoc g a b n (x ∷ (y ∷ ys)) w i = (w.0, w.1, Walk-snoc g y b n (y ∷ ys) w.2 i)

lookup-fresh :
    (m n : ℕ) (v w : Option ℕ) (prev : Prev)
    → GoMap.lookup m prev ≡ none
    → GoMap.lookup n prev ≡ some w
    → GoMap.lookup n (GoMap.insert m v prev) ≡ some w
lookup-fresh m n v w prev fresh found = ground (arith, GoMap.lookup-insert m n v prev)

length-insert_fresh :
    (m : ℕ) (v : Option ℕ) (prev : Prev)
    → GoMap.lookup m prev ≡ none
    → length (GoMap.insert m v prev) ≡ suc (length prev)
unfolding GoMap.lookup GoMap.insert
length-insert_fresh m v [] h = refl
length-insert_fresh m v ((j, w) ∷ prev) h = ground (arith, length-insert_fresh m v prev)

module _ (g : Adjacency) (start : ℕ) where
  -- Following `prev` from the node leads to the start in `k` steps, against edges of the graph.
  abbrev pub Steps : Prev → ℕ → ℕ → Type 0
  Steps prev zero n = (GoMap.lookup n prev ≡ some none) × (n ≡ start)
  Steps prev (suc k) n =
      (p : ℕ) × (GoMap.lookup n prev ≡ some (some p)) × In n (neighbors g p) × Steps prev k p

  Steps-insert :
      (m : ℕ) (v : Option ℕ) (prev : Prev)
      → GoMap.lookup m prev ≡ none
      → (k n : ℕ) → Steps prev k n
      → Steps (GoMap.insert m v prev) k n
  Steps-insert m v prev fresh zero n s = (lookup-fresh m n v none prev fresh s.0, s.1)
  Steps-insert m v prev fresh (suc k) n (p, l, i, s) =
      (p, lookup-fresh m n v (some p) prev fresh l, i, Steps-insert m v prev fresh k p s)

  -- Each visited node leads back to the start in less steps than there are visited nodes.
  abbrev pub LeadsBack : Prev → Type 0
  LeadsBack prev = (n : ℕ) → GoMap.has n prev ≡ true → (k : ℕ) × (k < length prev) × Steps prev k n

  LeadsBack-insert :
      (m node : ℕ) (prev : Prev)
      → GoMap.has m prev ≡ false
      → GoMap.has node prev ≡ true
      → In m (neighbors g node)
      → LeadsBack prev
      → LeadsBack (GoMap.insert m (some node) prev)
  LeadsBack-insert m node prev fresh seen i back n h =
      let free : GoMap.lookup m prev ≡ none = ground (arith, GoMap.has-eq-is_some m prev) in
      let longer = length-insert_fresh m (some node) prev free in
      elim (Bool-cases (m == n)) [
        | inl t ↦
            let same : m ≡ n = ground (arith) in
            let (k, less, s) = back node seen in
            (
              suc k,
              omega arith,
              (
                node,
                ground (arith, GoMap.lookup-insert m n (some node) prev),
                rw (sym same) i,
                Steps-insert m (some node) prev free k node s,
              ),
            )
        | inr f ↦
            let (k, less, s) = back n (ground (arith, has-insert m n (some node) prev)) in
            (k, omega arith, Steps-insert m (some node) prev free k n s)
      ]

  has-insert_keeps :
      (m n : ℕ) (v : Option ℕ) (prev : Prev)
      → GoMap.has n prev ≡ true
      → GoMap.has n (GoMap.insert m v prev) ≡ true
  has-insert_keeps m n v prev h = ground (arith, has-insert m n v prev)

  abbrev pub Visited : Prev → List ℕ → Type 0
  Visited prev ns = All (λ n. GoMap.has n prev ≡ true) ns

  Visited-insert :
      (m : ℕ) (v : Option ℕ) (prev : Prev) (ns : List ℕ)
      → Visited prev ns
      → Visited (GoMap.insert m v prev) (ns ++ m ∷ [])
  Visited-insert m v prev [] a = (ground (arith, has-insert m m v prev), tt)
  Visited-insert m v prev (n ∷ ns) a =
      (has-insert_keeps m n v prev a.0, Visited-insert m v prev ns a.1)

  abbrev pub Inv : Prev → List ℕ → Type 0
  Inv prev queue = LeadsBack prev × Visited prev queue

  pub visit_neighbors-Inv :
      (node : ℕ) (ns : List ℕ) (prev : Prev) (queue : List ℕ)
      → All (λ n. In n (neighbors g node)) ns
      → GoMap.has node prev ≡ true
      → Inv prev queue
      → Inv (visit_neighbors node ns prev queue).0 (visit_neighbors node ns prev queue).1
  unfolding visit_neighbors
  visit_neighbors-Inv node [] prev queue a seen inv = inv
  visit_neighbors-Inv node (n ∷ ns) prev queue a seen inv = elim (Bool-cases (GoMap.has n prev)) [
    | inl t ↦ rw t (visit_neighbors-Inv node ns prev queue a.1 seen inv)
    | inr f ↦ rw f (
        visit_neighbors-Inv node ns (GoMap.insert n (some node) prev) (queue ++ n ∷ []) a.1
          (has-insert_keeps n node (some node) prev seen)
          (
            LeadsBack-insert n node prev f seen a.0 inv.0,
            Visited-insert n (some node) prev queue inv.1,
          ))
  ]

  pub All-neighbors : (ns xs : List ℕ) → ((n : ℕ) → In n ns → In n xs) → All (λ n. In n xs) ns
  All-neighbors [] xs f = tt
  All-neighbors (n ∷ ns) xs f = (f n (inl refl), All-neighbors ns xs (λ m i. f m (inr i)))

  pub bfs_loop-LeadsBack :
      (fuel end : ℕ) (prev : Prev) (queue : List ℕ) (r : Prev)
      → Inv prev queue
      → bfs_loop fuel g end prev queue ≡ ok r
      → LeadsBack r
  unfolding bfs_loop
  bfs_loop-LeadsBack fuel end prev [] r inv h = let same : prev ≡ r = cc in rw (sym same) inv.0
  bfs_loop-LeadsBack zero end prev (node ∷ queue) r inv h = cc
  bfs_loop-LeadsBack (suc fuel) end prev (node ∷ queue) r inv h = elim (Bool-cases (node == end)) [
    | inl t ↦ let same : prev ≡ r = ground arith in rw (sym same) inv.0
    | inr f ↦
        let next = visit_neighbors node (neighbors g node) prev queue in
        let kept =
          visit_neighbors-Inv node (neighbors g node) prev queue
            (All-neighbors (neighbors g node) (neighbors g node) (λ n i. i)) inv.1.0
            (inv.0, inv.1.1) in
        bfs_loop-LeadsBack fuel end next.0 next.1 r kept (rw f at h)
  ]

  pub Inv-start : Inv ((start, none) ∷ []) (start ∷ [])
  unfolding GoMap.has GoMap.lookup
  Inv-start = (λ n h. (0, omega arith, ground arith), (ground arith, tt))

  -- The nodes from the given one back to the start.
  pub follow_back :
      (k fuel n : ℕ) (prev : Prev) (path : List ℕ)
      → Steps prev k n
      → k ≤ fuel
      → (xs : List ℕ) × (follow fuel prev
            (or_default (some 0) (GoMap.lookup n prev))
            (path ++ n ∷ [])
          ≡ ok (path ++ xs))
        × Walk g start n (reverse xs)
  unfolding follow
  follow_back zero fuel n prev path s le = (n ∷ [], rw s.0 refl, (s.1, refl))
  follow_back (suc k) zero n prev path s le = absurd (omega arith)
  follow_back (suc k) (suc fuel) n prev path (p, l, i, s) le =
      let (xs, e, w) = follow_back k fuel p prev (path ++ n ∷ []) s (omega arith) in
      (
        n ∷ xs,
        rw l (e ∙ ap ok (append_assoc path (n ∷ []) xs)),
        rw (reverse-append (n ∷ []) xs) (Walk-snoc g start p n (reverse xs) w i),
      )

  pub path_from :
      (end : ℕ) (prev : Prev)
      → LeadsBack prev
      → GoMap.has end prev ≡ true
      → (path : List ℕ) × ((follow
              (length prev)
              prev
              (or_default (some 0) (GoMap.lookup end prev))
              (end ∷ [])
            >>= λ p. ok (reverse p))
          ≡ ok path)
        × Walk g start end path
  path_from end prev back seen =
      let (k, less, s) = back end seen in
      let (xs, e, w) = follow_back k (length prev) end prev [] s (omega arith) in
      (reverse xs, rw e refl, w)

-- The search gives a path for every graph and any two nodes: it does not run out of fuel, and the
-- path is empty or leads from the start to the end along edges of the graph.
pub shortest_path-Walk :
    (g : Adjacency) (start end : ℕ)
    → (path : List ℕ) × (shortest_path g start end ≡ ok path)
      × ((path ≡ []) ⊎ Walk g start end path)
unfolding shortest_path
shortest_path-Walk g start end =
    let (prev, e) = bfs_loop_ends_from g start end in
    let back = bfs_loop-LeadsBack g start _ end _ _ prev (Inv-start g start) e in
    elim (Bool-cases (GoMap.has end prev)) [
      | inl t ↦
          let (path, found, w) = path_from g start end prev back t in (path, rw (e, t) found, inr w)
      | inr f ↦ ([], rw (e, f) refl, inl refl)
    ]
