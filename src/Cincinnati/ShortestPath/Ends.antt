-- ===== src/Cincinnati/ShortestPath/Ends.antt =====
-- The search by breadth ends: each step takes a node off the queue, and a node is put on it once.
use oc_mirror.Base.{
  ℕ, zero, suc, ◌+◌, ◌≤◌, ◌<◌, ◌≡◌, List, [], ◌∷◌, ◌++◌, true, false, Option, none, some, ok,
  if◌then◌else◌, ◌==◌, nat_eq, length, length-append, In, In-append_right, All, arith, refl,
  Bool-cases, inl, inr,
}
use oc_mirror.Base.GoMap
use oc_mirror.Base.GoMap.{Map}
use oc_mirror.Cincinnati.ShortestPath.{
  Adjacency, neighbors, destinations, Prev, visit_neighbors, bfs_loop,
}

-- The number of elements that are not visited.
abbrev pub unvisited : Prev → List ℕ → ℕ
unvisited prev [] = 0
unvisited prev (d ∷ ds) = (if GoMap.has d prev then 0 else 1) + unvisited prev ds

unvisited-le-length : (prev : Prev) (ds : List ℕ) → unvisited prev ds ≤ length ds
unvisited-le-length prev [] = omega arith
unvisited-le-length prev (d ∷ ds) = ground (arith, unvisited-le-length prev ds)

pub has-insert :
    (n d : ℕ) (p : Option ℕ) (prev : Prev)
    → GoMap.has d (GoMap.insert n p prev) ≡ (if n == d then true else GoMap.has d prev)
has-insert n d p prev =
    rw
      (
        GoMap.has-eq-is_some d (GoMap.insert n p prev),
        GoMap.lookup-insert n d p prev,
        GoMap.has-eq-is_some d prev,
      )
      (ground arith)

unvisited-insert_le :
    (n : ℕ) (p : Option ℕ) (prev : Prev) (ds : List ℕ)
    → unvisited (GoMap.insert n p prev) ds ≤ unvisited prev ds
unvisited-insert_le n p prev [] = omega arith
unvisited-insert_le n p prev (d ∷ ds) =
    ground (arith, has-insert n d p prev, unvisited-insert_le n p prev ds)

unvisited-insert_lt :
    (n : ℕ) (p : Option ℕ) (prev : Prev) (ds : List ℕ)
    → In n ds
    → GoMap.has n prev ≡ false
    → unvisited (GoMap.insert n p prev) ds < unvisited prev ds
unvisited-insert_lt n p prev [] i h = absurd i
unvisited-insert_lt n p prev (d ∷ ds) (inl e) h =
    ground (arith, has-insert n d p prev, unvisited-insert_le n p prev ds)
unvisited-insert_lt n p prev (d ∷ ds) (inr i) h =
    ground (arith, has-insert n d p prev, unvisited-insert_lt n p prev ds i h)

All-weaken : (ns ds es : List ℕ) → All (λ n. In n ds) ns → All (λ n. In n (es ++ ds)) ns
All-weaken [] ds es a = tt
All-weaken (n ∷ ns) ds es a = (In-append_right n es ds a.0, All-weaken ns ds es a.1)

All-self : (ns ds : List ℕ) → All (λ n. In n (ns ++ ds)) ns
All-self [] ds = tt
All-self (n ∷ ns) ds = (inl refl, All-weaken ns (ns ++ ds) (n ∷ []) (All-self ns ds))

neighbors-destinations :
    (g : Adjacency) (node : ℕ) → All (λ n. In n (destinations g)) (neighbors g node)
unfolding GoMap.lookup
neighbors-destinations [] node = tt
neighbors-destinations ((origin, ds) ∷ g) node = elim (Bool-cases (origin == node)) [
  | inl t ↦ rw t (All-self ds (destinations g))
  | inr f ↦ rw f (All-weaken (neighbors g node) (destinations g) ds (neighbors-destinations g node))
]

visit_neighbors-decreases :
    (node : ℕ) (ns : List ℕ) (prev : Prev) (queue ds : List ℕ)
    → All (λ n. In n ds) ns
    → length (visit_neighbors node ns prev queue).1
        + unvisited (visit_neighbors node ns prev queue).0 ds
      ≤ length queue + unvisited prev ds
unfolding visit_neighbors
visit_neighbors-decreases node [] prev queue ds a = omega arith
visit_neighbors-decreases node (n ∷ ns) prev queue ds a = ground (
  arith,
  unvisited-insert_lt n (some node) prev ds a.0,
  visit_neighbors-decreases node ns (GoMap.insert n (some node) prev) (queue ++ n ∷ []) ds a.1,
  visit_neighbors-decreases node ns prev queue ds a.1,
  length-append queue (n ∷ []),
)

-- Fuel for the queue and the nodes that are not visited is enough.
pub bfs_loop_ends :
    (fuel : ℕ) (g : Adjacency) (end : ℕ) (prev : Prev) (queue : List ℕ)
    → length queue + unvisited prev (destinations g) ≤ fuel
    → (r : Prev) × (bfs_loop fuel g end prev queue ≡ ok r)
unfolding bfs_loop
bfs_loop_ends fuel g end prev [] h = (prev, refl)
bfs_loop_ends zero g end prev (node ∷ queue) h = absurd (omega arith)
bfs_loop_ends (suc fuel) g end prev (node ∷ queue) h = elim (Bool-cases (node == end)) [
  | inl t ↦ (prev, rw t refl)
  | inr f ↦
      let less =
        visit_neighbors-decreases node (neighbors g node) prev queue (destinations g)
          (neighbors-destinations g node) in
      let next = visit_neighbors node (neighbors g node) prev queue in
      let (r, e) = bfs_loop_ends fuel g end next.0 next.1 (omega arith) in (r, rw f e)
]

pub bfs_loop_ends_from :
    (g : Adjacency) (start end : ℕ)
    → (r : Prev) × (bfs_loop (suc (length (destinations g))) g end ((start, none) ∷ []) (start ∷ [])
        ≡ ok r)
bfs_loop_ends_from g start end =
    bfs_loop_ends (suc (length (destinations g))) g end ((start, none) ∷ []) (start ∷ [])
      (omega (arith, unvisited-le-length ((start, none) ∷ []) (destinations g)))
