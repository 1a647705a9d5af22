-- ===== src/Bundle/Reconciled.antt =====
-- The blobs that `ReconcileV2Dir` lists: each once, and none that the image set has.
use mathlib.Core.Path.{subst}
use text.Mathlib.TextEquality.{eq_iff}
use oc_mirror.Base.{
  true, String, ◌≡◌, List, [], ◌∷◌, ◌++◌, false, ◌||◌, ◌&&◌, not, ok, >>=-eq-ok, ◌==◌, string_eq,
  mem, arith, refl, Bool-cases, inl, inr, All, All-append, In, ◌∙◌, sym,
}
use oc_mirror.Base.Paths
use oc_mirror.Image.AssociationSet.{AssociationSet, get_digests}
use oc_mirror.Bundle.{
  DirEntry, Reconciliation, Root, visit_entry, walk_dir, visit_roots, from_digests,
  reconcile_v2_dir, in_blob_dir,
}

-- No name occurs twice.
abbrev pub DistinctBlobs : List String → Type 0
DistinctBlobs [] = Unit
DistinctBlobs (b ∷ bs) = (mem b bs ≡ false) × DistinctBlobs bs

mem-append : (n : String) (xs ys : List String) → mem n (xs ++ ys) ≡ (mem n xs || mem n ys)
mem-append n [] ys = refl
mem-append n (x ∷ xs) ys = ground (arith, mem-append n xs ys)

DistinctBlobs-snoc :
    (n : String) (bs : List String)
    → mem n bs ≡ false
    → DistinctBlobs bs
    → DistinctBlobs (bs ++ n ∷ [])
DistinctBlobs-snoc n [] h d = (refl, tt)
DistinctBlobs-snoc n (b ∷ bs) h d = (
  ground (arith, mem-append b bs (n ∷ []), eq_iff n b, eq_iff b n),
  DistinctBlobs-snoc n bs (ground arith) d.1,
)

-- The files found are the digests and the blobs.
record Inv (digests : List String) (r : Reconciliation) : Type 0 where
  found : (n : String) → mem n r.found_files ≡ (mem n digests || mem n r.blobs)
  fresh : All (λ n. mem n digests ≡ false) r.blobs
  distinct : DistinctBlobs r.blobs

visit_entry-Inv :
    (digests : List String) (disk arch : String) (d : DirEntry) (r : Reconciliation)
    → Inv digests r
    → Inv digests (visit_entry disk arch d r)
unfolding visit_entry
visit_entry-Inv digests disk arch d r inv = elim (Bool-cases (in_blob_dir d)) [
  | inl t ↦ elim (Bool-cases (d.is_regular && not (mem d.name r.found_files))) [
    | inr f ↦ rw (t, f) inv
    | inl new ↦
        let at = inv.found d.name in
        let old : mem d.name digests ≡ false = ground arith in
        let unseen : mem d.name r.blobs ≡ false = ground arith in
        rw (t, new)
          (record {
            found = λ n. ground (arith, inv.found n, mem-append n r.blobs (d.name ∷ []));
            fresh =
                All-append (λ n. mem n digests ≡ false) r.blobs (d.name ∷ []) inv.fresh (old, tt);
            distinct = DistinctBlobs-snoc d.name r.blobs unseen inv.distinct;
          })
  ]
  | inr f ↦ elim (Bool-cases (not (d.name == "blobs") && (d.is_regular || d.is_symlink))) [
    | inr g ↦ rw (f, g) inv
    | inl g ↦ rw (f, g) (record { found = inv.found; fresh = inv.fresh; distinct = inv.distinct })
  ]
]

walk_dir-Inv :
    (digests : List String) (disk arch : String) (ds : List DirEntry) (r : Reconciliation)
    → Inv digests r
    → Inv digests (walk_dir disk arch ds r)
unfolding walk_dir
walk_dir-Inv digests disk arch [] r inv = inv
walk_dir-Inv digests disk arch (d ∷ ds) r inv =
    walk_dir-Inv digests disk arch ds (visit_entry disk arch d r)
      (visit_entry-Inv digests disk arch d r inv)

visit_roots-Inv :
    (digests : List String) (roots : List Root) (r s : Reconciliation)
    → Inv digests r
    → visit_roots roots r ≡ ok s
    → Inv digests s
unfolding visit_roots
visit_roots-Inv digests [] r s inv h = let same : r ≡ s = cc in rw (sym same) inv
visit_roots-Inv digests ((disk, (arch, ds)) ∷ roots) r s inv h =
    elim (Bool-cases (Paths.base disk == "v2")) [
      | inl t ↦ visit_roots-Inv digests roots _ s (walk_dir-Inv digests disk _ ds r inv) (rw t at h)
      | inr f ↦ absurd (ground arith)
    ]

visit_entry-keeps :
    (disk arch n : String) (d : DirEntry) (r : Reconciliation)
    → mem n r.found_files ≡ true
    → mem n (visit_entry disk arch d r).found_files ≡ true
unfolding visit_entry
visit_entry-keeps disk arch n d r h = ground arith

walk_dir-keeps :
    (disk arch n : String) (ds : List DirEntry) (r : Reconciliation)
    → mem n r.found_files ≡ true
    → mem n (walk_dir disk arch ds r).found_files ≡ true
unfolding walk_dir
walk_dir-keeps disk arch n [] r h = h
walk_dir-keeps disk arch n (d ∷ ds) r h =
    walk_dir-keeps disk arch n ds (visit_entry disk arch d r) (visit_entry-keeps disk arch n d r h)

visit_roots-keeps :
    (n : String) (roots : List Root) (r s : Reconciliation)
    → mem n r.found_files ≡ true
    → visit_roots roots r ≡ ok s
    → mem n s.found_files ≡ true
unfolding visit_roots
visit_roots-keeps n [] r s m h = let same : r ≡ s = cc in rw (sym same) m
visit_roots-keeps n ((disk, (arch, ds)) ∷ roots) r s m h =
    elim (Bool-cases (Paths.base disk == "v2")) [
      | inl t ↦ visit_roots-keeps n roots _ s (walk_dir-keeps disk _ n ds r m) (rw t at h)
      | inr f ↦ absurd (ground arith)
    ]

visit_entry-finds :
    (disk arch : String) (d : DirEntry) (r : Reconciliation)
    → in_blob_dir d ≡ true
    → d.is_regular ≡ true
    → mem d.name (visit_entry disk arch d r).found_files ≡ true
unfolding visit_entry
visit_entry-finds disk arch d r b g = ground (arith, eq_iff d.name d.name)

walk_dir-finds :
    (disk arch : String) (d : DirEntry) (ds : List DirEntry) (r : Reconciliation)
    → In d ds
    → in_blob_dir d ≡ true
    → d.is_regular ≡ true
    → mem d.name (walk_dir disk arch ds r).found_files ≡ true
unfolding walk_dir
walk_dir-finds disk arch d [] r i b g = absurd i
walk_dir-finds disk arch d (e ∷ ds) r (inl same) b g =
    walk_dir-keeps disk arch d.name ds (visit_entry disk arch e r)
      (rw same (visit_entry-finds disk arch d r b g))
walk_dir-finds disk arch d (e ∷ ds) r (inr i) b g =
    walk_dir-finds disk arch d ds (visit_entry disk arch e r) i b g

visit_roots-finds :
    (root : Root) (d : DirEntry) (roots : List Root) (r s : Reconciliation)
    → In root roots
    → In d root.1.1
    → in_blob_dir d ≡ true
    → d.is_regular ≡ true
    → visit_roots roots r ≡ ok s
    → mem d.name s.found_files ≡ true
unfolding visit_roots
visit_roots-finds root d [] r s i j b g h = absurd i
visit_roots-finds root d ((disk, (arch, ds)) ∷ roots) r s i j b g h =
    elim (Bool-cases (Paths.base disk == "v2")) [
      | inr f ↦ absurd (ground arith)
      | inl t ↦ elim i [
        | inr later ↦ visit_roots-finds root d roots _ s later j b g (rw t at h)
        | inl same ↦
            let there : In d ds = subst (λ q. In d q.1.1) (sym same) j in
            visit_roots-keeps d.name roots _ s (walk_dir-finds disk _ d ds r there b g) (rw t at h)
      ]
    ]

reconciled-Inv :
    (assocs : AssociationSet) (roots : List Root) (r : Reconciliation)
    → visit_roots roots (from_digests (get_digests assocs)) ≡ ok r
    → Inv (get_digests assocs) r
reconciled-Inv assocs roots r e =
    visit_roots-Inv (get_digests assocs) roots (from_digests (get_digests assocs)) r
      (record { found = λ n. ground arith; fresh = tt; distinct = tt }) e

-- When the directories are reconciled, each blob is listed once, and no blob that is listed is among
-- the digests of the associations.
pub reconcile_v2_dir-DistinctBlobs :
    (assocs : AssociationSet) (roots : List Root) (manifests blobs : List String)
    → reconcile_v2_dir assocs roots ≡ ok (manifests, blobs)
    → All (λ n. mem n (get_digests assocs) ≡ false) blobs × DistinctBlobs blobs
unfolding reconcile_v2_dir
reconcile_v2_dir-DistinctBlobs assocs roots manifests blobs h =
    let (r, e, last) = >>=-eq-ok (visit_roots roots (from_digests (get_digests assocs))) _ h in
    let inv = reconciled-Inv assocs roots r e in
    let same : r.blobs ≡ blobs = cc in (rw (sym same) inv.fresh, rw (sym same) inv.distinct)

-- When the directories are reconciled, each regular file in a blob directory of one of them is among
-- the digests of the associations or is listed as a blob.
pub reconcile_v2_dir-finds :
    (assocs : AssociationSet) (roots : List Root) (manifests blobs : List String) (root : Root)
    (d : DirEntry)
    → reconcile_v2_dir assocs roots ≡ ok (manifests, blobs)
    → In root roots
    → In d root.1.1
    → in_blob_dir d ≡ true
    → d.is_regular ≡ true
    → (mem d.name (get_digests assocs) || mem d.name blobs) ≡ true
unfolding reconcile_v2_dir
reconcile_v2_dir-finds assocs roots manifests blobs root d h i j b g =
    let (r, e, last) = >>=-eq-ok (visit_roots roots (from_digests (get_digests assocs))) _ h in
    let inv = reconciled-Inv assocs roots r e in
    let same : r.blobs ≡ blobs = cc in
    rw (sym same) (
      sym (inv.found d.name)
      ∙ visit_roots-finds root d roots (from_digests (get_digests assocs)) r i j b g e)
