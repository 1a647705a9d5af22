-- ===== src/Tests/Bundles.antt =====
-- The theorems on bundle files at a directory with two copies of a blob.
use oc_mirror.Base.{
  inl, ◌||◌, String, ◌≡◌, List, [], ◌∷◌, true, false, ok, refl, All, mem, string_eq,
}
use oc_mirror.Base.Paths
use oc_mirror.Image.AssociationSet.{get_digests}
use oc_mirror.Bundle.{
  DirEntry, Root, dir, in_blob_dir, visit_entry, walk_dir, visit_roots, reconcile_v2_dir,
}
use oc_mirror.Bundle.Reconciled.{
  DistinctBlobs, reconcile_v2_dir-DistinctBlobs, reconcile_v2_dir-finds,
}

abbrev entry : String → String → DirEntry
entry filename name = record {
  filename = filename;
  name = name;
  is_regular = true;
  is_symlink = false;
}

abbrev pub one_root : List Root
one_root =
    (
      "src/v2",
      (
        "v2",
        entry "src/v2/a/blobs/l1" "l1"
            ∷ (entry "src/v2/b/blobs/l1" "l1" ∷ (entry "src/v2/a/manifests/m" "m" ∷ [])),
      ),
    )
    ∷ []

pub one_root_reconciled : reconcile_v2_dir [] one_root ≡ ok ("v2/a/manifests/m" ∷ [], "l1" ∷ [])
unfolding reconcile_v2_dir in_blob_dir visit_roots walk_dir visit_entry get_digests dir Paths.base
    Paths.path_join Paths.clean Paths.split_on Paths.join_with
one_root_reconciled = refl

reconcile_v2_dir-DistinctBlobs_example :
    All (λ n. mem n (get_digests []) ≡ false) ("l1" ∷ []) × DistinctBlobs ("l1" ∷ [])
reconcile_v2_dir-DistinctBlobs_example =
    reconcile_v2_dir-DistinctBlobs [] one_root ("v2/a/manifests/m" ∷ []) ("l1" ∷ [])
      one_root_reconciled

abbrev first_entry : DirEntry
first_entry = entry "src/v2/a/blobs/l1" "l1"

abbrev the_root : Root
the_root = (
  "src/v2",
  (
    "v2",
    entry "src/v2/a/blobs/l1" "l1"
        ∷ (entry "src/v2/b/blobs/l1" "l1" ∷ (entry "src/v2/a/manifests/m" "m" ∷ [])),
  ),
)

blob_in_place : in_blob_dir first_entry ≡ true
unfolding in_blob_dir dir Paths.base Paths.clean Paths.split_on Paths.join_with
blob_in_place = refl

reconcile_v2_dir-finds_example :
    (mem first_entry.name (get_digests []) || mem first_entry.name ("l1" ∷ [])) ≡ true
reconcile_v2_dir-finds_example =
    reconcile_v2_dir-finds [] one_root ("v2/a/manifests/m" ∷ []) ("l1" ∷ []) the_root first_entry
      one_root_reconciled (inl refl) (inl refl) blob_in_place refl
