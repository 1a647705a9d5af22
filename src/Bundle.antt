-- ===== src/Bundle.antt =====
-- pkg/bundle: which files of the v2 directories go into an image set (files.go), and which images
-- are blocked (image.go). A directory is the list of entries that `WalkDir` visits; its errors are
-- not modelled.
pub mod Reconciled
use Prim.Native.Char.{code}
use Prim.Native.String.{◌++◌ as concat}
use oc_mirror.Base.{
  String, ℕ, List, [], ◌∷◌, ◌++◌, Bool, true, false, ◌||◌, ◌&&◌, not, Result, ok, err, ◌>>=◌,
  if◌then◌else◌, ◌==◌, string_eq, nat_beq, mem, any, refl, ◌≡◌,
}
use oc_mirror.Base.Paths
use oc_mirror.Base.GoMap.{Map}
use oc_mirror.Image.AssociationSet.{AssociationSet, get_digests}
use oc_mirror.Image.Reference.{DockerImageReference}
use oc_mirror.Api.Config.{Image}

pub record DirEntry : Type 0 where
  pub filename : String
  pub name : String
  pub is_regular : Bool
  pub is_symlink : Bool

-- strings.TrimPrefix(s, prefix)
abbrev trim_prefix_or : String → String → String → String
trim_prefix_or whole s String.[] = s
trim_prefix_or whole String.[] (String.◌∷◌ p ps) = whole
trim_prefix_or whole (String.◌∷◌ c s) (String.◌∷◌ p ps) =
    let rest = trim_prefix_or whole s ps in if nat_beq (code c) (code p) then rest else whole

abbrev all_but_last : List String → List String
all_but_last [] = []
all_but_last (w ∷ []) = []
all_but_last (w ∷ (v ∷ ws)) = w ∷ all_but_last (v ∷ ws)

abbrev with_slash : List String → String
unfolding Paths.join_with
with_slash [] = ""
with_slash (w ∷ ws) = concat (Paths.join_with "/" (w ∷ ws)) "/"

-- filepath.Dir
unfoldable pub dir : String → String
unfolding Paths.clean Paths.split_on with_slash
dir path = Paths.clean (with_slash (all_but_last (Paths.split_on 47 path)))

pub record Reconciliation : Type 0 where
  pub found_files : List String
  pub manifests : List String
  pub blobs : List String

pub data BundleError : Type 0 where
  not_a_v2_directory : String → BundleError

unfoldable pub in_blob_dir : DirEntry → Bool
unfolding dir Paths.base
in_blob_dir d = Paths.base (dir d.filename) == "blobs"

-- The function that `WalkDir` calls.
unfoldable pub visit_entry : String → String → DirEntry → Reconciliation → Reconciliation
unfolding Paths.path_join in_blob_dir
visit_entry root_on_disk root_in_archive d r =
    let name_in_archive =
      Paths.path_join
        (root_in_archive ∷ (trim_prefix_or d.filename d.filename root_on_disk ∷ [])) in
    if in_blob_dir d
    then (if d.is_regular && not (mem d.name r.found_files)
        then record {
          found_files = d.name ∷ r.found_files;
          manifests = r.manifests;
          blobs = r.blobs ++ d.name ∷ [];
        }
        else r)
    else if not (d.name == "blobs") && (d.is_regular || d.is_symlink)
    then record {
      found_files = r.found_files;
      manifests = r.manifests ++ name_in_archive ∷ [];
      blobs = r.blobs;
    }
    else r

unfoldable pub walk_dir : String → String → List DirEntry → Reconciliation → Reconciliation
walk_dir root_on_disk root_in_archive [] r = r
walk_dir root_on_disk root_in_archive (d ∷ ds) r =
    walk_dir root_on_disk root_in_archive ds (visit_entry root_on_disk root_in_archive d r)

-- A root on the disk, its root in the archive and its entries.
abbrev pub Root : Type 0
Root = String × (String × List DirEntry)

-- The loop over the roots. An empty root in the archive becomes `filepath.Base("")`.
unfoldable pub visit_roots : List Root → Reconciliation → Result BundleError Reconciliation
unfolding Paths.base
visit_roots [] r = ok r
visit_roots ((root_on_disk, (root_in_archive, entries)) ∷ roots) r =
    let archive_root =
      if root_in_archive == "" then Paths.base root_in_archive else root_in_archive in
    let rest = visit_roots roots (walk_dir root_on_disk archive_root entries r) in
    if Paths.base root_on_disk == "v2" then rest else err (not_a_v2_directory root_on_disk)

abbrev pub from_digests : List String → Reconciliation
from_digests digests = record { found_files = digests; manifests = []; blobs = [] }

unfoldable pub reconcile_v2_dir :
    AssociationSet → List Root → Result BundleError (List String × List String)
reconcile_v2_dir assocs filenames =
    visit_roots filenames (from_digests (get_digests assocs)) >>= λ r. ok (r.manifests, r.blobs)

unfoldable pub is_blocked : List Image → DockerImageReference → Bool
is_blocked blocked img_ref = any (λ block. img_ref.name == block.name) blocked
