-- ===== src/Archive.antt =====
-- pkg/archive/archive.go: the split archives of an image set. The file system is the list of entries
-- that `filepath.Walk` visits; `archiver.NameInArchive` is a parameter.
pub mod Split
pub mod Unarchive
use oc_mirror.Base.{
  String, ℕ, zero, suc, ◌+◌, ◌*◌, ◌%◌, ◌^◌, List, [], ◌∷◌, ◌++◌, Bool, true, false, not, ◌&&◌, ◌||◌,
  Option, none, some, Result, ok, err, ◌>>=◌, if◌then◌else◌, ◌==◌, string_eq, ltb, mem, any, ◌≡◌,
  refl,
}
use oc_mirror.Base.Paths

pub record FileInfo : Type 0 where
  pub path : String
  pub name : String
  pub size : ℕ
  pub is_dir : Bool

-- The sets are lists of their members. `packed_blobs` has the blobs that are in an archive.
pub record Packager : Type 0 where
  pub manifest : List String
  pub blobs : List String
  pub packed_blobs : List String

unfoldable pub new_packager : List String → List String → Packager
new_packager manifests blobs = record { manifest = manifests; blobs = blobs; packed_blobs = [] }

unfoldable pub pack : List String → String → Bool
pack search file = mem file search

unfoldable pub blob_in_archive : String → String
unfolding Paths.path_join
blob_in_archive file = Paths.path_join ("blobs" ∷ file ∷ [])

abbrev first_or_empty : List String → String
first_or_empty [] = ""
first_or_empty (w ∷ ws) = w

-- `config.InternalDir`, `CatalogsDir`, `HelmDir`, `ReleaseSignatureDir`, `GraphDataDir`.
abbrev include_dirs : List String
include_dirs = "internal" ∷ "catalogs" ∷ "charts" ∷ "release-signatures" ∷ "cincinnati" ∷ []

unfoldable pub include_file : String → Bool
unfolding Paths.clean Paths.split_on
include_file fpath = mem (first_or_empty (Paths.split_on 47 (Paths.clean fpath))) include_dirs

unfoldable pub should_remove : FileInfo → Bool
unfolding include_file
should_remove f = not (include_file f.path) && not f.is_dir

-- An archive: whether the metadata is written to it first, and the name and size of each file.
pub record Tar : Type 0 where
  pub with_metadata : Bool
  pub files : List (String × ℕ)

pub record SplitState : Type 0 where
  pub packager : Packager
  pub closed : List Tar
  pub current : Tar
  pub split_size : ℕ
  pub removed : List String

pub data ArchiveError : Type 0 where
  cannot_name : String → ArchiveError
  bad_header no_such_file : ArchiveError

-- `info.Size()+splitSize` on int64, for sizes that are not negative.
abbrev pub add64 : ℕ → ℕ → ℕ
add64 a b = (a + b) % 18446744073709551616

-- The comparison of a sum with a limit that is not negative: a wrapped sum is negative.
abbrev pub exceeds : ℕ → ℕ → Bool
exceeds sum limit = ltb sum 9223372036854775808 && ltb limit sum

module _ (name_in_archive : String → Option String) (max_split_size : ℕ) (skip_cleanup : Bool) where
  -- The name of a file in the archive, none if it is skipped, with the packager.
  unfoldable pub choose_name : Packager → FileInfo → Result ArchiveError (Option String × Packager)
  choose_name p f =
      let manifest = if include_file f.path then f.path ∷ p.manifest else p.manifest in
      let kept : Packager = record {
        manifest = manifest;
        blobs = p.blobs;
        packed_blobs = p.packed_blobs;
      } in
      let packed : Packager = record {
        manifest = manifest;
        blobs = p.blobs;
        packed_blobs = f.name ∷ p.packed_blobs;
      } in
      if pack manifest f.path
      then named kept (name_in_archive f.path)
      else if pack p.blobs f.name && not (pack p.packed_blobs f.name)
      then ok (some (blob_in_archive f.name), packed)
      else ok (none, kept)
    where
      named : Packager → Option String → Result ArchiveError (Option String × Packager)
      named kept none = err (cannot_name f.path)
      named kept (some n) = ok (some n, kept)

  -- A new archive, where the file is too large for the current one.
  unfoldable pub make_room : ℕ → SplitState → SplitState
  make_room size s =
      if exceeds (add64 size s.split_size) max_split_size
      then record {
        packager = s.packager;
        closed = s.closed ++ s.current ∷ [];
        current = record { with_metadata = false; files = [] };
        split_size = 0;
        removed = s.removed;
      }
      else s

  unfoldable pub write_file : String → FileInfo → SplitState → SplitState
  write_file name f s = record {
    packager = s.packager;
    closed = s.closed;
    current = record {
      with_metadata = s.current.with_metadata;
      files = s.current.files ++ (name, f.size) ∷ [];
    };
    split_size = add64 s.split_size f.size;
    removed = if should_remove f && not skip_cleanup then s.removed ++ f.path ∷ [] else s.removed;
  }

  abbrev with_packager : Packager → SplitState → SplitState
  with_packager p s = record {
    packager = p;
    closed = s.closed;
    current = s.current;
    split_size = s.split_size;
    removed = s.removed;
  }

  abbrev pub place : FileInfo → SplitState → Option String × Packager → SplitState
  place f s (none, p) = with_packager p s
  place f s (some name, p) = write_file name f (make_room f.size (with_packager p s))

  unfoldable pub walk_file : FileInfo → SplitState → Result ArchiveError SplitState
  walk_file f s = choose_name s.packager f >>= λ r. ok (place f s r)

  abbrev pub go_on :
      (SplitState → SplitState × Option ArchiveError)
      → SplitState
      → Result ArchiveError SplitState
      → SplitState × Option ArchiveError
  go_on rest s (ok t) = rest t
  go_on rest s (err e) = (s, some e)

  -- The walk, with the state at the first error: what is written then stays.
  unfoldable pub walk : List FileInfo → SplitState → SplitState × Option ArchiveError
  walk [] s = (s, none)
  walk (f ∷ fs) s = go_on (λ t. walk fs t) s (walk_file f s)

  -- The archives in order, and the packager, the files that are removed and the walk's error.
  unfoldable pub create_split_archive :
      Packager → List FileInfo → List Tar × Packager × List String × Option ArchiveError
  create_split_archive p files =
      let first : SplitState = record {
        packager = p;
        closed = [];
        current = record { with_metadata = true; files = [] };
        split_size = 0;
        removed = [];
      } in
      let (s, e) = walk files first in (s.closed ++ s.current ∷ [], s.packager, s.removed, e)
