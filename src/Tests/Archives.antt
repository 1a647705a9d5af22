-- ===== src/Tests/Archives.antt =====
-- The theorem on split archives at three files.
use oc_mirror.Base.{String, ℕ, List, [], ◌∷◌, false, some, All, arith}
use oc_mirror.Archive.{FileInfo, Packager, new_packager, create_split_archive}
use oc_mirror.Archive.Split.{Fits, create_split_archive-Fits}

abbrev file_of : String → ℕ → FileInfo
file_of name size = record { path = "v2/blobs"; name = name; size = size; is_dir = false }

abbrev three_files : List FileInfo
three_files = file_of "a" 3 ∷ (file_of "b" 4 ∷ (file_of "c" 30 ∷ []))

abbrev packager : Packager
unfolding new_packager
packager = new_packager [] ("a" ∷ ("b" ∷ ("c" ∷ [])))

create_split_archive-Fits_example :
    All
      (Fits (λ path. some path) 5 false)
      (create_split_archive (λ path. some path) 5 false packager three_files).0
create_split_archive-Fits_example =
    create_split_archive-Fits (λ path. some path) 5 false packager three_files (omega arith)
      (omega arith, (omega arith, (omega arith, tt)))
