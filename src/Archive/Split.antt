-- ===== src/Archive/Split.antt =====
-- The archives that `CreateSplitArchive` makes keep to the limit.
use oc_mirror.Base.{
  String, ℕ, ◌+◌, ◌≤◌, ◌<◌, ◌≡◌, List, [], ◌∷◌, ◌++◌, Bool, Option, none, some, arith, refl, ◌∙◌,
  ap, inl, inr, ◌⊎◌, All, All-append, Bool-cases, Result-cases,
}
use oc_mirror.Archive.{
  FileInfo, Packager, Tar, SplitState, add64, exceeds, choose_name, make_room, write_file, place,
  walk_file, walk, create_split_archive,
}

abbrev pub total : List (String × ℕ) → ℕ
total [] = 0
total ((name, size) ∷ files) = size + total files

total-snoc :
    (files : List (String × ℕ)) (name : String) (size : ℕ)
    → total (files ++ (name, size) ∷ []) ≡ total files + size
total-snoc [] name size = omega arith
total-snoc ((n, k) ∷ files) name size = omega (arith, total-snoc files name size)

module _ (name_in_archive : String → Option String) (limit : ℕ) (skip_cleanup : Bool) where
  -- The files of the archive have no more bytes than the limit, or there is one file.
  abbrev pub Fits : Tar → Type 0
  Fits t = (total t.files ≤ limit) ⊎ ((e : String × ℕ) × (t.files ≡ e ∷ []))

  record Inv (s : SplitState) : Type 0 where
    counts : s.split_size ≡ total s.current.files
    small : s.split_size < 4611686018427387904
    current_fits : Fits s.current
    closed_fit : All Fits s.closed

  make_room-Inv :
      (size : ℕ) (s : SplitState)
      → limit < 4611686018427387904
      → size < 4611686018427387904
      → Inv s
      → Inv (make_room name_in_archive limit skip_cleanup size s)
        × ((total (make_room name_in_archive limit skip_cleanup size s).current.files + size
              ≤ limit)
            ⊎ ((make_room name_in_archive limit skip_cleanup size s).current.files ≡ []))
  unfolding make_room
  make_room-Inv size s small less inv =
      elim (Bool-cases (exceeds (add64 size s.split_size) limit)) [
        | inl t ↦ rw t (
          record {
            counts = refl;
            small = omega arith;
            current_fits = inl (omega arith);
            closed_fit =
                All-append Fits s.closed (s.current ∷ []) inv.closed_fit (inv.current_fits, tt);
          },
          inr refl,
        )
        | inr f ↦
            let below = inv.small in
            let counts = inv.counts in
            let sum : size + s.split_size ≤ limit = ground arith in rw f (inv, inl (omega arith))
      ]

  write_file-Inv :
      (name : String) (f : FileInfo) (s : SplitState)
      → limit < 4611686018427387904
      → f.size < 4611686018427387904
      → Inv s
      → (total s.current.files + f.size ≤ limit) ⊎ (s.current.files ≡ [])
      → Inv (write_file name_in_archive limit skip_cleanup name f s)
  unfolding write_file
  write_file-Inv name f s small less inv (inl le) =
      let counts = inv.counts in
      let more = total-snoc s.current.files name f.size in
      record {
        counts = omega arith;
        small = omega arith;
        current_fits = inl (omega arith);
        closed_fit = inv.closed_fit;
      }
  write_file-Inv name f s small less inv (inr empty) =
      let counts : s.split_size ≡ 0 = inv.counts ∙ ap total empty in
      record {
        counts = rw empty (omega arith);
        small = omega arith;
        current_fits = inr ((name, f.size), ap (λ l. l ++ (name, f.size) ∷ []) empty);
        closed_fit = inv.closed_fit;
      }

  place-Inv :
      (f : FileInfo) (s : SplitState) (o : Option String) (p : Packager)
      → limit < 4611686018427387904
      → f.size < 4611686018427387904
      → Inv s
      → Inv (place name_in_archive limit skip_cleanup f s (o, p))
  place-Inv f s none p small less inv = record {
    counts = inv.counts;
    small = inv.small;
    current_fits = inv.current_fits;
    closed_fit = inv.closed_fit;
  }
  place-Inv f s (some name) p small less inv =
      let (kept, room) = make_room-Inv f.size _ small less (record {
        counts = inv.counts;
        small = inv.small;
        current_fits = inv.current_fits;
        closed_fit = inv.closed_fit;
      }) in
      write_file-Inv name f _ small less kept room

  walk-Inv :
      (files : List FileInfo) (s : SplitState)
      → limit < 4611686018427387904
      → All (λ f. f.size < 4611686018427387904) files
      → Inv s
      → Inv (walk name_in_archive limit skip_cleanup files s).0
  unfolding walk walk_file
  walk-Inv [] s small all_less inv = inv
  walk-Inv (f ∷ fs) s small all_less inv =
      elim (Result-cases (choose_name name_in_archive limit skip_cleanup s.packager f)) [
        | inr (e, h) ↦ rw h inv
        | inl ((o, p), h) ↦
            rw h (walk-Inv fs _ small all_less.1 (place-Inv f s o p small all_less.0 inv))
      ]

  -- Where the limit and the sizes are less than 2 ^ 62, each archive has no more bytes of files than
  -- the limit, or it has one file. The metadata is not counted.
  pub create_split_archive-Fits :
      (p : Packager) (files : List FileInfo)
      → limit < 4611686018427387904
      → All (λ f. f.size < 4611686018427387904) files
      → All Fits (create_split_archive name_in_archive limit skip_cleanup p files).0
  unfolding create_split_archive
  create_split_archive-Fits p files small sizes =
      let inv = walk-Inv files _ small sizes (record {
        counts = refl;
        small = omega arith;
        current_fits = inl (omega arith);
        closed_fit = tt;
      }) in
      All-append Fits _ _ inv.closed_fit (inv.current_fits, tt)
