-- ===== src/Archive/Unarchive.antt =====
-- archive.go, `Unarchive`: the files to extract. `filepath.Rel` works on the elements of the cleaned
-- paths.
use Prim.Native.Char.{code}
use Prim.Native.String.{String}
use oc_mirror.Base.{
  List, [], ◌∷◌, ◌++◌, Bool, true, false, not, ◌&&◌, ◌||◌, Option, none, some, if◌then◌else◌, ◌==◌,
  string_eq, nat_beq, any, ◌≡◌, refl, map,
}
use oc_mirror.Base.Paths

-- Whether the string has ".." in it.
unfoldable pub contains_dots : String → Bool
contains_dots String.[] = false
contains_dots (String.◌∷◌ c String.[]) = false
contains_dots (String.◌∷◌ c (String.◌∷◌ d s)) =
    (nat_beq (code c) 46 && nat_beq (code d) 46) || contains_dots (String.◌∷◌ d s)

abbrev elements : String → List String
unfolding Paths.clean Paths.split_on
elements path = drop_empty (Paths.split_on 47 (Paths.clean path))
  where
    drop_empty : List String → List String
    drop_empty [] = []
    drop_empty (w ∷ ws) =
        let rest = drop_empty ws in if (w == "") || (w == ".") then rest else w ∷ rest

abbrev rooted : String → Bool
rooted String.[] = false
rooted (String.◌∷◌ c s) = nat_beq (code c) 47

-- The elements that lead from the first path to the second one, none if `Rel` gives an error.
abbrev rel_elements : List String → List String → Option (List String)
rel_elements [] ts = some ts
rel_elements (b ∷ bs) [] = if b == ".." then none else some (map (λ w. "..") (b ∷ bs))
rel_elements (b ∷ bs) (t ∷ ts) =
    let rest = rel_elements bs ts in
    if b == t then rest else if b == ".." then none else some (map (λ w. "..") (b ∷ bs) ++ t ∷ ts)

abbrev no_dots : Option (List String) → Bool
unfolding contains_dots
no_dots none = false
no_dots (some ws) = not (any contains_dots ws)

unfoldable pub within : String → String → Bool
unfolding elements no_dots
within parent sub =
    if (rooted parent && rooted sub) || (not (rooted parent) && not (rooted sub))
    then no_dots (rel_elements (elements parent) (elements sub))
    else false

unfoldable pub should_exclude : List String → String → Bool
should_exclude exclude file = any (λ path. within path file) exclude

pub record Header : Type 0 where
  pub name : String
  pub is_dir : Bool

-- The names that `Unarchive` extracts, in the archive's order.
unfoldable pub unarchive_files : List String → List Header → List String
unarchive_files exclude [] = []
unarchive_files exclude (h ∷ hs) =
    let rest = unarchive_files exclude hs in
    if not (should_exclude exclude h.name) && not h.is_dir then h.name ∷ rest else rest

within_example : within "publish/" "publish/.metadata.json" ≡ true
unfolding within elements no_dots contains_dots Paths.clean Paths.split_on Paths.join_with
within_example = refl

within_dots_example : within "charts" "charts/a..b.tgz" ≡ false
unfolding within elements no_dots contains_dots Paths.clean Paths.split_on Paths.join_with
within_dots_example = refl
