-- ===== src/Base/Paths.antt =====
-- What the program uses of Go's strings and path packages: `strings.Split` by one character,
-- `strings.TrimSpace`, `path.Clean` and `path.Join` (`filepath`'s are the same on Unix).
use Prim.Native.Nat.{ℕ}
use Prim.Native.Char.{Char, code}
use Prim.Native.String.{String, ◌++◌}
use mathlib.Core.Bool.{Bool, true, false, ◌&&◌, ◌||◌}
use mathlib.Core.List.{List, [], ◌∷◌, reverse}
use mathlib.Core.Path.{◌≡◌, refl}
use oc_mirror.Base.Tests.{leb, nat_beq, if◌then◌else◌}
use oc_mirror.Base.Equality.{◌==◌, string_eq}

abbrev push_char : Char → List String → List String
push_char c [] = String.◌∷◌ c String.[] ∷ []
push_char c (w ∷ ws) = String.◌∷◌ c w ∷ ws

-- strings.Split(s, sep), for a separator of one character, given by its code.
unfoldable pub split_on : ℕ → String → List String
split_on sep String.[] = "" ∷ []
split_on sep (String.◌∷◌ c s) =
    let rest = split_on sep s in if nat_beq (code c) sep then "" ∷ rest else push_char c rest

unfoldable pub join_with : String → List String → String
join_with sep [] = ""
join_with sep (w ∷ []) = w
join_with sep (w ∷ (v ∷ ws)) = w ++ (sep ++ join_with sep (v ∷ ws))

abbrev slash : ℕ
slash = 47

-- The elements of a path from the last one back: "" and "." go, ".." takes one away.
abbrev clean_step : Bool → String → List String → List String
clean_step rooted w [] =
    if (w == "") || (w == ".") then [] else if (w == "..") && rooted then [] else w ∷ []
clean_step rooted w (top ∷ stack) =
    if (w == "") || (w == ".")
    then top ∷ stack
    else if w == ".."
    then (if top == ".." then w ∷ (top ∷ stack) else stack)
    else w ∷ (top ∷ stack)

abbrev clean_all : Bool → List String → List String → List String
clean_all rooted [] stack = reverse stack
clean_all rooted (w ∷ ws) stack = clean_all rooted ws (clean_step rooted w stack)

abbrev is_rooted : String → Bool
is_rooted String.[] = false
is_rooted (String.◌∷◌ c s) = nat_beq (code c) slash

abbrev render : Bool → List String → String
render true ws = "/" ++ join_with "/" ws
render false [] = "."
render false (w ∷ ws) = join_with "/" (w ∷ ws)

unfoldable pub clean : String → String
unfolding split_on join_with
clean s = render (is_rooted s) (clean_all (is_rooted s) (split_on slash s) [])

abbrev non_empty : List String → List String
non_empty [] = []
non_empty (w ∷ ws) = if w == "" then non_empty ws else w ∷ non_empty ws

-- path.Join: the elements that are not empty, joined and cleaned; "" if there is none.
abbrev join_parts : List String → String
unfolding clean join_with
join_parts [] = ""
join_parts (w ∷ ws) = clean (join_with "/" (w ∷ ws))

unfoldable pub path_join : List String → String
unfolding clean join_with
path_join ws = join_parts (non_empty ws)

-- filepath.Base of a path: its last element, "." if the path is empty and "/" if it is all slashes.
abbrev last_or : String → List String → String
last_or d [] = d
last_or d (w ∷ ws) = last_or w ws

unfoldable pub base : String → String
unfolding split_on
base s = if s == "" then "." else last_or "/" (non_empty (split_on slash s))

-- The characters that `unicode.IsSpace` accepts.
abbrev is_space : ℕ → Bool
is_space c =
    (leb 9 c && leb c 13)
    || (nat_beq c 32
        || (nat_beq c 0x85
            || (nat_beq c 0xa0
                || (nat_beq c 0x1680
                    || ((leb 0x2000 c && leb c 0x200a)
                        || (nat_beq c 0x2028
                            || (nat_beq c 0x2029
                                || (nat_beq c 0x202f
                                    || (nat_beq c 0x205f || nat_beq c 0x3000)))))))))

abbrev trim_left : String → String
trim_left String.[] = ""
trim_left (String.◌∷◌ c s) =
    let rest = trim_left s in if is_space (code c) then rest else String.◌∷◌ c s

abbrev trim_right : String → String
trim_right String.[] = ""
trim_right (String.◌∷◌ c s) =
    let rest = trim_right s in if is_space (code c) && (rest == "") then "" else String.◌∷◌ c rest

unfoldable pub trim_space : String → String
trim_space s = trim_left (trim_right s)

join_example : path_join ("ns" ∷ "a//b/../c" ∷ []) ≡ "ns/a/c"
unfolding path_join
join_example = refl
