-- ===== src/Tests/Sets.antt =====
-- The theorems on association sets at small sets.
use oc_mirror.Base.{
  String, In, inl, inr, ap, sym, ◌∙◌, false, ◌≡◌, ◌≢◌, ◌⊎◌, ◌↔◌, [], ◌∷◌, ◌++◌, true, none, some,
  ok, err, refl, or_else, mem, if◌then◌else◌, string_eq, All, ◌==◌,
}
use oc_mirror.Base.GoMap
use oc_mirror.Api.Image.{Association, generic}
use oc_mirror.Image.AssociationSet.{
  AssociationSet, search, add_loop, add, add_each, merge, update_key, update_value, prune,
  get_image_from_blob, validate, key_not_in_map,
}
use oc_mirror.Image.AssociationSet.Lookups.{
  IsWellFormed, find, find-merge, find-update_key, lookup-add_fresh, update_key-eq-err,
}
use oc_mirror.Image.AssociationSet.Invariant.{GivesWellFormed, methods-IsWellFormed}
use oc_mirror.Image.AssociationSet.Contents.{
  HoldsLayer, get_image_from_blob-HoldsLayer, AllComplete, validate-AllComplete, lookup-prune,
}
use oc_mirror.Image.Convert.{group_associations, add_indexes, add_index, add_children, add_orphans}
use oc_mirror.Image.Convert.Complete.{IsGrouped}
use oc_mirror.Image.Convert.Kept.{group_associations-IsKept}

abbrev one_layer : String → String → Association
one_layer name layer = record {
  name = name;
  path = "single";
  id = "id";
  tag_symlink = "";
  type = generic;
  manifest_digests = [];
  layer_digests = layer ∷ [];
}

abbrev an_index : String → String → Association
an_index name digest = record {
  name = name;
  path = "single";
  id = "id";
  tag_symlink = "";
  type = generic;
  manifest_digests = digest ∷ [];
  layer_digests = [];
}

abbrev a_key : String
a_key = "a"

abbrev b_key : String
b_key = "b"

abbrev one_set : AssociationSet
one_set = ("a", ("m", one_layer "m" "l1") ∷ []) ∷ []

abbrev other_set : AssociationSet
other_set = ("a", ("n", one_layer "n" "l2") ∷ []) ∷ (("b", ("m", one_layer "m" "l3") ∷ []) ∷ [])

one_set-IsWellFormed : IsWellFormed one_set
unfolding GoMap.lookup
one_set-IsWellFormed = (refl, (refl, tt), (refl, tt), tt)

other_set-IsWellFormed : IsWellFormed other_set
unfolding GoMap.lookup
other_set-IsWellFormed = (refl, (refl, tt), (refl, tt), (refl, (refl, tt), (refl, tt), tt))

find-merge_example :
    find (merge one_set other_set) "a" "m" ≡ or_else (find other_set "a" "m") (find one_set "a" "m")
find-merge_example = find-merge one_set other_set "a" "m" other_set-IsWellFormed

methods-IsWellFormed_example :
    IsWellFormed (add one_set "a" (one_layer "x" "l" ∷ []))
    × IsWellFormed (merge one_set other_set)
    × IsWellFormed (prune one_set ("a" ∷ [])).0
    × GivesWellFormed (update_key one_set "a" "c")
    × GivesWellFormed (update_value one_set "a" (one_layer "y" "l"))
methods-IsWellFormed_example =
    methods-IsWellFormed one_set other_set "a" "c" (one_layer "x" "l" ∷ []) (one_layer "y" "l")
      ("a" ∷ []) one_set-IsWellFormed

moved_set :
    update_key other_set "a" "b"
    ≡ ok (("b", ("m", one_layer "m" "l3") ∷ (("n", one_layer "n" "l2") ∷ [])) ∷ [])
unfolding update_key search add_each add add_loop GoMap.lookup GoMap.insert GoMap.delete
moved_set = refl

keys_differ : b_key ≢ a_key
keys_differ e = let same : false ≡ true = (string_eq.beq_iff b_key a_key).1 e in cc

find-update_key_example :
    find (("b", ("m", one_layer "m" "l3") ∷ (("n", one_layer "n" "l2") ∷ [])) ∷ []) "b" "n" ≡ (
      if a_key == b_key
      then none
      else if b_key == b_key
      then or_else (find other_set "a" "n") (find other_set "b" "n")
      else find other_set "b" "n")
find-update_key_example =
    find-update_key other_set "a" "b"
      (("b", ("m", one_layer "m" "l3") ∷ (("n", one_layer "n" "l2") ∷ [])) ∷ []) "b" "n"
      other_set-IsWellFormed keys_differ moved_set

b_missing : GoMap.lookup "b" one_set ≡ none
unfolding GoMap.lookup
b_missing = refl

lookup-add_fresh_example :
    GoMap.lookup "b" (add one_set "b" ((one_layer "x" "l" ∷ []) ++ one_layer "y" "l" ∷ []))
    ≡ some (("y", one_layer "y" "l") ∷ [])
lookup-add_fresh_example =
    lookup-add_fresh one_set "b" (one_layer "x" "l" ∷ []) (one_layer "y" "l") b_missing

no_empty_name : GoMap.lookup "" other_set ≡ none
unfolding GoMap.lookup
no_empty_name = refl

get_image_from_blob-HoldsLayer_example :
    ((get_image_from_blob other_set "l3" ≢ "")
      ↔ ((image : String) × HoldsLayer other_set "l3" image))
    × ((get_image_from_blob other_set "l3" ≡ "")
        ⊎ HoldsLayer other_set "l3" (get_image_from_blob other_set "l3"))
get_image_from_blob-HoldsLayer_example = get_image_from_blob-HoldsLayer other_set "l3" no_empty_name

validate-AllComplete_example : (validate other_set ≡ []) ↔ AllComplete other_set
validate-AllComplete_example = validate-AllComplete other_set

lookup-prune_example :
    (((prune other_set ("b" ∷ [])).1 ≡ none)
      ↔ All (λ key. GoMap.lookup key other_set ≢ none) ("b" ∷ []))
    × (((prune other_set ("b" ∷ [])).1 ≢ none)
        ⊎ (GoMap.lookup "a" (prune other_set ("b" ∷ [])).0
            ≡ (if mem a_key ("b" ∷ []) then GoMap.lookup "a" other_set else none)))
lookup-prune_example = lookup-prune other_set ("b" ∷ []) "a"

update_key-eq-err_example :
    (update_key one_set "b" "c" ≡ err key_not_in_map)
    ↔ ((GoMap.lookup "b" one_set ≡ none) × ("c" ≢ b_key))
update_key-eq-err_example = update_key-eq-err one_set "b" "c"

abbrev index_mapping : GoMap.Map String Association
index_mapping =
    ("isingle", an_index "i" "m")
    ∷ (("msingle", one_layer "m" "l") ∷ (("osingle", one_layer "o" "k") ∷ []))

index_mapping_grouped : (group_associations index_mapping).1 ≡ none
unfolding group_associations add_indexes add_index add_children add add_loop GoMap.lookup
    GoMap.insert GoMap.has
index_mapping_grouped = refl

orphan_alone :
    (other : Association)
    → In other (GoMap.values index_mapping)
    → other.name ≡ "o"
    → other ≡ one_layer "o" "k"
orphan_alone other (inl e) n =
    let wrong : true ≡ false = ap (λ t. t == "i") (ap (λ a. a.name) e ∙ n) in absurd (cc)
orphan_alone other (inr (inl e)) n =
    let wrong : true ≡ false = ap (λ t. t == "m") (ap (λ a. a.name) e ∙ n) in absurd (cc)
orphan_alone other (inr (inr (inl e))) n = sym e
orphan_alone other (inr (inr (inr x))) n = elim x [ ]

group_associations-IsKept_example :
    ((image : String) × (find (group_associations index_mapping).0 image "o"
        ≡ some (one_layer "o" "k")))
    × IsGrouped index_mapping (group_associations index_mapping).0 (one_layer "o" "k")
group_associations-IsKept_example =
    group_associations-IsKept index_mapping (one_layer "o" "k") index_mapping_grouped
      (inr (inr (inl refl))) orphan_alone

-- An image with the name of a child manifest, and another path.
abbrev of_other_path : Association
of_other_path = record {
  name = "m";
  path = "other";
  id = "id";
  tag_symlink = "";
  type = generic;
  manifest_digests = [];
  layer_digests = "k" ∷ [];
}

shared_name_lost :
    group_associations (
      ("isingle", an_index "i" "m")
      ∷ (("msingle", one_layer "m" "l") ∷ (("mother", of_other_path) ∷ [])))
    ≡ (("i", ("i", an_index "i" "m") ∷ (("m", one_layer "m" "l") ∷ [])) ∷ [], none)
unfolding group_associations add_indexes add_index add_children add_orphans add add_loop
    GoMap.lookup GoMap.insert GoMap.has
shared_name_lost = refl
