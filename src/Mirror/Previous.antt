-- ===== src/Mirror/Previous.antt =====
-- pkg/cli/mirror/mirror.go, `removePreviouslyMirrored`: images that an earlier run mirrored leave the
-- mapping, and the past associations are cut down to theirs.
pub mod Removed
use oc_mirror.Base.{
  String, List, [], ◌∷◌, ◌++◌, Bool, true, false, not, ◌&&◌, Option, none, some, if◌then◌else◌,
  ◌==◌, string_eq,
}
use oc_mirror.Base.GoMap
use oc_mirror.Api.Image.{Association}
use oc_mirror.Image.Reference.{TypedImage, References, image_eq}
use oc_mirror.Image.Mapping.{TypedImageMapping}
use oc_mirror.Image.Mapping
use oc_mirror.Image.AssociationSet.{
  AssociationSet, SetError, ValidationError, set_contains_key, prune, validate,
}
use oc_mirror.Image.Convert.{ConvertError, convert_to_association_set}

pub data PreviousError : Type 0 where
  not_converted : ConvertError → PreviousError
  not_pruned : SetError → PreviousError
  no_updates_exist : PreviousError
  not_valid : List ValidationError → PreviousError

-- The past associations that are returned, the mapping as it is left, and the error.
pub record Previous : Type 0 where
  pub associations : AssociationSet
  pub images : TypedImageMapping
  pub failure : Option PreviousError

abbrev pub validation : List ValidationError → Option PreviousError
validation [] = none
validation (e ∷ es) = some (not_valid (e ∷ es))

abbrev pub pruned : TypedImageMapping → AssociationSet × Option SetError → Previous
pruned images (set, some e) = record {
  associations = set;
  images = images;
  failure = some (not_pruned e);
}
pruned [] (set, none) = record { associations = []; images = []; failure = some no_updates_exist }
pruned (entry ∷ images) (set, none) = record {
  associations = set;
  images = entry ∷ images;
  failure = validation (validate set);
}

module _ (refs : References) where
  -- The image has a digest, and the past associations have its name.
  unfoldable pub is_previous : AssociationSet → TypedImage → Bool
  is_previous past img = not (img.ref.id == "") && set_contains_key past (refs.ref_string img.ref)

  -- The loop over the mapping, the names kept so far beside it.
  unfoldable pub remove_loop :
      AssociationSet
      → TypedImageMapping
      → TypedImageMapping
      → List String
      → TypedImageMapping × List String
  remove_loop past [] images keep = (images, keep)
  remove_loop past ((src, dst) ∷ rest) images keep =
      let removed =
        remove_loop past rest (Mapping.remove images (src ∷ []))
          (keep ++ refs.ref_string src.ref ∷ []) in
      let stays = remove_loop past rest images keep in
      if is_previous past src then removed else stays

  unfoldable pub remove_known : AssociationSet → TypedImageMapping → Previous
  unfolding remove_loop
  remove_known past images =
      let r = remove_loop past images images [] in pruned r.0 (prune past r.1)

  abbrev pub after_conversion :
      Bool → TypedImageMapping → AssociationSet × Option ConvertError → Previous
  after_conversion ignore_history images (past, some e) = record {
    associations = [];
    images = images;
    failure = some (not_converted e);
  }
  after_conversion ignore_history images (past, none) =
      if ignore_history
      then record { associations = past; images = images; failure = none }
      else remove_known past images

  unfoldable pub remove_previously_mirrored : Bool → TypedImageMapping → List Association → Previous
  remove_previously_mirrored ignore_history images past_associations =
      after_conversion ignore_history images (convert_to_association_set past_associations)
