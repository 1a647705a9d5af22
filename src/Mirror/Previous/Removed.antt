-- ===== src/Mirror/Previous/Removed.antt =====
-- What is left of a mapping once the images that were mirrored before are taken out.
use mathlib.Core.List.{append-nil, append_assoc}
use oc_mirror.Base.{
  String, List, [], ◌∷◌, ◌++◌, Bool, true, false, not, Option, none, some, if◌then◌else◌, ◌==◌,
  string_eq, ◌&&◌, ◌≡◌, ◌≢◌, ◌↔◌, arith, inl, inr, refl, ap, ◌∙◌, sym, All, mem, All-append,
  is_some, Bool-cases,
}
use oc_mirror.Base.GoMap
use oc_mirror.Api.Image.{Association}
use oc_mirror.Image.Reference.{TypedImage, References, image_eq, image_beq_iff}
use oc_mirror.Image.Mapping.{TypedImageMapping}
use oc_mirror.Image.Mapping
use oc_mirror.Image.AssociationSet.{AssociationSet, SetError, ValidationError, prune, validate}
use oc_mirror.Image.AssociationSet.Contents.{lookup-prune}
use oc_mirror.Image.Convert.{convert_to_association_set}
use oc_mirror.Mirror.Previous.{
  pruned, validation, is_previous, remove_loop, remove_known, remove_previously_mirrored,
  no_updates_exist, not_pruned,
}

-- The two cases of a step of the loop, on what a lookup finds.
removed_step :
    {A : Type 0} (p h e : Bool) (x d v : Option A)
    → (e ≡ true → p ≡ true)
    → x ≡ (if p && h then none else d)
    → d ≡ (if e then none else v)
    → x ≡ (if p && (if e then true else h) then none else v)
removed_step p h e x d v same later deleted = ground arith

kept_step :
    {A : Type 0} (p h e : Bool) (x v : Option A)
    → (e ≡ true → p ≡ false)
    → x ≡ (if p && h then none else v)
    → x ≡ (if p && (if e then true else h) then none else v)
kept_step p h e x v same later = ground arith

whole_step :
    {A : Type 0} (p h : Bool) (x v : Option A)
    → h ≡ is_some v
    → x ≡ (if p && h then none else v)
    → x ≡ (if p then none else v)
whole_step p h x v found later = ground arith

known_name :
    (refs : References) (past : AssociationSet) (src : TypedImage)
    → is_previous refs past src ≡ true
    → GoMap.lookup (refs.ref_string src.ref) past ≢ none
unfolding is_previous
known_name refs past src t =
    let name = refs.ref_string src.ref in ground (arith, GoMap.has-eq-is_some name past)

validation_lem :
    (es : List ValidationError)
    → (validation es ≢ some no_updates_exist)
      × ((e : SetError) → validation es ≢ some (not_pruned e))
validation_lem [] = (λ h. cc, λ e h. cc)
validation_lem (e ∷ es) = (λ h. cc, λ e' h. cc)

-- What is returned where pruning succeeds.
pruned_lem :
    (images : TypedImageMapping) (r : AssociationSet × Option SetError)
    → r.1 ≡ none
    → let p = pruned images r in
      (p.images ≡ images)
      × (((p.failure ≡ some no_updates_exist) ↔ (images ≡ []))
          × (((e : SetError) → p.failure ≢ some (not_pruned e))
              × ((images ≢ []) → p.associations ≡ r.0)))
pruned_lem images (set, some e) h = absurd (cc)
pruned_lem [] (set, none) h = (refl, (ground arith, (λ e. ground arith, λ n. absurd (n refl))))
pruned_lem (entry ∷ images) (set, none) h =
    let (some_updates, no_prune) = validation_lem (validate set) in
    (refl, ((λ e. absurd (some_updates e), λ e. absurd (cc)), (no_prune, λ n. refl)))

pruned_names :
    (past : AssociationSet) (keep : List String) (name : String)
    → (prune past keep).1 ≡ none
    → GoMap.lookup name (prune past keep).0
      ≡ (if mem name keep then GoMap.lookup name past else none)
pruned_names past keep name fine = elim (lookup-prune past keep name).1 [
  | inl n ↦ absurd (n fine)
  | inr e ↦ e
]

module _ (refs : References) (past : AssociationSet) where
  lookup-remove_loop :
      (img : TypedImage) (rest images : TypedImageMapping) (keep : List String)
      → GoMap.lookup img (remove_loop refs past rest images keep).0 ≡ (
          if is_previous refs past img && GoMap.has img rest then none else GoMap.lookup img images)
  unfolding remove_loop Mapping.remove GoMap.has
  lookup-remove_loop img [] images keep = ground arith
  lookup-remove_loop img ((src, dst) ∷ rest) images keep =
      elim (Bool-cases (is_previous refs past src)) [
        | inl t ↦ rw t (
            removed_step (is_previous refs past img) (GoMap.has img rest) (src == img) _ _ _
              (λ e. let same = (image_beq_iff src img).0 e in cc)
              (lookup-remove_loop img rest (GoMap.delete src images)
                (keep ++ refs.ref_string src.ref ∷ []))
              (GoMap.lookup-delete src img images))
        | inr f ↦ rw f (
            kept_step (is_previous refs past img) (GoMap.has img rest) (src == img) _ _
              (λ e. let same = (image_beq_iff src img).0 e in cc)
              (lookup-remove_loop img rest images keep))
      ]

  remove_loop-keep :
      (rest images : TypedImageMapping) (keep : List String)
      → All (λ key. GoMap.lookup key past ≢ none) keep
      → All (λ key. GoMap.lookup key past ≢ none) (remove_loop refs past rest images keep).1
  unfolding remove_loop Mapping.remove
  remove_loop-keep [] images keep h = h
  remove_loop-keep ((src, dst) ∷ rest) images keep h =
      elim (Bool-cases (is_previous refs past src)) [
        | inl t ↦ rw t (
            remove_loop-keep rest (GoMap.delete src images) _ (
              All-append (λ key. GoMap.lookup key past ≢ none) keep (refs.ref_string src.ref ∷ []) h
                (known_name refs past src t, tt)))
        | inr f ↦ rw f (remove_loop-keep rest images keep h)
      ]

  -- The image is given by its digest, and an earlier run has its name.
  unfoldable pub mirrored_before : TypedImage → Bool
  mirrored_before img =
      not (img.ref.id == "") && is_some (GoMap.lookup (refs.ref_string img.ref) past)

  is_previous-eq : (img : TypedImage) → is_previous refs past img ≡ mirrored_before img
  unfolding is_previous mirrored_before
  is_previous-eq img =
      ap (λ b. not (img.ref.id == "") && b) (GoMap.has-eq-is_some (refs.ref_string img.ref) past)

  -- Exactly the images that were mirrored before leave the mapping.
  abbrev pub LeavesOthers : TypedImageMapping → TypedImageMapping → Type 0
  LeavesOthers images left =
      (img : TypedImage)
      → GoMap.lookup img left ≡ (if mirrored_before img then none else GoMap.lookup img images)

  remove_loop-LeavesOthers :
      (images : TypedImageMapping) → LeavesOthers images (remove_loop refs past images images []).0
  remove_loop-LeavesOthers images img =
      whole_step (is_previous refs past img) _ _ _ (GoMap.has-eq-is_some img images)
        (lookup-remove_loop img images images [])
      ∙ ap (λ b. if b then none else GoMap.lookup img images) (is_previous-eq img)

  -- The names of the images that were mirrored before.
  unfoldable pub previous_names : TypedImageMapping → List String
  previous_names [] = []
  previous_names ((src, dst) ∷ rest) =
      let later = previous_names rest in
      if mirrored_before src then refs.ref_string src.ref ∷ later else later

  remove_loop-previous_names :
      (rest images : TypedImageMapping) (keep : List String)
      → (remove_loop refs past rest images keep).1 ≡ keep ++ previous_names rest
  unfolding remove_loop previous_names
  remove_loop-previous_names [] images keep = sym (append-nil keep)
  remove_loop-previous_names ((src, dst) ∷ rest) images keep =
      elim (Bool-cases (is_previous refs past src)) [
        | inl t ↦
            rw (t, sym (is_previous-eq src) ∙ t)
              (remove_loop-previous_names rest (Mapping.remove images (src ∷ []))
                  (keep ++ refs.ref_string src.ref ∷ [])
                ∙ append_assoc keep (refs.ref_string src.ref ∷ []) (previous_names rest))
        | inr f ↦ rw (f, sym (is_previous-eq src) ∙ f) (remove_loop-previous_names rest images keep)
      ]

-- Where the past associations convert and the history counts, exactly the images with a digest and a
-- known name leave the mapping; there are no updates exactly if none is left; pruning never fails, and
-- where images are left, the associations that remain are those of the images that left.
pub remove_previously_mirrored-LeavesOthers :
    (refs : References) (images : TypedImageMapping) (assocs : List Association)
    (past : AssociationSet)
    → convert_to_association_set assocs ≡ (past, none)
    → let r = remove_previously_mirrored refs false images assocs in
      LeavesOthers refs past images r.images
      × (((r.failure ≡ some no_updates_exist) ↔ (r.images ≡ []))
          × (((e : SetError) → r.failure ≢ some (not_pruned e))
              × ((r.images ≢ [])
                  → (name : String)
                  → GoMap.lookup name r.associations ≡ (
                      if mem name (previous_names refs past images)
                      then GoMap.lookup name past
                      else none))))
unfolding remove_previously_mirrored remove_known prune
remove_previously_mirrored-LeavesOthers refs images assocs past converted =
    let r = remove_loop refs past images images [] in
    let keep : r.1 ≡ previous_names refs past images =
      remove_loop-previous_names refs past images images [] in
    let kept = remove_loop-keep refs past images images [] tt in
    let fine : (prune past r.1).1 ≡ none = (lookup-prune past r.1 "").0.1 kept in
    let (same, (updates, (no_prune, associations))) = pruned_lem r.0 (prune past r.1) fine in
    rw converted (
      λ img. ap (GoMap.lookup img) same ∙ remove_loop-LeavesOthers refs past images img,
      (
        (λ h. same ∙ updates.0 h, λ h. updates.1 (sym same ∙ h)),
        (
          no_prune,
          λ some_left name.
              ap (GoMap.lookup name) (associations (λ e. some_left (same ∙ e)))
              ∙ (pruned_names past r.1 name fine
                  ∙ ap (λ names. if mem name names then GoMap.lookup name past else none) keep),
        ),
      ),
    )
