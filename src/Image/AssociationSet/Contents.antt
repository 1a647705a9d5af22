-- ===== src/Image/AssociationSet/Contents.antt =====
-- What `Validate`, `GetDigests`, `GetImageFromBlob` and `Prune` say of the contents of a set.
use text.Mathlib.TextEquality.{eq_iff}
use oc_mirror.Base.{
  String, ◌≡◌, ◌≢◌, ◌↔◌, ◌⊎◌, List, [], ◌∷◌, ◌++◌, none, arith, ◌==◌, string_eq, true, false, refl,
  if◌then◌else◌, Option-cases, Bool-cases, inl, inr, All, In, mem,
}
use oc_mirror.Base.GoMap
use oc_mirror.Api.Image
use oc_mirror.Api.Image.{Association}
use oc_mirror.Image.AssociationSet.{
  Associations, AssociationSet, prune, prune_loop, validate, check_digests, check_associations,
  association_errors, get_image_from_blob, holds_layer,
}

-- Every manifest of the association has an association of its own, and the association is accepted.
abbrev pub IsComplete : Associations → Association → Type 0
IsComplete m a =
    All (λ digest. GoMap.has digest m ≡ true) a.manifest_digests × (Image.validate a ≡ none)

abbrev pub AllComplete : AssociationSet → Type 0
AllComplete [] = Unit
AllComplete ((k, m) ∷ set) = All (IsComplete m) (GoMap.values m) × AllComplete set

digests_iff :
    (k : String) (m : Associations) (ds : List String)
    → (check_digests k m ds ≡ []) ↔ All (λ digest. GoMap.has digest m ≡ true) ds
unfolding check_digests
digests_iff k m [] = ground arith
digests_iff k m (d ∷ ds) = ground (arith, digests_iff k m ds)

append-eq-nil {ℓ} : {A : Type ℓ} (xs ys : List A) → ((xs ++ ys) ≡ []) ↔ ((xs ≡ []) × (ys ≡ []))
append-eq-nil [] ys = ground arith
append-eq-nil (x ∷ xs) ys = ground arith

associations_iff :
    (k : String) (m : Associations) (vs : List Association)
    → (check_associations k m vs ≡ []) ↔ All (IsComplete m) vs
unfolding check_associations
associations_iff k m [] = ground arith
associations_iff k m (a ∷ vs) = ground (
  arith,
  append-eq-nil (check_digests k m a.manifest_digests)
      (association_errors (Image.validate a) ++ check_associations k m vs),
  append-eq-nil (association_errors (Image.validate a)) (check_associations k m vs),
  digests_iff k m a.manifest_digests,
  associations_iff k m vs,
)

-- `Validate` reports nothing exactly when each association is accepted and the manifests that it
-- names stand beside it.
pub validate-AllComplete : (set : AssociationSet) → (validate set ≡ []) ↔ AllComplete set
unfolding validate
validate-AllComplete [] = ground arith
validate-AllComplete ((k, m) ∷ set) = ground (
  arith,
  append-eq-nil (check_associations k m (GoMap.values m)) (validate set),
  associations_iff k m (GoMap.values m),
  validate-AllComplete set,
)

holds_layer-mem :
    (digest : String) (vs : List Association)
    → (holds_layer digest vs ≡ true)
      ↔ ((a : Association) × In a vs × (mem digest a.layer_digests ≡ true))
holds_layer-mem digest [] = (λ h. cc, λ (a, i, m). absurd i)
holds_layer-mem digest (a ∷ vs) = elim (Bool-cases (mem digest a.layer_digests)) [
  | inl t ↦ (λ h. (a, inl refl, t), λ h. rw t refl)
  | inr f ↦ (
    λ h. let (b, i, m) = (holds_layer-mem digest vs).0 (rw f at h) in (b, inr i, m),
    λ (b, i, m). rw f ((holds_layer-mem digest vs).1 (b, later b i m f, m)),
  )
]
  where
    later :
        (b : Association)
        → In b (a ∷ vs)
        → mem digest b.layer_digests ≡ true
        → mem digest a.layer_digests ≡ false
        → In b vs
    later b (inl e) m f = absurd (cc)
    later b (inr i) m f = i

-- Some image holds the layer.
abbrev pub HoldsLayer : AssociationSet → String → String → Type 0
HoldsLayer [] digest image = ⊥
HoldsLayer ((k, m) ∷ set) digest image =
    (k ≡ image) × ((a : Association) × In a (GoMap.values m) × (mem digest a.layer_digests ≡ true))
    ⊎ HoldsLayer set digest image

sound :
    (set : AssociationSet) (digest : String)
    → get_image_from_blob set digest ≢ ""
    → HoldsLayer set digest (get_image_from_blob set digest)
unfolding get_image_from_blob
sound [] digest h = absurd (h refl)
sound ((k, m) ∷ set) digest h = elim (Bool-cases (holds_layer digest (GoMap.values m))) [
  | inl t ↦ rw t (inl (refl, (holds_layer-mem digest (GoMap.values m)).0 t))
  | inr f ↦ rw f (inr (sound set digest (rw f at h)))
]

complete :
    (set : AssociationSet) (digest image : String)
    → GoMap.lookup "" set ≡ none
    → HoldsLayer set digest image
    → get_image_from_blob set digest ≢ ""
unfolding get_image_from_blob GoMap.lookup
complete [] digest image n h = absurd h
complete ((k, m) ∷ set) digest image n (inl (e, held)) =
    ground (arith, (holds_layer-mem digest (GoMap.values m)).1 held, eq_iff k "")
complete ((k, m) ∷ set) digest image n (inr h) =
    ground (arith, complete set digest image, h, eq_iff k "")

-- Where no image has the empty name, the search for a blob finds an image exactly when some image
-- holds the blob as a layer, and the image found is one of those.
pub get_image_from_blob-HoldsLayer :
    (set : AssociationSet) (digest : String)
    → GoMap.lookup "" set ≡ none
    → ((get_image_from_blob set digest ≢ "") ↔ ((image : String) × HoldsLayer set digest image))
      × ((get_image_from_blob set digest ≡ "")
          ⊎ HoldsLayer set digest (get_image_from_blob set digest))
get_image_from_blob-HoldsLayer set digest n = (
  (
    λ h. (get_image_from_blob set digest, sound set digest h),
    λ (image, h). complete set digest image n h,
  ),
  elim (Bool-cases (get_image_from_blob set digest == "")) [
    | inl t ↦ inl ((eq_iff _ "").0 t)
    | inr f ↦ inr (sound set digest (λ e. cc (f, (eq_iff _ "").1 e)))
  ],
)

prune_loop-lookup :
    (set : AssociationSet) (keep : List String) (pruned result : AssociationSet) (j : String)
    → prune_loop set keep pruned ≡ (result, none)
    → GoMap.lookup j result ≡ (if mem j keep then GoMap.lookup j set else GoMap.lookup j pruned)
unfolding prune_loop
prune_loop-lookup set [] pruned result j h = ground arith
prune_loop-lookup set (key ∷ rest) pruned result j h = elim (Option-cases (GoMap.lookup key set)) [
  | inl e ↦ ground arith
  | inr (m, e) ↦ ground (
    arith,
    prune_loop-lookup set rest (GoMap.insert key m pruned) result j,
    GoMap.lookup-insert key j m pruned,
    eq_iff key j,
  )
]

pub prune_loop-error :
    (set : AssociationSet) (keep : List String) (pruned : AssociationSet)
    → ((prune_loop set keep pruned).1 ≡ none) ↔ All (λ key. GoMap.lookup key set ≢ none) keep
unfolding prune_loop
prune_loop-error set [] pruned = ground arith
prune_loop-error set (key ∷ rest) pruned = elim (Option-cases (GoMap.lookup key set)) [
  | inl e ↦ rw (e, prune_loop) (ground arith)
  | inr (m, e) ↦
      rw (e, prune_loop) (ground (arith, prune_loop-error set rest (GoMap.insert key m pruned)))
]

-- Pruning succeeds exactly when all kept keys are in the set, and then the result holds what the set
-- holds under the kept keys and nothing else.
pub lookup-prune :
    (set : AssociationSet) (keep : List String) (j : String)
    → (((prune set keep).1 ≡ none) ↔ All (λ key. GoMap.lookup key set ≢ none) keep)
      × (((prune set keep).1 ≢ none)
          ⊎ (GoMap.lookup j (prune set keep).0 ≡ (if mem j keep then GoMap.lookup j set else none)))
unfolding prune GoMap.lookup
lookup-prune set keep j = (
  prune_loop-error set keep [],
  elim (Option-cases (prune_loop set keep []).1) [
    | inl e ↦ inr (prune_loop-lookup set keep [] (prune_loop set keep []).0 j (ground arith))
    | inr (x, e) ↦ inl (λ q. cc)
  ],
)
