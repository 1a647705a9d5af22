-- ===== src/Image/Builder/Ranked.antt =====
-- Following the manifest lists of a registry ends where the lists are not circular.
use oc_mirror.Base.{
  String, ℕ, zero, suc, ◌<◌, List, [], ◌∷◌, Bool, Option, some, Result, err, Result-cases,
  Option-cases, Bool-cases, ◌≡◌, ◌≢◌, ◌∙◌, refl, inl, inr, All, All-map, arith, ap,
}
use oc_mirror.Api.Image.{Association, ImageType}
use oc_mirror.Image.Builder.{
  BuildError, out_of_fuel, Manifest, no_type, bad, index, layers, Found, gather, associate,
  associate_found, remote_manifest,
}

gather-fuel :
    (f : String → Result BuildError (List Association)) (ds : List String)
    → All (λ d. f d ≢ err out_of_fuel) ds
    → gather f ds ≢ err out_of_fuel
unfolding gather
gather-fuel f [] h = λ e. cc
gather-fuel f (d ∷ ds) h = elim (Result-cases (f d)) [
  | inr (x, e) ↦ rw e (λ q. h.0 (e ∙ q))
  | inl (xs, e) ↦ elim (Result-cases (gather f ds)) [
    | inr (x, g) ↦ rw (e, g) (λ q. gather-fuel f ds h.1 (g ∙ q))
    | inl (ys, g) ↦ rw (e, g) (λ q. cc)
  ]
]

module _ (get : String → Option Manifest) (path : String) (typ : ImageType)
    (skip_parse : String → Bool) (rank : String → ℕ) where
  -- A list has a greater rank than the manifests in it.
  abbrev pub IsRanked : Type 0
  IsRanked =
      (id : String) (digests : List String)
      → get id ≡ some (index digests)
      → All (λ d. rank d < rank id) digests

  found-fuel :
      (child : String → Result BuildError (List Association)) (image : String) (found : Found)
      (content : Manifest)
      → ((digests : List String)
          → content ≡ index digests
          → All (λ d. child d ≢ err out_of_fuel) digests)
      → associate_found (remote_manifest get) path typ skip_parse child image found content
        ≢ err out_of_fuel
  found-fuel child image found no_type h = λ e. cc
  found-fuel child image found bad h = λ e. cc
  found-fuel child image found (layers ds c) h = λ e. cc
  found-fuel child image found (index ds) h =
      let fine = gather-fuel child ds (h ds refl) in
      elim (Result-cases (gather child ds)) [
        | inl (xs, e) ↦ rw e (λ q. cc)
        | inr (x, e) ↦ rw e (λ q. fine (e ∙ q))
      ]

  -- Where a list has a greater rank than its manifests, fuel beyond the rank of the image's manifest is
  -- enough: the function does not run out of it.
  pub associate-has_fuel :
      IsRanked
      → (fuel : ℕ) (image id tag : String) → rank id < fuel
      → associate (remote_manifest get) path typ skip_parse fuel image id tag ≢ err out_of_fuel
  unfolding associate remote_manifest
  associate-has_fuel ranked zero image id tag h = absurd (omega arith)
  associate-has_fuel ranked (suc fuel) image id tag h = elim (Bool-cases (skip_parse image)) [
    | inl t ↦ rw (t, associate) (λ e. cc)
    | inr f ↦ elim (Option-cases (get id)) [
      | inl n ↦ rw (f, associate, remote_manifest, n) (λ e. cc)
      | inr (content, g) ↦
          rw (f, associate, remote_manifest, g)
            (found-fuel _ image (record { id = id; tag = tag; content = content }) content
              (λ digests is.
                All-map _ _ digests (λ d lower. associate-has_fuel ranked fuel d d "" (omega arith))
                  (ranked id digests (g ∙ ap some is))))
    ]
  ]
