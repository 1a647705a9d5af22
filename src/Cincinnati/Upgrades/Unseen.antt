-- ===== src/Cincinnati/Upgrades/Unseen.antt =====
-- The upgrades that `CalculateUpgrades` returns: each image once, and none left out.
use text.Mathlib.TextEquality.{eq_iff}
use oc_mirror.Base.{
  String, ◌≡◌, ◌≢◌, List, [], ◌∷◌, true, false, ◌==◌, string_eq, any, arith, Bool-cases, inl, inr,
  ◌⊎◌, All, All-map,
}
use oc_mirror.Api.Version.{Semver}
use oc_mirror.Cincinnati.Client.{Node}
use oc_mirror.Cincinnati.Upgrades.{unseen}

module _ {V : Type 0} ⦃sv : Semver V⦄ where
  abbrev pub HasImage : String → List (Node V) → Type 0
  HasImage image [] = ⊥
  HasImage image (u ∷ us) = (u.image ≡ image) ⊎ HasImage image us

  -- No image occurs twice.
  abbrev pub DistinctImages : List (Node V) → Type 0
  DistinctImages [] = Unit
  DistinctImages (u ∷ us) = All (λ w. w.image ≢ u.image) us × DistinctImages us

  abbrev Fresh : List String → Node V → Type 0
  Fresh seen u = any (λ i. i == u.image) seen ≡ false

  unseen-Fresh : (seen : List String) (us : List (Node V)) → All (Fresh seen) (unseen seen us)
  unfolding unseen
  unseen-Fresh seen [] = tt
  unseen-Fresh seen (u ∷ us) = elim (Bool-cases (any (λ i. i == u.image) seen)) [
    | inl t ↦ rw t (unseen-Fresh seen us)
    | inr f ↦ rw f (
      f,
      All-map (Fresh (u.image ∷ seen)) (Fresh seen) _ (λ w h. ground arith)
          (unseen-Fresh (u.image ∷ seen) us),
    )
  ]

  unseen-DistinctImages :
      (seen : List String) (us : List (Node V)) → DistinctImages (unseen seen us)
  unfolding unseen
  unseen-DistinctImages seen [] = tt
  unseen-DistinctImages seen (u ∷ us) = elim (Bool-cases (any (λ i. i == u.image) seen)) [
    | inl t ↦ rw t (unseen-DistinctImages seen us)
    | inr f ↦ rw f (
      All-map (Fresh (u.image ∷ seen)) (λ w. w.image ≢ u.image) _
          (λ w h. ground (arith, eq_iff u.image w.image)) (unseen-Fresh (u.image ∷ seen) us),
      unseen-DistinctImages (u.image ∷ seen) us,
    )
  ]

  unseen-HasImage :
      (image : String) (seen : List String) (us : List (Node V))
      → HasImage image us
      → (any (λ i. i == image) seen ≡ true) ⊎ HasImage image (unseen seen us)
  unfolding unseen
  unseen-HasImage image seen [] h = absurd h
  unseen-HasImage image seen (u ∷ us) h = ground (
    arith,
    eq_iff u.image image,
    unseen-HasImage image seen us,
    unseen-HasImage image (u.image ∷ seen) us,
  )

  -- Of upgrades that have an image, exactly one with this image is kept: the image is there, and no
  -- image occurs twice.
  pub unseen-keeps :
      (us : List (Node V)) (image : String)
      → HasImage image us
      → HasImage image (unseen [] us) × DistinctImages (unseen [] us)
  unseen-keeps us image h = (
    elim (unseen-HasImage image [] us h) [ inl e ↦ absurd (cc) | inr k ↦ k ],
    unseen-DistinctImages [] us,
  )
