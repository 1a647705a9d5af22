-- ===== src/Tests/Builders.antt =====
-- The theorems on the association builder at a manifest list with two images.
use mathlib.Core.Path.{subst}
use oc_mirror.Base.{
  String, ℕ, ◌<◌, ◌≡◌, ◌≢◌, List, [], ◌∷◌, Bool, false, Option, some, ok, err, refl, inl, inr,
  Bool-cases, All, if◌then◌else◌, ◌==◌, string_eq, arith,
}
use oc_mirror.Api.Image.{Association, generic}
use oc_mirror.Image.Builder.{
  Manifest, index, layers, out_of_fuel, remote_manifest, associate, gather, association_of,
}
use oc_mirror.Image.Builder.Closed.{IsClosed, associate-IsClosed}
use oc_mirror.Image.Builder.Ranked.{IsRanked, associate-has_fuel}

abbrev get_two : String → Option Manifest
get_two id =
    if id == "list" then some (index ("m" ∷ ("n" ∷ []))) else some (layers ("l" ∷ []) "config")

abbrev never : String → Bool
never name = false

abbrev made : List Association
made =
    association_of "m" "a" generic
      (record { id = "m"; tag = ""; content = layers ("l" ∷ []) "config" }) []
      ("l" ∷ ("config" ∷ []))
    ∷ (association_of "n" "a" generic
          (record { id = "n"; tag = ""; content = layers ("l" ∷ []) "config" }) []
          ("l" ∷ ("config" ∷ []))
        ∷ (association_of "image" "a" generic
              (record { id = "list"; tag = "v1"; content = index ("m" ∷ ("n" ∷ [])) })
              ("m" ∷ ("n" ∷ [])) []
            ∷ []))

two_made : associate (remote_manifest get_two) "a" generic never 5 "image" "list" "v1" ≡ ok made
unfolding associate remote_manifest gather
two_made = refl

associate-IsClosed_example : IsClosed "image" made
associate-IsClosed_example =
    associate-IsClosed (remote_manifest get_two) "a" generic never (λ name. refl) 5 "image" "list"
      "v1" made two_made

abbrev rank_of : String → ℕ
rank_of id = if id == "list" then 1 else 0

two-IsRanked : IsRanked get_two "a" generic never rank_of
two-IsRanked id digests e = elim (Bool-cases (id == "list")) [
  | inl t ↦
      let same : "m" ∷ ("n" ∷ []) ≡ digests = ground arith in
      let lower : 0 < rank_of id = ground arith in
      subst (All (λ d. rank_of d < rank_of id)) same (lower, (lower, tt))
  | inr f ↦ absurd (ground arith)
]

associate-has_fuel_example :
    associate (remote_manifest get_two) "a" generic never 2 "image" "list" "v1" ≢ err out_of_fuel
associate-has_fuel_example =
    associate-has_fuel get_two "a" generic never rank_of two-IsRanked 2 "image" "list" "v1"
      (omega arith)
