-- ===== src/Config/Accepts.antt =====
-- Exactly which configurations pass validation.
use text.Mathlib.TextEquality.{eq_iff}
use oc_mirror.Base.{
  String, ◌≡◌, ◌≢◌, ◌⊎◌, ◌↔◌, List, [], ◌∷◌, Bool, true, false, none, arith, All, string_eq, refl,
}
use oc_mirror.Base.GoMap
use oc_mirror.Base.GoMap.{Map}
use oc_mirror.Api.Config.{ImageSetConfiguration, Operator, ReleaseChannel, operator_heads_only}
use oc_mirror.Config.{
  validate, validate_operator_options, validate_release_channels, check_channels, flag,
}

-- A catalog that names packages has its `full` key set.
abbrev pub ValidOperator : {V : Type 0} → Operator V → Type 0
ValidOperator o = (o.include_config.packages ≡ []) ⊎ (o.full ≡ true)

-- The names of the channels differ.
abbrev pub DistinctNames : List ReleaseChannel → Type 0
DistinctNames [] = Unit
DistinctNames (c ∷ cs) = All (λ d. c.name ≢ d.name) cs × DistinctNames cs

operators_iff :
    {V : Type 0} (os : List (Operator V))
    → (validate_operator_options os ≡ none) ↔ All ValidOperator os
unfolding validate_operator_options operator_heads_only
operators_iff [] = ground arith
operators_iff (o ∷ os) = ground (arith, operators_iff os)

abbrev Unseen : Map String Bool → ReleaseChannel → Type 0
Unseen seen c = flag (GoMap.lookup c.name seen) ≡ false

Unseen-insert :
    (n : String) (seen : Map String Bool) (cs : List ReleaseChannel)
    → All (Unseen (GoMap.insert n true seen)) cs ↔ (All (Unseen seen) cs × All (λ d. n ≢ d.name) cs)
Unseen-insert n seen [] = ground arith
Unseen-insert n seen (c ∷ cs) =
    ground (arith, GoMap.lookup-insert n c.name true seen, eq_iff n c.name, Unseen-insert n seen cs)

channels_iff :
    (seen : Map String Bool) (cs : List ReleaseChannel)
    → (check_channels seen cs ≡ none) ↔ (All (Unseen seen) cs × DistinctNames cs)
unfolding check_channels
channels_iff seen [] = ground arith
channels_iff seen (c ∷ cs) =
    ground (arith, channels_iff (GoMap.insert c.name true seen) cs, Unseen-insert c.name seen cs)

Unseen-nil : (cs : List ReleaseChannel) → All (Unseen []) cs
unfolding GoMap.lookup
Unseen-nil [] = tt
Unseen-nil (c ∷ cs) = (refl, Unseen-nil cs)

-- A configuration passes validation exactly when every catalog that names packages is full and no
-- two release channels have one name.
pub validate-eq-nil :
    {V : Type 0} (cfg : ImageSetConfiguration V)
    → (validate cfg ≡ [])
      ↔ (All ValidOperator cfg.mirror.operators × DistinctNames cfg.mirror.platform.channels)
unfolding validate validate_release_channels
validate-eq-nil cfg = ground (
  arith,
  operators_iff cfg.mirror.operators,
  channels_iff [] cfg.mirror.platform.channels,
  Unseen-nil cfg.mirror.platform.channels,
)
