-- ===== src/Operator/Heads/Removed.antt =====
-- Which bundles the resolution of the channel heads takes out of a channel.
use mathlib.Core.Path.{subst}
use oc_mirror.Base.{
  String, ◌≢◌, AllDistinct, All-zip, List, [], ◌∷◌, Bool, true, false, Option, none, some, ok,
  >>=-eq-ok, ◌≡◌, refl, ◌∙◌, ap, ◌⊎◌, inl, inr, ◌==◌, string_eq, All, Bool-cases, Option-cases,
  arith, ltb, length,
}
use oc_mirror.Base.GoMap
use oc_mirror.Base.GoMap.{Map, has-eq-is_some}
use oc_mirror.Base.Sort.{sort, IsSorted, sort-IsSorted, sort-AllDistinct}
use oc_mirror.Api.Version.{Semver}
use oc_mirror.Operator.Catalog.{ModelBundle}
use oc_mirror.Operator.Heads.{
  or_panic, split_last, incoming_of, heads_of, parse_keys, remove_head, remove_heads,
  resolve_sorted, resolve_heads, resolve_bundles,
}
use oc_mirror.Operator.Heads.Tops.{
  IsTop, IsHead, or_panic-eq-ok, incoming_of-All, heads_of-IsHead, heads_of-Distinct,
  parse_keys-AllDistinct, to_string_inj, split_last-AllDistinct, split_last-IsSorted,
}

module _ {V : Type 0} ⦃sv : Semver V⦄ (parse_range : String → Option (V → Bool)) where
  -- Another version that is not newer.
  abbrev pub IsOlder : V → V → Type 0
  IsOlder last ver = (sv.lt last ver ≡ false) × (ver ≢ last)

  -- A head of the channel, and another one in its skip range.
  abbrev pub IsSkipped : List (ModelBundle V) → String → Type 0
  IsSkipped bs name =
      (head : ModelBundle V) × (old : ModelBundle V) × (in_range : V → Bool) × (IsTop bs head
        × (IsTop bs old
            × ((old.name ≡ name)
                × ((parse_range head.skip_range ≡ some in_range)
                    × ((in_range old.version ≡ true) × IsOlder head.version old.version)))))

  module _ (bs : List (ModelBundle V)) (heads : Map String (ModelBundle V)) (head : ModelBundle V)
      (is : All (IsHead bs) heads) (top : IsTop bs head) where
    -- The bundle of a name is there as before, or a newer head skips it.
    abbrev Stays : String → Map String (ModelBundle V) → Map String (ModelBundle V) → Type 0
    Stays name bundles out =
        (GoMap.lookup name out ≡ GoMap.lookup name bundles)
        ⊎ ((GoMap.lookup name out ≡ none) × IsSkipped bs name)

    deleted-Stays :
        (ver : V) (bundles : Map String (ModelBundle V)) (name : String) (in_range : V → Bool)
        (old : ModelBundle V)
        → IsOlder head.version ver
        → parse_range head.skip_range ≡ some in_range
        → in_range ver ≡ true
        → GoMap.lookup (sv.to_string ver) heads ≡ some old
        → Stays name bundles (GoMap.delete old.name bundles)
    deleted-Stays ver bundles name in_range old newer parsed inside found =
        let (k, member) = GoMap.lookup-All (IsHead bs) (sv.to_string ver) heads is found in
        let same : ver ≡ old.version = to_string_inj ver old.version k in
        elim (Bool-cases (old.name == name)) [
          | inl t ↦ inr (
            GoMap.lookup-delete old.name name bundles ∙ rw t refl,
            (
              head,
              old,
              in_range,
              (
                top,
                (
                  member,
                  (
                    (string_eq.beq_iff old.name name).0 t,
                    (
                      parsed,
                      (
                        subst (λ v. in_range v ≡ true) same inside,
                        subst (IsOlder head.version) same newer,
                      ),
                    ),
                  ),
                ),
              ),
            ),
          )
          | inr f ↦ inl (GoMap.lookup-delete old.name name bundles ∙ rw f refl)
        ]

    remove_head-Stays :
        (ver : V) (bundles out : Map String (ModelBundle V)) (name : String)
        → IsOlder head.version ver
        → remove_head parse_range head heads ver bundles ≡ ok out
        → Stays name bundles out
    unfolding remove_head
    remove_head-Stays ver bundles out name newer e =
        elim (Bool-cases (head.replaces == sv.to_string ver)) [
          | inl t ↦ inl (ap (GoMap.lookup name) (ground arith))
          | inr f ↦ elim (Option-cases (parse_range head.skip_range)) [
            | inl n ↦ absurd (ground arith)
            | inr (in_range, p) ↦ elim (Bool-cases (in_range ver)) [
              | inr g ↦ inl (ap (GoMap.lookup name) (ground arith))
              | inl g ↦ elim (Option-cases (GoMap.lookup (sv.to_string ver) heads)) [
                | inl n ↦ absurd (ground arith)
                | inr (old, o) ↦
                    subst (Stays name bundles) (ground arith)
                      (deleted-Stays ver bundles name in_range old newer p g o)
              ]
            ]
          ]
        ]

    Stays-trans :
        (name : String) (first second third : Map String (ModelBundle V))
        → Stays name first second
        → Stays name second third
        → Stays name first third
    Stays-trans name first second third (inl p) (inl q) = inl (q ∙ p)
    Stays-trans name first second third (inr p) (inl q) = inr (q ∙ p.0, p.1)
    Stays-trans name first second third p (inr q) = inr q

    remove_heads-Stays :
        (vers : List V) (bundles out : Map String (ModelBundle V)) (name : String)
        → All (IsOlder head.version) vers
        → remove_heads parse_range head heads vers bundles ≡ ok out
        → Stays name bundles out
    unfolding remove_heads
    remove_heads-Stays [] bundles out name newer e = inl (ap (GoMap.lookup name) (ground arith))
    remove_heads-Stays (v ∷ vs) bundles out name newer e =
        let (mid, now, later) = >>=-eq-ok (remove_head parse_range head heads v bundles) _ e in
        Stays-trans name bundles mid out (remove_head-Stays v bundles mid name newer.0 now)
          (remove_heads-Stays vs mid out name newer.1 later)

  resolve_sorted-IsSkipped :
      (bundles out : Map String (ModelBundle V)) (name : String) (vs : List V)
      → let bs = GoMap.values bundles in
        IsSorted sv.lt vs
        → AllDistinct vs
        → resolve_sorted parse_range (heads_of (incoming_of bs []) bs []) vs bundles ≡ ok out
        → (GoMap.lookup name out ≡ GoMap.lookup name bundles)
          ⊎ ((GoMap.lookup name out ≡ none) × IsSkipped bs name)
  unfolding resolve_sorted
  resolve_sorted-IsSkipped bundles out name [] s d e = absurd (ground arith)
  resolve_sorted-IsSkipped bundles out name (v ∷ vs) s d e =
      let bs = GoMap.values bundles in
      let incoming = incoming_of bs [] in
      let heads = heads_of incoming bs [] in
      let is =
        heads_of-IsHead bs incoming (λ n h. (incoming_of-All n bs [] h).0) bs [] (λ b i. i) tt in
      let last = (split_last v vs).1 in
      let (head, found, more) = >>=-eq-ok (or_panic (GoMap.lookup (sv.to_string last) heads)) _ e in
      let (k, top) =
        GoMap.lookup-All (IsHead bs) (sv.to_string last) heads is (or_panic-eq-ok _ found) in
      remove_heads-Stays bs heads head is top (split_last v vs).0 bundles out name
        (subst (λ u. All (IsOlder u) (split_last v vs).0) (to_string_inj last head.version k)
          (All-zip _ _ (split_last v vs).0 (split_last-IsSorted v vs s)
            (split_last-AllDistinct v vs d)))
        more

  -- Where the resolution of a channel's heads succeeds, each name has the bundle that it had, or it
  -- has none and was that of a head in the skip range of another head, whose version differs and is not
  -- older. The heads are the bundles whose name no bundle of the channel replaces or skips.
  pub resolve_bundles-IsSkipped :
      (bundles out : Map String (ModelBundle V)) (name : String)
      → resolve_bundles parse_range bundles ≡ ok out
      → (GoMap.lookup name out ≡ GoMap.lookup name bundles)
        ⊎ ((GoMap.lookup name out ≡ none) × IsSkipped (GoMap.values bundles) name)
  unfolding resolve_bundles resolve_sorted
  resolve_bundles-IsSkipped bundles out name e =
      let bs = GoMap.values bundles in
      let heads = heads_of (incoming_of bs []) bs [] in
      elim (Bool-cases (ltb 1 (length heads))) [
        | inr f ↦ inl (ap (GoMap.lookup name) (ground arith))
        | inl t ↦
            let resolved : resolve_heads parse_range heads bundles ≡ ok out = ground arith in
            let (vs, parsed, more) =
              >>=-eq-ok (or_panic (parse_keys (GoMap.keys heads))) _ resolved in
            resolve_sorted-IsSkipped bundles out name (sort sv.lt vs)
              (sort-IsSorted sv.lt sv.lt_asym sv.le_trans vs)
              (sort-AllDistinct sv.lt vs
                (parse_keys-AllDistinct bs heads vs
                  (heads_of-IsHead bs (incoming_of bs []) (λ n h. (incoming_of-All n bs [] h).0) bs
                    [] (λ b i. i) tt)
                  (heads_of-Distinct (incoming_of bs []) bs [] tt) (or_panic-eq-ok _ parsed)).0)
              more
      ]
