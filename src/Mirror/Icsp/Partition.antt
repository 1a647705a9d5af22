-- ===== src/Mirror/Icsp/Partition.antt =====
-- The objects that are generated share out the mapping, fit the limit, and the loop ends.
use mathlib.Core.Path.{subst}
use mathlib.Core.List.{append-nil, append_assoc, map-append}
use oc_mirror.Base.{
  String, ℕ, zero, suc, ◌≤◌, ◌≡◌, ◌≢◌, List, [], ◌∷◌, ◌++◌, map, Option, ok, err, >>=-eq-ok, arith,
  refl, sym, ap, ◌∙◌, length, length-append, All, List-cases, inl, inr, if◌then◌else◌, ◌==◌, nat_eq,
  Result-cases,
}
use oc_mirror.Base.GoMap.{Map}
use oc_mirror.Mirror.Icsp.{
  DigestMirrors, Icsp, IcspBuilder, release_builder, operator_builder, generic_builder, out_of_fuel,
  icsp_name, new_icsp, digest_mirror, with_mirrors, fill_icsp, generate_loop,
}
use oc_mirror.Mirror.Icsp.Fill.{Fits, fill_icsp-Filled}

new_icsp-digest_mirrors :
    (b : IcspBuilder) (name : String) (count : ℕ) → (new_icsp b name count).digest_mirrors ≡ []
unfolding new_icsp
new_icsp-digest_mirrors release_builder name count = refl
new_icsp-digest_mirrors operator_builder name count = refl
new_icsp-digest_mirrors generic_builder name count = refl

name-new_icsp :
    (b : IcspBuilder) (name : String) (count : ℕ)
    → (new_icsp b name count).name ≡ icsp_name name count
unfolding new_icsp
name-new_icsp release_builder name count = refl
name-new_icsp operator_builder name count = refl
name-new_icsp generic_builder name count = refl

abbrev pub all_mirrors : List Icsp → List DigestMirrors
all_mirrors [] = []
all_mirrors (i ∷ is) = i.digest_mirrors ++ all_mirrors is

keep_nonempty :
    (ds : List DigestMirrors) (x y : List Icsp) → ds ≢ [] → (if length ds == 0 then x else y) ≡ y
keep_nonempty [] x y n = absurd (n refl)
keep_nonempty (d ∷ ds) x y n = ground arith

module _ (marshal_length : Icsp → Option ℕ) (byte_limit : ℕ) (builder : IcspBuilder)
    (name : String) where
  -- What one run of the outer loop's body gives.
  record Round (m : Map String String) (r : Icsp × Map String String) : Type 0 where
    pub taken : List (String × String)
    pub nonempty : taken ≢ []
    pub shared : m ≡ taken ++ r.1
    pub mirrors : r.0.digest_mirrors ≡ map digest_mirror taken
    pub named : r.0.name ≡ icsp_name name 0
    pub fits : Fits marshal_length byte_limit r.0

  round :
      (e : String × String) (es : Map String String) (r : Icsp × Map String String)
      → fill_icsp marshal_length byte_limit (new_icsp builder name 0) (e ∷ es) ≡ ok r
      → Round (e ∷ es) r
  round e es r h =
      let base = new_icsp builder name 0 in
      let f = fill_icsp-Filled marshal_length byte_limit base (e ∷ es) r h in
      let none_yet = new_icsp-digest_mirrors builder name 0 in
      let nonempty : f.taken ≢ [] = λ n. elim f.some_taken [
        | inl x ↦ absurd (cc)
        | inr (inl t) ↦ t n
        | inr (inr d) ↦ d none_yet
      ] in
      record {
        taken = f.taken;
        nonempty = nonempty;
        shared = f.shared;
        mirrors =
            ap (λ i. i.digest_mirrors) f.mirrors
            ∙ ap (λ l. l ++ map digest_mirror f.taken) none_yet;
        named = ap (λ i. i.name) f.mirrors ∙ name-new_icsp builder name 0;
        fits = elim f.fits [ inl x ↦ absurd (nonempty x) | inr g ↦ g ];
      }

  -- The objects share out the mapping: each entry stands in one of them, in the mapping's order.
  pub record IsPartition (m : Map String String) (icsps : List Icsp) : Type 0 where
    pub mirrors : all_mirrors icsps ≡ map digest_mirror m
    pub fits : All (Fits marshal_length byte_limit) icsps
    pub named : All (λ i. i.name ≡ icsp_name name 0) icsps
    pub nonempty : All (λ i. i.digest_mirrors ≢ []) icsps

  map-ne-nil : (xs : List (String × String)) → xs ≢ [] → map digest_mirror xs ≢ []
  map-ne-nil [] n = absurd (n refl)
  map-ne-nil (x ∷ xs) n = λ e. cc

  IsPartition-cons :
      (m : Map String String) (r : Icsp × Map String String) (icsps : List Icsp)
      → Round m r
      → IsPartition r.1 icsps
      → IsPartition m (r.0 ∷ icsps)
  IsPartition-cons m r icsps step p = record {
    mirrors =
        rw (step.mirrors, p.mirrors)
          (sym (map-append digest_mirror step.taken r.1)
            ∙ ap (map digest_mirror) (sym step.shared));
    fits = (step.fits, p.fits);
    named = (step.named, p.named);
    nonempty = (λ e. map-ne-nil step.taken step.nonempty (sym step.mirrors ∙ e), p.nonempty);
  }

  pub generate_loop-IsPartition :
      (fuel : ℕ) (m : Map String String) (icsps result : List Icsp)
      → generate_loop marshal_length byte_limit builder name fuel m icsps ≡ ok result
      → (new : List Icsp) × (result ≡ icsps ++ new) × IsPartition m new
  unfolding generate_loop
  generate_loop-IsPartition fuel [] icsps result h = (
    [],
    rw append-nil (ground arith),
    record { mirrors = refl; fits = tt; named = tt; nonempty = tt },
  )
  generate_loop-IsPartition zero (e ∷ es) icsps result h = absurd (ground arith)
  generate_loop-IsPartition (suc fuel) (e ∷ es) icsps result h =
      let (r, filled, more) =
        >>=-eq-ok (fill_icsp marshal_length byte_limit (new_icsp builder name 0) (e ∷ es)) _ h in
      let step = round e es r filled in
      let kept =
        keep_nonempty r.0.digest_mirrors icsps (icsps ++ r.0 ∷ [])
          (λ n. map-ne-nil step.taken step.nonempty (sym step.mirrors ∙ n)) in
      let (new, ends, p) = generate_loop-IsPartition fuel r.1 (icsps ++ r.0 ∷ []) result (
        subst (λ acc. generate_loop marshal_length byte_limit builder name fuel r.1 acc ≡ ok result)
          kept more) in
      (r.0 ∷ new, ends ∙ append_assoc icsps (r.0 ∷ []) new, IsPartition-cons (e ∷ es) r new step p)

  fill_icsp-ne-out_of_fuel :
      (icsp : Icsp) (m : Map String String)
      → fill_icsp marshal_length byte_limit icsp m ≢ err out_of_fuel
  unfolding fill_icsp
  fill_icsp-ne-out_of_fuel icsp [] h = ground arith
  fill_icsp-ne-out_of_fuel icsp (e ∷ es) h = ground (
    arith,
    fill_icsp-ne-out_of_fuel (with_mirrors icsp (icsp.digest_mirrors ++ digest_mirror e ∷ [])) es,
  )

  length-Round :
      (m : Map String String) (r : Icsp × Map String String)
      → Round m r
      → suc (length r.1) ≤ length m
  length-Round m r step = elim (List-cases step.taken) [
    | inl n ↦ absurd (step.nonempty n)
    | inr (x, xs, e) ↦
        omega (arith, ap length step.shared, length-append step.taken r.1, ap length e)
  ]

  pub generate_loop_ends :
      (fuel : ℕ) (m : Map String String) (icsps : List Icsp)
      → length m ≤ fuel
      → generate_loop marshal_length byte_limit builder name fuel m icsps ≢ err out_of_fuel
  unfolding generate_loop
  generate_loop_ends fuel [] icsps le h = ground arith
  generate_loop_ends zero (e ∷ es) icsps le h = absurd (omega arith)
  generate_loop_ends (suc fuel) (e ∷ es) icsps le h =
      let filled = fill_icsp marshal_length byte_limit (new_icsp builder name 0) (e ∷ es) in
      elim (Result-cases filled) [
        | inl (r, f) ↦
            generate_loop_ends fuel r.1 _ (omega (arith, length-Round (e ∷ es) r (round e es r f)))
              (rw f at h)
        | inr (x, f) ↦ fill_icsp-ne-out_of_fuel (new_icsp builder name 0) (e ∷ es) (ground arith)
      ]
