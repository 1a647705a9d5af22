-- ===== src/Mirror/Icsp/Generate.antt =====
-- What `GenerateICSP` promises: it ends, and it shares out the mapping or reports an error.
use mathlib.Core.Path.{subst}
use oc_mirror.Base.{
  String, ℕ, ◌≡◌, ◌≢◌, ◌⊎◌, List, [], ◌∷◌, Option, some, Result, ok, err, Result-cases, arith, sym,
  ◌∙◌, get_elem?, length, All, inl, inr, zero, suc,
}
use oc_mirror.Base.GoMap.{Map}
use oc_mirror.Image.Reference.{References}
use oc_mirror.Image.Mapping.{TypedImageMapping}
use oc_mirror.Mirror.Icsp.{
  Icsp, IcspBuilder, IcspError, out_of_fuel, icsp_name, generate_icsp, get_mapping,
}
use oc_mirror.Mirror.Icsp.Partition.{IsPartition, generate_loop-IsPartition, generate_loop_ends}

module _ (marshal_length : Icsp → Option ℕ) (byte_limit : ℕ) (refs : References)
    (builder : IcspBuilder) (name scope : String) (mapping : TypedImageMapping) where
  abbrev generated : Result IcspError (List Icsp)
  generated = generate_icsp marshal_length byte_limit refs name scope mapping builder

  generated-IsPartition :
      (rm : Map String String) (icsps : List Icsp)
      → get_mapping refs builder scope mapping ≡ ok rm
      → generated ≡ ok icsps
      → IsPartition marshal_length byte_limit builder name rm icsps
  unfolding generate_icsp
  generated-IsPartition rm icsps got h =
      let (new, e, p) =
        generate_loop-IsPartition marshal_length byte_limit builder name (length rm) rm [] icsps
          (rw got at h) in
      subst (IsPartition marshal_length byte_limit builder name rm) (sym e) p

  generated-ne-out_of_fuel :
      (rm : Map String String)
      → get_mapping refs builder scope mapping ≡ ok rm
      → generated ≢ err out_of_fuel
  unfolding generate_icsp
  generated-ne-out_of_fuel rm got h =
      generate_loop_ends marshal_length byte_limit builder name (length rm) rm [] (omega arith)
        (rw got at h)

  -- Once the registry mapping is made, the generation ends. It gives objects that share out the
  -- mapping in its order, none of them empty and none longer than the limit, or it ends with an error
  -- that is not a lack of fuel.
  pub generate_icsp-IsPartition :
      (rm : Map String String)
      → get_mapping refs builder scope mapping ≡ ok rm
      → ((icsps : List Icsp) × (generate_icsp marshal_length byte_limit refs name scope mapping
              builder
            ≡ ok icsps)
          × IsPartition marshal_length byte_limit builder name rm icsps)
        ⊎ ((e : IcspError) × (generate_icsp marshal_length byte_limit refs name scope mapping
                builder
              ≡ err e)
            × (e ≢ out_of_fuel))
  generate_icsp-IsPartition rm got = elim (Result-cases generated) [
    | inl (icsps, h) ↦ inl (icsps, h, generated-IsPartition rm icsps got h)
    | inr (e, h) ↦ inr (e, h, λ o. generated-ne-out_of_fuel rm got (cc))
  ]

  All-get_elem? :
      (icsps : List Icsp) (i : ℕ) (a : Icsp)
      → All (λ x. x.name ≡ icsp_name name 0) icsps
      → get_elem? icsps i ≡ some a
      → a.name ≡ icsp_name name 0
  All-get_elem? [] i a h g = cc
  All-get_elem? (x ∷ xs) zero a h g = cc (h.0)
  All-get_elem? (x ∷ xs) (suc i) a h g = All-get_elem? xs i a h.1 g

  -- All objects of one call have the same name, so of several only one can exist in a cluster.
  pub name-generate_icsp :
      (rm : Map String String) (icsps : List Icsp) (i j : ℕ) (a b : Icsp)
      → get_mapping refs builder scope mapping ≡ ok rm
      → generate_icsp marshal_length byte_limit refs name scope mapping builder ≡ ok icsps
      → get_elem? icsps i ≡ some a
      → get_elem? icsps j ≡ some b
      → a.name ≡ b.name
  name-generate_icsp rm icsps i j a b got h at_i at_j =
      let p = generated-IsPartition rm icsps got h in
      All-get_elem? icsps i a p.named at_i ∙ sym (All-get_elem? icsps j b p.named at_j)
