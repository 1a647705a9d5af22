-- ===== src/Mirror/Icsp/Fill.antt =====
-- What one run of the inner loop of `GenerateICSP` puts into an object.
use mathlib.Core.Path.{subst}
use mathlib.Core.List.{append-nil, append_assoc}
use oc_mirror.Base.{
  String, ℕ, ◌≤◌, ◌≡◌, ◌≢◌, ◌⊎◌, List, [], ◌∷◌, ◌++◌, map, Option, some, ok, arith, refl, sym, ap,
  ◌∙◌, ltb, Bool-cases, Option-cases, List-cases, inl, inr, nat_eq,
}
use oc_mirror.Base.GoMap.{Map}
use oc_mirror.Mirror.Icsp.{DigestMirrors, Icsp, digest_mirror, with_mirrors, overflow, fill_icsp}

module _ (marshal_length : Icsp → Option ℕ) (byte_limit : ℕ) where
  -- The object marshals to no more bytes than the limit.
  abbrev pub Fits : Icsp → Type 0
  Fits icsp = (n : ℕ) × (marshal_length icsp ≡ some n) × (n ≤ byte_limit)

  pub record Filled (icsp : Icsp) (m : Map String String) (r : Icsp × Map String String)
      : Type 0 where
    pub taken : List (String × String)
    pub shared : m ≡ taken ++ r.1
    pub mirrors : r.0 ≡ with_mirrors icsp (icsp.digest_mirrors ++ map digest_mirror taken)
    pub fits : (taken ≡ []) ⊎ Fits r.0
    pub some_taken : (m ≡ []) ⊎ ((taken ≢ []) ⊎ (icsp.digest_mirrors ≢ []))

  over_limit :
      (icsp : Icsp) (entry : String × String) (rest : Map String String)
      (r : Icsp × Map String String)
      → (icsp.digest_mirrors ≡ [])
        ⊎ ((x : DigestMirrors) × (xs : List DigestMirrors) × (icsp.digest_mirrors ≡ x ∷ xs))
      → overflow marshal_length byte_limit icsp entry rest icsp.digest_mirrors ≡ ok r
      → Filled icsp (entry ∷ rest) r
  over_limit icsp entry rest r (inl e) h = absurd (ground arith)
  over_limit icsp entry rest r (inr (x, xs, e)) h = record {
    taken = [];
    shared = ground arith;
    mirrors = rw append-nil (ground arith);
    fits = inl refl;
    some_taken = inr (inr (λ n. ground arith));
  }

  extend :
      (icsp : Icsp) (entry : String × String) (rest : Map String String)
      (r : Icsp × Map String String)
      → Fits (with_mirrors icsp (icsp.digest_mirrors ++ digest_mirror entry ∷ []))
      → Filled (with_mirrors icsp (icsp.digest_mirrors ++ digest_mirror entry ∷ [])) rest r
      → Filled icsp (entry ∷ rest) r
  extend icsp entry rest r now f = record {
    taken = entry ∷ f.taken;
    shared = ap (λ l. entry ∷ l) f.shared;
    mirrors =
        f.mirrors
        ∙ ap (with_mirrors icsp) (
            append_assoc icsp.digest_mirrors (digest_mirror entry ∷ [])
              (map digest_mirror f.taken));
    fits = inr (elim f.fits [
      | inl e ↦
          let last : r.0 ≡ with_mirrors icsp (icsp.digest_mirrors ++ digest_mirror entry ∷ []) =
            f.mirrors ∙ (rw e (rw append-nil)) in
          subst Fits (sym last) now
      | inr g ↦ g
    ]);
    some_taken = inr (inl (λ n. ground arith));
  }

  pub fill_icsp-Filled :
      (icsp : Icsp) (m : Map String String) (r : Icsp × Map String String)
      → fill_icsp marshal_length byte_limit icsp m ≡ ok r
      → Filled icsp m r
  unfolding fill_icsp
  fill_icsp-Filled icsp [] r h = record {
    taken = [];
    shared = ground arith;
    mirrors = rw append-nil (ground arith);
    fits = inl refl;
    some_taken = inl refl;
  }
  fill_icsp-Filled icsp (entry ∷ rest) r h =
      let next = with_mirrors icsp (icsp.digest_mirrors ++ digest_mirror entry ∷ []) in
      elim (Option-cases (marshal_length next)) [
        | inl e ↦ absurd (ground arith)
        | inr (n, e) ↦ elim (Bool-cases (ltb byte_limit n)) [
          | inl over ↦ over_limit icsp entry rest r (List-cases icsp.digest_mirrors) (ground arith)
          | inr fits ↦
              extend icsp entry rest r (n, e, ground arith)
                (fill_icsp-Filled next rest r (ground arith))
        ]
      ]
