-- ===== src/Mirror/Publish/Advances.antt =====
-- What a run of Publish leaves in the metadata stores.
use mathlib.Core.Path.{subst}
use oc_mirror.Base.{
  String, List, [], ◌∷◌, Bool, true, false, Option, none, some, Result, ok, err, >>=-eq-ok,
  if◌then◌else◌, ◌==◌, string_eq, ◌≡◌, ◌⊎◌, inl, inr, refl, sym, ◌∙◌, ap, arith, Bool-cases,
}
use oc_mirror.Base.GoMap
use oc_mirror.Base.GoMap.{Map}
use oc_mirror.Api.Config.{Metadata}
use oc_mirror.Image.Mapping.{TypedImageMapping}
use oc_mirror.Mirror.Publish.{PublishError, metadata_failed, check_sequence}
use oc_mirror.Mirror.Publish.Command.{
  Setting, Stores, as_result, publish_incoming, publish_to, written, publish_read, put, publish,
}

as_result-eq-ok : (o : Option PublishError) (u : Unit) → as_result o ≡ ok u → o ≡ none
as_result-eq-ok none u e = refl
as_result-eq-ok (some x) u e = absurd (cc)

lookup-put :
    {V : Type 0} (uid other : String) (stored : Option (Metadata V))
    (registry : Map String (Metadata V))
    → stored ≡ GoMap.lookup uid registry
    → GoMap.lookup other (put uid stored registry) ≡ GoMap.lookup other registry
lookup-put uid other none registry e = refl
lookup-put uid other (some m) registry e =
    ground (arith, GoMap.lookup-insert uid other m registry, string_eq.beq_iff uid other)

module _ {V : Type 0} (setting : Setting V) where
  publish_incoming-fits :
      (files : Map String String) (current : Option (Metadata V)) (incoming : Metadata V)
      (mappings : TypedImageMapping)
      → publish_incoming setting files current incoming ≡ ok mappings
      → check_sequence current incoming ≡ none
  unfolding publish_incoming
  publish_incoming-fits files current incoming mappings e =
      let (u, fits, more) = >>=-eq-ok (as_result (check_sequence current incoming)) _ e in
      as_result-eq-ok (check_sequence current incoming) u fits

  -- What is stored is what was stored before, after an error, or the incoming metadata, which fits.
  abbrev pub Advances :
      Option (Metadata V)
      → Metadata V
      → Option (Metadata V) × Result (List PublishError) TypedImageMapping
      → Type 0
  Advances current incoming p =
      ((es : List PublishError) × ((p.1 ≡ err es) × (p.0 ≡ current)))
      ⊎ ((mappings : TypedImageMapping) × ((p.1 ≡ ok mappings)
            × ((p.0 ≡ some incoming) × (check_sequence current incoming ≡ none))))

  written-Advances :
      (writable : Bool) (current : Option (Metadata V)) (incoming : Metadata V)
      (r : Result (List PublishError) TypedImageMapping)
      → ((mappings : TypedImageMapping) → r ≡ ok mappings → check_sequence current incoming ≡ none)
      → Advances current incoming (written writable current incoming r)
  written-Advances writable current incoming (err es) fits = inl (es, (refl, refl))
  written-Advances true current incoming (ok ms) fits = inr (ms, (refl, (refl, fits ms refl)))
  written-Advances false current incoming (ok ms) fits = inl (metadata_failed ∷ [], (refl, refl))

  publish_to-Advances :
      (writable : Bool) (files : Map String String) (current : Option (Metadata V))
      (incoming : Metadata V)
      → Advances current incoming (publish_to setting writable files current incoming)
  unfolding publish_to
  publish_to-Advances writable files current incoming =
      written-Advances writable current incoming (publish_incoming setting files current incoming)
        (publish_incoming-fits files current incoming)

  pub publish_read-Advances :
      (readable writable : Bool) (files : Map String String) (current : Option (Metadata V))
      (incoming : Metadata V)
      → Advances current incoming (publish_read setting readable writable files current incoming)
  unfolding publish_read
  publish_read-Advances true writable files current incoming =
      publish_to-Advances writable files current incoming
  publish_read-Advances false writable files current incoming =
      inl (metadata_failed ∷ [], (refl, refl))

  -- The same of the registry's metadata, by identifiers.
  stored_lem :
      (uid : String) (incoming : Metadata V) (registry : Map String (Metadata V))
      (r : Option (Metadata V) × Result (List PublishError) TypedImageMapping)
      → Advances (GoMap.lookup incoming.uid registry) incoming r
      → (GoMap.lookup uid (put incoming.uid r.0 registry) ≡ GoMap.lookup uid registry)
        ⊎ ((uid ≡ incoming.uid)
            × ((GoMap.lookup uid (put incoming.uid r.0 registry) ≡ some incoming)
                × ((check_sequence (GoMap.lookup uid registry) incoming ≡ none)
                    × ((mappings : TypedImageMapping) × (r.1 ≡ ok mappings)))))
  stored_lem uid incoming registry (stored, r) (inl (es, (failed, same))) =
      inl (lookup-put incoming.uid uid stored registry same)
  stored_lem uid incoming registry (stored, r) (inr (ms, (done, (same, fits)))) =
      elim (Bool-cases (incoming.uid == uid)) [
        | inl t ↦
            let eq : incoming.uid ≡ uid = (string_eq.beq_iff incoming.uid uid).0 t in
            inr (
              sym eq,
              (
                ap (λ o. GoMap.lookup uid (put incoming.uid o registry)) same
                    ∙ (GoMap.lookup-insert incoming.uid uid incoming registry ∙ rw t refl),
                (
                  subst (λ u. check_sequence (GoMap.lookup u registry) incoming ≡ none) eq fits,
                  (ms, done),
                ),
              ),
            )
        | inr f ↦ inl (
            ap (λ o. GoMap.lookup uid (put incoming.uid o registry)) same
            ∙ (GoMap.lookup-insert incoming.uid uid incoming registry ∙ rw f refl))
      ]

  -- What a run leaves: the registry's metadata changes only where the run succeeds and the sequence
  -- number fits, and then only under the incoming identifier, to the incoming metadata; the
  -- workspace's metadata is kept, or gone after metadata for a single use.
  pub publish-Advances :
      (readable writable : Bool) (files : Map String String) (incoming : Metadata V)
      (stores : Stores V) (uid : String)
      → let r = publish setting readable writable files incoming stores in
        (r.0.workspace ≡ (if incoming.single_use then none else stores.workspace))
        × ((GoMap.lookup uid r.0.registry ≡ GoMap.lookup uid stores.registry)
            ⊎ ((uid ≡ incoming.uid)
                × ((GoMap.lookup uid r.0.registry ≡ some incoming)
                    × ((check_sequence (GoMap.lookup uid stores.registry) incoming ≡ none)
                        × ((mappings : TypedImageMapping) × (r.1 ≡ ok mappings))))))
  unfolding publish
  publish-Advances readable writable files incoming stores uid =
      elim (Bool-cases incoming.single_use) [
        | inl t ↦ rw t (refl, inl refl)
        | inr f ↦ simp f (
          refl,
          stored_lem uid incoming stores.registry _ (
              publish_read-Advances readable writable files
                (GoMap.lookup incoming.uid stores.registry) incoming),
        )
      ]
