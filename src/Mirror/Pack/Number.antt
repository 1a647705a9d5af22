-- ===== src/Mirror/Pack/Number.antt =====
-- Packing changes neither the identifier of the metadata nor its number or use, and archives new blobs.
use mathlib.Core.Path.{subst}
use oc_mirror.Base.{
  All, mem, string_eq, ◌≢◌, refl, String, ℕ, List, [], ◌∷◌, Bool, true, false, Option, none, Result,
  ok, err, >>=-eq-ok, ◌≡◌, sym, ap, if◌then◌else◌,
}
use oc_mirror.Api.Config.{Metadata, OperatorMetadata}
use oc_mirror.Api.Include.{IncludeConfig}
use oc_mirror.Bundle.{Root, BundleError, not_a_v2_directory, reconcile_v2_dir}
use oc_mirror.Image.AssociationSet
use oc_mirror.Image.AssociationSet.{AssociationSet, get_digests}
use oc_mirror.Bundle.Reconciled.{DistinctBlobs, reconcile_v2_dir-DistinctBlobs}
use oc_mirror.Image.Convert.{convert_from_association_set}
use oc_mirror.Metadata.{Catalogs, MetadataError, update_metadata, write_resolved, resolve_operators}
use oc_mirror.Mirror.Pack.{
  segment_size, reconciled, converted, updated, archived, with_associations, pack,
}

reconciled-eq-ok :
    (r : Result BundleError (List String × List String)) (manifests blobs : List String)
    → reconciled r ≡ ok (manifests, blobs)
    → (r ≡ ok (manifests, blobs)) × (blobs ≢ [])
reconciled-eq-ok (err e) manifests blobs h = absurd (cc)
reconciled-eq-ok (ok (ms, [])) manifests blobs h = absurd (cc)
reconciled-eq-ok (ok (ms, b ∷ bs)) manifests blobs h =
    let same : b ∷ bs ≡ blobs = ap (λ r. elim r [ ok a ↦ a.1 | err x ↦ [] ]) h in
    (ap (λ r. elim r [ ok a ↦ ok a | err x ↦ err (not_a_v2_directory "") ]) h, λ e. absurd (cc))

module _ {V : Type 0} where
  abbrev pub IsSameRun : Metadata V → Metadata V → Type 0
  IsSameRun meta out =
      (out.uid ≡ meta.uid)
      × ((out.past_mirror.sequence ≡ meta.past_mirror.sequence)
          × (out.single_use ≡ meta.single_use))

  written-IsSameRun :
      (writable : Bool) (stored : Option (Metadata V)) (meta out : Metadata V)
      (r : List (OperatorMetadata V) × List MetadataError)
      → write_resolved writable stored meta r ≡ ok out
      → IsSameRun meta out
  written-IsSameRun writable stored meta out (ops, e ∷ es) h = absurd (cc)
  written-IsSameRun false stored meta out (ops, []) h = absurd (cc)
  written-IsSameRun true stored meta out (ops, []) h =
      let same = sym (ap (λ r. elim r [ ok a ↦ a | err x ↦ meta ]) h) in
      (ap (λ m. m.uid) same, (ap (λ m. m.past_mirror.sequence) same, ap (λ m. m.single_use) same))

  updated-eq-ok :
      (r : Result (List MetadataError) (Metadata V)) (out : Metadata V)
      → updated r ≡ ok out
      → r ≡ ok out
  updated-eq-ok (err es) out h = absurd (cc)
  updated-eq-ok (ok m) out h = ap (λ r. elim r [ ok a ↦ ok a | err x ↦ ok m ]) h

  -- The archive was written under the number of the metadata, with the blobs that were found: at least
  -- one, each once, and none whose digest is known.
  abbrev pub WroteArchive :
      (ℕ → ℕ → List String → List String → Bool)
      → ℕ
      → AssociationSet
      → List Root
      → Metadata V
      → Type 0
  WroteArchive archive size known roots out =
      (manifests : List String) × ((blobs : List String) × ((reconcile_v2_dir known roots
            ≡ ok (manifests, blobs))
          × (((blobs ≢ [])
                × (All (λ n. mem n (get_digests known) ≡ false) blobs × DistinctBlobs blobs))
              × (archive size out.past_mirror.sequence manifests blobs ≡ true))))

  archived-eq-ok :
      (b : Bool) (packed out : Metadata V)
      → archived b packed ≡ ok out
      → (b ≡ true) × (packed ≡ out)
  archived-eq-ok true packed out h = (refl, ap (λ r. elim r [ ok a ↦ a | err x ↦ packed ]) h)
  archived-eq-ok false packed out h = absurd (cc)

  pub pack-eq-ok :
      (catalogs : Catalogs V) (empty : IncludeConfig V)
      (archive : ℕ → ℕ → List String → List String → Bool) (writable ignore_history : Bool)
      (archive_size : ℕ) (prev curr : AssociationSet) (roots : List Root) (meta out : Metadata V)
      → pack catalogs empty archive writable ignore_history archive_size prev curr roots meta
        ≡ ok out
      → IsSameRun meta out
        × WroteArchive archive
            (segment_size archive_size)
            (if ignore_history then [] else prev)
            roots
            out
  unfolding pack update_metadata
  pack-eq-ok catalogs empty archive writable ignore_history archive_size prev curr roots meta out
        h =
      let ((manifests, blobs), r, more) =
        >>=-eq-ok (reconciled (reconcile_v2_dir (if ignore_history then [] else prev) roots)) _ h in
      let (current, c, more2) = >>=-eq-ok (converted (convert_from_association_set curr)) _ more in
      let (past, p, more3) =
        >>=-eq-ok (converted (convert_from_association_set (AssociationSet.merge prev curr))) _
          more2 in
      let (packed, u, last) =
        >>=-eq-ok
          (updated (
            update_metadata catalogs empty writable (ok none)
              (with_associations current past meta)))
          _ more3 in
      let (wrote, same) = archived-eq-ok _ packed out last in
      let (uid, number) =
        written-IsSameRun writable none (with_associations current past meta) packed
          (resolve_operators catalogs empty meta.past_mirror.mirror.operators)
          (updated-eq-ok _ packed u) in
      let (found, new) = reconciled-eq-ok _ manifests blobs r in
      subst
        (λ m.
          IsSameRun meta m
          × WroteArchive archive (segment_size archive_size) (if ignore_history then [] else prev)
              roots m)
        same
        (
          (uid, number),
          (
            manifests,
            (
              blobs,
              (found, ((new, reconcile_v2_dir-DistinctBlobs _ roots manifests blobs found), wrote)),
            ),
          ),
        )
