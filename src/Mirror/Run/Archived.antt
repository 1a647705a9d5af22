-- ===== src/Mirror/Run/Archived.antt =====
-- What a run that mirrors to the disk has done when it returns an image set.
use mathlib.Core.Path.{subst}
use oc_mirror.Base.{
  Bool-cases, inl, inr, arith, suc, List, [], ◌∷◌, String, Bool, true, false, not, ◌&&◌, Option,
  none, some, Result, ok, err, >>=-eq-ok, ◌≡◌, refl, sym, ◌∙◌, ap, if◌then◌else◌,
}
use oc_mirror.Api.Config.{ImageSetConfiguration, Metadata, storage_is_set}
use oc_mirror.Image.Builder.{BuildError, associate_local_image_layers}
use oc_mirror.Image.Mapping.{TypedImageMapping}
use oc_mirror.Mirror.Create.{create, Planned}
use oc_mirror.Mirror.Pack.{PackError, segment_size, pack}
use oc_mirror.Mirror.Pack
use oc_mirror.Mirror.Pack.Number.{WroteArchive, pack-eq-ok}
use oc_mirror.Mirror.Previous.{PreviousError, Previous, remove_previously_mirrored}
use oc_mirror.Mirror.Previous
use oc_mirror.Mirror.Run.{
  Command, Outcome, no_updates, image_set, mapping_written, RunError, sync_failed,
  continued_on_error, planned, layer_errors, finish_run, make_image_set, run_left, mirror_to_disk,
  mirror_mappings, check_err, check_errs, skip_err, MappedImage, mirrored_images, images_failed,
}
use oc_mirror.Mirror.Sequence.{number, stored_in}
use oc_mirror.Mirror.Sequence.Reached.{create-number}

module _ {V : Type 0} where
  ok-no_updates :
      {E : Type 0} {out : Metadata V}
      → Path (Result E (Outcome V)) (ok no_updates) (ok (image_set out))
      → ⊥
  ok-no_updates h = cc

  wet-eq-ok :
      (dry : Bool) (lines : List String) (r : Result RunError (Outcome V)) (out : Metadata V)
      → (if dry then ok (mapping_written lines) else r) ≡ ok (image_set out)
      → (dry ≡ false) × (r ≡ ok (image_set out))
  wet-eq-ok true lines r out h = absurd (cc)
  wet-eq-ok false lines r out h = (refl, h)

-- An error is returned or noted.
check_err-noted :
    {E : Type 0} (continue_on_error : Bool) (acceptable : Option (E → Bool)) (continued : Bool)
    (e : E) (noted : Bool)
    → check_err continue_on_error acceptable continued (some e) ≡ ok noted
    → noted ≡ true
unfolding check_err
check_err-noted continue_on_error none continued e noted h = ground arith
check_err-noted continue_on_error (some acceptable) continued e noted h = ground arith

-- What is noted stays so.
check_errs-noted :
    {E : Type 0} (continue_on_error : Bool) (acceptable : E → Bool) (es : List E) (noted : Bool)
    → check_errs continue_on_error acceptable true es ≡ ok noted
    → noted ≡ true
unfolding check_errs
check_errs-noted continue_on_error acceptable [] noted h =
    sym (ap (λ r. elim r [ ok b ↦ b | err x ↦ true ]) h)
check_errs-noted continue_on_error acceptable (e ∷ es) noted h =
    let (b, now, later) =
      >>=-eq-ok (check_err continue_on_error (some acceptable) true (some e)) _ h in
    check_errs-noted continue_on_error acceptable es noted (
      subst (λ c. check_errs continue_on_error acceptable c es ≡ ok noted)
        (check_err-noted continue_on_error (some acceptable) true e b now) later)

-- Where nothing is noted, nothing was before, and there are no errors.
check_errs-eq-false :
    {E : Type 0} (continue_on_error : Bool) (acceptable : E → Bool) (continued : Bool) (es : List E)
    → check_errs continue_on_error acceptable continued es ≡ ok false
    → (continued ≡ false) × (es ≡ [])
unfolding check_errs
check_errs-eq-false continue_on_error acceptable continued [] h =
    (ap (λ r. elim r [ ok b ↦ b | err x ↦ false ]) h, refl)
check_errs-eq-false continue_on_error acceptable continued (e ∷ es) h =
    let (b, now, later) =
      >>=-eq-ok (check_err continue_on_error (some acceptable) continued (some e)) _ h in
    let wrong : false ≡ true = check_errs-noted continue_on_error acceptable es false (
      subst (λ c. check_errs continue_on_error acceptable c es ≡ ok false)
        (check_err-noted continue_on_error (some acceptable) continued e b now) later) in
    absurd (cc)

mirror_mappings-eq-false :
    {V : Type 0} (mirror : List MappedImage → Bool) (continue_on_error : Bool)
    (cfg : ImageSetConfiguration V) (images : TypedImageMapping)
    → mirror_mappings mirror continue_on_error false cfg images ≡ ok false
    → mirror (mirrored_images cfg.mirror.blocked_images images) ≡ true
unfolding mirror_mappings
mirror_mappings-eq-false mirror continue_on_error cfg images h =
    elim (Bool-cases (mirror (mirrored_images cfg.mirror.blocked_images images))) [
      | inl t ↦ t
      | inr f ↦
          let wrong : false ≡ true =
            check_err-noted {E = RunError} continue_on_error none false images_failed false
              (rw f at h) in
          absurd (cc)
    ]

module _ {V : Type 0} (command : Command V) where
  layer_errors-eq-ok :
      (r : Result BuildError Bool) (b : Bool) → layer_errors command r ≡ ok b → r ≡ ok b
  layer_errors-eq-ok (ok c) b h = ap (λ r. elim r [ ok a ↦ ok a | err x ↦ ok c ]) h
  layer_errors-eq-ok (err e) b h = absurd (cc)

  planned-eq-ok :
      (r : Metadata V × Planned) (meta : Metadata V) (mapping : TypedImageMapping)
      → planned command r ≡ ok (meta, mapping)
      → r ≡ (meta, (mapping, none))
  planned-eq-ok (m, (ms, none)) meta mapping h =
      ap (λ r. elim r [ ok a ↦ (a.0, (a.1, none)) | err x ↦ (m, (ms, none)) ]) h
  planned-eq-ok (m, (ms, some e)) meta mapping h = absurd (cc)

  synced-eq-ok :
      (unsynced continued : Bool) (packed out : Metadata V)
      → (if unsynced
          then err sync_failed
          else if continued
          then err continued_on_error
          else ok (image_set packed))
        ≡ ok (image_set out)
      → (continued ≡ false) × ((unsynced ≡ false) × (packed ≡ out))
  synced-eq-ok true continued packed out h = absurd (cc)
  synced-eq-ok false true packed out h = absurd (cc)
  synced-eq-ok false false packed out h = (refl, (refl, ap set_of h))
    where
      set_of : Result RunError (Outcome V) → Metadata V
      set_of (ok (image_set m)) = m
      set_of (ok no_updates) = packed
      set_of (ok (mapping_written ls)) = packed
      set_of (err x) = packed

  finish_run-eq-ok :
      (cfg : ImageSetConfiguration V) (continued : Bool) (r : Result PackError (Metadata V))
      (out : Metadata V)
      → finish_run command cfg continued r ≡ ok (image_set out)
      → (continued ≡ false)
        × (((storage_is_set cfg.storage_config && not (command.sync out)) ≡ false) × (r ≡ ok out))
  finish_run-eq-ok cfg continued (err (Pack.not_reconciled e)) out h = absurd (cc)
  finish_run-eq-ok cfg continued (err Pack.no_updates_exist) out h = absurd (ok-no_updates h)
  finish_run-eq-ok cfg continued (err (Pack.not_converted es)) out h = absurd (cc)
  finish_run-eq-ok cfg continued (err (Pack.not_updated es)) out h = absurd (cc)
  finish_run-eq-ok cfg continued (err Pack.not_archived) out h = absurd (cc)
  finish_run-eq-ok cfg continued (ok packed) out h =
      let (clean, (synced, same)) =
        synced-eq-ok (storage_is_set cfg.storage_config && not (command.sync packed)) continued
          packed out h in
      (
        clean,
        (
          ap (λ m. storage_is_set cfg.storage_config && not (command.sync m)) (sym same) ∙ synced,
          ap ok same,
        ),
      )

  -- A run that returns an image set, after what was mirrored before was removed from its plan: its
  -- metadata is in the configured storage, the images that are left and not blocked were mirrored and
  -- their layers were associated, and the archive was written.
  abbrev pub IsFinished : ImageSetConfiguration V → Previous → Metadata V → Type 0
  IsFinished cfg previous out =
      ((storage_is_set cfg.storage_config && not (command.sync out)) ≡ false)
      × ((command.mirror (mirrored_images cfg.mirror.blocked_images previous.images) ≡ true)
          × (((associate_local_image_layers command.refs command.image_string command.fuel
                  command.disk command.source_dir previous.images).errs
                ≡ [])
              × (WroteArchive command.archive (segment_size cfg.archive_size)
                  (if command.ignore_history then [] else previous.associations) command.roots
                  out)))

  make_image_set-IsFinished :
      (cfg : ImageSetConfiguration V) (meta : Metadata V) (previous : Previous) (out : Metadata V)
      → make_image_set command cfg meta previous.associations previous.images ≡ ok (image_set out)
      → (out.past_mirror.sequence ≡ meta.past_mirror.sequence) × IsFinished cfg previous out
  make_image_set-IsFinished cfg meta previous out h =
      let images = previous.images in
      let built =
        associate_local_image_layers command.refs command.image_string command.fuel command.disk
          command.source_dir images in
      let (mirrored, m, more) =
        >>=-eq-ok (mirror_mappings command.mirror command.continue_on_error false cfg images) _ h in
      let checked = check_errs command.continue_on_error skip_err mirrored built.errs in
      let (continued, c, last) = >>=-eq-ok (layer_errors command checked) _ more in
      let (clean, (synced, packed)) = finish_run-eq-ok cfg continued _ out last in
      let (unnoted, no_errors) =
        check_errs-eq-false command.continue_on_error skip_err mirrored built.errs
          (layer_errors-eq-ok checked continued c ∙ ap ok clean) in
      let ((uid, (same, once)), wrote) =
        pack-eq-ok command.catalogs command.include command.archive command.writable
          command.ignore_history cfg.archive_size previous.associations built.set command.roots meta
          out packed in
      let all =
        mirror_mappings-eq-false command.mirror command.continue_on_error cfg images
          (m ∙ ap ok unnoted) in
      (same, (synced, (all, (no_errors, wrote))))

  run_left-eq-ok :
      (cfg : ImageSetConfiguration V) (meta : Metadata V) (previous : Previous)
      (failure : Option PreviousError) (out : Metadata V)
      → run_left command cfg meta previous failure ≡ ok (image_set out)
      → (command.dry_run ≡ false)
        × ((failure ≡ none)
            × ((out.past_mirror.sequence ≡ meta.past_mirror.sequence)
                × IsFinished cfg previous out))
  run_left-eq-ok cfg meta previous (some (Previous.not_converted e)) out h = absurd (cc)
  run_left-eq-ok cfg meta previous (some (Previous.not_pruned e)) out h = absurd (cc)
  run_left-eq-ok cfg meta previous (some Previous.no_updates_exist) out h = absurd (ok-no_updates h)
  run_left-eq-ok cfg meta previous (some (Previous.not_valid es)) out h = absurd (cc)
  run_left-eq-ok cfg meta previous none out h =
      let (wet, done) = wet-eq-ok command.dry_run _ _ out h in
      (wet, (refl, make_image_set-IsFinished cfg meta previous out done))

  -- A run that mirrors to the disk and returns an image set had no error, also where it goes on after
  -- errors. It is no dry run, its number is the one after that of the metadata it read, and planning
  -- and removing what was mirrored before succeeded. All images that are left and not blocked were
  -- mirrored, the layers of each were associated without an error, and the metadata is in the
  -- configured storage. The archive was written under the run's number with the new blobs of the
  -- workspace: at least one, each once, and none whose digest is among the associations that removing
  -- what was mirrored before returned, unless history is ignored.
  pub mirror_to_disk-IsFinished :
      (cfg : ImageSetConfiguration V) (stored : Option (Metadata V)) (out : Metadata V)
      → mirror_to_disk command cfg (stored_in stored) ≡ ok (image_set out)
      → (command.dry_run ≡ false)
        × ((out.past_mirror.sequence ≡ suc (number stored))
            × ((meta : Metadata V) × ((mapping : TypedImageMapping) × (let previous =
                      remove_previously_mirrored command.refs command.ignore_history mapping
                        meta.past_associations in
                    (create command.planners command.now command.uid command.empty cfg
                        (stored_in stored)
                      ≡ (meta, (mapping, none)))
                    × ((previous.failure ≡ none) × IsFinished cfg previous out)))))
  unfolding mirror_to_disk
  mirror_to_disk-IsFinished cfg stored out h =
      let ((meta, mapping), p, more) =
        >>=-eq-ok
          (planned command
            (create command.planners command.now command.uid command.empty cfg (stored_in stored)))
          _ h in
      let previous =
        remove_previously_mirrored command.refs command.ignore_history mapping
          meta.past_associations in
      let plan = planned-eq-ok _ meta mapping p in
      let made =
        create-number command.planners command.empty command.now command.uid cfg stored meta mapping
          plan in
      let (wet, (removed, (same, finished))) =
        run_left-eq-ok cfg meta previous previous.failure out more in
      (wet, (same ∙ made, (meta, (mapping, (plan, (removed, finished))))))
