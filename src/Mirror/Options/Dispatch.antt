-- ===== src/Mirror/Options/Dispatch.antt =====
-- Which options leave the command with something to do.
use text.Mathlib.TextEquality.{eq_iff}
use oc_mirror.Base.{String, Bool, false, none, ◌≡◌, ◌≢◌, ◌↔◌, ◌⊎◌, string_eq, arith}
use oc_mirror.Mirror.Options.{
  MirrorOptions, mirror_to_disk, mirror_to_mirror, nothing_to_do, publish_from_disk, validate,
  run_case,
}

-- Of options that pass validation, and are not for manifests only: nothing is chosen for them just
-- where they have no destination, neither a directory nor a registry; an archive is published just where
-- one is given, and there is a registry for it then; the run to the disk is chosen just where there is a
-- directory and no archive, and the one to a registry for one without both.
pub run_case-nothing :
    (can_push exists : String → Bool) (o : MirrorOptions)
    → validate can_push exists o ≡ none
    → o.manifests_only ≡ false
    → ((run_case o ≡ nothing_to_do) ↔ ((o.output_dir ≡ "") × (o.to_mirror ≡ "")))
      × (((run_case o ≡ publish_from_disk) ↔ (o.from ≢ ""))
          × (((o.from ≡ "") ⊎ (o.to_mirror ≢ ""))
              × (((run_case o ≡ mirror_to_disk) ↔ ((o.output_dir ≢ "") × (o.from ≡ "")))
                  × ((run_case o ≡ mirror_to_mirror)
                      ↔ ((o.to_mirror ≢ "") × ((o.output_dir ≡ "") × (o.from ≡ "")))))))
unfolding validate run_case
run_case-nothing can_push exists o valid all = ground (
  arith,
  eq_iff o.output_dir "",
  eq_iff o.to_mirror "",
  eq_iff o.from "",
  eq_iff o.config_path "",
)
