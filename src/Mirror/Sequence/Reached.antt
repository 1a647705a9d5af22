-- ===== src/Mirror/Sequence/Reached.antt =====
-- What holds after any runs of the command.
use oc_mirror.Base.{
  String, ℕ, suc, true, not, Option, none, some, ok, err, ◌≡◌, sym, ap, arith, nat_eq, string_eq,
}
use oc_mirror.Base.GoMap
use oc_mirror.Api.Config.{ImageSetConfiguration, Metadata, storage_is_set}
use oc_mirror.Image.Mapping.{TypedImageMapping}
use oc_mirror.Mirror.Create.{metadata_not_exist, Planners, create}
use oc_mirror.Mirror.Publish.Advances.{Advances}
use oc_mirror.Mirror.Sequence.{number, stored_in}
use oc_mirror.Mirror.Sequence.Order.{IsNext}

module _ {V : Type 0} (planners : Planners V) (empty : Metadata V) where
  create-fresh :
      (now : ℕ) (uid : String) (cfg : ImageSetConfiguration V) (m : Metadata V)
      (mapping : TypedImageMapping)
      → create planners now uid empty cfg (err metadata_not_exist) ≡ (m, (mapping, none))
      → (m.past_mirror.sequence ≡ 1) × (m.single_use ≡ not (storage_is_set cfg.storage_config))
  unfolding create
  create-fresh now uid cfg m mapping e =
      (sym (ap (λ r. r.0.past_mirror.sequence) e), sym (ap (λ r. r.0.single_use) e))

  create-follows :
      (now : ℕ) (uid : String) (cfg : ImageSetConfiguration V) (last m : Metadata V)
      (mapping : TypedImageMapping)
      → create planners now uid empty cfg (ok last) ≡ (m, (mapping, none))
      → IsNext true (some last) m
  unfolding create
  create-follows now uid cfg last m mapping e =
      let made = ap (λ r. r.0.past_mirror.sequence) e in
      (omega (arith, made), (sym (ap (λ r. r.0.single_use) e), sym (ap (λ r. r.0.uid) e)))

  -- A run has the number after that of the stored metadata.
  pub create-number :
      (now : ℕ) (uid : String) (cfg : ImageSetConfiguration V) (source : Option (Metadata V))
      (m : Metadata V) (mapping : TypedImageMapping)
      → create planners now uid empty cfg (stored_in source) ≡ (m, (mapping, none))
      → m.past_mirror.sequence ≡ suc (number source)
  create-number now uid cfg none m mapping e = (create-fresh now uid cfg m mapping e).0
  create-number now uid cfg (some last) m mapping e =
      (create-follows now uid cfg last m mapping e).0
