-- ===== src/Mirror/Icsp.antt =====
-- pkg/cli/mirror/manifests.go: the ImageContentSourcePolicy objects for a mapping. What differs from
-- one builder to another are a label and the scope of the release builder.
mod Fill
pub mod Partition
pub mod Generate
use Prim.Native.String.{◌++◌ as concat}
use oc_mirror.Base.{
  String, ℕ, zero, suc, ◌+◌, ◌/◌, ◌%◌, List, [], ◌∷◌, ◌++◌, Bool, true, false, ◌&&◌, ◌||◌, Option,
  none, some, Result, ok, err, ◌>>=◌, ◌==◌, string_eq, nat_eq, if◌then◌else◌, ltb, length,
}
use oc_mirror.Base.Paths
use oc_mirror.Base.GoMap
use oc_mirror.Base.GoMap.{Map}
use oc_mirror.Image.Reference.{TypedImage, References}
use oc_mirror.Image.Mapping.{TypedImageMapping}

-- One of `RepositoryDigestMirrors`.
pub record DigestMirrors : Type 0 where
  pub source : String
  pub mirrors : List String

pub record Icsp : Type 0 where
  pub name : String
  pub catalog_label : Bool
  pub digest_mirrors : List DigestMirrors

pub data IcspBuilder : Type 0 where
  release_builder operator_builder generic_builder : IcspBuilder

pub data IcspError : Type 0 where
  invalid_scope : String → IcspError
  cannot_fit : String → IcspError
  marshal_failed out_of_fuel : IcspError

abbrev pub registry_scope : String
registry_scope = "registry"

abbrev pub repository_scope : String
repository_scope = "repository"

abbrev pub namespace_scope : String
namespace_scope = "namespace"

abbrev digit : ℕ → String
digit zero = "0"
digit (suc zero) = "1"
digit (suc (suc zero)) = "2"
digit (suc (suc (suc zero))) = "3"
digit (suc (suc (suc (suc zero)))) = "4"
digit (suc (suc (suc (suc (suc zero))))) = "5"
digit (suc (suc (suc (suc (suc (suc zero)))))) = "6"
digit (suc (suc (suc (suc (suc (suc (suc zero))))))) = "7"
digit (suc (suc (suc (suc (suc (suc (suc (suc zero)))))))) = "8"
digit _ = "9"

-- strconv.Itoa of a number that is not negative; the number itself is enough fuel.
unfoldable pub itoa_loop : ℕ → ℕ → String
itoa_loop zero n = digit n
itoa_loop (suc fuel) n =
    let tens = itoa_loop fuel (n / 10) in if ltb n 10 then digit n else concat tens (digit (n % 10))

unfoldable pub icsp_name : String → ℕ → String
icsp_name name count =
    concat (Paths.join_with "-" (Paths.split_on 47 name)) (concat "-" (itoa_loop count count))

-- `New` of the three builders.
unfoldable pub new_icsp : IcspBuilder → String → ℕ → Icsp
new_icsp release_builder name count = record {
  name = icsp_name name count;
  catalog_label = false;
  digest_mirrors = [];
}
new_icsp operator_builder name count = record {
  name = icsp_name name count;
  catalog_label = true;
  digest_mirrors = [];
}
new_icsp generic_builder name count = record {
  name = icsp_name name count;
  catalog_label = false;
  digest_mirrors = [];
}

module _ (refs : References) where
  abbrev pub repository : TypedImage → String
  repository img = refs.ref_string (refs.as_repository img.ref)

  -- The `switch` of `getRegistryMapping`.
  unfoldable pub mirror_pair : String → TypedImage → TypedImage → Result IcspError (String × String)
  mirror_pair scope k v =
      if scope == registry_scope
      then ok (k.ref.registry, v.ref.registry)
      else if ((scope == namespace_scope) && (k.ref.namespace == "")) || (scope == repository_scope)
      then ok (repository k, repository v)
      else if scope == namespace_scope
      then ok (
        Paths.path_join (k.ref.registry ∷ k.ref.namespace ∷ []),
        Paths.path_join (v.ref.registry ∷ v.ref.namespace ∷ []),
      )
      else err (invalid_scope scope)

  -- The loop of `getRegistryMapping`; a destination with no digest is skipped.
  unfoldable pub registry_mapping_loop :
      String → TypedImageMapping → Map String String → Result IcspError (Map String String)
  registry_mapping_loop scope [] acc = ok acc
  registry_mapping_loop scope ((k, v) ∷ rest) acc =
      (if v.ref.id == ""
        then ok acc
        else (mirror_pair scope k v >>= λ p. ok (GoMap.insert p.0 p.1 acc)))
      >>= registry_mapping_loop scope rest

  unfoldable pub get_registry_mapping :
      String → TypedImageMapping → Result IcspError (Map String String)
  get_registry_mapping scope mapping = registry_mapping_loop scope mapping []

  unfoldable pub get_mapping :
      IcspBuilder → String → TypedImageMapping → Result IcspError (Map String String)
  get_mapping release_builder scope mapping = get_registry_mapping repository_scope mapping
  get_mapping operator_builder scope mapping = get_registry_mapping scope mapping
  get_mapping generic_builder scope mapping = get_registry_mapping scope mapping

abbrev pub with_mirrors : Icsp → List DigestMirrors → Icsp
with_mirrors icsp ms = record icsp { digest_mirrors = ms }

abbrev pub digest_mirror : String × String → DigestMirrors
digest_mirror (key, value) = record { source = key; mirrors = value ∷ [] }

-- `yaml.Marshal` enters by the length of what it gives, `none` where it fails.
module _ (marshal_length : Icsp → Option ℕ) (byte_limit : ℕ) where
  -- What happens when the object is too long with one more mirror: the mirror is taken off again,
  -- unless it is the only one.
  abbrev pub overflow :
      Icsp
      → String × String
      → Map String String
      → List DigestMirrors
      → Result IcspError (Icsp × Map String String)
  overflow icsp entry rest [] = err (cannot_fit entry.0)
  overflow icsp entry rest (m ∷ ms) = ok (icsp, entry ∷ rest)

  abbrev pub after_append :
      Icsp
      → String × String
      → Map String String
      → Result IcspError (Icsp × Map String String)
      → Option ℕ
      → Result IcspError (Icsp × Map String String)
  after_append icsp entry rest more none = err marshal_failed
  after_append icsp entry rest more (some n) =
      if ltb byte_limit n then overflow icsp entry rest icsp.digest_mirrors else more

  -- The inner loop. An entry that is visited leaves the mapping; the one that does not fit stays, and
  -- so do those behind it.
  unfoldable pub fill_icsp : Icsp → Map String String → Result IcspError (Icsp × Map String String)
  fill_icsp icsp [] = ok (icsp, [])
  fill_icsp icsp (entry ∷ rest) =
      let next = with_mirrors icsp (icsp.digest_mirrors ++ digest_mirror entry ∷ []) in
      let more = fill_icsp next rest in after_append icsp entry rest more (marshal_length next)

  -- The outer loop. `icspCount` is declared in its body, so it is 0 at each call of `New`. The
  -- rounds keep one order of what is left, where Go may take another in each.
  unfoldable pub generate_loop :
      IcspBuilder → String → ℕ → Map String String → List Icsp → Result IcspError (List Icsp)
  generate_loop builder name fuel [] icsps = ok icsps
  generate_loop builder name zero (e ∷ es) icsps = err out_of_fuel
  generate_loop builder name (suc fuel) (e ∷ es) icsps =
      fill_icsp (new_icsp builder name 0) (e ∷ es) >>= λ r.
      generate_loop builder name fuel r.1
        (if length r.0.digest_mirrors == 0 then icsps else icsps ++ r.0 ∷ [])

  unfoldable pub generate_icsp :
      References → String → String → TypedImageMapping → IcspBuilder → Result IcspError (List Icsp)
  generate_icsp refs name scope mapping builder =
      get_mapping refs builder scope mapping >>= λ rm. generate_loop builder name (length rm) rm []
