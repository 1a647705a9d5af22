-- ===== src/Mirror/Options.antt =====
-- pkg/cli/mirror/mirror.go: the options of the command, from its argument (`Complete`), their checks
-- (`Validate`), and the case of `Run` that they choose.
pub mod Dispatch
use Prim.Native.Char.{Char, code}
use oc_mirror.Base.{
  String, ℕ, List, [], ◌∷◌, Bool, true, false, not, ◌&&◌, ◌||◌, Option, none, some, Result, ok, err,
  ◌>>=◌, if◌then◌else◌, ◌==◌, string_eq, nat_beq, mem,
}
use oc_mirror.Base.Paths
use oc_mirror.Image.Reference.{References, DockerImageReference}

pub record MirrorOptions : Type 0 where
  pub dir : String
  pub output_dir : String
  pub config_path : String
  pub from : String
  pub to_mirror : String
  pub user_namespace : String
  pub filter_options : List String
  pub manifests_only : Bool

pub data OptionsError : Type 0 where
  no_scheme dir_with_file not_registry_only : OptionsError
  unknown_scheme invalid_destination unsupported_architecture : String → OptionsError
  registry_required config_required config_or_from_required : OptionsError
  no_push_permission from_not_found : OptionsError

-- What stands behind the prefix.
abbrev after_prefix : String → String → Option String
after_prefix String.[] s = some s
after_prefix (String.◌∷◌ p ps) String.[] = none
after_prefix (String.◌∷◌ p ps) (String.◌∷◌ c s) =
    let rest = after_prefix ps s in if nat_beq (code p) (code c) then rest else none

abbrev add_char : Char → Option (String × String) → Option (String × String)
add_char c none = none
add_char c (some (scheme, ref)) = some (String.◌∷◌ c scheme, ref)

-- The destination around the first "://".
unfoldable pub cut_scheme : String → Option (String × String)
cut_scheme String.[] = none
cut_scheme (String.◌∷◌ c s) =
    let rest = add_char c (cut_scheme s) in
    elim (after_prefix "://" (String.◌∷◌ c s)) [ some ref ↦ some ("", ref) | none ↦ rest ]

abbrev pub with_filter : MirrorOptions → MirrorOptions
with_filter o = record {
  dir = o.dir;
  output_dir = o.output_dir;
  config_path = o.config_path;
  from = o.from;
  to_mirror = o.to_mirror;
  user_namespace = o.user_namespace;
  filter_options = elim o.filter_options [ [] ↦ "amd64" ∷ [] | a ∷ as' ↦ a ∷ as' ];
  manifests_only = o.manifests_only;
}

-- A destination on the disk: the workspace goes below it.
unfoldable pub complete_file : Bool → String → MirrorOptions → Result OptionsError MirrorOptions
complete_file dir_changed ref o =
    let cleaned = Paths.clean ref in
    let output = if cleaned == "" then "." else cleaned in
    if dir_changed
    then err dir_with_file
    else ok (
        with_filter (record {
          dir = Paths.path_join (output ∷ (o.dir ∷ []));
          output_dir = output;
          config_path = o.config_path;
          from = o.from;
          to_mirror = o.to_mirror;
          user_namespace = o.user_namespace;
          filter_options = o.filter_options;
          manifests_only = o.manifests_only;
        }))

module _ (refs : References) (repository_name : DockerImageReference → String) where
  -- A registry as the destination, with namespaces and nothing more.
  unfoldable pub complete_docker : String → MirrorOptions → Result OptionsError MirrorOptions
  complete_docker ref o = elim (refs.parse_reference ref) [
    | none ↦ err (invalid_destination ref)
    | some mirror ↦
        if not (mirror.ref.id == "") || not (mirror.ref.tag == "")
        then err not_registry_only
        else ok (
            with_filter (record {
              dir = o.dir;
              output_dir = o.output_dir;
              config_path = o.config_path;
              from = o.from;
              to_mirror = mirror.ref.registry;
              user_namespace = repository_name (refs.as_repository mirror.ref);
              filter_options = o.filter_options;
              manifests_only = o.manifests_only;
            }))
  ]

  abbrev pub complete_scheme :
      Bool → MirrorOptions → Option (String × String) → Result OptionsError MirrorOptions
  complete_scheme dir_changed o none = err no_scheme
  complete_scheme dir_changed o (some (scheme, ref)) =
      if scheme == "file"
      then complete_file dir_changed ref o
      else if scheme == "docker"
      then complete_docker ref o
      else err (unknown_scheme scheme)

  unfoldable pub complete : Bool → String → MirrorOptions → Result OptionsError MirrorOptions
  complete dir_changed destination o = complete_scheme dir_changed o (cut_scheme destination)

-- The first architecture that is not supported.
unfoldable pub check_architectures : List String → Option OptionsError
check_architectures [] = none
check_architectures (arch ∷ rest) =
    let later = check_architectures rest in
    if mem arch ("amd64" ∷ ("ppc64le" ∷ ("s390x" ∷ [])))
    then later
    else some (unsupported_architecture arch)

-- `Validate`, with the check of push permissions for an image and that of the archive's path.
unfoldable pub validate : (String → Bool) → (String → Bool) → MirrorOptions → Option OptionsError
validate can_push exists o =
    let image = Paths.path_join (o.to_mirror ∷ (o.user_namespace ∷ ("oc-mirror" ∷ []))) in
    if not (o.from == "") && (o.to_mirror == "")
    then some registry_required
    else if not (o.output_dir == "") && (o.config_path == "")
    then some config_required
    else if not (o.to_mirror == "") && ((o.config_path == "") && (o.from == ""))
    then some config_or_from_required
    else if not (o.to_mirror == "") && not (can_push image)
    then some no_push_permission
    else if not (o.from == "") && not (exists o.from)
    then some from_not_found
    else check_architectures o.filter_options

-- The cases of `Run`.
pub data RunCase : Type 0 where
  manifests_only mirror_to_disk publish_from_disk mirror_to_mirror nothing_to_do : RunCase

unfoldable pub run_case : MirrorOptions → RunCase
run_case o =
    if o.manifests_only
    then manifests_only
    else if not (o.output_dir == "") && (o.from == "")
    then mirror_to_disk
    else if not (o.to_mirror == "") && not (o.from == "")
    then publish_from_disk
    else if not (o.to_mirror == "") && not (o.config_path == "")
    then mirror_to_mirror
    else nothing_to_do
