-- ===== src/Image/Reference.antt =====
-- Image references, as the program takes them from other projects: the structs that it reads and
-- writes (`imagesource.TypedImageReference`, `reference.DockerImageReference`), and the functions on
-- them as parameters. `TypedImage` is that of pkg/image/mapping.go.
use text.Mathlib.TextEquality.{eq_iff}
use oc_mirror.Base.{
  String, Bool, true, ◌≡◌, ◌↔◌, ◌&&◌, ◌==◌, string_eq, nat_eq, Option, arith, Eq, nat_beq, false,
}
use oc_mirror.Api.Image.{
  ImageType, invalid, ocp_release, ocp_release_content, cincinnati_graph, operator_catalog,
  operator_bundle, operator_related_image, generic, unknown,
}

pub record DockerImageReference : Type 0 where
  pub registry : String
  pub namespace : String
  pub name : String
  pub tag : String
  pub id : String

-- `type` is the destination type, such as "docker" or "file".
pub record TypedImageReference : Type 0 where
  pub type : String
  pub ref : DockerImageReference

pub record TypedImage : Type 0 where
  pub type : String
  pub ref : DockerImageReference
  pub category : ImageType

-- imagesource.DestinationRegistry
abbrev pub destination_registry : String
destination_registry = "docker"

-- The functions of other projects on references: `ParseReference`, `Exact`, `String` and
-- `AsRepository`.
pub record References : Type 0 where
  pub parse_reference : String → Option TypedImageReference
  pub exact : DockerImageReference → String
  pub ref_string : DockerImageReference → String
  pub as_repository : DockerImageReference → DockerImageReference

abbrev pub type_beq : ImageType → ImageType → Bool
type_beq invalid invalid = true
type_beq ocp_release ocp_release = true
type_beq ocp_release_content ocp_release_content = true
type_beq cincinnati_graph cincinnati_graph = true
type_beq operator_catalog operator_catalog = true
type_beq operator_bundle operator_bundle = true
type_beq operator_related_image operator_related_image = true
type_beq generic generic = true
type_beq (unknown m) (unknown n) = nat_beq m n
type_beq _ _ = false

pub type_beq_iff : (a b : ImageType) → (type_beq a b ≡ true) ↔ (a ≡ b)
type_beq_iff invalid b = ground arith
type_beq_iff _ b = ground arith

instance abbrev pub type_eq : Eq ImageType
type_eq = record { beq = type_beq; beq_iff = type_beq_iff }

abbrev pub ref_beq : DockerImageReference → DockerImageReference → Bool
ref_beq a b =
    (a.registry == b.registry)
    && ((a.namespace == b.namespace)
        && ((a.name == b.name) && ((a.tag == b.tag) && (a.id == b.id))))

ref_beq_iff : (a b : DockerImageReference) → (ref_beq a b ≡ true) ↔ (a ≡ b)
ref_beq_iff a b = ground (
  arith,
  eq_iff a.registry b.registry,
  eq_iff a.namespace b.namespace,
  eq_iff a.name b.name,
  eq_iff a.tag b.tag,
  eq_iff a.id b.id,
)

abbrev pub image_beq : TypedImage → TypedImage → Bool
image_beq a b = (a.type == b.type) && (ref_beq a.ref b.ref && type_beq a.category b.category)

pub image_beq_iff : (a b : TypedImage) → (image_beq a b ≡ true) ↔ (a ≡ b)
image_beq_iff a b =
    ground
      (arith, eq_iff a.type b.type, ref_beq_iff a.ref b.ref, type_beq_iff a.category b.category)

instance abbrev pub image_eq : Eq TypedImage
image_eq = record { beq = image_beq; beq_iff = image_beq_iff }
