-- ===== src/Image/Mapping.antt =====
-- pkg/image/mapping.go. The file that `ReadImageMapping` reads and `WriteImageMapping` writes is its
-- list of lines; opening, scanning and closing it are not modelled.
pub mod Lookups
use Prim.Native.String.{len, slice}
use Prim.Native.String.{◌++◌ as concat}
use oc_mirror.Base.{
  String, ℕ, List, [], ◌∷◌, Bool, true, false, ◌&&◌, ◌==◌, string_eq, Option, none, some, Result,
  ok, err, ◌>>=◌, if◌then◌else◌, ltb, mem,
}
use oc_mirror.Base.Paths
use oc_mirror.Base.GoMap
use oc_mirror.Base.GoMap.{Map}
use oc_mirror.Api.Image.{ImageType}
use oc_mirror.Image.Reference.{
  TypedImage, TypedImageReference, DockerImageReference, References, destination_registry, type_eq,
  image_eq,
}

abbrev pub TypedImageMapping : Type 0
TypedImageMapping = Map TypedImage TypedImage

-- The body of the loop of `ToRegistry`: the destination of one source.
unfoldable pub to_registry_one : String → String → TypedImage → TypedImage → TypedImage
to_registry_one registry namespace src dest =
    let joined = Paths.path_join (namespace ∷ dest.ref.namespace ∷ []) in
    let tag =
      if (dest.ref.tag == "") && ltb 13 (len src.ref.id)
      then slice src.ref.id 7 13
      else dest.ref.tag in
    record {
      type = destination_registry;
      ref = record {
        registry = registry;
        namespace = joined;
        name = dest.ref.name;
        tag = tag;
        id = src.ref.id;
      };
      category = dest.category;
    }

unfoldable pub to_registry : String → String → TypedImageMapping → TypedImageMapping
to_registry registry namespace [] = []
to_registry registry namespace ((src, dest) ∷ m) =
    (src, to_registry_one registry namespace src dest) ∷ to_registry registry namespace m

-- `Merge`: a source that is in the mapping already keeps its destination.
unfoldable pub merge : TypedImageMapping → TypedImageMapping → TypedImageMapping
merge m [] = m
merge m ((k, v) ∷ rest) = merge (if GoMap.has k m then m else GoMap.insert k v m) rest

unfoldable pub add :
    TypedImageMapping → TypedImageReference → TypedImageReference → ImageType → TypedImageMapping
add m src_ref dst_ref typ =
    GoMap.insert (record { type = src_ref.type; ref = src_ref.ref; category = typ })
      (record { type = dst_ref.type; ref = dst_ref.ref; category = typ }) m

unfoldable pub remove : TypedImageMapping → List TypedImage → TypedImageMapping
remove m [] = m
remove m (img ∷ images) = remove (GoMap.delete img m) images

-- The loop of `ByCategory` over the mapping.
unfoldable pub by_category_loop :
    List ImageType → TypedImageMapping → TypedImageMapping → TypedImageMapping
by_category_loop types [] pruned = pruned
by_category_loop types ((key, val) ∷ rest) pruned =
    by_category_loop types rest
      (if mem key.category types then GoMap.insert key val pruned else pruned)

unfoldable pub by_category : TypedImageMapping → List ImageType → TypedImageMapping
by_category m types = by_category_loop types m []

pub data MappingError : Type 0 where
  not_one_separator : String → MappingError
  invalid_reference : String → MappingError

module _ (refs : References) where
  unfoldable pub parse_typed_image : String → ImageType → Result MappingError TypedImage
  parse_typed_image image typ = elim (refs.parse_reference image) [
    | none ↦ err (invalid_reference image)
    | some r ↦ ok (record { type = r.type; ref = r.ref; category = typ })
  ]

  -- The fields of a line, which is refused unless the separator stands in it exactly once.
  unfoldable pub read_fields :
      String → List String → ImageType → Result MappingError (TypedImage × TypedImage)
  read_fields text (src ∷ (dst ∷ [])) typ = parse_typed_image (Paths.trim_space src) typ >>= λ s.
      parse_typed_image (Paths.trim_space dst) typ >>= λ d. ok (s, d)
  read_fields text _ typ = err (not_one_separator text)

  -- The loop of `ReadImageMapping` over the lines, for a separator of one character.
  unfoldable pub read_lines :
      ℕ → ImageType → List String → TypedImageMapping → Result MappingError TypedImageMapping
  read_lines separator typ [] mappings = ok mappings
  read_lines separator typ (text ∷ rest) mappings =
      read_fields text (Paths.split_on separator text) typ >>= λ p.
      read_lines separator typ rest (GoMap.insert p.0 p.1 mappings)

  unfoldable pub read_image_mapping :
      List String → ℕ → ImageType → Result MappingError TypedImageMapping
  read_image_mapping lines separator typ = read_lines separator typ lines []

  -- The lines that `WriteImageMapping` writes.
  unfoldable pub write_image_mapping : TypedImageMapping → List String
  write_image_mapping [] = []
  write_image_mapping ((from, to) ∷ m) =
      concat (refs.exact from.ref) (concat "=" (refs.exact to.ref)) ∷ write_image_mapping m
