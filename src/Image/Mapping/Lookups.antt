-- ===== src/Image/Mapping/Lookups.antt =====
-- What is found in a mapping after each of its operations.
use text.Mathlib.TextEquality.{eq_iff}
use oc_mirror.Base.{
  String, ◌≡◌, ◌⊎◌, List, [], ◌∷◌, none, some, arith, refl, if◌then◌else◌, or_else, mem, Bool-cases,
  inl, inr, string_eq,
}
use oc_mirror.Base.GoMap
use oc_mirror.Base.GoMap.{has-eq-is_some}
use oc_mirror.Api.Image.{ImageType}
use oc_mirror.Image.Reference.{TypedImage, image_beq_iff, destination_registry, type_eq, image_eq}
use oc_mirror.Image.Mapping.{
  TypedImageMapping, to_registry, to_registry_one, merge, remove, by_category, by_category_loop,
}

-- A merge of mappings never changes the destination of a source that is there already, and takes the
-- other mapping's destination for the sources that are not.
pub lookup-merge :
    (m other : TypedImageMapping) (k : TypedImage)
    → GoMap.lookup k (merge m other) ≡ or_else (GoMap.lookup k m) (GoMap.lookup k other)
unfolding merge GoMap.lookup
lookup-merge m [] k = ground arith
lookup-merge m ((j, v) ∷ other) k = elim (Bool-cases (GoMap.has j m)) [
  | inl t ↦ rw t (ground (arith, lookup-merge m other k, has-eq-is_some j m, image_beq_iff j k))
  | inr f ↦ rw f (
      ground (
        arith,
        lookup-merge (GoMap.insert j v m) other k,
        GoMap.lookup-insert j k v m,
        has-eq-is_some j m,
        image_beq_iff j k,
      ))
]

-- Removing images removes exactly these sources.
lookup-remove :
    (m : TypedImageMapping) (images : List TypedImage) (k : TypedImage)
    → GoMap.lookup k (remove m images) ≡ (if mem k images then none else GoMap.lookup k m)
unfolding remove
lookup-remove m [] k = refl
lookup-remove m (img ∷ images) k = ground (
  arith,
  lookup-remove (GoMap.delete img m) images k,
  GoMap.lookup-delete img k m,
  image_beq_iff img k,
)

by_category_loop-lookup :
    (types : List ImageType) (m pruned : TypedImageMapping) (k : TypedImage)
    → GoMap.Distinct m
    → GoMap.lookup k (by_category_loop types m pruned) ≡ (
        if mem k.category types
        then or_else (GoMap.lookup k m) (GoMap.lookup k pruned)
        else GoMap.lookup k pruned)
unfolding by_category_loop GoMap.lookup
by_category_loop-lookup types [] pruned k d = ground arith
by_category_loop-lookup types ((j, v) ∷ m) pruned k d = elim (Bool-cases (mem j.category types)) [
  | inl t ↦ rw t (
      ground (
        arith,
        by_category_loop-lookup types m (GoMap.insert j v pruned) k,
        GoMap.lookup-insert j k v pruned,
        image_beq_iff j k,
      ))
  | inr f ↦ rw f (ground (arith, by_category_loop-lookup types m pruned k, image_beq_iff j k))
]

-- A mapping cut down to some categories holds exactly the sources of these categories, with their
-- destinations.
pub lookup-by_category :
    (m : TypedImageMapping) (types : List ImageType) (k : TypedImage)
    → GoMap.Distinct m
    → GoMap.lookup k (by_category m types)
      ≡ (if mem k.category types then GoMap.lookup k m else none)
unfolding by_category GoMap.lookup
lookup-by_category m types k d = ground (arith, by_category_loop-lookup types m [] k)

-- What `ToRegistry` makes of the destination of one source.
abbrev pub IsRedirected : String → TypedImage → TypedImage → TypedImage → Type 0
IsRedirected registry src old new =
    (new.type ≡ destination_registry)
    × (new.ref.registry ≡ registry)
    × (new.ref.id ≡ src.ref.id)
    × (new.ref.name ≡ old.ref.name)
    × (new.category ≡ old.category)
    × ((old.ref.tag ≡ "") ⊎ (new.ref.tag ≡ old.ref.tag))

-- `ToRegistry` keeps every source. Its destination moves to the registry, is pinned to the source's
-- digest, and keeps its name, its category and its tag, if it had one.
pub to_registry-IsRedirected :
    (registry namespace : String) (m : TypedImageMapping) (src dest : TypedImage)
    → GoMap.lookup src m ≡ some dest
    → (new : TypedImage) × (GoMap.lookup src (to_registry registry namespace m) ≡ some new)
      × IsRedirected registry src dest new
unfolding to_registry to_registry_one GoMap.lookup
to_registry-IsRedirected registry namespace [] src dest h = cc
to_registry-IsRedirected registry namespace ((s, d) ∷ m) src dest h =
    elim (Bool-cases (image_eq.beq s src)) [
      | inl t ↦ (
        to_registry_one registry namespace s d,
        ground arith,
        ground (arith, image_beq_iff s src, eq_iff dest.ref.tag ""),
      )
      | inr f ↦
          let (new, found, redirected) =
            to_registry-IsRedirected registry namespace m src dest (ground arith) in
          (new, ground arith, redirected)
    ]
