-- ===== src/Image/Builder.antt =====
-- pkg/image/association_builder.go: the associations of mirrored images, from the manifests on the disk
-- or in a registry. A manifest list names further manifests, so the functions that follow it have fuel.
pub mod Closed
pub mod Ranked
use Prim.Native.String.{◌++◌ as concat, len, slice}
use oc_mirror.Base.{
  String, ℕ, zero, suc, List, [], ◌∷◌, ◌++◌, Bool, true, false, not, Option, none, some, Result, ok,
  err, ◌>>=◌, if◌then◌else◌, ◌==◌, string_eq, ltb,
}
use oc_mirror.Base.Paths
use oc_mirror.Api.Image.{Association, ImageType}
use oc_mirror.Image.AssociationSet.{AssociationSet, add, set_contains_key}
use oc_mirror.Image.Mapping.{TypedImageMapping}
use oc_mirror.Image.Reference.{
  TypedImage, TypedImageReference, DockerImageReference, References, destination_registry,
}

pub data BuildError : Type 0 where
  invalid_image : String → BuildError
  invalid_component : String → String → BuildError
  wrong_destination : String → BuildError
  invalid_reference : String → BuildError
  file_failed link_failed wrong_mode unparseable bad_manifest request_failed : BuildError
  slice_out_of_range out_of_fuel : BuildError

-- What a manifest's bytes hold: a list of manifests, or the layers and the configuration of an image.
-- `no_type` is a manifest of no known type, `bad` one that does not parse.
pub data Manifest : Type 0 where
  index : List String → Manifest
  layers : List String → String → Manifest
  no_type bad : Manifest

-- What `os.Lstat` finds; a symbolic link has its target.
pub data Entry : Type 0 where
  missing failed other : Entry
  symlink : String → Entry
  regular : Entry

pub record Disk : Type 0 where
  pub dir_exists : String → Bool
  pub lstat : String → Entry
  pub make_symlink : String → String → Bool
  pub read_file : String → Option Manifest

-- The digest or the file name, the tag and the contents of a manifest.
pub record Found : Type 0 where
  pub id : String
  pub tag : String
  pub content : Manifest

abbrev pub Finder : Type 0
Finder = String → String → String → Result BuildError Found

-- Both kinds of manifests, an image's with its configuration as the last layer.
abbrev pub association_of :
    String → String → ImageType → Found → List String → List String → Association
association_of image path typ found manifest_digests layer_digests = record {
  name = image;
  path = path;
  id = found.id;
  tag_symlink = found.tag;
  type = typ;
  manifest_digests = manifest_digests;
  layer_digests = layer_digests;
}

-- A loop over digests that gathers lists.
unfoldable pub gather :
    (String → Result BuildError (List Association))
    → List String
    → Result BuildError (List Association)
gather f [] = ok []
gather f (d ∷ ds) = f d >>= λ found. gather f ds >>= λ rest. ok (found ++ rest)

module _ (find : Finder) (path : String) (typ : ImageType) (skip_parse : String → Bool) where
  -- The associations of a manifest that is found, those of its children first.
  abbrev pub associate_found :
      (String → Result BuildError (List Association))
      → String
      → Found
      → Manifest
      → Result BuildError (List Association)
  associate_found child image found no_type = err unparseable
  associate_found child image found bad = err bad_manifest
  associate_found child image found (index digests) = gather child digests >>= λ associations.
      ok (associations ++ association_of image path typ found digests [] ∷ [])
  associate_found child image found (layers digests config) =
      ok (association_of image path typ found [] (digests ++ config ∷ []) ∷ [])

  -- `associateLocalImageLayers` and `associateRemoteImageLayers`. A child has its digest as its name and
  -- in place of the tag or digest, and no default tag.
  unfoldable pub associate : ℕ → String → String → String → Result BuildError (List Association)
  associate zero image tag_or_id default_tag = err out_of_fuel
  associate (suc fuel) image tag_or_id default_tag = elim (skip_parse image) [
    | true ↦ ok []
    | false ↦ find image tag_or_id default_tag >>= λ found.
        associate_found (λ digest. associate fuel digest digest "") image found found.content
  ]

-- The tag for a file that is no link, with a part of its name; a link of that name is made.
abbrev pub tag_file : Disk → String → String → String → Result BuildError String
tag_file disk dir id default_tag =
    if default_tag == ""
    then ok ""
    else if ltb (len id) 13
    then err slice_out_of_range
    else (let tag = concat default_tag (slice id 7 13) in
        if disk.make_symlink id (Paths.path_join (dir ∷ (tag ∷ [])))
        then ok tag
        else err link_failed)

abbrev pub read_manifest : Disk → String → String → String → Result BuildError Found
read_manifest disk path id tag = elim (disk.read_file path) [
  | none ↦ err file_failed
  | some content ↦ ok (record { id = id; tag = tag; content = content })
]

-- The manifest of an image on the disk, by its tag or digest.
unfoldable pub local_manifest : Disk → String → String → Finder
local_manifest disk local_root dir_ref image tag_or_id default_tag =
    let dir = Paths.path_join (local_root ∷ (dir_ref ∷ ("manifests" ∷ []))) in
    let path = Paths.path_join (local_root ∷ (dir_ref ∷ ("manifests" ∷ (tag_or_id ∷ [])))) in
    elim (disk.lstat path) [
      | missing ↦ err (invalid_component image tag_or_id)
      | failed ↦ err file_failed
      | other ↦ err wrong_mode
      | symlink target ↦ read_manifest disk path (Paths.base target) tag_or_id
      | regular ↦
          tag_file disk dir tag_or_id default_tag >>= λ tag. read_manifest disk path tag_or_id tag
    ]

abbrev pub received : String → String → Option Manifest → Result BuildError Found
received id tag none = err request_failed
received id tag (some content) = ok (record { id = id; tag = tag; content = content })

-- The manifest of a digest in a registry; the tag stands beside it.
unfoldable pub remote_manifest : (String → Option Manifest) → Finder
remote_manifest get image id tag = received id tag (get id)

-- The associations so far, and the errors.
pub record Build : Type 0 where
  pub set : AssociationSet
  pub errs : List BuildError

abbrev pub build_error : BuildError → Build → Build
build_error e b = record { set = b.set; errs = b.errs ++ e ∷ [] }

abbrev pub add_associations : String → List Association → AssociationSet → AssociationSet
add_associations key [] set = set
add_associations key (a ∷ as') set = add_associations key as' (add set key (a ∷ []))

abbrev pub add_result : String → Result BuildError (List Association) → Build → Build
add_result key (err e) b = build_error e b
add_result key (ok associations) b = record {
  set = add_associations key associations b.set;
  errs = b.errs;
}

abbrev pub destination_file : String
destination_file = "file"

-- What a registry answers: `ResolveToPin`, opening a repository, and the manifests by digest.
pub record Remote : Type 0 where
  pub resolve_to_pin : String → Option String
  pub open_repository : DockerImageReference → Bool
  pub get_manifest : DockerImageReference → String → Option Manifest

abbrev pub with_id : String → DockerImageReference → DockerImageReference
with_id id ref = record {
  registry = ref.registry;
  namespace = ref.namespace;
  name = ref.name;
  tag = ref.tag;
  id = id;
}

module _ (refs : References) (image_string : TypedImage → String) (fuel : ℕ) where
  -- The body of the loop of `AssociateLocalImageLayers`.
  unfoldable pub associate_local_image : Disk → String → TypedImage → TypedImage → Build → Build
  associate_local_image disk local_root image disk_loc b =
      let dir_ref = refs.ref_string (refs.as_repository disk_loc.ref) in
      let tag_or_id = if disk_loc.ref.tag == "" then disk_loc.ref.id else disk_loc.ref.tag in
      let key = refs.ref_string image.ref in
      if not (disk_loc.type == destination_file)
      then build_error (wrong_destination (refs.exact image.ref)) b
      else if not (disk.dir_exists (Paths.path_join (local_root ∷ (dir_ref ∷ []))))
      then build_error (invalid_image (image_string image)) b
      else if tag_or_id == ""
      then build_error (invalid_component (image_string image) tag_or_id) b
      else add_result key
          (associate (local_manifest disk local_root dir_ref) dir_ref image.category
            (set_contains_key b.set) fuel key tag_or_id "oc-mirror")
          b

  unfoldable pub associate_local_loop : Disk → String → TypedImageMapping → Build → Build
  associate_local_loop disk local_root [] b = b
  associate_local_loop disk local_root ((image, disk_loc) ∷ rest) b =
      associate_local_loop disk local_root rest
        (associate_local_image disk local_root image disk_loc b)

  unfoldable pub associate_local_image_layers : Disk → String → TypedImageMapping → Build
  associate_local_image_layers disk root_dir mappings =
      associate_local_loop disk (Paths.path_join (root_dir ∷ ("v2" ∷ []))) mappings
        (record { set = []; errs = [] })

  -- The reference with a digest: a tag is resolved to one.
  abbrev pub pin : Remote → TypedImage → Result BuildError DockerImageReference
  pin remote src =
      if not (src.ref.id == "")
      then ok src.ref
      else if src.ref.tag == ""
      then err (invalid_component (image_string src) src.ref.tag)
      else (elim (remote.resolve_to_pin (refs.exact src.ref)) [
        | none ↦ err request_failed
        | some pinned ↦ elim (refs.parse_reference pinned) [
          | none ↦ err (invalid_reference pinned)
          | some r ↦ ok (with_id r.ref.id src.ref)
        ]
      ])

  abbrev pub associate_pinned :
      Remote → TypedImage → TypedImage → Build → Result BuildError DockerImageReference → Build
  associate_pinned remote src dst b (err e) = build_error e b
  associate_pinned remote src dst b (ok ref) =
      let key = image_string (record { type = src.type; ref = ref; category = src.category }) in
      if remote.open_repository ref
      then add_result key
          (associate (remote_manifest (remote.get_manifest ref)) (image_string dst) src.category
            (set_contains_key b.set) fuel key ref.id ref.tag)
          b
      else build_error request_failed b

  -- The body of the loop of `AssociateRemoteImageLayers`.
  unfoldable pub associate_remote_image : Remote → TypedImage → TypedImage → Build → Build
  associate_remote_image remote src dst b =
      if dst.type == destination_registry
      then associate_pinned remote src dst b (pin remote src)
      else build_error (wrong_destination (refs.exact src.ref)) b

  unfoldable pub associate_remote_image_layers : Remote → TypedImageMapping → Build → Build
  associate_remote_image_layers remote [] b = b
  associate_remote_image_layers remote ((src, dst) ∷ rest) b =
      associate_remote_image_layers remote rest (associate_remote_image remote src dst b)
