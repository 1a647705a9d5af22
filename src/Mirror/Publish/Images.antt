-- ===== src/Mirror/Publish/Images.antt =====
-- pkg/cli/mirror/publish.go, `Publish`: the loop over the images of the set and over the associations
-- of each. An error that ends the whole run is told from one that is collected.
use Prim.Native.String.{◌++◌ as concat}
use oc_mirror.Base.{
  String, List, [], ◌∷◌, ◌++◌, none, some, Result, ok, err, ◌>>=◌, if◌then◌else◌, ◌==◌, string_eq,
}
use oc_mirror.Base.Paths
use oc_mirror.Base.GoMap.{Map}
use oc_mirror.Api.Config.{Metadata}
use oc_mirror.Api.Image.{Association}
use oc_mirror.Image.AssociationSet.{AssociationSet, search}
use oc_mirror.Image.Mapping
use oc_mirror.Image.Mapping.{TypedImageMapping}
use oc_mirror.Image.Reference.{TypedImageReference, References}
use oc_mirror.Mirror.Publish.{
  PublishError, invalid_reference, image_not_published, ImageMapping, Outside, unpack,
}
use oc_mirror.Mirror.Publish.Blobs.{Destination, fetch_blobs}
use oc_mirror.Mirror.Publish.Layers.{manifest_path, unpack_manifests, unpack_layers}

pub record PublishState : Type 0 where
  pub all_mappings : TypedImageMapping
  pub mmapping : List ImageMapping
  pub errs : List PublishError

abbrev pub fail_with : PublishError → PublishState → PublishState
fail_with e s = record {
  all_mappings = s.all_mappings;
  mmapping = s.mmapping;
  errs = s.errs ++ e ∷ [];
}

abbrev pub with_errors : List PublishError → PublishState → PublishState
with_errors errs s = record { all_mappings = s.all_mappings; mmapping = s.mmapping; errs = errs }

-- The source of an association's mapping: its path, with its tag and its digest.
abbrev pub source_of : Association → String → TypedImageReference → TypedImageReference
source_of assoc tag parsed = record {
  type = parsed.type;
  ref = record {
    registry = parsed.ref.registry;
    namespace = parsed.ref.namespace;
    name = parsed.ref.name;
    tag = tag;
    id = assoc.id;
  };
}

-- The destination: the registry of the mirror, with the name, tag and digest of the source.
abbrev pub destination_of :
    Destination → TypedImageReference → TypedImageReference → TypedImageReference
destination_of dest to_mirror source = record {
  type = to_mirror.type;
  ref = record {
    registry = to_mirror.ref.registry;
    namespace = Paths.path_join (dest.user_namespace ∷ (source.ref.namespace ∷ []));
    name = source.ref.name;
    tag = source.ref.tag;
    id = source.ref.id;
  };
}

module _ {V : Type 0} (refs : References) (out : Outside) (dest : Destination)
    (to_mirror : TypedImageReference) (current : Metadata V) (files : Map String String) where
  -- What is left of the loop's body once the mapping is made. An error of the fetching ends the run.
  unfoldable pub add_mapping :
      String
      → Association
      → TypedImageReference
      → Map String (List String)
      → PublishState
      → Result (List PublishError) PublishState
  add_mapping image_name assoc source missing s =
      let destination = destination_of dest to_mirror source in
      let mapping : ImageMapping = record {
        name = assoc.name;
        source = source;
        destination = destination;
      } in
      let added : PublishState = record {
        all_mappings = s.all_mappings;
        mmapping = s.mmapping ++ mapping ∷ [];
        errs = s.errs;
      } in
      if assoc.name == image_name
      then (elim (refs.parse_reference image_name) [
        | none ↦ ok (fail_with (invalid_reference image_name) added)
        | some image ↦ fetch_missing missing (record {
          all_mappings = Mapping.add added.all_mappings image destination assoc.type;
          mmapping = added.mmapping;
          errs = added.errs;
        })
      ])
      else fetch_missing missing added
    where
      fetch_missing :
          Map String (List String) → PublishState → Result (List PublishError) PublishState
      fetch_missing [] t = ok t
      fetch_missing (layer ∷ layers) t = elim (fetch_blobs refs out dest current (layer ∷ layers)) [
        | [] ↦ ok t
        | e ∷ es ↦ err (e ∷ es)
      ]

  -- The source of the mapping, unless its path or its tag fails.
  unfoldable pub add_source :
      String
      → String
      → Association
      → Map String (List String)
      → PublishState
      → Result (List PublishError) PublishState
  add_source unpack_dir image_name assoc missing s =
      elim (refs.parse_reference (concat "file://" assoc.path)) [
        | none ↦ ok (fail_with (invalid_reference assoc.path) s)
        | some parsed ↦
            if assoc.tag_symlink == ""
            then add_mapping image_name assoc (source_of assoc parsed.ref.tag parsed) missing s
            else (elim (unpack out
                (Paths.path_join (manifest_path assoc ∷ (assoc.tag_symlink ∷ []))) unpack_dir
                files) [
                  | some e ↦ ok (fail_with e s)
                  | none ↦
                      add_mapping image_name assoc (source_of assoc assoc.tag_symlink parsed)
                        missing s
                ])
      ]

  -- The body of the loop over the associations of an image.
  unfoldable pub process_association :
      AssociationSet
      → String
      → String
      → Association
      → PublishState
      → Result (List PublishError) PublishState
  process_association assocs unpack_dir image_name assoc s =
      let errs =
        s.errs
        ++ unpack_manifests out files unpack_dir assocs image_name (manifest_path assoc)
            assoc.manifest_digests in
      elim (unpack out (Paths.path_join (manifest_path assoc ∷ (assoc.id ∷ []))) unpack_dir files) [
        | some e ↦ ok (with_errors (errs ++ e ∷ []) s)
        | none ↦
            let image_path = Paths.path_join (unpack_dir ∷ ("v2" ∷ (assoc.path ∷ []))) in
            let layers =
              unpack_layers out files unpack_dir image_path assoc.layer_digests
                (record { missing = []; errs = errs }) in
            add_source unpack_dir image_name assoc layers.missing (with_errors layers.errs s)
      ]

  unfoldable pub process_associations :
      AssociationSet
      → String
      → String
      → List Association
      → PublishState
      → Result (List PublishError) PublishState
  process_associations assocs unpack_dir image_name [] s = ok s
  process_associations assocs unpack_dir image_name (assoc ∷ rest) s =
      process_association assocs unpack_dir image_name assoc s
      >>= process_associations assocs unpack_dir image_name rest

  -- Mirroring the mappings of an image.
  abbrev pub publish_mappings : PublishState → PublishState
  publish_mappings s = elim s.mmapping [
    | [] ↦ s
    | m ∷ ms ↦ if out.publish_image (m ∷ ms) then s else fail_with image_not_published s
  ]

  -- The loop over the names of the set, each with an unpack directory of its own.
  unfoldable pub process_images :
      AssociationSet
      → (String → String)
      → List String
      → PublishState
      → Result (List PublishError) PublishState
  process_images assocs unpack_dir [] s = ok s
  process_images assocs unpack_dir (image_name ∷ rest) s =
      process_associations assocs (unpack_dir image_name) image_name (search assocs image_name).0
        (record { all_mappings = s.all_mappings; mmapping = []; errs = s.errs })
      >>= λ t. process_images assocs unpack_dir rest (publish_mappings t)
