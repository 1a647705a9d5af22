-- ===== src/Mirror/Manifests.antt =====
-- pkg/cli/mirror/manifests.go and mirror.go: the manifests for a cluster, as objects by the name of their
-- file. Marshalling the objects and writing the files are left out.
use Prim.Native.String.{◌++◌ as concat}
use oc_mirror.Base.{
  String, ℕ, List, [], ◌∷◌, ◌++◌, Bool, Option, none, some, Result, ok, ◌>>=◌, if◌then◌else◌, ◌==◌,
  string_eq, str_lt,
}
use oc_mirror.Base.GoMap
use oc_mirror.Base.GoMap.{Map}
use oc_mirror.Base.Sort.{sort}
use oc_mirror.Api.Image.{
  ocp_release, ocp_release_content, cincinnati_graph, operator_catalog, operator_bundle, generic,
}
use oc_mirror.Image.Mapping.{TypedImageMapping, by_category}
use oc_mirror.Image.Reference.{DockerImageReference, References}
use oc_mirror.Mirror.Icsp.{
  Icsp, IcspBuilder, IcspError, release_builder, generic_builder, operator_builder, generate_icsp,
  namespace_scope,
}

pub record CatalogSource : Type 0 where
  pub name : String
  pub image : String

pub record UpdateService : Type 0 where
  pub name : String
  pub releases : String
  pub graph_data_image : String

pub record Manifests : Type 0 where
  pub update_service : Option UpdateService
  pub catalog_sources : Map String CatalogSource
  pub icsps : List Icsp

abbrev pub without_digest : DockerImageReference → DockerImageReference
without_digest ref = record {
  registry = ref.registry;
  namespace = ref.namespace;
  name = ref.name;
  tag = ref.tag;
  id = if ref.tag == "" then ref.id else "";
}

abbrev pub icsp_lt : Icsp → Icsp → Bool
icsp_lt a b = str_lt a.name b.name

-- `WriteICSPs`: the objects in the order of the file.
unfoldable pub write_icsps : List Icsp → List Icsp
write_icsps icsps = sort icsp_lt icsps

module _ (refs : References) where
  -- A tag is preferred to a digest.
  unfoldable pub generate_catalog_source : String → DockerImageReference → CatalogSource
  generate_catalog_source name dest = record {
    name = name;
    image = refs.ref_string (without_digest dest);
  }

  unfoldable pub generate_update_service :
      String → DockerImageReference → DockerImageReference → UpdateService
  generate_update_service name release_repo graph_data_image = record {
    name = name;
    releases = refs.exact (refs.as_repository release_repo);
    graph_data_image = refs.exact graph_data_image;
  }

  -- `WriteCatalogSource`: a file for each name. A later catalog of the same name overwrites the file.
  unfoldable pub write_catalog_source :
      TypedImageMapping → Map String CatalogSource → Map String CatalogSource
  write_catalog_source [] files = files
  write_catalog_source ((source, dest) ∷ mapping) files = write_catalog_source mapping (
      GoMap.insert (concat "catalogSource-" (concat source.ref.name ".yaml"))
        (generate_catalog_source source.ref.name dest.ref) files)

  -- The update service, where there is one graph and a release. Any release will do: they share a
  -- repository.
  unfoldable pub update_service_of : TypedImageMapping → TypedImageMapping → Option UpdateService
  update_service_of [] releases = none
  update_service_of (g ∷ (h ∷ graphs)) releases = none
  update_service_of ((k, graph) ∷ []) [] = none
  update_service_of ((k, graph) ∷ []) ((j, release) ∷ releases) =
      some (generate_update_service "update-service-oc-mirror" release.ref graph.ref)

  module _ (marshal_length : Icsp → Option ℕ) where
    abbrev pub icsp_size_limit : ℕ
    icsp_size_limit = 250000

    abbrev pub get_icsp : TypedImageMapping → String → IcspBuilder → Result IcspError (List Icsp)
    get_icsp mapping name builder =
        generate_icsp marshal_length icsp_size_limit refs name namespace_scope mapping builder

    unfoldable pub generate_all_manifests : TypedImageMapping → Result IcspError Manifests
    generate_all_manifests mapping =
        let releases = by_category mapping (ocp_release ∷ (ocp_release_content ∷ [])) in
        let graphs = by_category mapping (cincinnati_graph ∷ []) in
        let others = by_category mapping (generic ∷ []) in
        let operators = by_category mapping (operator_bundle ∷ (operator_catalog ∷ [])) in
        get_icsp releases "release" release_builder >>= λ release_icsps.
        get_icsp others "generic" generic_builder >>= λ generic_icsps.
        get_icsp operators "operator" operator_builder >>= λ operator_icsps. ok (record {
          update_service = update_service_of graphs (by_category releases (ocp_release ∷ []));
          catalog_sources = write_catalog_source (by_category operators (operator_catalog ∷ [])) [];
          icsps = write_icsps (release_icsps ++ (generic_icsps ++ operator_icsps));
        })
