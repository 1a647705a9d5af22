-- ===== src/Lib.antt =====
-- oc-mirror mirrors OpenShift releases, operator catalogs and other images to a registry or into
-- archives. Here are its parts that compute: what they keep, what they do and what holds of it.
--
-- The parts, in the order in which the program uses them:
-- * Api (pkg/api/v1alpha2): the image set configuration, the metadata and the associations, as
--   records with the structs' fields; Config (pkg/config/validate.go): the checks of a configuration.
-- * Cincinnati (pkg/cincinnati): the update graphs of the release channels. `ShortestPath` is the
--   search of `GetUpdates`, `Updates` has the functions that ask for one graph, `Upgrades` has
--   `CalculateUpgrades` and `calculate`, `Find` has `FindRelease`. The client's query is a state that
--   the functions pass on, since `SetQueryParams` adds to it.
-- * Operator (pkg/operator): `IncludeConfig`, the include configuration of a catalog, made from its
--   channels and brought up to date from one run to the next (declcfg_to_includecfg.go); `Merge`,
--   `ToModel`, `Heads` and `TwoWay`, the merging of a catalog's objects (merge.go).
-- * Image (pkg/image): `AssociationSet`, what is mirrored by image, `Mapping`, sources to
--   destinations, `Convert`, the way into the metadata and back, `Builder`, the associations of the
--   manifests that are on the disk or in a registry (association_builder.go).
-- * Metadata (pkg/metadata/store.go): what is added to the metadata of a run before it is stored.
-- * Archive (pkg/archive/archive.go): the split archives and what is extracted from them.
-- * Bundle (pkg/bundle): the files of the v2 directories that go into an image set, blocked images.
-- * Mirror (pkg/cli/mirror): `Options`, the options and the case of `Run` they choose (mirror.go);
--   `Create`, the plan of a run (create.go), with `Release`, the release images that a configuration
--   needs (release.go), and `Additional`, the additional images (additional.go); `Previous`, what an
--   earlier run mirrored, and `Run`, a run that mirrors to the disk, put together from the parts
--   (mirror.go); `Pack`, from the mirrored files to an archive (pack.go); `Icsp` and `Manifests`, the
--   manifests for a cluster (manifests.go); `Publish`, from the archives to the registry (publish.go);
--   `Sequence`, runs that mirror to the disk and runs that publish as steps of a system, with the
--   configured storage, the archives and the registry as its state. Runs without a storage, and runs whose
--   metadata is not synchronized after the archive is written, are steps of it; runs that fail before,
--   and runs from one registry to another, are not.
-- * Base has what the parts share, and Tests applies the theorems to small inputs.
--
-- Conventions. A Go map is an association list (Base.GoMap) whose order is the order in which `range`
-- visits it, so a theorem about all lists is one about all orders; where the code ranges
-- over one map several times (`generate_loop`), the order is the same each time. A method that changes its receiver
-- returns the new value. An error is data (`Result`, or `Option` where there is no other result), and
-- an aggregate of errors is their list, empty for nil; messages are left out. A panic is an error of
-- its own. A nil slice or map is the empty one. The native numbers stand for `int` where the values
-- are indices, lengths or versions' parts; a sum of sizes in Archive is cut off at 2 ^ 64 as int64
-- does, and read as negative from 2 ^ 63 on.
--
-- Parameters. Code of other projects is an argument: `Semver` and `Minors` for semantic versions,
-- `References` for image references, `Registry`, `Mergo` and `CatalogTools` for catalogs and their model,
-- `Ranges` for ranges of versions, `Outside`, `Disk` and `Command` for archives, files and the registry,
-- `Catalogs` and `Resolver` for pinning images and rendering catalogs, `marshal_length` for the
-- length of marshalled YAML, `fetch` for an update graph by its query, `name_in_archive` for names in
-- an archive. The laws in `Semver` are those of its comparison and of printing and parsing.
--
-- Fuel. `generate_loop` has the number of entries, since each object takes one at least;
-- `bfs_loop` has one more than the number of edges, since each node is queued once; `follow` has the
-- number of visited nodes; these are shown to be enough. The search of
-- pkg/operator/declcfg_to_includecfg.go does not end on all inputs, so its fuel is an argument. The
-- fuel of `calculate` is an argument too: it ends where the service has no next channel.
-- So is that of `associate`, which follows lists of manifests; more than the rank of a list is enough,
-- where each list has a rank above those of its members.
--
-- Not modelled: reading and writing files, JSON and YAML, HTTP, registries and logging; of
-- pkg/cli/mirror the mirroring of operators and charts, which is mostly calls of clients, the run from
-- one registry to another, and the commands that list and describe; the backends of the storage
-- (pkg/metadata/storage), the image builder (pkg/image/builder), the old API version
-- (pkg/api/v1alpha1), which is kept for reading old files, and the vendored code.
pub mod Api
pub mod Archive
pub mod Base
pub mod Bundle
pub mod Cincinnati
pub mod Config
pub mod Image
pub mod Metadata
pub mod Mirror
pub mod Operator
pub mod Tests
