-- ===== src/Api/Config.antt =====
-- pkg/api/v1alpha2/types_config.go, types_storage_config.go, types_metadata.go
use oc_mirror.Base.{String, ℕ, List, Bool, not, ◌||◌, Option, is_some}
use oc_mirror.Api.Image.{Association}
use oc_mirror.Api.Include.{IncludeConfig}
use oc_mirror.Api.Platform.{PlatformType}

pub record ReleaseChannel : Type 0 where
  pub name : String
  pub type : PlatformType
  pub min_version : String
  pub max_version : String
  pub shortest_path : Bool
  pub full : Bool

unfoldable pub channel_heads_only : ReleaseChannel → Bool
channel_heads_only r = not r.full

pub record Platform : Type 0 where
  pub graph : Bool
  pub channels : List ReleaseChannel

pub record Operator (V : Type 0) : Type 0 where
  pub include_config : IncludeConfig V
  pub catalog : String
  pub full : Bool
  pub skip_dependencies : Bool

unfoldable pub operator_heads_only : {V : Type 0} → Operator V → Bool
operator_heads_only o = not o.full

pub record Chart : Type 0 where
  pub name : String
  pub version : String
  pub path : String
  pub image_paths : List String

pub record Repository : Type 0 where
  pub url : String
  pub name : String
  pub charts : List Chart

pub record Helm : Type 0 where
  pub repositories : List Repository
  pub local_charts : List Chart

-- `Image`, and `SampleImages`, which embeds it.
pub record Image : Type 0 where
  pub name : String

pub record Mirror (V : Type 0) : Type 0 where
  pub platform : Platform
  pub operators : List (Operator V)
  pub additional_images : List Image
  pub helm : Helm
  pub blocked_images : List Image
  pub samples : List Image

pub record RegistryConfig : Type 0 where
  pub image_url : String
  pub skip_tls : Bool

pub record LocalConfig : Type 0 where
  pub path : String

pub record StorageConfig : Type 0 where
  pub registry : Option RegistryConfig
  pub local_dir : Option LocalConfig

unfoldable pub storage_is_set : StorageConfig → Bool
storage_is_set s = is_some s.registry || is_some s.local_dir

pub record ImageSetConfiguration (V : Type 0) : Type 0 where
  pub mirror : Mirror V
  pub archive_size : ℕ
  pub storage_config : StorageConfig

pub record OperatorMetadata (V : Type 0) : Type 0 where
  pub catalog : String
  pub image_pin : String
  pub include_config : IncludeConfig V

pub record PlatformMetadata : Type 0 where
  pub release_channel : String
  pub min_version : String

pub record PastMirror (V : Type 0) : Type 0 where
  pub timestamp : ℕ
  pub sequence : ℕ
  pub mirror : Mirror V
  pub operators : List (OperatorMetadata V)
  pub platforms : List PlatformMetadata
  pub associations : List Association

pub record Metadata (V : Type 0) : Type 0 where
  pub uid : String
  pub single_use : Bool
  pub past_mirror : PastMirror V
  pub past_associations : List Association
