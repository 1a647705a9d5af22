-- ===== src/Api/Platform.antt =====
-- pkg/api/v1alpha2/types_platform.go
use oc_mirror.Base.{String, ℕ, Option, none, some, ◌==◌, string_eq, Result, ok, err, if◌then◌else◌}

-- `PlatformType` is an `int`; `unknown` stands for the values that are no constant of the block.
pub data PlatformType : Type 0 where
  ocp okd : PlatformType
  unknown : ℕ → PlatformType

pub data PlatformError : Type 0 where
  unknown_platform_type : PlatformError

-- A lookup in `platformTypeStrings`.
unfoldable pub platform_type_strings : PlatformType → Option String
platform_type_strings ocp = some "ocp"
platform_type_strings okd = some "okd"
platform_type_strings (unknown n) = none

-- A lookup in `platformStringsType`; a missing key gives the zero value, `TypeOCP`.
unfoldable pub platform_strings_type : String → PlatformType
platform_strings_type s = if s == "ocp" then ocp else if s == "okd" then okd else ocp

-- The string that `MarshalJSON` hands to `json.Marshal`; `validate` is its guard.
unfoldable pub marshal_platform : PlatformType → Result PlatformError String
unfolding platform_type_strings
marshal_platform pt = elim (platform_type_strings pt) [
  | none ↦ err unknown_platform_type
  | some s ↦ ok s
]
