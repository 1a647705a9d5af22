-- ===== src/Config.antt =====
-- pkg/config/validate.go: the checks of an image set configuration.
pub mod Accepts
use oc_mirror.Base.{
  String, List, [], ◌∷◌, ◌++◌, Bool, true, false, ◌&&◌, not, Option, none, some, string_eq,
  if◌then◌else◌,
}
use oc_mirror.Base.GoMap
use oc_mirror.Base.GoMap.{Map}
use oc_mirror.Api.Image.{is_empty}
use oc_mirror.Api.Config.{ImageSetConfiguration, Operator, ReleaseChannel, operator_heads_only}

pub data ConfigError : Type 0 where
  packages_need_full duplicate_channel : String → ConfigError

unfoldable pub validate_operator_options : {V : Type 0} → List (Operator V) → Option ConfigError
validate_operator_options [] = none
validate_operator_options (ctlg ∷ rest) =
    if not (is_empty ctlg.include_config.packages) && operator_heads_only ctlg
    then some (packages_need_full ctlg.catalog)
    else validate_operator_options rest

-- seen[name], which is false for a name that is missing
abbrev pub flag : Option Bool → Bool
flag none = false
flag (some b) = b

-- The loop of `validateReleaseChannels`, from the channels seen so far.
unfoldable pub check_channels : Map String Bool → List ReleaseChannel → Option ConfigError
check_channels seen [] = none
check_channels seen (channel ∷ rest) =
    let later = check_channels (GoMap.insert channel.name true seen) rest in
    if flag (GoMap.lookup channel.name seen) then some (duplicate_channel channel.name) else later

unfoldable pub validate_release_channels : List ReleaseChannel → Option ConfigError
validate_release_channels channels = check_channels [] channels

abbrev pub error_list {ℓ} : {A : Type ℓ} → Option A → List A
error_list none = []
error_list (some e) = e ∷ []

-- `Validate`: the errors that its aggregate holds; there is no error when the list is empty.
unfoldable pub validate : {V : Type 0} → ImageSetConfiguration V → List ConfigError
validate cfg =
    error_list (validate_operator_options cfg.mirror.operators)
    ++ error_list (validate_release_channels cfg.mirror.platform.channels)
