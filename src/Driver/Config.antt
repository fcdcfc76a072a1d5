-- ===== src/Driver/Config.antt =====
-- internal/driver/config.go.
use nobus_csi.Common.{Bool, String, Option, none, some, ◌&&◌, not, ◌==◌, if◌then◌else◌}
use nobus_csi.Common.Int.{ℤ, pos}

-- `Logger` is left out: it writes to the standard output alone.
pub record Config : Type 0 where
  pub driver_name : String
  pub version : String
  pub endpoint : String
  pub mode : String
  pub api_url : String
  pub api_key : String
  pub allow_fake : Bool
  pub project_id : String
  pub availability_zone : String
  pub volume_type : String
  pub minimum_volume_bytes : ℤ
  pub volume_granularity_bytes : ℤ

-- The environment: the empty text where a variable is not set.
abbrev pub Env : Type 0
Env = String → String

env_string : Env → String → String → String
env_string env key fallback = if not (env key == "") then env key else fallback

unfoldable pub config_from_env : Env → Config
unfolding env_string
config_from_env env = record {
  driver_name = env_string env "NOBUS_DRIVER_NAME" "csi.nobus.io";
  version = env_string env "NOBUS_DRIVER_VERSION" "0.1.0";
  endpoint = if env "CSI_ENDPOINT" == "" then "unix:///csi/csi.sock" else env "CSI_ENDPOINT";
  mode = "all";
  api_url = env "NOBUS_API_URL";
  api_key = env "NOBUS_API_KEY";
  allow_fake = env "NOBUS_ALLOW_FAKE" == "true";
  project_id = env "NOBUS_PROJECT_ID";
  availability_zone = env "NOBUS_AVAILABILITY_ZONE";
  volume_type = env "NOBUS_VOLUME_TYPE";
  minimum_volume_bytes = pos 1_073_741_824;
  volume_granularity_bytes = pos 1_073_741_824;
}

-- The error of `Validate`, by the field that it names.
pub data ConfigError : Type 0 where
  no_driver_name no_version no_endpoint : ConfigError
  unsupported_mode : String → ConfigError

unfoldable pub validate : Config → Option ConfigError
validate c =
    if c.driver_name == ""
    then some no_driver_name
    else if c.version == ""
    then some no_version
    else if c.endpoint == ""
    then some no_endpoint
    else if not (c.mode == "controller") && not (c.mode == "node") && not (c.mode == "all")
    then some (unsupported_mode c.mode)
    else none
