-- ===== src/Pulumi/Provider/Configure.antt =====
-- `Configure` of provider.go: the environment fills what the configuration leaves empty.
use nobus_csi.Common.{String}
use nobus_csi.Common.Int.{pos}
use nobus_csi.Common.Text.{or_else}
use nobus_csi.Common.Url.{Url}
use nobus_csi.Cloud.Errors.{Result, ok, err}
use nobus_csi.Pulumi.Client.Setup.{Client, new_client}
use nobus_csi.Common.{Option}

pub record Settings : Type 0 where
  pub api_key : String
  pub endpoint : String
  pub project_id : String
  pub availability_zone : String

-- `env` is `os.Getenv`.
abbrev pub with_env : (String → String) → Settings → Settings
with_env env c = record {
  api_key = or_else c.api_key (env "NOBUS_API_KEY");
  endpoint = or_else c.endpoint (env "NOBUS_ENDPOINT");
  project_id = or_else c.project_id (env "NOBUS_PROJECT_ID");
  availability_zone = or_else c.availability_zone (env "NOBUS_AVAILABILITY_ZONE");
}

configured : Settings → Result Client → Result (Settings × Client)
configured c (ok client) = ok (c, client)
configured c (err e) = err e

unfoldable pub configure :
    (String → String) → (String → Option Url) → Settings → Result (Settings × Client)
unfolding configured
configure env parse c =
    let filled = with_env env c in
    configured filled (
      new_client parse
        (record { endpoint = filled.endpoint; api_key = filled.api_key; poll = pos 0 }))
