-- ===== src/Cloud/Client/Setup.antt =====
-- `NewClient` of client.go. The HTTP client is the transport's, and durations are in milliseconds.
use nobus_csi.Common.{ℕ, ◌||◌, String, Option, none, some, ◌==◌, if◌then◌else◌, []}
use nobus_csi.Common.Text.{trim_slashes}
use nobus_csi.Common.Url.{Url}
use nobus_csi.Cloud.Errors.{Result, ok, err, wrap}

pub record ClientConfig : Type 0 where
  pub base_url : String
  pub api_key : String
  pub project_id : String
  pub availability_zone : String

pub record Client : Type 0 where
  pub base : Url
  pub config : ClientConfig
  pub poll : ℕ

made_client : ClientConfig → Option Url → Result Client
made_client config none = err (wrap [])
made_client config (some base) =
    if base.scheme == "" || base.host == ""
    then err (wrap [])
    else if config.api_key == ""
    then err (wrap [])
    else ok (record { base = base; config = config; poll = 2_000 })

-- `parse` is `url.Parse`.
unfoldable pub new_client : (String → Option Url) → ClientConfig → Result Client
unfolding made_client
new_client parse config = made_client config (parse (trim_slashes config.base_url))
