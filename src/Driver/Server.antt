-- ===== src/Driver/Server.antt =====
-- server.go of internal/driver and the command cmd/nobus-csi: which services are served, where, and
-- on which provider. Sockets, signals and log messages are left out.
pub mod Endpoints
use nobus_csi.Common.{
  Bool, true, false, ◌||◌, String, List, [], ◌∷◌, Option, none, some, ◌==◌, if◌then◌else◌,
}
use nobus_csi.Common.Int.{pos}
use nobus_csi.Common.Text.{strip_prefix}
use nobus_csi.Common.Url.{Url}
use nobus_csi.Cloud.Types.{InstanceMetadata}
use nobus_csi.Cloud.Errors.{Result, ok, err}
use nobus_csi.Cloud.Client.Setup.{ClientConfig, Client, new_client}
use nobus_csi.Driver.Config.{Config, ConfigError, validate}

-- The gRPC services, each registered on the server with the driver.
pub data Service : Type 0 where
  identity controller node : Service

-- Why the command does not start.
pub data StartError : Type 0 where
  invalid_config : ConfigError → StartError
  linux_required tcp_unsupported unix_required path_required : StartError

pub data Start (A : Type 0) : Type 0 where
  started : A → Start A
  refused : StartError → Start A

-- A mode that `Validate` accepts.
services_of : String → List Service
services_of mode =
    if mode == "controller"
    then identity ∷ controller ∷ []
    else if mode == "node"
    then identity ∷ node ∷ []
    else if mode == "all"
    then identity ∷ controller ∷ node ∷ []
    else identity ∷ []

registered : List Service → Option ConfigError → Start (List Service)
registered services none = started services
registered services (some e) = refused (invalid_config e)

unfoldable pub new_server : Config → Start (List Service)
unfolding services_of registered
new_server config = registered (services_of config.mode) (validate config)

address_of : Option String → Start String
address_of none = refused unix_required
address_of (some address) = if address == "" then refused path_required else started address

has_prefix : Option String → Bool
has_prefix none = false
has_prefix (some rest) = true

unfoldable pub unix_address : String → Start String
unfolding address_of has_prefix
unix_address endpoint =
    if has_prefix (strip_prefix "tcp://" endpoint)
    then refused tcp_unsupported
    else address_of (strip_prefix "unix://" endpoint)

-- The operating system is `runtime.GOOS`.
unfoldable pub require_linux_node : String → Config → Option StartError
require_linux_node system config =
    if config.mode == "controller"
    then none
    else if system == "linux" || config.allow_fake
    then none
    else some linux_required

-- The provider in memory with its metadata, or a client.
pub data Provider : Type 0 where
  fake : InstanceMetadata → Provider
  client : Client → Provider

client_provider : Result Client → Result Provider
client_provider (ok c) = ok (client c)
client_provider (err e) = err e

-- `parse` is `url.Parse`.
unfoldable pub provider_from_config : (String → Option Url) → Config → Result Provider
unfolding client_provider
provider_from_config parse config =
    if config.allow_fake
    then ok (
        fake (record {
          instance_id = "nobus-test-instance";
          availability_zone = config.availability_zone;
          region = "unknown";
          max_volumes_per_node = pos 32;
        }))
    else client_provider (
        new_client parse (record {
          base_url = config.api_url;
          api_key = config.api_key;
          project_id = config.project_id;
          availability_zone = config.availability_zone;
        }))
