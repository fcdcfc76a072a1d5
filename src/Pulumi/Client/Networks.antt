-- ===== src/Pulumi/Client/Networks.antt =====
-- network.go: the client's calls about networks and subnets.
pub mod Ports
pub mod Security
use nobus_csi.Common.{String, [], ◌∷◌, ◌++◌, none, some}
use nobus_csi.Cloud.Interface.{Run}
use nobus_csi.Pulumi.Client.Shapes.{
  no_payload, network_payload, network_update_payload, subnet_payload, subnet_update_payload,
}
use nobus_csi.Pulumi.Client.Shapes.Networks.{
  Network, CreateNetworkRequest, NetworkUpdate, NetworkSetup, Subnet, SubnetCreate, SubnetUpdate,
}
use nobus_csi.Pulumi.Client.Calls.{
  Transport, Session, Context, request, project_query, do_request, decoded, ignored,
}

module _ (T : Transport) (ctx : Context) where
  unfoldable pub create_network_bundle : CreateNetworkRequest → Run (Session T) NetworkSetup
  create_network_bundle req =
      do_request T ctx (request "POST" "/api/v3/network/" none (network_payload req))
        (λ b. decoded T (T.as_network_setup b))

  unfoldable pub get_network : String → String → String → Run (Session T) Network
  get_network project zone id =
      do_request T ctx
        (request "GET" "/api/v3/network/"
          (some (project_query project zone ++ ("network_id", id) ∷ [])) no_payload)
        (λ b. decoded T (T.as_network b))

  unfoldable pub update_network : String → String → String → NetworkUpdate → Run (Session T) Network
  update_network project zone id body =
      do_request T ctx
        (request "PUT" "/api/v3/network/" none (network_update_payload project zone id body))
        (λ b. decoded T (T.as_network b))

  unfoldable pub delete_network : String → String → String → Run (Session T) Unit
  delete_network project zone id =
      do_request T ctx
        (request "DELETE" "/api/v3/network/"
          (some (project_query project zone ++ ("network_id", id) ∷ [])) no_payload)
        (ignored T)

  unfoldable pub create_subnet : String → String → SubnetCreate → Run (Session T) Subnet
  create_subnet project zone body =
      do_request T ctx
        (request "POST" "/api/v3/network/subnet" none (subnet_payload project zone body))
        (λ b. decoded T (T.as_subnet b))

  unfoldable pub get_subnet : String → String → String → Run (Session T) Subnet
  get_subnet project zone id =
      do_request T ctx
        (request "GET" "/api/v3/network/subnet"
          (some (project_query project zone ++ ("subnet_id", id) ∷ [])) no_payload)
        (λ b. decoded T (T.as_subnet b))

  unfoldable pub update_subnet : String → String → String → SubnetUpdate → Run (Session T) Subnet
  update_subnet project zone id body =
      do_request T ctx
        (request "PUT" "/api/v3/network/subnet" none (subnet_update_payload project zone id body))
        (λ b. decoded T (T.as_subnet b))

  unfoldable pub delete_subnet : String → String → String → Run (Session T) Unit
  delete_subnet project zone id =
      do_request T ctx
        (request "DELETE" "/api/v3/network/subnet"
          (some (project_query project zone ++ ("subnet_id", id) ∷ [])) no_payload)
        (ignored T)
