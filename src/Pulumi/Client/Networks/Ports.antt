-- ===== src/Pulumi/Client/Networks/Ports.antt =====
-- network.go: the client's calls about ports and routers.
use nobus_csi.Common.{String, [], ◌∷◌, ◌++◌, none, some}
use nobus_csi.Cloud.Interface.{Run}
use nobus_csi.Pulumi.Client.Shapes.{
  no_payload, port_payload, port_update_payload, router_payload, router_update_payload,
}
use nobus_csi.Pulumi.Client.Shapes.Networks.{Port, PortCreate, PortUpdate, Router, RouterWrite}
use nobus_csi.Pulumi.Client.Calls.{
  Transport, Session, Context, request, project_query, do_request, decoded, ignored,
}

module _ (T : Transport) (ctx : Context) where
  unfoldable pub create_port : String → String → PortCreate → Run (Session T) Port
  create_port project zone body =
      do_request T ctx (request "POST" "/api/v3/network/port" none (port_payload project zone body))
        (λ b. decoded T (T.as_port b))

  unfoldable pub get_port : String → String → String → Run (Session T) Port
  get_port project zone id =
      do_request T ctx
        (request "GET" "/api/v3/network/port"
          (some (project_query project zone ++ ("port_id", id) ∷ [])) no_payload)
        (λ b. decoded T (T.as_port b))

  unfoldable pub update_port : String → String → String → PortUpdate → Run (Session T) Port
  update_port project zone id body =
      do_request T ctx
        (request "PUT" "/api/v3/network/port" none (port_update_payload project zone id body))
        (λ b. decoded T (T.as_port b))

  unfoldable pub delete_port : String → String → String → Run (Session T) Unit
  delete_port project zone id =
      do_request T ctx
        (request "DELETE" "/api/v3/network/port"
          (some (project_query project zone ++ ("port_id", id) ∷ [])) no_payload)
        (ignored T)

  unfoldable pub create_router : String → String → RouterWrite → Run (Session T) Router
  create_router project zone body =
      do_request T ctx
        (request "POST" "/api/v3/network/router" none (router_payload project zone body))
        (λ b. decoded T (T.as_router b))

  unfoldable pub get_router : String → String → String → Run (Session T) Router
  get_router project zone id =
      do_request T ctx
        (request "GET" "/api/v3/network/router"
          (some (project_query project zone ++ ("router_id", id) ∷ [])) no_payload)
        (λ b. decoded T (T.as_router b))

  unfoldable pub update_router : String → String → String → RouterWrite → Run (Session T) Router
  update_router project zone id body =
      do_request T ctx
        (request "PUT" "/api/v3/network/router" none (router_update_payload project zone id body))
        (λ b. decoded T (T.as_router b))

  unfoldable pub delete_router : String → String → String → Run (Session T) Unit
  delete_router project zone id =
      do_request T ctx
        (request "DELETE" "/api/v3/network/router"
          (some (project_query project zone ++ ("router_id", id) ∷ [])) no_payload)
        (ignored T)
