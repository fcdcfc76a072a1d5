-- ===== src/Pulumi/Provider/Network/Kept.antt =====
-- A network that the API has made is not lost where it cannot be read.
use nobus_csi.Common.{◌≡◌, refl, false, String, none, some}
use nobus_csi.Cloud.Errors.{Error, Result, ok, err}
use nobus_csi.Cloud.Run.{lift}
use nobus_csi.Pulumi.Client.Shapes.Networks.{NetworkSetup}
use nobus_csi.Pulumi.Client.Shapes.Networks as Api
use nobus_csi.Pulumi.Client.Calls.{Transport, Session, Context}
use nobus_csi.Pulumi.Client.Networks.{create_network_bundle, get_network}
use nobus_csi.Pulumi.Provider.Scope.{Config, Location, scoped_id, resolve_scope}
use nobus_csi.Pulumi.Provider.Steps.{Created, finish, or_return, returned}
use nobus_csi.Pulumi.Provider.Network.{
  NetworkArgs, NetworkState, with_parts, enrich_network_state, create, create_request, located,
}

module _ (T : Transport) (cfg : Config) (ctx : Context) (place : Location)
    (made : NetworkSetup) where
  -- The identifier, the subnet and the router that are returned are those that were made.
  abbrev pub Kept : Created NetworkState → Type 0
  Kept c =
      (c.id ≡ scoped_id place.zone place.project made.network_id)
      × (c.state.subnet_id ≡ made.subnet_id)
      × (c.state.router_id ≡ made.router_id)

  read-Kept :
      (input : NetworkArgs) (r : Result Api.Network) (s : Session T)
      → Kept
          (returned {R = Created NetworkState}
            (λ (e : Error). record {
              id = scoped_id place.zone place.project made.network_id;
              state = with_parts input made;
              failed = some e;
            })
            (λ net. finish (record {
              id = scoped_id place.zone place.project made.network_id;
              state = enrich_network_state (with_parts input made) net;
              failed = none;
            }))
            (r, s)).0
  unfolding finish enrich_network_state
  read-Kept input (ok net) s = (refl, refl, refl)
  read-Kept input (err e) s = (refl, refl, refl)

  -- Once the API has made a network with its subnet and router, all three are returned, however
  -- reading the network ends.
  pub create-Kept :
      (name : String) (args : NetworkArgs) (s t : Session T)
      → resolve_scope cfg args.project_id args.availability_zone ≡ ok place
      → create_network_bundle T ctx
          (create_request place.project place.zone (located place.project place.zone args))
          s
        ≡ (ok made, t)
      → Kept (create T cfg ctx name args false s).0
  unfolding create or_return lift
  create-Kept name args s t resolved bundle =
      let got = get_network T ctx place.project place.zone made.network_id t in
      rw (resolved, bundle) (read-Kept (located place.project place.zone args) got.0 got.1)
