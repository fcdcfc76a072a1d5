-- ===== src/Pulumi/Provider/Network.antt =====
-- The resource Network of network.go: a network with its subnet and router.
pub mod Kept
use nobus_csi.Common.{
  Bool, true, false, not, ◌&&◌, String, List, [], ◌∷◌, Option, none, some, ◌==◌, if◌then◌else◌,
}
use nobus_csi.Common.Int.{ℤ}
use nobus_csi.Common.Text.{or_else}
use nobus_csi.Cloud.Errors.{Sentinel, Error, errors_is}
use nobus_csi.Cloud.Interface.{Run}
use nobus_csi.Cloud.Run.{lift, ◌>>=◌}
use nobus_csi.Pulumi.Client.Shapes.Networks.{CreateNetworkRequest, NetworkUpdate, NetworkSetup}
use nobus_csi.Pulumi.Client.Shapes.Networks as Api
use nobus_csi.Pulumi.Client.Calls.{Transport, Session, Context}
use nobus_csi.Pulumi.Client.Networks.{
  create_network_bundle, get_network, update_network, delete_network,
}
use nobus_csi.Pulumi.Provider.Scope.{
  Config, scoped_id, bare_resource_id, resolve_scope, resolve_import,
}
use nobus_csi.Pulumi.Provider.Diff.{DiffResponse, replace_diff, update_diff, compare_all}
use nobus_csi.Pulumi.Provider.Check.{
  PropertyMap, Checked, check_resource_args, add_failures, failing,
}
use nobus_csi.Pulumi.Provider.Steps.{
  Created, Reading, Updated, finish, or_return, gone_is_fine, is_none,
}

pub record NetworkArgs : Type 0 where
  pub network_name : String
  pub subnet_cidr : String
  pub router_name : String
  pub availability_zone : String
  pub project_id : String
  pub external_network_id : String
  pub dns_nameservers : List String
  pub enable_snat : Option Bool
  pub name : String
  pub description : String
  pub admin_state_up : Option Bool

pub record NetworkState : Type 0 where
  pub args : NetworkArgs
  pub subnet_id : String
  pub router_id : String
  pub status : String
  pub mtu : Option ℤ
  pub shared : Option Bool
  pub port_security_enabled : Option Bool
  pub subnets : List String

-- `NetworkArgs{}` and `NetworkState{}`
abbrev pub no_args : NetworkArgs
no_args = record {
  network_name = "";
  subnet_cidr = "";
  router_name = "";
  availability_zone = "";
  project_id = "";
  external_network_id = "";
  dns_nameservers = [];
  enable_snat = none;
  name = "";
  description = "";
  admin_state_up = none;
}

abbrev pub plain : NetworkArgs → NetworkState
plain args = record {
  args = args;
  subnet_id = "";
  router_id = "";
  status = "";
  mtu = none;
  shared = none;
  port_security_enabled = none;
  subnets = [];
}

abbrev pub no_state : NetworkState
no_state = plain no_args

unfoldable pub check :
    (PropertyMap → Checked NetworkArgs) → Option Config → PropertyMap → Checked NetworkArgs
check default_check cfg inputs =
    add_failures
      (λ a. failing (
        ("networkName", a.network_name == "")
        ∷ ("subnetCidr", a.subnet_cidr == "")
        ∷ ("routerName", a.router_name == "")
        ∷ []))
      (check_resource_args default_check cfg inputs (λ a. a.availability_zone))

unfoldable pub diff : NetworkState → NetworkArgs → DiffResponse
unfolding replace_diff update_diff compare_all
diff olds news =
    let old = olds.args in
    compare_all
      (replace_diff "availabilityZone" (
          not (news.availability_zone == "")
          && not (old.availability_zone == news.availability_zone))
        ∷ replace_diff "networkName"
            (not (news.network_name == "") && not (old.network_name == news.network_name))
        ∷ replace_diff "subnetCidr"
            (not (news.subnet_cidr == "") && not (old.subnet_cidr == news.subnet_cidr))
        ∷ replace_diff "routerName"
            (not (news.router_name == "") && not (old.router_name == news.router_name))
        ∷ replace_diff "externalNetworkId" (
            not (news.external_network_id == "")
            && not (
                bare_resource_id old.external_network_id
                == bare_resource_id news.external_network_id))
        ∷ update_diff "name" (not (news.name == "") && not (old.name == news.name))
        ∷ update_diff "description" (not (old.description == news.description))
        ∷ [])
      []

-- What the API tells of the network.
unfoldable pub enrich_network_state : NetworkState → Api.Network → NetworkState
enrich_network_state state net = record state {
  args = record state.args {
    admin_state_up = net.admin_state_up;
    name = or_else state.args.name net.name;
    description = or_else state.args.description net.description;
  };
  status = net.status;
  mtu = net.mtu;
  shared = net.shared;
  port_security_enabled = net.port_security_enabled;
  subnets = net.subnets;
}

abbrev pub create_request : String → String → NetworkArgs → CreateNetworkRequest
create_request project zone input = record {
  project_id = project;
  availability_zone = zone;
  network_name = input.network_name;
  subnet_cidr = input.subnet_cidr;
  router_name = input.router_name;
  external_network_id = bare_resource_id input.external_network_id;
  dns_nameservers = input.dns_nameservers;
  enable_snat = input.enable_snat;
}

abbrev refused : Error → Created NetworkState
refused e = record { id = ""; state = no_state; failed = some e }

abbrev pub located : String → String → NetworkArgs → NetworkArgs
located project zone a = record a { project_id = project; availability_zone = zone }

abbrev pub with_parts : NetworkArgs → NetworkSetup → NetworkState
with_parts input made = record (plain input) {
  subnet_id = made.subnet_id;
  router_id = made.router_id;
}

abbrev update_body : NetworkArgs → NetworkUpdate
update_body a = record {
  name = a.name;
  description = a.description;
  admin_state_up = a.admin_state_up;
}

-- There is nothing to send.
no_update : NetworkArgs → Bool
no_update a = a.name == "" && a.description == "" && is_none a.admin_state_up

module _ (T : Transport) (cfg : Config) (ctx : Context) where
  unfoldable pub create : String → NetworkArgs → Bool → Session T → Created NetworkState × Session T
  unfolding enrich_network_state
  create name args preview =
      or_return (lift (resolve_scope cfg args.project_id args.availability_zone)) refused (λ place.
        let project = place.project in
        let zone = place.zone in
        let input = located project zone args in
        if preview
        then finish
            (record { id = scoped_id zone project name; state = plain input; failed = none })
        else or_return (create_network_bundle T ctx (create_request project zone input)) refused
            (λ made.
              or_return (get_network T ctx project zone made.network_id)
                (λ e. record {
                  id = scoped_id zone project made.network_id;
                  state = with_parts input made;
                  failed = some e;
                })
                (λ net. finish (record {
                  id = scoped_id zone project made.network_id;
                  state = enrich_network_state (with_parts input made) net;
                  failed = none;
                }))))

  unfoldable pub read :
      String → NetworkArgs → NetworkState → Session T → Reading NetworkArgs NetworkState × Session T
  unfolding enrich_network_state
  read id inputs state =
      let kept : Error → Reading NetworkArgs NetworkState =
        λ e. record { id = id; args = inputs; state = state; failed = some e } in
      or_return
        (lift (
          resolve_import cfg id (or_else state.args.project_id inputs.project_id)
            (or_else state.args.availability_zone inputs.availability_zone)))
        kept
        (λ place.
          or_return (get_network T ctx place.project place.zone place.id)
            (λ e.
              if errors_is e Sentinel.not_found
              then record { id = ""; args = no_args; state = no_state; failed = none }
              else kept e)
            (λ got.
              let known = if state.args.network_name == "" then inputs else state.args in
              let seen =
                enrich_network_state
                  (record state { args = located place.project place.zone known }) got in
              finish (record {
                id = scoped_id place.zone place.project got.id;
                args = seen.args;
                state = seen;
                failed = none;
              })))

  unfoldable pub update :
      String → NetworkState → NetworkArgs → Bool → Session T → Updated NetworkState × Session T
  unfolding enrich_network_state no_update
  update id olds news preview =
      or_return
        (lift (
          resolve_import cfg id (or_else news.project_id olds.args.project_id)
            (or_else news.availability_zone olds.args.availability_zone)))
        (λ e. record { state = olds; failed = some e })
        (λ place.
          let input = located place.project place.zone news in
          let state : NetworkState = record olds { args = input } in
          if preview
          then finish (record { state = state; failed = none })
          else if no_update input
          then finish (record { state = state; failed = none })
          else or_return
              (update_network T ctx place.project place.zone place.id (update_body input))
              (λ e. record { state = state; failed = some e })
              (λ got. finish (record { state = enrich_network_state state got; failed = none })))

  unfoldable pub delete : String → NetworkState → Run (Session T) Unit
  delete id state = do
    place ← lift (resolve_import cfg id state.args.project_id state.args.availability_zone)
    gone_is_fine (delete_network T ctx place.project place.zone place.id)
