-- ===== src/Pulumi/Provider/Subnet.antt =====
-- The resource Subnet of network.go.
use nobus_csi.Common.{
  Bool, not, ◌&&◌, String, List, [], ◌∷◌, Option, none, some, ◌==◌, if◌then◌else◌,
}
use nobus_csi.Common.Int.{ℤ, pos, eqb_ℤ}
use nobus_csi.Common.Text.{or_else}
use nobus_csi.Cloud.Errors.{Sentinel, Error, errors_is}
use nobus_csi.Cloud.Interface.{Run}
use nobus_csi.Cloud.Run.{lift, ◌>>=◌}
use nobus_csi.Pulumi.Client.Shapes.Networks.{SubnetCreate, SubnetUpdate}
use nobus_csi.Pulumi.Client.Shapes.Networks as Api
use nobus_csi.Pulumi.Client.Calls.{Transport, Session, Context}
use nobus_csi.Pulumi.Client.Networks.{create_subnet, get_subnet, update_subnet, delete_subnet}
use nobus_csi.Pulumi.Provider.Scope.{
  Config, scoped_id, bare_resource_id, resolve_scope, resolve_import,
}
use nobus_csi.Pulumi.Provider.Diff.{DiffResponse, replace_diff, update_diff, compare_all}
use nobus_csi.Pulumi.Provider.Check.{
  PropertyMap, Checked, check_resource_args, add_failures, failing,
}
use nobus_csi.Pulumi.Provider.Steps.{
  Created, Reading, Updated, finish, or_return, gone_is_fine, is_none, is_nil,
}

pub record SubnetArgs : Type 0 where
  pub network_id : String
  pub cidr : String
  pub ip_version : ℤ
  pub availability_zone : String
  pub name : String
  pub description : String
  pub gateway_ip : String
  pub enable_dhcp : Option Bool
  pub dns_nameservers : List String
  pub project_id : String

pub record SubnetState : Type 0 where
  pub args : SubnetArgs

-- `SubnetArgs{}` and `SubnetState{}`
abbrev pub no_args : SubnetArgs
no_args = record {
  network_id = "";
  cidr = "";
  ip_version = pos 0;
  availability_zone = "";
  name = "";
  description = "";
  gateway_ip = "";
  enable_dhcp = none;
  dns_nameservers = [];
  project_id = "";
}

abbrev pub plain : SubnetArgs → SubnetState
plain args = record { args = args }

abbrev pub no_state : SubnetState
no_state = plain no_args

unfoldable pub check :
    (PropertyMap → Checked SubnetArgs) → Option Config → PropertyMap → Checked SubnetArgs
check default_check cfg inputs =
    add_failures (λ a. failing (("networkId", a.network_id == "") ∷ ("cidr", a.cidr == "") ∷ []))
      (check_resource_args default_check cfg inputs (λ a. a.availability_zone))

unfoldable pub diff : SubnetState → SubnetArgs → DiffResponse
unfolding replace_diff update_diff compare_all
diff olds news =
    let old = olds.args in
    compare_all
      (replace_diff "availabilityZone" (
          not (news.availability_zone == "")
          && not (old.availability_zone == news.availability_zone))
        ∷ replace_diff "networkId" (
            not (news.network_id == "")
            && not (bare_resource_id old.network_id == bare_resource_id news.network_id))
        ∷ replace_diff "cidr" (not (news.cidr == "") && not (old.cidr == news.cidr))
        ∷ replace_diff "ipVersion"
            (not (eqb_ℤ news.ip_version (pos 0)) && not (eqb_ℤ old.ip_version news.ip_version))
        ∷ update_diff "name" (not (news.name == "") && not (old.name == news.name))
        ∷ update_diff "gatewayIp" (not (old.gateway_ip == news.gateway_ip))
        ∷ [])
      []

abbrev refused : Error → Created SubnetState
refused e = record { id = ""; state = no_state; failed = some e }

abbrev located : String → String → SubnetArgs → SubnetArgs
located project zone a = record a { project_id = project; availability_zone = zone }

-- The arguments as they are created with.
placed : String → String → SubnetArgs → SubnetArgs
placed project zone a = record (located project zone a) {
  network_id = bare_resource_id a.network_id;
  ip_version = if eqb_ℤ a.ip_version (pos 0) then pos 4 else a.ip_version;
}

abbrev create_body : SubnetArgs → SubnetCreate
create_body a = record {
  network_id = a.network_id;
  cidr = a.cidr;
  ip_version = a.ip_version;
  name = a.name;
  description = a.description;
  gateway_ip = a.gateway_ip;
  enable_dhcp = a.enable_dhcp;
  dns_nameservers = a.dns_nameservers;
}

-- What the API tells of a new one.
created_state : SubnetArgs → Api.Subnet → SubnetState
created_state input got = record { args = record input { name = or_else input.name got.name } }

read_state : String → String → Api.Subnet → SubnetState
read_state project zone got = record {
  args = record {
    network_id = got.network_id;
    cidr = got.cidr;
    ip_version = got.ip_version;
    availability_zone = zone;
    name = got.name;
    description = got.description;
    gateway_ip = got.gateway_ip;
    enable_dhcp = got.enable_dhcp;
    dns_nameservers = got.dns_nameservers;
    project_id = project;
  };
}

update_placed : String → String → SubnetArgs → SubnetArgs → SubnetArgs
update_placed project zone old a = record (located project zone a) {
  network_id = bare_resource_id (or_else a.network_id old.network_id);
}

abbrev update_body : SubnetArgs → SubnetArgs → SubnetUpdate
update_body old a = record {
  name = a.name;
  description = a.description;
  gateway_ip = a.gateway_ip;
  enable_dhcp = a.enable_dhcp;
  dns_nameservers = a.dns_nameservers;
}

-- There is nothing to send.
no_update : SubnetArgs → SubnetArgs → Bool
no_update old a =
    a.name == ""
    && a.description == ""
    && a.gateway_ip == ""
    && is_none a.enable_dhcp
    && is_nil a.dns_nameservers

module _ (T : Transport) (cfg : Config) (ctx : Context) where
  unfoldable pub create : String → SubnetArgs → Bool → Session T → Created SubnetState × Session T
  unfolding placed created_state
  create name args preview =
      or_return (lift (resolve_scope cfg args.project_id args.availability_zone)) refused (λ place.
        let project = place.project in
        let zone = place.zone in
        let input = placed project zone args in
        if preview
        then finish
            (record { id = scoped_id zone project name; state = plain input; failed = none })
        else or_return (create_subnet T ctx project zone (create_body input)) refused (λ created.
          finish (record {
            id = scoped_id zone project created.id;
            state = created_state input created;
            failed = none;
          })))

  unfoldable pub read :
      String → SubnetArgs → SubnetState → Session T → Reading SubnetArgs SubnetState × Session T
  unfolding read_state
  read id inputs state =
      let kept : Error → Reading SubnetArgs SubnetState =
        λ e. record { id = id; args = inputs; state = state; failed = some e } in
      or_return
        (lift (
          resolve_import cfg id (or_else state.args.project_id inputs.project_id)
            (or_else state.args.availability_zone inputs.availability_zone)))
        kept
        (λ place.
          or_return (get_subnet T ctx place.project place.zone place.id)
            (λ e.
              if errors_is e Sentinel.not_found
              then record { id = ""; args = no_args; state = no_state; failed = none }
              else kept e)
            (λ got.
              let seen = read_state place.project place.zone got in
              finish (record {
                id = scoped_id place.zone place.project got.id;
                args = seen.args;
                state = seen;
                failed = none;
              })))

  unfoldable pub update :
      String → SubnetState → SubnetArgs → Bool → Session T → Updated SubnetState × Session T
  unfolding update_placed no_update
  update id olds news preview =
      or_return
        (lift (
          resolve_import cfg id (or_else news.project_id olds.args.project_id)
            (or_else news.availability_zone olds.args.availability_zone)))
        (λ e. record { state = olds; failed = some e })
        (λ place.
          let input = update_placed place.project place.zone olds.args news in
          let state : SubnetState = record olds { args = input } in
          if preview
          then finish (record { state = state; failed = none })
          else if no_update olds.args input
          then finish (record { state = state; failed = none })
          else or_return
              (update_subnet T ctx place.project place.zone place.id (update_body olds.args input))
              (λ e. record { state = state; failed = some e })
              (λ got. finish (record { state = state; failed = none })))

  unfoldable pub delete : String → SubnetState → Run (Session T) Unit
  delete id state = do
    place ← lift (resolve_import cfg id state.args.project_id state.args.availability_zone)
    gone_is_fine (delete_subnet T ctx place.project place.zone place.id)
