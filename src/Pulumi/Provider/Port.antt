-- ===== src/Pulumi/Provider/Port.antt =====
-- The resource Port of network.go.
use nobus_csi.Common.{
  Bool, not, ◌&&◌, String, List, [], ◌∷◌, Option, none, some, ◌==◌, if◌then◌else◌,
}
use nobus_csi.Common.Text.{or_else}
use nobus_csi.Cloud.Errors.{Sentinel, Error, errors_is}
use nobus_csi.Cloud.Interface.{Run}
use nobus_csi.Cloud.Run.{lift, ◌>>=◌}
use nobus_csi.Pulumi.Client.Shapes.Networks.{PortCreate, PortUpdate}
use nobus_csi.Pulumi.Client.Shapes.Networks as Api
use nobus_csi.Pulumi.Client.Calls.{Transport, Session, Context}
use nobus_csi.Pulumi.Client.Networks.Ports.{create_port, get_port, update_port, delete_port}
use nobus_csi.Pulumi.Provider.Scope.{
  Config, scoped_id, bare_resource_id, bare_ids, resolve_scope, resolve_import,
}
use nobus_csi.Pulumi.Provider.Sets.{string_slices_equal}
use nobus_csi.Pulumi.Provider.Diff.{DiffResponse, replace_diff, update_diff, compare_all}
use nobus_csi.Pulumi.Provider.Check.{
  PropertyMap, Checked, check_resource_args, add_failures, failing,
}
use nobus_csi.Pulumi.Provider.Steps.{
  Created, Reading, Updated, finish, or_return, gone_is_fine, is_none, is_nil,
}

pub record PortArgs : Type 0 where
  pub network_id : String
  pub availability_zone : String
  pub name : String
  pub description : String
  pub admin_state_up : Option Bool
  pub security_groups : List String
  pub device_id : String
  pub device_owner : String
  pub port_security_enabled : Option Bool
  pub project_id : String

pub record PortState : Type 0 where
  pub args : PortArgs
  pub status : String
  pub mac_address : String

-- `PortArgs{}` and `PortState{}`
abbrev pub no_args : PortArgs
no_args = record {
  network_id = "";
  availability_zone = "";
  name = "";
  description = "";
  admin_state_up = none;
  security_groups = [];
  device_id = "";
  device_owner = "";
  port_security_enabled = none;
  project_id = "";
}

abbrev pub plain : PortArgs → PortState
plain args = record { args = args; status = ""; mac_address = "" }

abbrev pub no_state : PortState
no_state = plain no_args

unfoldable pub check :
    (PropertyMap → Checked PortArgs) → Option Config → PropertyMap → Checked PortArgs
check default_check cfg inputs =
    add_failures (λ a. failing (("networkId", a.network_id == "") ∷ []))
      (check_resource_args default_check cfg inputs (λ a. a.availability_zone))

unfoldable pub diff : PortState → PortArgs → DiffResponse
unfolding replace_diff update_diff compare_all
diff olds news =
    let old = olds.args in
    compare_all
      (replace_diff "availabilityZone" (
          not (news.availability_zone == "")
          && not (old.availability_zone == news.availability_zone))
        ∷ replace_diff "networkId" (
            not (news.network_id == "")
            && not (bare_resource_id old.network_id == bare_resource_id news.network_id))
        ∷ update_diff "name" (not (news.name == "") && not (old.name == news.name))
        ∷ update_diff "deviceId"
            (not (bare_resource_id old.device_id == bare_resource_id news.device_id))
        ∷ update_diff "securityGroups"
            (not (string_slices_equal old.security_groups news.security_groups))
        ∷ update_diff "description" (not (old.description == news.description))
        ∷ [])
      []

abbrev refused : Error → Created PortState
refused e = record { id = ""; state = no_state; failed = some e }

abbrev located : String → String → PortArgs → PortArgs
located project zone a = record a { project_id = project; availability_zone = zone }

-- The arguments as they are created with.
placed : String → String → PortArgs → PortArgs
placed project zone a = record (located project zone a) {
  network_id = bare_resource_id a.network_id;
  device_id = bare_resource_id a.device_id;
  security_groups = bare_ids a.security_groups;
}

abbrev create_body : PortArgs → PortCreate
create_body a = record {
  network_id = a.network_id;
  name = a.name;
  description = a.description;
  admin_state_up = a.admin_state_up;
  security_groups = a.security_groups;
  device_id = a.device_id;
  device_owner = a.device_owner;
  port_security_enabled = a.port_security_enabled;
}

-- What the API tells of a new one.
created_state : PortArgs → Api.Port → PortState
created_state input got = record {
  args = input;
  status = got.status;
  mac_address = got.mac_address;
}

read_state : String → String → Api.Port → PortState
read_state project zone got = record {
  args = record {
    network_id = got.network_id;
    availability_zone = zone;
    name = got.name;
    description = got.description;
    admin_state_up = got.admin_state_up;
    security_groups = got.security_groups;
    device_id = got.device_id;
    device_owner = got.device_owner;
    port_security_enabled = got.port_security_enabled;
    project_id = project;
  };
  status = got.status;
  mac_address = got.mac_address;
}

update_placed : String → String → PortArgs → PortArgs → PortArgs
update_placed project zone old a = record (located project zone a) {
  network_id = bare_resource_id (or_else a.network_id old.network_id);
  security_groups = bare_ids a.security_groups;
}

abbrev update_body : PortArgs → PortArgs → PortUpdate
update_body old a = record {
  name = a.name;
  description = a.description;
  admin_state_up = a.admin_state_up;
  security_groups = a.security_groups;
  port_security_enabled = a.port_security_enabled;
}

-- There is nothing to send.
no_update : PortArgs → PortArgs → Bool
no_update old a =
    a.name == ""
    && a.description == ""
    && is_none a.admin_state_up
    && is_nil a.security_groups
    && is_none a.port_security_enabled

updated_state : PortState → Api.Port → PortState
updated_state state got = record state { status = got.status; mac_address = got.mac_address }

module _ (T : Transport) (cfg : Config) (ctx : Context) where
  unfoldable pub create : String → PortArgs → Bool → Session T → Created PortState × Session T
  unfolding placed created_state
  create name args preview =
      or_return (lift (resolve_scope cfg args.project_id args.availability_zone)) refused (λ place.
        let project = place.project in
        let zone = place.zone in
        let input = placed project zone args in
        if preview
        then finish
            (record { id = scoped_id zone project name; state = plain input; failed = none })
        else or_return (create_port T ctx project zone (create_body input)) refused (λ created.
          finish (record {
            id = scoped_id zone project created.id;
            state = created_state input created;
            failed = none;
          })))

  unfoldable pub read :
      String → PortArgs → PortState → Session T → Reading PortArgs PortState × Session T
  unfolding read_state
  read id inputs state =
      let kept : Error → Reading PortArgs PortState =
        λ e. record { id = id; args = inputs; state = state; failed = some e } in
      or_return
        (lift (
          resolve_import cfg id (or_else state.args.project_id inputs.project_id)
            (or_else state.args.availability_zone inputs.availability_zone)))
        kept
        (λ place.
          or_return (get_port T ctx place.project place.zone place.id)
            (λ e.
              if errors_is e Sentinel.not_found
              then record { id = ""; args = no_args; state = no_state; failed = none }
              else kept e)
            (λ got.
              let seen = read_state place.project place.zone got in
              finish (record {
                id = scoped_id place.zone place.project got.id;
                args = seen.args;
                state = seen;
                failed = none;
              })))

  unfoldable pub update :
      String → PortState → PortArgs → Bool → Session T → Updated PortState × Session T
  unfolding update_placed no_update updated_state
  update id olds news preview =
      or_return
        (lift (
          resolve_import cfg id (or_else news.project_id olds.args.project_id)
            (or_else news.availability_zone olds.args.availability_zone)))
        (λ e. record { state = olds; failed = some e })
        (λ place.
          let input = update_placed place.project place.zone olds.args news in
          let state : PortState = record olds { args = input } in
          if preview
          then finish (record { state = state; failed = none })
          else if no_update olds.args input
          then finish (record { state = state; failed = none })
          else or_return
              (update_port T ctx place.project place.zone place.id (update_body olds.args input))
              (λ e. record { state = state; failed = some e })
              (λ got. finish (record { state = updated_state state got; failed = none })))

  unfoldable pub delete : String → PortState → Run (Session T) Unit
  delete id state = do
    place ← lift (resolve_import cfg id state.args.project_id state.args.availability_zone)
    gone_is_fine (delete_port T ctx place.project place.zone place.id)
