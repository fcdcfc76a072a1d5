-- ===== src/Pulumi/Provider/FloatingIp.antt =====
-- The resource FloatingIp of security.go.
use nobus_csi.Common.{Bool, not, ◌&&◌, String, [], ◌∷◌, Option, none, some, ◌==◌, if◌then◌else◌}
use nobus_csi.Common.Text.{or_else}
use nobus_csi.Cloud.Errors.{Sentinel, Error, errors_is}
use nobus_csi.Cloud.Interface.{Run}
use nobus_csi.Cloud.Run.{lift, ◌>>=◌}
use nobus_csi.Pulumi.Client.Shapes.Networks.{FloatingIpCreate, FloatingIpUpdate}
use nobus_csi.Pulumi.Client.Shapes.Networks as Api
use nobus_csi.Pulumi.Client.Calls.{Transport, Session, Context}
use nobus_csi.Pulumi.Client.Networks.Security.{
  create_floating_ip, get_floating_ip, update_floating_ip, delete_floating_ip,
}
use nobus_csi.Pulumi.Provider.Scope.{
  Config, scoped_id, bare_resource_id, resolve_scope, resolve_import,
}
use nobus_csi.Pulumi.Provider.Diff.{DiffResponse, replace_diff, update_diff, compare_all}
use nobus_csi.Pulumi.Provider.Check.{
  PropertyMap, Checked, check_resource_args, add_failures, failing,
}
use nobus_csi.Pulumi.Provider.Steps.{Created, Reading, Updated, finish, or_return, gone_is_fine}

pub record FloatingIpArgs : Type 0 where
  pub floating_network_id : String
  pub availability_zone : String
  pub port_id : String
  pub fixed_ip_address : String
  pub description : String
  pub project_id : String

pub record FloatingIpState : Type 0 where
  pub args : FloatingIpArgs
  pub floating_ip_address : String
  pub status : String

-- `FloatingIpArgs{}` and `FloatingIpState{}`
abbrev pub no_args : FloatingIpArgs
no_args = record {
  floating_network_id = "";
  availability_zone = "";
  port_id = "";
  fixed_ip_address = "";
  description = "";
  project_id = "";
}

abbrev pub plain : FloatingIpArgs → FloatingIpState
plain args = record { args = args; floating_ip_address = ""; status = "" }

abbrev pub no_state : FloatingIpState
no_state = plain no_args

unfoldable pub check :
    (PropertyMap → Checked FloatingIpArgs) → Option Config → PropertyMap → Checked FloatingIpArgs
check default_check cfg inputs =
    add_failures (λ a. failing (("floatingNetworkId", a.floating_network_id == "") ∷ []))
      (check_resource_args default_check cfg inputs (λ a. a.availability_zone))

unfoldable pub diff : FloatingIpState → FloatingIpArgs → DiffResponse
unfolding replace_diff update_diff compare_all
diff olds news =
    let old = olds.args in
    compare_all
      (replace_diff "availabilityZone" (
          not (news.availability_zone == "")
          && not (old.availability_zone == news.availability_zone))
        ∷ replace_diff "floatingNetworkId" (
            not (news.floating_network_id == "")
            && not (
                bare_resource_id old.floating_network_id
                == bare_resource_id news.floating_network_id))
        ∷ update_diff "portId" (not (bare_resource_id old.port_id == bare_resource_id news.port_id))
        ∷ update_diff "description" (not (old.description == news.description))
        ∷ [])
      []

abbrev refused : Error → Created FloatingIpState
refused e = record { id = ""; state = no_state; failed = some e }

abbrev located : String → String → FloatingIpArgs → FloatingIpArgs
located project zone a = record a { project_id = project; availability_zone = zone }

-- The arguments as they are created with.
placed : String → String → FloatingIpArgs → FloatingIpArgs
placed project zone a = record (located project zone a) {
  floating_network_id = bare_resource_id a.floating_network_id;
  port_id = bare_resource_id a.port_id;
}

abbrev create_body : FloatingIpArgs → FloatingIpCreate
create_body a = record {
  floating_network_id = a.floating_network_id;
  port_id = a.port_id;
  fixed_ip_address = a.fixed_ip_address;
  description = a.description;
}

-- What the API tells of a new one.
created_state : FloatingIpArgs → Api.FloatingIp → FloatingIpState
created_state input got = record {
  args = record input { port_id = got.port_id; fixed_ip_address = got.fixed_ip_address };
  floating_ip_address = got.floating_ip_address;
  status = got.status;
}

read_state : String → String → Api.FloatingIp → FloatingIpState
read_state project zone got = record {
  args = record {
    floating_network_id = got.floating_network_id;
    availability_zone = zone;
    port_id = got.port_id;
    fixed_ip_address = got.fixed_ip_address;
    description = got.description;
    project_id = project;
  };
  floating_ip_address = got.floating_ip_address;
  status = got.status;
}

update_placed : String → String → FloatingIpArgs → FloatingIpArgs → FloatingIpArgs
update_placed project zone old a = record (located project zone a) {
  floating_network_id = bare_resource_id (or_else a.floating_network_id old.floating_network_id);
  port_id = bare_resource_id a.port_id;
}

-- The port is sent where it changes.
abbrev changed_port : String → String → Option String
changed_port old new = if bare_resource_id new == bare_resource_id old then none else some new

abbrev update_body : FloatingIpArgs → FloatingIpArgs → FloatingIpUpdate
update_body old a = record {
  port_id = changed_port old.port_id a.port_id;
  fixed_ip_address = a.fixed_ip_address;
  description = a.description;
}

-- There is nothing to send.
no_update : FloatingIpArgs → FloatingIpArgs → Bool
no_update old a =
    (a.fixed_ip_address == "" && a.description == "")
    && bare_resource_id a.port_id == bare_resource_id old.port_id

updated_state : FloatingIpState → Api.FloatingIp → FloatingIpState
updated_state state got = record state {
  args = record state.args { port_id = got.port_id; fixed_ip_address = got.fixed_ip_address };
  floating_ip_address = got.floating_ip_address;
  status = got.status;
}

module _ (T : Transport) (cfg : Config) (ctx : Context) where
  unfoldable pub create :
      String → FloatingIpArgs → Bool → Session T → Created FloatingIpState × Session T
  unfolding placed created_state
  create name args preview =
      or_return (lift (resolve_scope cfg args.project_id args.availability_zone)) refused (λ place.
        let project = place.project in
        let zone = place.zone in
        let input = placed project zone args in
        if preview
        then finish
            (record { id = scoped_id zone project name; state = plain input; failed = none })
        else or_return (create_floating_ip T ctx project zone (create_body input)) refused
            (λ created. finish (record {
              id = scoped_id zone project created.id;
              state = created_state input created;
              failed = none;
            })))

  unfoldable pub read :
      String
      → FloatingIpArgs
      → FloatingIpState
      → Session T
      → Reading FloatingIpArgs FloatingIpState × Session T
  unfolding read_state
  read id inputs state =
      let kept : Error → Reading FloatingIpArgs FloatingIpState =
        λ e. record { id = id; args = inputs; state = state; failed = some e } in
      or_return
        (lift (
          resolve_import cfg id (or_else state.args.project_id inputs.project_id)
            (or_else state.args.availability_zone inputs.availability_zone)))
        kept
        (λ place.
          or_return (get_floating_ip T ctx place.project place.zone place.id)
            (λ e.
              if errors_is e Sentinel.not_found
              then record { id = ""; args = no_args; state = no_state; failed = none }
              else kept e)
            (λ got.
              let seen = read_state place.project place.zone got in
              finish (record {
                id = scoped_id place.zone place.project got.id;
                args = seen.args;
                state = seen;
                failed = none;
              })))

  unfoldable pub update :
      String
      → FloatingIpState
      → FloatingIpArgs
      → Bool
      → Session T
      → Updated FloatingIpState × Session T
  unfolding update_placed no_update updated_state
  update id olds news preview =
      or_return
        (lift (
          resolve_import cfg id (or_else news.project_id olds.args.project_id)
            (or_else news.availability_zone olds.args.availability_zone)))
        (λ e. record { state = olds; failed = some e })
        (λ place.
          let input = update_placed place.project place.zone olds.args news in
          let state : FloatingIpState = record olds { args = input } in
          if preview
          then finish (record { state = state; failed = none })
          else if no_update olds.args input
          then finish (record { state = state; failed = none })
          else or_return
              (update_floating_ip T ctx place.project place.zone place.id
                (update_body olds.args input))
              (λ e. record { state = state; failed = some e })
              (λ got. finish (record { state = updated_state state got; failed = none })))

  unfoldable pub delete : String → FloatingIpState → Run (Session T) Unit
  delete id state = do
    place ← lift (resolve_import cfg id state.args.project_id state.args.availability_zone)
    gone_is_fine (delete_floating_ip T ctx place.project place.zone place.id)
