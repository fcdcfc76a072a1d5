-- ===== src/Pulumi/Provider/Router.antt =====
-- The resource Router of network.go.
use nobus_csi.Common.{Bool, not, ◌&&◌, String, [], ◌∷◌, Option, none, some, ◌==◌, if◌then◌else◌}
use nobus_csi.Common.Text.{or_else}
use nobus_csi.Cloud.Errors.{Sentinel, Error, errors_is}
use nobus_csi.Cloud.Interface.{Run}
use nobus_csi.Cloud.Run.{lift, ◌>>=◌}
use nobus_csi.Pulumi.Client.Shapes.Networks.{RouterWrite}
use nobus_csi.Pulumi.Client.Shapes.Networks as Api
use nobus_csi.Pulumi.Client.Calls.{Transport, Session, Context}
use nobus_csi.Pulumi.Client.Networks.Ports.{create_router, get_router, update_router, delete_router}
use nobus_csi.Pulumi.Provider.Scope.{Config, scoped_id, resolve_scope, resolve_import}
use nobus_csi.Pulumi.Provider.Diff.{DiffResponse, replace_diff, update_diff, compare_all}
use nobus_csi.Pulumi.Provider.Check.{
  PropertyMap, Checked, check_resource_args, add_failures, failing,
}
use nobus_csi.Pulumi.Provider.Steps.{
  Created, Reading, Updated, finish, or_return, gone_is_fine, is_none,
}

pub record RouterArgs : Type 0 where
  pub name : String
  pub availability_zone : String
  pub description : String
  pub admin_state_up : Option Bool
  pub project_id : String

pub record RouterState : Type 0 where
  pub args : RouterArgs
  pub status : String

-- `RouterArgs{}` and `RouterState{}`
abbrev pub no_args : RouterArgs
no_args = record {
  name = "";
  availability_zone = "";
  description = "";
  admin_state_up = none;
  project_id = "";
}

abbrev pub plain : RouterArgs → RouterState
plain args = record { args = args; status = "" }

abbrev pub no_state : RouterState
no_state = plain no_args

unfoldable pub check :
    (PropertyMap → Checked RouterArgs) → Option Config → PropertyMap → Checked RouterArgs
check default_check cfg inputs =
    add_failures (λ a. failing (("name", a.name == "") ∷ []))
      (check_resource_args default_check cfg inputs (λ a. a.availability_zone))

unfoldable pub diff : RouterState → RouterArgs → DiffResponse
unfolding replace_diff update_diff compare_all
diff olds news =
    let old = olds.args in
    compare_all
      (replace_diff "availabilityZone" (
          not (news.availability_zone == "")
          && not (old.availability_zone == news.availability_zone))
        ∷ update_diff "name" (not (news.name == "") && not (old.name == news.name))
        ∷ update_diff "description" (not (old.description == news.description))
        ∷ [])
      []

abbrev refused : Error → Created RouterState
refused e = record { id = ""; state = no_state; failed = some e }

abbrev located : String → String → RouterArgs → RouterArgs
located project zone a = record a { project_id = project; availability_zone = zone }

abbrev create_body : RouterArgs → RouterWrite
create_body a = record {
  name = a.name;
  description = a.description;
  admin_state_up = a.admin_state_up;
}

-- What the API tells of a new one.
created_state : RouterArgs → Api.Router → RouterState
created_state input got = record { args = input; status = got.status }

read_state : String → String → Api.Router → RouterState
read_state project zone got = record {
  args = record {
    name = got.name;
    availability_zone = zone;
    description = got.description;
    admin_state_up = got.admin_state_up;
    project_id = project;
  };
  status = got.status;
}

update_placed : String → String → RouterArgs → RouterArgs → RouterArgs
update_placed project zone old a = located project zone a

abbrev update_body : RouterArgs → RouterArgs → RouterWrite
update_body old a = record {
  name = a.name;
  description = a.description;
  admin_state_up = a.admin_state_up;
}

-- There is nothing to send.
no_update : RouterArgs → RouterArgs → Bool
no_update old a = a.name == "" && a.description == "" && is_none a.admin_state_up

updated_state : RouterState → Api.Router → RouterState
updated_state state got = record state { status = got.status }

module _ (T : Transport) (cfg : Config) (ctx : Context) where
  unfoldable pub create : String → RouterArgs → Bool → Session T → Created RouterState × Session T
  unfolding created_state
  create name args preview =
      or_return (lift (resolve_scope cfg args.project_id args.availability_zone)) refused (λ place.
        let project = place.project in
        let zone = place.zone in
        let input = located project zone args in
        if preview
        then finish
            (record { id = scoped_id zone project name; state = plain input; failed = none })
        else or_return (create_router T ctx project zone (create_body input)) refused (λ created.
          finish (record {
            id = scoped_id zone project created.id;
            state = created_state input created;
            failed = none;
          })))

  unfoldable pub read :
      String → RouterArgs → RouterState → Session T → Reading RouterArgs RouterState × Session T
  unfolding read_state
  read id inputs state =
      let kept : Error → Reading RouterArgs RouterState =
        λ e. record { id = id; args = inputs; state = state; failed = some e } in
      or_return
        (lift (
          resolve_import cfg id (or_else state.args.project_id inputs.project_id)
            (or_else state.args.availability_zone inputs.availability_zone)))
        kept
        (λ place.
          or_return (get_router T ctx place.project place.zone place.id)
            (λ e.
              if errors_is e Sentinel.not_found
              then record { id = ""; args = no_args; state = no_state; failed = none }
              else kept e)
            (λ got.
              let seen = read_state place.project place.zone got in
              finish (record {
                id = scoped_id place.zone place.project got.id;
                args = seen.args;
                state = seen;
                failed = none;
              })))

  unfoldable pub update :
      String → RouterState → RouterArgs → Bool → Session T → Updated RouterState × Session T
  unfolding update_placed no_update updated_state
  update id olds news preview =
      or_return
        (lift (
          resolve_import cfg id (or_else news.project_id olds.args.project_id)
            (or_else news.availability_zone olds.args.availability_zone)))
        (λ e. record { state = olds; failed = some e })
        (λ place.
          let input = update_placed place.project place.zone olds.args news in
          let state : RouterState = record olds { args = input } in
          if preview
          then finish (record { state = state; failed = none })
          else if no_update olds.args input
          then finish (record { state = state; failed = none })
          else or_return
              (update_router T ctx place.project place.zone place.id (update_body olds.args input))
              (λ e. record { state = state; failed = some e })
              (λ got. finish (record { state = updated_state state got; failed = none })))

  unfoldable pub delete : String → RouterState → Run (Session T) Unit
  delete id state = do
    place ← lift (resolve_import cfg id state.args.project_id state.args.availability_zone)
    gone_is_fine (delete_router T ctx place.project place.zone place.id)
