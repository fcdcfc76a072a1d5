-- ===== src/Pulumi/Provider/SecurityGroup.antt =====
-- The resource SecurityGroup of security.go.
use nobus_csi.Common.{Bool, not, ◌&&◌, String, [], ◌∷◌, Option, none, some, ◌==◌, if◌then◌else◌}
use nobus_csi.Common.Text.{or_else}
use nobus_csi.Cloud.Errors.{Sentinel, Error, errors_is}
use nobus_csi.Cloud.Interface.{Run}
use nobus_csi.Cloud.Run.{lift, ◌>>=◌}
use nobus_csi.Pulumi.Client.Shapes.Networks.{SecurityGroupWrite}
use nobus_csi.Pulumi.Client.Shapes.Networks as Api
use nobus_csi.Pulumi.Client.Calls.{Transport, Session, Context}
use nobus_csi.Pulumi.Client.Networks.Security.{
  create_security_group, get_security_group, update_security_group, delete_security_group,
}
use nobus_csi.Pulumi.Provider.Scope.{Config, scoped_id, resolve_scope, resolve_import}
use nobus_csi.Pulumi.Provider.Diff.{DiffResponse, replace_diff, update_diff, compare_all}
use nobus_csi.Pulumi.Provider.Check.{
  PropertyMap, Checked, check_resource_args, add_failures, failing,
}
use nobus_csi.Pulumi.Provider.Steps.{Created, Reading, Updated, finish, or_return, gone_is_fine}

pub record SecurityGroupArgs : Type 0 where
  pub name : String
  pub availability_zone : String
  pub description : String
  pub project_id : String

pub record SecurityGroupState : Type 0 where
  pub args : SecurityGroupArgs

-- `SecurityGroupArgs{}` and `SecurityGroupState{}`
abbrev pub no_args : SecurityGroupArgs
no_args = record { name = ""; availability_zone = ""; description = ""; project_id = "" }

abbrev pub plain : SecurityGroupArgs → SecurityGroupState
plain args = record { args = args }

abbrev pub no_state : SecurityGroupState
no_state = plain no_args

unfoldable pub check :
    (PropertyMap → Checked SecurityGroupArgs)
    → Option Config
    → PropertyMap
    → Checked SecurityGroupArgs
check default_check cfg inputs =
    add_failures (λ a. failing (("name", a.name == "") ∷ []))
      (check_resource_args default_check cfg inputs (λ a. a.availability_zone))

unfoldable pub diff : SecurityGroupState → SecurityGroupArgs → DiffResponse
unfolding replace_diff update_diff compare_all
diff olds news =
    let old = olds.args in
    compare_all
      (replace_diff "availabilityZone" (
          not (news.availability_zone == "")
          && not (old.availability_zone == news.availability_zone))
        ∷ update_diff "name" (not (news.name == "") && not (old.name == news.name))
        ∷ update_diff "description" (not (old.description == news.description))
        ∷ [])
      []

abbrev refused : Error → Created SecurityGroupState
refused e = record { id = ""; state = no_state; failed = some e }

abbrev located : String → String → SecurityGroupArgs → SecurityGroupArgs
located project zone a = record a { project_id = project; availability_zone = zone }

abbrev create_body : SecurityGroupArgs → SecurityGroupWrite
create_body a = record { name = a.name; description = a.description }

read_state : String → String → Api.SecurityGroup → SecurityGroupState
read_state project zone got = record {
  args = record {
    name = got.name;
    availability_zone = zone;
    description = got.description;
    project_id = project;
  };
}

update_placed : String → String → SecurityGroupArgs → SecurityGroupArgs → SecurityGroupArgs
update_placed project zone old a = located project zone a

abbrev update_body : SecurityGroupArgs → SecurityGroupArgs → SecurityGroupWrite
update_body old a = record { name = a.name; description = a.description }

-- There is nothing to send.
no_update : SecurityGroupArgs → SecurityGroupArgs → Bool
no_update old a = a.name == "" && a.description == ""

module _ (T : Transport) (cfg : Config) (ctx : Context) where
  unfoldable pub create :
      String → SecurityGroupArgs → Bool → Session T → Created SecurityGroupState × Session T
  create name args preview =
      or_return (lift (resolve_scope cfg args.project_id args.availability_zone)) refused (λ place.
        let project = place.project in
        let zone = place.zone in
        let input = located project zone args in
        if preview
        then finish
            (record { id = scoped_id zone project name; state = plain input; failed = none })
        else or_return (create_security_group T ctx project zone (create_body input)) refused
            (λ created. finish (record {
              id = scoped_id zone project created.id;
              state = plain input;
              failed = none;
            })))

  unfoldable pub read :
      String
      → SecurityGroupArgs
      → SecurityGroupState
      → Session T
      → Reading SecurityGroupArgs SecurityGroupState × Session T
  unfolding read_state
  read id inputs state =
      let kept : Error → Reading SecurityGroupArgs SecurityGroupState =
        λ e. record { id = id; args = inputs; state = state; failed = some e } in
      or_return
        (lift (
          resolve_import cfg id (or_else state.args.project_id inputs.project_id)
            (or_else state.args.availability_zone inputs.availability_zone)))
        kept
        (λ place.
          or_return (get_security_group T ctx place.project place.zone place.id)
            (λ e.
              if errors_is e Sentinel.not_found
              then record { id = ""; args = no_args; state = no_state; failed = none }
              else kept e)
            (λ got.
              let seen = read_state place.project place.zone got in
              finish (record {
                id = scoped_id place.zone place.project got.id;
                args = seen.args;
                state = seen;
                failed = none;
              })))

  unfoldable pub update :
      String
      → SecurityGroupState
      → SecurityGroupArgs
      → Bool
      → Session T
      → Updated SecurityGroupState × Session T
  unfolding update_placed no_update
  update id olds news preview =
      or_return
        (lift (
          resolve_import cfg id (or_else news.project_id olds.args.project_id)
            (or_else news.availability_zone olds.args.availability_zone)))
        (λ e. record { state = olds; failed = some e })
        (λ place.
          let input = update_placed place.project place.zone olds.args news in
          let state : SecurityGroupState = record olds { args = input } in
          if preview
          then finish (record { state = state; failed = none })
          else if no_update olds.args input
          then finish (record { state = state; failed = none })
          else or_return
              (update_security_group T ctx place.project place.zone place.id
                (update_body olds.args input))
              (λ e. record { state = state; failed = some e })
              (λ got. finish (record { state = state; failed = none })))

  unfoldable pub delete : String → SecurityGroupState → Run (Session T) Unit
  delete id state = do
    place ← lift (resolve_import cfg id state.args.project_id state.args.availability_zone)
    gone_is_fine (delete_security_group T ctx place.project place.zone place.id)
