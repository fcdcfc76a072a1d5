-- ===== src/Pulumi/Provider/Instance/Update.antt =====
-- `Update` of the resource Instance: its name, its flavor, its security groups and its tags.
use nobus_csi.Common.{ℕ, Bool, not, ◌&&◌, String, List, [], ◌∷◌, none, some, ◌==◌, if◌then◌else◌}
use nobus_csi.Common.Text.{or_else}
use nobus_csi.Cloud.Interface.{Run}
use nobus_csi.Cloud.Run.{return, lift, ◌>>=◌, ◌>>◌}
use nobus_csi.Pulumi.Client.Shapes.{SecurityGroupActionRequest}
use nobus_csi.Pulumi.Client.Shapes as Api
use nobus_csi.Pulumi.Client.Calls.{Transport, Session, Context}
use nobus_csi.Pulumi.Client.Compute.{
  get_instance, update_instance, resize_instance, confirm_resize, attach_security_group,
  remove_security_group, set_tags, wait_instance_status,
}
use nobus_csi.Pulumi.Provider.Scope.{Config, bare_resource_id, resolve_import}
use nobus_csi.Pulumi.Provider.Sets.{string_slices_equal, slice_diff}
use nobus_csi.Pulumi.Provider.Steps.{Updated, finish, or_return}
use nobus_csi.Pulumi.Provider.Instance.{
  InstanceArgs, InstanceState, state_from_instance, other_bare,
}
use nobus_csi.Pulumi.Provider.Instance.Lifecycle.{tags_request, located}

module _ (T : Transport) (poll : ℕ) (ctx : Context) (project zone server : String)
    (old news : InstanceArgs) where
  unfoldable pub rename : Run (Session T) Unit
  rename =
      if not (news.name == "") && not (news.name == old.name)
      then update_instance T ctx (record {
        project_id = project;
        availability_zone = zone;
        server_id = server;
        name = news.name;
        description = "";
        hostname = "";
      })
      else return tt

  -- The resize waits to be confirmed, unless the instance is active already.
  confirm : Api.Instance → Run (Session T) Unit
  confirm got =
      if T.equal_fold got.status "VERIFY_RESIZE"
      then (do
        confirm_resize T ctx
            (record { project_id = project; availability_zone = zone; server_id = server })
        wait_instance_status T poll ctx project zone server ("ACTIVE" ∷ [])
        return tt)
      else return tt

  unfoldable pub resize : Run (Session T) Unit
  unfolding confirm
  resize =
      if other_bare old.flavor news.flavor
      then (do
        resize_instance T ctx (record {
          project_id = project;
          availability_zone = zone;
          server_id = server;
          flavor_id = bare_resource_id news.flavor;
        })
        wait_instance_status T poll ctx project zone server ("VERIFY_RESIZE" ∷ "ACTIVE" ∷ [])
        got ← get_instance T ctx project zone server
        confirm got)
      else return tt

  abbrev pub group_request : String → SecurityGroupActionRequest
  group_request group = record {
    project_id = project;
    availability_zone = zone;
    server_id = server;
    security_group_name = group;
  }

  unfoldable pub remove_groups : List String → Run (Session T) Unit
  remove_groups [] = return tt
  remove_groups (g ∷ gs) = do remove_security_group T ctx (group_request g); remove_groups gs

  unfoldable pub attach_groups : List String → Run (Session T) Unit
  attach_groups [] = return tt
  attach_groups (g ∷ gs) = do attach_security_group T ctx (group_request g); attach_groups gs

  unfoldable pub change_groups : Run (Session T) Unit
  unfolding remove_groups attach_groups
  change_groups =
      if string_slices_equal old.security_groups news.security_groups then return tt else (do
        remove_groups (slice_diff old.security_groups news.security_groups).1
        attach_groups (slice_diff old.security_groups news.security_groups).0)

  unfoldable pub change_tags : Run (Session T) Unit
  change_tags =
      if string_slices_equal old.tags news.tags
      then return tt
      else set_tags T ctx (tags_request project zone server news.tags)

  -- The changes, one after the other, up to the first that fails, and the instance after them.
  unfoldable pub change : Run (Session T) Api.Instance
  unfolding rename resize change_groups change_tags
  change = do rename; resize; change_groups; change_tags; get_instance T ctx project zone server

unfoldable pub update :
    (T : Transport)
    → ℕ
    → Config
    → Context
    → String
    → InstanceState
    → InstanceArgs
    → Bool
    → Session T
    → Updated InstanceState × Session T
unfolding change
update T poll cfg ctx id olds news preview =
    or_return
      (lift (
        resolve_import cfg id (or_else news.project_id olds.args.project_id)
          (or_else news.availability_zone olds.args.availability_zone)))
      (λ e. record { state = olds; failed = some e })
      (λ place.
        let input = located place.project place.zone news in
        let state : InstanceState = record olds { args = input } in
        if preview
        then finish (record { state = state; failed = none })
        else or_return (change T poll ctx place.project place.zone place.id olds.args input)
            (λ e. record { state = state; failed = some e })
            (λ got. finish (record { state = state_from_instance input got; failed = none })))
