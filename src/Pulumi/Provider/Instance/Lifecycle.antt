-- ===== src/Pulumi/Provider/Instance/Lifecycle.antt =====
-- `Create`, `Read` and `Delete` of the resource Instance.
use nobus_csi.Common.{
  ℕ, Bool, false, String, List, [], ◌∷◌, Option, none, some, ◌==◌, if◌then◌else◌,
}
use nobus_csi.Common.Text.{or_else}
use nobus_csi.Cloud.Errors.{Sentinel, Error, errors_is}
use nobus_csi.Cloud.Interface.{Run}
use nobus_csi.Cloud.Run.{return, lift, ◌>>=◌}
use nobus_csi.Pulumi.Client.Shapes.{CreateInstanceRequest, SetTagsRequest}
use nobus_csi.Pulumi.Client.Shapes as Api
use nobus_csi.Pulumi.Client.Calls.{Transport, Session, Context}
use nobus_csi.Pulumi.Client.Compute.{
  create_instance, get_instance, delete_instance, set_tags, wait_instance_status,
}
use nobus_csi.Pulumi.Provider.Scope.{
  Config, scoped_id, bare_resource_id, bare_ids, resolve_scope, resolve_import,
}
use nobus_csi.Pulumi.Provider.Steps.{Created, Reading, finish, or_return, gone_is_fine}
use nobus_csi.Pulumi.Provider.Instance.{
  InstanceArgs, InstanceState, no_args, no_state, plain, state_from_instance,
}

abbrev create_request : String → String → InstanceArgs → CreateInstanceRequest
create_request project zone input = record {
  project_id = project;
  availability_zone = zone;
  name = input.name;
  image = bare_resource_id input.image;
  flavor = bare_resource_id input.flavor;
  key_name = input.key_name;
  volume_size = input.volume_size;
  network_id = bare_resource_id input.network_id;
  security_groups = bare_ids input.security_groups;
  admin_pass = input.admin_pass;
  user_data = input.user_data;
}

abbrev pub tags_request : String → String → String → List String → SetTagsRequest
tags_request project zone server tags = record {
  project_id = project;
  availability_zone = zone;
  server_id = server;
  tags = tags;
}

abbrev refused : Error → Created InstanceState
refused e = record { id = ""; state = no_state; failed = some e }

abbrev pub located : String → String → InstanceArgs → InstanceArgs
located project zone a = record a { project_id = project; availability_zone = zone }

abbrev is_true : Option Bool → Bool
is_true none = false
is_true (some b) = b

-- The arguments that are known of an instance: the state's, else the inputs, else what the API tells.
known_args : InstanceArgs → InstanceArgs → Api.Instance → InstanceArgs
known_args state inputs got =
    let args = if state.name == "" then inputs else state in
    record args { name = or_else args.name got.name; key_name = or_else args.key_name got.key_name }

module _ (T : Transport) (poll : ℕ) (cfg : Config) (ctx : Context) where
  -- The tags of a new instance, if there are any.
  first_tags : String → String → String → List String → Run (Session T) Unit
  first_tags project zone server [] = return tt
  first_tags project zone server (tag ∷ tags) =
      set_tags T ctx (tags_request project zone server (tag ∷ tags))

  unfoldable pub create :
      String → InstanceArgs → Bool → Session T → Created InstanceState × Session T
  unfolding first_tags
  create name args preview =
      or_return (lift (resolve_scope cfg args.project_id args.availability_zone)) refused (λ place.
        let project = place.project in
        let zone = place.zone in
        let input = located project zone args in
        let made : Option Error → Api.Instance → Created InstanceState = λ failed inst. record {
          id = scoped_id zone project inst.id;
          state = state_from_instance input inst;
          failed = failed;
        } in
        if preview
        then finish
            (record { id = scoped_id zone project name; state = plain input; failed = none })
        else or_return (create_instance T ctx (create_request project zone input)) refused
            (λ created.
              or_return (wait_instance_status T poll ctx project zone created.id ("ACTIVE" ∷ []))
                (λ e. made (some e) created)
                (λ active.
                  or_return (first_tags project zone active.id input.tags)
                    (λ e. made (some e) active) (λ _. finish (made none active)))))

  unfoldable pub read :
      String
      → InstanceArgs
      → InstanceState
      → Session T
      → Reading InstanceArgs InstanceState × Session T
  unfolding known_args
  read id inputs state =
      let kept : Error → Reading InstanceArgs InstanceState =
        λ e. record { id = id; args = inputs; state = state; failed = some e } in
      or_return
        (lift (
          resolve_import cfg id (or_else state.args.project_id inputs.project_id)
            (or_else state.args.availability_zone inputs.availability_zone)))
        kept
        (λ place.
          or_return (get_instance T ctx place.project place.zone place.id)
            (λ e.
              if errors_is e Sentinel.not_found
              then record { id = ""; args = no_args; state = no_state; failed = none }
              else kept e)
            (λ got.
              let args = located place.project place.zone (known_args state.args inputs got) in
              finish (record {
                id = scoped_id place.zone place.project got.id;
                args = args;
                state = state_from_instance args got;
                failed = none;
              })))

  unfoldable pub delete : String → InstanceState → Run (Session T) Unit
  delete id state = do
    place ← lift (resolve_import cfg id state.args.project_id state.args.availability_zone)
    gone_is_fine
        (delete_instance T ctx place.project place.zone place.id (is_true state.args.delete_volume))
