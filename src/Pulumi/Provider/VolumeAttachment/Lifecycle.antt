-- ===== src/Pulumi/Provider/VolumeAttachment/Lifecycle.antt =====
-- `Create`, `Read` and `Delete` of the resource VolumeAttachment.
use nobus_csi.Common.{
  ℕ, Bool, ◌||◌, String, ◌<>◌, List, [], ◌∷◌, Option, none, some, ◌==◌, if◌then◌else◌,
}
use nobus_csi.Common.Text.{or_else, cut_colon}
use nobus_csi.Cloud.Errors.{Sentinel, Error, errors_is}
use nobus_csi.Cloud.Interface.{Run}
use nobus_csi.Cloud.Run.{lift, ◌>>=◌}
use nobus_csi.Pulumi.Client.Shapes.{AttachVolumeRequest}
use nobus_csi.Pulumi.Client.Shapes as Api
use nobus_csi.Pulumi.Client.Calls.{Transport, Session, Context}
use nobus_csi.Pulumi.Client.Storage.{get_volume, attach_volume, detach_volume, wait_volume_attached}
use nobus_csi.Pulumi.Provider.Scope.{
  Config, scoped_id, bare_resource_id, resolve_scope, resolve_import,
}
use nobus_csi.Pulumi.Provider.Steps.{Created, Reading, finish, or_return, gone_is_fine}
use nobus_csi.Pulumi.Provider.VolumeAttachment.{
  VolumeAttachmentArgs, VolumeAttachmentState, no_args, no_state,
}

abbrev attach_request : String → String → String → String → AttachVolumeRequest
attach_request project zone server volume = record {
  project_id = project;
  availability_zone = zone;
  server_id = server;
  volume_id = volume;
}

unfoldable pub attachment_id : String → String → String → String → String
attachment_id zone project volume instance_id =
    scoped_id zone project (volume <> (":" <> instance_id))

abbrev refused : Error → Created VolumeAttachmentState
refused e = record { id = ""; state = no_state; failed = some e }

abbrev no_attachment : Reading VolumeAttachmentArgs VolumeAttachmentState
no_attachment = record { id = ""; args = no_args; state = no_state; failed = none }

abbrev or_empty : Option String → String
or_empty none = ""
or_empty (some s) = s

-- The volume and the instance: those that are known, or the two parts of the identifier.
named : String → String → String × Option String → String × String
named volume instance_id (first, second) =
    if volume == "" || instance_id == ""
    then (or_else volume first, or_else instance_id (or_empty second))
    else (volume, instance_id)

module _ (zone project volume instance_id : String) where
  abbrev attached : String → VolumeAttachmentState
  attached device = record {
    args = record {
      volume_id = volume;
      instance_id = instance_id;
      availability_zone = zone;
      project_id = project;
    };
    device = device;
  }

  -- The attachment to the instance, if the volume has it.
  unfoldable pub attachment_among :
      List Api.VolumeAttachment → Reading VolumeAttachmentArgs VolumeAttachmentState
  unfolding attachment_id
  attachment_among [] = no_attachment
  attachment_among (a ∷ rest) =
      if a.server_id == instance_id
      then record {
        id = attachment_id zone project volume instance_id;
        args = (attached a.device).args;
        state = attached a.device;
        failed = none;
      }
      else attachment_among rest

module _ (T : Transport) (poll : ℕ) (cfg : Config) (ctx : Context) where
  unfoldable pub create :
      String → VolumeAttachmentArgs → Bool → Session T → Created VolumeAttachmentState × Session T
  unfolding attachment_id
  create name args preview =
      or_return (lift (resolve_scope cfg args.project_id args.availability_zone)) refused (λ place.
        let project = place.project in
        let zone = place.zone in
        let volume = bare_resource_id args.volume_id in
        let server = bare_resource_id args.instance_id in
        let id = attachment_id zone project volume server in
        let state = attached zone project volume server "" in
        if preview
        then finish (record { id = id; state = state; failed = none })
        else or_return (attach_volume T ctx (attach_request project zone server volume)) refused
            (λ _.
              or_return (wait_volume_attached T poll ctx project zone volume server)
                (λ e. record { id = id; state = state; failed = some e })
                (λ device.
                  finish
                    (record { id = id; state = record state { device = device }; failed = none }))))

  -- What is read of an attachment in a place.
  unfoldable pub read_at :
      String
      → String
      → String × String
      → (Error → Reading VolumeAttachmentArgs VolumeAttachmentState)
      → Session T
      → Reading VolumeAttachmentArgs VolumeAttachmentState × Session T
  unfolding attachment_among
  read_at zone project (volume, server) kept =
      or_return (get_volume T ctx project zone volume)
        (λ e. if errors_is e Sentinel.not_found then no_attachment else kept e)
        (λ v. finish (attachment_among zone project volume server v.attachments))

  unfoldable pub read :
      String
      → VolumeAttachmentArgs
      → VolumeAttachmentState
      → Session T
      → Reading VolumeAttachmentArgs VolumeAttachmentState × Session T
  unfolding read_at named
  read id inputs state =
      let kept : Error → Reading VolumeAttachmentArgs VolumeAttachmentState =
        λ e. record { id = id; args = inputs; state = state; failed = some e } in
      or_return
        (lift (
          resolve_import cfg id (or_else state.args.project_id inputs.project_id)
            (or_else state.args.availability_zone inputs.availability_zone)))
        kept
        (λ place.
          read_at place.zone place.project
            (named (bare_resource_id (or_else state.args.volume_id inputs.volume_id))
              (bare_resource_id (or_else state.args.instance_id inputs.instance_id))
              (cut_colon place.id))
            kept)

  unfoldable pub delete : String → VolumeAttachmentState → Run (Session T) Unit
  delete id state = do
    place ← lift (resolve_import cfg id state.args.project_id state.args.availability_zone)
    gone_is_fine (
        detach_volume T ctx (
          attach_request place.project place.zone (bare_resource_id state.args.instance_id)
            (bare_resource_id state.args.volume_id)))
