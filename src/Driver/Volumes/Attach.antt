-- ===== src/Driver/Volumes/Attach.antt =====
-- `ControllerPublishVolume` and `ControllerUnpublishVolume` of internal/driver/controller.go.
pub mod Guards
pub mod Statuses
use nobus_csi.Common.{Bool, true, false, not, String, List, [], ◌∷◌, Option, none, some, ◌==◌}
use nobus_csi.Common.{if◌then◌else◌}
use nobus_csi.Common.Text.{or_else}
use nobus_csi.Common.Assoc.{Dict, get_or_empty}
use nobus_csi.Cloud.Errors.{Sentinel, Error, errors_is, Result, ok, err, sentinel}
use nobus_csi.Cloud.Types.{Volume, Attachment}
use nobus_csi.Cloud.Interface.{Run, Cloud}
use nobus_csi.Driver.Status.{status_error}
use nobus_csi.Driver.Config.{Config}
use nobus_csi.Driver.Csi.{PublishRequest}
use nobus_csi.Driver.Session.{
  Session, Driver, return, raise, attempt, fail_as, call, require, ◌>>=◌, ◌>>◌, with_volume,
}

abbrev is_filled : List Attachment → Bool
is_filled [] = false
is_filled (a ∷ rest) = true

device_in : List Attachment → String → Bool → String × Bool
device_in [] node others = ("", others)
device_in (a ∷ rest) node others =
    if a.instance_id == node then (a.device_path, false) else device_in rest node others

-- The device on the node, and whether the volume is attached to other nodes alone.
unfoldable pub attached_device : Volume → String → String × Bool
unfolding device_in
attached_device v node = device_in v.attachments node (is_filled v.attachments)

node_in : List Attachment → String → Bool
node_in [] node = false
node_in (a ∷ rest) node = if a.instance_id == node then true else node_in rest node

unfoldable pub attached_to_node : Volume → String → Bool
unfolding node_in
attached_to_node v node = node_in v.attachments node

-- The publish context.
abbrev pub device_context : String → Dict
device_context device = ("device_path", device) ∷ []

module _ (C : Cloud) where
  usable_device : String × Bool → Option String
  usable_device (device, true) = none
  usable_device (device, false) = if device == "" then none else some device

  device_of_found : String → Result Volume → Option String
  unfolding usable_device
  device_of_found node (err e) = none
  device_of_found node (ok v) = usable_device (attached_device v node)

  unfoldable pub attached_device_after_publish_error :
      String → String → Run (Session C) (Option String)
  unfolding device_of_found
  attached_device_after_publish_error id node = do
    found ← attempt (call (C.get_volume_by_id id))
    return (device_of_found node found)

  after_recovery : Error → Option String → Run (Session C) Dict
  after_recovery failed (some device) = return (device_context device)
  after_recovery failed none = raise (status_error failed)

  after_attach : String → String → Result String → Run (Session C) Dict
  unfolding after_recovery
  after_attach id node (ok device) = return (device_context device)
  after_attach id node (err e) = do
    recovered ← attached_device_after_publish_error id node
    after_recovery e recovered

  attach_unless : String → String → String → String × Bool → Run (Session C) Dict
  unfolding after_attach
  attach_unless id node zone (device, others) =
      if not (device == "")
      then return (device_context device)
      else if others
      then raise (status_error (sentinel Sentinel.conflict))
      else do
        attached ← attempt (call (C.attach_volume id node zone))
        after_attach id node attached

  -- The zone of the volume, of its context, or of the driver: the first that is not empty.
  unfoldable pub publish_found : Config → PublishRequest → Volume → Run (Session C) Dict
  unfolding attach_unless
  publish_found config request v =
      let zone = or_else v.availability_zone (
        or_else (get_or_empty "availability_zone" request.volume_context)
          config.availability_zone) in
      if v.multiattach
      then raise (status_error (sentinel Sentinel.conflict))
      else attach_unless request.volume_id request.node_id zone (attached_device v request.node_id)

  unfoldable pub publish_with : Config → PublishRequest → Run (Session C) Dict
  unfolding publish_found
  publish_with config request = do
    v ← fail_as status_error (call (C.get_volume_by_id request.volume_id))
    publish_found config request v

  unfoldable pub controller_publish_volume : Config → PublishRequest → Run (Driver C) Dict
  unfolding publish_with
  controller_publish_volume config request = require request.volume_id "volume id is required" (
      require request.node_id "node id is required"
        (with_volume request.volume_id (publish_with config request)))

  -- A volume that is not found counts as done.
  gone_is_done : Error → Run (Session C) Unit
  gone_is_done e = if errors_is e Sentinel.not_found then return tt else raise (status_error e)

  after_detach : Result Unit → Run (Session C) Unit
  unfolding gone_is_done
  after_detach (ok _) = return tt
  after_detach (err e) = gone_is_done e

  unpublish_found : Config → String → String → Result Volume → Run (Session C) Unit
  unfolding after_detach
  unpublish_found config id node (err e) = gone_is_done e
  unpublish_found config id node (ok v) =
      let zone =
        if not (v.availability_zone == "") then v.availability_zone else config.availability_zone in
      if not (attached_to_node v node)
      then return tt
      else do detached ← attempt (call (C.detach_volume id node zone)); after_detach detached

  unfoldable pub unpublish_with : Config → String → String → Run (Session C) Unit
  unfolding unpublish_found
  unpublish_with config id node = do
    found ← attempt (call (C.get_volume_by_id id))
    unpublish_found config id node found

  unfoldable pub controller_unpublish_volume : Config → String → String → Run (Driver C) Unit
  unfolding unpublish_with
  controller_unpublish_volume config id node =
      require id "volume id is required"
        (require node "node id is required" (with_volume id (unpublish_with config id node)))
