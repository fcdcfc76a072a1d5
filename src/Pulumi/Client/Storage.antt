-- ===== src/Pulumi/Client/Storage.antt =====
-- volume.go: the client's calls about volumes. Those about snapshots and backups are children.
pub mod Snapshots
pub mod Backups
pub mod Ready
use nobus_csi.Common.{
  ℕ, Bool, true, false, not, ◌&&◌, String, List, [], ◌∷◌, ◌++◌, map, Option, none, some, ◌==◌,
  if◌then◌else◌,
}
use nobus_csi.Common.Assoc.{Dict}
use nobus_csi.Common.Text.{or_else}
use nobus_csi.Cloud.Errors.{Sentinel, Result, ok, err, sentinel}
use nobus_csi.Cloud.Interface.{Run}
use nobus_csi.Cloud.Run.{return, lift, ◌>>=◌, ◌>>◌}
use nobus_csi.Pulumi.Client.Shapes.{
  no_payload, volume_payload, volume_update_payload, attach_payload, Volume, VolumeAttachment,
  CreateVolumeRequest, UpdateVolumeRequest, AttachVolumeRequest,
}
use nobus_csi.Pulumi.Client.Calls.{
  Transport, Session, Context, request, project_query, do_request, decoded, ignored, is_wanted,
}
use nobus_csi.Pulumi.Client.Lists.{decode_list}
use nobus_csi.Pulumi.Client.Waits.{wait_until}

abbrev volume_path : String
volume_path = "/api/v3/volume/"

-- A volume whose zone the API left out is in the one that was asked for.
unfoldable pub in_asked_zone : String → Volume → Volume
in_asked_zone zone v = record v { availability_zone = or_else v.availability_zone zone }

unfoldable pub find_volume : String → String → List Volume → Result Volume
unfolding in_asked_zone
find_volume zone id [] = err (sentinel Sentinel.not_found)
find_volume zone id (v ∷ vs) =
    if v.id == id then ok (in_asked_zone zone v) else find_volume zone id vs

-- The device of the server's attachment, once it has one.
unfoldable pub attached_device : String → List VolumeAttachment → Option String
attached_device server [] = none
attached_device server (a ∷ rest) =
    if a.server_id == server && not (a.device == "")
    then some a.device
    else attached_device server rest

module _ (T : Transport) where
  unfoldable pub create_volume : Context → CreateVolumeRequest → Run (Session T) Volume
  unfolding in_asked_zone
  create_volume ctx req = do
    created ←
        do_request T ctx (request "POST" volume_path none (volume_payload req))
          (λ b. decoded T (T.as_volume b))
    return (in_asked_zone req.availability_zone created)

  unfoldable pub list_volumes : Context → String → String → Run (Session T) (List Volume)
  list_volumes ctx project zone = do
    listed ←
        do_request T ctx
          (request "GET" "/api/v3/volume/list" (some (project_query project zone)) no_payload)
          (λ b. decoded T (T.as_volumes b))
    lift (decode_list listed)

  unfoldable pub get_volume : Context → String → String → String → Run (Session T) Volume
  unfolding find_volume
  get_volume ctx project zone id = do
    volumes ← list_volumes ctx project zone
    lift (find_volume zone id volumes)

  unfoldable pub update_volume : Context → String → UpdateVolumeRequest → Run (Session T) Volume
  update_volume ctx id req =
      do_request T ctx
        (request "PUT" volume_path
          (some (project_query req.project_id req.availability_zone ++ ("volume_id", id) ∷ []))
          (volume_update_payload req))
        (λ b. decoded T (T.as_volume b))

  unfoldable pub delete_volume : Context → String → String → String → Run (Session T) Unit
  delete_volume ctx project zone id =
      do_request T ctx
        (request "DELETE" volume_path (some (project_query project zone ++ ("volume_id", id) ∷ []))
          no_payload)
        (ignored T)

  unfoldable pub attach_volume : Context → AttachVolumeRequest → Run (Session T) Unit
  attach_volume ctx req =
      do_request T ctx (request "POST" "/api/v3/volume/attach" none (attach_payload req))
        (ignored T)

  unfoldable pub detach_volume : Context → AttachVolumeRequest → Run (Session T) Unit
  detach_volume ctx req =
      do_request T ctx (request "POST" "/api/v3/volume/detach" none (attach_payload req))
        (ignored T)

  -- One poll for a status.
  unfoldable pub look_for_status :
      List String → String → String → String → Context → Run (Session T) (Option Volume)
  look_for_status want project zone id ctx = do
    v ← get_volume ctx project zone id
    return (if is_wanted T want v.status then some v else none)

  look_for_device : String → String → String → String → Context → Run (Session T) (Option String)
  unfolding attached_device
  look_for_device project zone id server ctx = do
    v ← get_volume ctx project zone id
    return (attached_device server v.attachments)

  module _ (poll : ℕ) where
    -- The volume that is returned beside an error is dropped: no caller reads it.
    unfoldable pub wait_volume_status :
        Context → String → String → String → List String → Run (Session T) Volume
    unfolding look_for_status
    wait_volume_status ctx project zone id want =
        wait_until T poll ctx 300_000 (look_for_status want project zone id)

    unfoldable pub wait_volume_attached :
        Context → String → String → String → String → Run (Session T) String
    unfolding look_for_device
    wait_volume_attached ctx project zone id server =
        wait_until T poll ctx 180_000 (look_for_device project zone id server)
