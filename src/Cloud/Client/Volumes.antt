-- ===== src/Cloud/Client/Volumes.antt =====
-- The client's calls about volumes.
pub mod Deleted
pub mod Polls
use nobus_csi.Common.{
  ℕ, zero, suc, ◌+◌, Bool, true, false, not, ◌&&◌, ◌||◌, String, List, [], ◌∷◌, ◌++◌, map, Option,
  none, some, ◌==◌, leb, if◌then◌else◌,
}
use nobus_csi.Common.Int.{ℤ, pos}
use nobus_csi.Common.Text.{or_else}
use nobus_csi.Common.Assoc.{Dict}
use nobus_csi.Common.Sort.{sort_by}
use nobus_csi.Cloud.Errors.{Sentinel, Error, errors_is, Result, ok, err, sentinel}
use nobus_csi.Cloud.Types.{Page, VolumeSpec, Volume, Attachment}
use nobus_csi.Cloud.Interface.{Run}
use nobus_csi.Cloud.Page.{paginate}
use nobus_csi.Cloud.Run.{return, raise, lift, attempt, ◌>>=◌, ◌>>◌}
use nobus_csi.Cloud.Client.Api.{
  Payload, no_payload, volume_payload, attach_payload, extend_payload, ApiVolume,
  VolumeCreateRequest, AttachVolumeRequest, ExtendVolumeRequest, bytes_to_gib, volume_to_domain,
}
use nobus_csi.Cloud.Client.Calls.{
  Transport, ClientConfig, HttpRequest, Body, zone_query, do_request, decoded, drain,
}

-- The transport's state, and the milliseconds that the client has waited between polls.
pub record Polling (T : Transport) : Type 0 where
  pub remote : T.State
  pub elapsed : ℕ

abbrev pub volume_path : String
volume_path = "/api/v3/volume/"

abbrev volume_create : VolumeSpec → VolumeCreateRequest
volume_create spec = record {
  size = bytes_to_gib spec.size_bytes;
  name = spec.name;
  volume_type = spec.volume_type;
  availability_zone = spec.availability_zone;
  snapshot_id = spec.snapshot_id;
  encrypted = spec.encrypted;
  metadata = spec.metadata;
  project_id = spec.project_id;
}

abbrev in_zone : String → Volume → Volume
in_zone zone v = record v { availability_zone = zone }

-- The listed volume, in the zone that was asked for if one was.
unfoldable pub listed_volume : String → ApiVolume → Volume
listed_volume zone v = if zone == "" then volume_to_domain v else in_zone zone (volume_to_domain v)

unfoldable pub with_id : String → List Volume → Result Volume
with_id id [] = err (sentinel Sentinel.not_found)
with_id id (v ∷ vs) = if v.id == id then ok v else with_id id vs

-- The path of the device, once the attachment to the node has one.
unfoldable pub attached_path : String → List Attachment → Option String
attached_path node [] = none
attached_path node (a ∷ rest) =
    if a.instance_id == node && not (a.device_path == "")
    then some a.device_path
    else attached_path node rest

abbrev name_filter : String → Dict
name_filter name = if name == "" then [] else ("name", name) ∷ []

module _ (T : Transport) (config : ClientConfig) where
  -- One call, by the polling client.
  unfoldable pub api : {A : Type 0} → HttpRequest → (Body → Result A) → Run (Polling T) A
  api request decode s =
      let (r, remote) = do_request T request decode s.remote in (r, record s { remote = remote })

  unfoldable pub create_volume : VolumeSpec → Run (Polling T) Volume
  create_volume spec = do
    created ←
        api
          (record {
            method = "POST";
            path = volume_path;
            query = none;
            payload = volume_payload (volume_create spec);
          })
          (λ b. decoded T b.volume)
    return (in_zone spec.availability_zone (volume_to_domain created))

  unfoldable pub list_volumes : Page → Run (Polling T) (List Volume × String)
  unfolding listed_volume
  list_volumes page = do
    listed ←
        api
          (record {
            method = "GET";
            path = "/api/v3/volume/list";
            query = some (zone_query config page.availability_zone ++ name_filter page.name);
            payload = no_payload;
          })
          (λ b. decoded T b.volumes)
    lift (
        paginate
          (sort_by (λ (v : Volume). v.id)
            (map (listed_volume (or_else page.availability_zone config.availability_zone)) listed))
          page)

  -- The API's call for one volume fails, so the zone is listed.
  unfoldable pub get_volume_by_id_in_zone : String → String → Run (Polling T) Volume
  unfolding with_id
  get_volume_by_id_in_zone id zone = do
    listed ← list_volumes (record {
      token = "";
      size = pos 0;
      name = "";
      availability_zone = or_else zone config.availability_zone;
    })
    lift (with_id id listed.0)

  unfoldable pub get_volume_by_id : String → Run (Polling T) Volume
  get_volume_by_id id = get_volume_by_id_in_zone id ""

  -- The next poll is two seconds later, unless the call's context or its own limit is done first.
  unfoldable pub pause : (ℕ → Bool) → Run (Polling T) Unit
  pause done s =
      if done (s.elapsed + 2000)
      then (err (sentinel Sentinel.unavailable), s)
      else (ok tt, record s { elapsed = s.elapsed + 2000 })

  after_look : Run (Polling T) Unit → Result Volume → Run (Polling T) Unit
  after_look again (err e) = if errors_is e Sentinel.not_found then return tt else raise e
  after_look again (ok v) = again

  -- The polls, at most as many as `rounds`.
  unfoldable pub wait_volume_deleted : (ℕ → Bool) → ℕ → String → Run (Polling T) Unit
  unfolding after_look
  wait_volume_deleted done zero id = raise (sentinel Sentinel.unavailable)
  wait_volume_deleted done (suc rounds) id = do
    seen ← attempt (get_volume_by_id_in_zone id config.availability_zone)
    after_look (do pause done; wait_volume_deleted done rounds id) seen

  -- The context of a wait: the caller's, or the limit in milliseconds from where the wait starts.
  abbrev pub within : (ℕ → Bool) → ℕ → ℕ → ℕ → Bool
  within ctx start limit t = ctx t || leb (start + limit) t

  unfoldable pub delete_volume : (ℕ → Bool) → String → Run (Polling T) Unit
  delete_volume ctx id = do
    api
        (record {
          method = "DELETE";
          path = volume_path;
          query = some (zone_query config "" ++ ("volume_id", id) ∷ []);
          payload = no_payload;
        })
        (drain T)
    λ s. wait_volume_deleted (within ctx s.elapsed 120_000) 61 id s

  unfoldable pub resize_volume : String → ℤ → String → Run (Polling T) ℤ
  resize_volume id size zone = do
    api
        (record {
          method = "POST";
          path = "/api/v3/volume/extend";
          query = none;
          payload = extend_payload (record {
            project_id = config.project_id;
            availability_zone = or_else zone config.availability_zone;
            volume_id = id;
            new_size = bytes_to_gib size;
          });
        })
        (drain T)
    v ← get_volume_by_id_in_zone id (or_else zone config.availability_zone)
    return v.size_bytes

  after_poll : Run (Polling T) String → Option String → Run (Polling T) String
  after_poll again (some device) = return device
  after_poll again none = again

  unfoldable pub wait_attached_device :
      (ℕ → Bool) → ℕ → String → String → String → Run (Polling T) String
  unfolding after_poll attached_path
  wait_attached_device done zero id node zone = raise (sentinel Sentinel.unavailable)
  wait_attached_device done (suc rounds) id node zone = do
    v ← get_volume_by_id_in_zone id zone
    after_poll (do pause done; wait_attached_device done rounds id node zone)
        (attached_path node v.attachments)

  abbrev attach_request : String → String → String → String → HttpRequest
  attach_request path id node zone = record {
    method = "POST";
    path = path;
    query = none;
    payload = attach_payload (record {
      project_id = config.project_id;
      availability_zone = or_else zone config.availability_zone;
      server_id = node;
      volume_id = id;
    });
  }

  unfoldable pub attach_volume : (ℕ → Bool) → String → String → String → Run (Polling T) String
  attach_volume ctx id node zone = do
    api (attach_request "/api/v3/volume/attach" id node zone) (drain T)
    λ s.
        wait_attached_device (within ctx s.elapsed 180_000) 91 id node
          (or_else zone config.availability_zone) s

  unfoldable pub detach_volume : String → String → String → Run (Polling T) Unit
  detach_volume id node zone = api (attach_request "/api/v3/volume/detach" id node zone) (drain T)
