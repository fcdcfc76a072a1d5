-- ===== src/Driver/Volumes/Others.antt =====
-- The other volume handlers of internal/driver/controller.go: delete, list, expand, get, validate.
pub mod Statuses
use nobus_csi.Common.{Bool, true, false, not, String, List, [], ◌∷◌, map, Option, none, some, ◌==◌}
use nobus_csi.Common.{if◌then◌else◌}
use nobus_csi.Common.Int.{ℤ, leb_ℤ}
use nobus_csi.Cloud.Errors.{Sentinel, Code, Error, errors_is, Result, ok, err}
use nobus_csi.Cloud.Types.{Page, Volume}
use nobus_csi.Cloud.Interface.{Run, Cloud}
use nobus_csi.Driver.Status.{status, status_error}
use nobus_csi.Driver.Config.{Config}
use nobus_csi.Driver.Csi.{
  CsiVolume, ExpandRequest, ExpandResponse, ListRequest, ValidateRequest, ValidateResponse, refused,
  confirmed,
}
use nobus_csi.Driver.Params.Capacity.{requested_bytes}
use nobus_csi.Driver.Params.Capabilities.{capability_message}
use nobus_csi.Driver.Session.{
  Session, Driver, return, raise, lift, attempt, fail_as, call, require, ◌>>=◌, ◌>>◌, with_volume,
  without_lock,
}
use nobus_csi.Driver.Volumes.Create.{csi_volume}

-- The page of a listing: `int` holds every `int32`.
abbrev pub listing_page : ListRequest → Page
listing_page request = record {
  token = request.starting_token;
  size = request.max_entries;
  name = "";
  availability_zone = "";
}

-- `err.Error()` of a status is the gRPC library's.
unfoldable pub validate_volume_capabilities :
    (Error → String) → ValidateRequest → Result ValidateResponse
validate_volume_capabilities error_text request =
    if request.volume_id == ""
    then err (status Code.invalid_argument "volume id is required")
    else if not (capability_message error_text request.volume_capabilities == "")
    then ok (refused (capability_message error_text request.volume_capabilities))
    else ok (confirmed request.volume_capabilities request.parameters request.volume_context)

module _ (C : Cloud) where
  after_delete : Result Unit → Run (Session C) Unit
  after_delete (ok _) = return tt
  after_delete (err e) =
      if errors_is e Sentinel.not_found then return tt else raise (status_error e)

  unfoldable pub delete_volume : String → Run (Driver C) Unit
  unfolding after_delete
  delete_volume id =
      require id "volume id is required"
        (with_volume id (do deleted ← attempt (call (C.delete_volume id)); after_delete deleted))

  unfoldable pub list_volumes : ListRequest → Run (Driver C) (List CsiVolume × String)
  list_volumes request = without_lock (do
    listed ← fail_as status_error (call (C.list_volumes (listing_page request)))
    return (map csi_volume listed.0, listed.1))

  expanded : ℤ → ExpandResponse
  expanded bytes = record { capacity_bytes = bytes; node_expansion_required = true }

  -- A volume that is large enough is left alone.
  expand_found : String → ℤ → Volume → Run (Session C) ExpandResponse
  unfolding expanded
  expand_found id size v = if leb_ℤ size v.size_bytes then return (expanded v.size_bytes) else do
    allocated ← fail_as status_error (call (C.resize_volume id size v.availability_zone))
    return (expanded allocated)

  unfoldable pub expand_with : Config → ExpandRequest → Run (Session C) ExpandResponse
  unfolding expand_found
  expand_with config request = do
    size ← lift (
        requested_bytes request.capacity_range config.minimum_volume_bytes
          config.volume_granularity_bytes)
    v ← fail_as status_error (call (C.get_volume_by_id request.volume_id))
    expand_found request.volume_id size v

  unfoldable pub controller_expand_volume : Config → ExpandRequest → Run (Driver C) ExpandResponse
  unfolding expand_with
  controller_expand_volume config request =
      require request.volume_id "volume id is required"
        (with_volume request.volume_id (expand_with config request))

  unfoldable pub controller_get_volume : String → Run (Driver C) CsiVolume
  controller_get_volume id = require id "volume id is required" (
      without_lock
        (do v ← fail_as status_error (call (C.get_volume_by_id id)); return (csi_volume v)))
