-- ===== src/Driver/Service.antt =====
-- The controller service of internal/driver: one request of each kind, and the handler that gRPC
-- calls for it.
pub mod Statuses
use nobus_csi.Common.{ℕ, Bool, String, List}
use nobus_csi.Common.Assoc.{Dict}
use nobus_csi.Cloud.Errors.{Error, Result, ok, err}
use nobus_csi.Cloud.Interface.{Run, Cloud}
use nobus_csi.Driver.Config.{Config}
use nobus_csi.Driver.Csi.{
  CreateVolumeRequest, CsiVolume, PublishRequest, ExpandRequest, ExpandResponse, ListRequest,
  CreateSnapshotRequest, CsiSnapshot, ValidateRequest, ValidateResponse,
}
use nobus_csi.Driver.Session.{Driver, return, lift, ◌>>=◌}
use nobus_csi.Driver.Volumes.Create.{create_volume}
use nobus_csi.Driver.Volumes.Attach.{controller_publish_volume, controller_unpublish_volume}
use nobus_csi.Driver.Volumes.Others.{
  delete_volume, list_volumes, controller_expand_volume, controller_get_volume,
  validate_volume_capabilities,
}
use nobus_csi.Driver.Identity.{ControllerCapability, controller_get_capabilities}
use nobus_csi.Driver.Snapshots.{create_snapshot, delete_snapshot, list_snapshots}

pub data Request : Type 0 where
  create_volume_request : CreateVolumeRequest → Request
  delete_volume_request : String → Request
  publish_request : PublishRequest → Request
  unpublish_request : String → String → Request
  list_volumes_request : ListRequest → Request
  expand_request : ExpandRequest → Request
  get_volume_request : String → Request
  create_snapshot_request : CreateSnapshotRequest → Request
  delete_snapshot_request : String → Request
  list_snapshots_request : ListRequest → Request
  validate_request : ValidateRequest → Request
  capabilities_request : Request

pub data Response : Type 0 where
  empty : Response
  volume : CsiVolume → Response
  publish_context : Dict → Response
  volumes : List CsiVolume → String → Response
  expanded : ExpandResponse → Response
  snapshot : CsiSnapshot → Response
  snapshots : List CsiSnapshot → String → Response
  validated : ValidateResponse → Response
  capabilities : List ControllerCapability → Response

module _ (C : Cloud) where
  -- The handler's answer as a response.
  answer : {A : Type 0} → (A → Response) → Run (Driver C) A → Run (Driver C) Response
  answer f m = do a ← m; return (f a)

  -- `error_text` is the text that the gRPC library gives a status.
  unfoldable pub handle : (Error → String) → (ℕ → Bool) → Config → Request → Run (Driver C) Response
  unfolding answer
  handle error_text ctx config (create_volume_request r) =
      answer volume (create_volume C ctx config r)
  handle error_text ctx config (delete_volume_request id) = answer (λ _. empty) (delete_volume C id)
  handle error_text ctx config (publish_request r) =
      answer publish_context (controller_publish_volume C config r)
  handle error_text ctx config (unpublish_request id node) =
      answer (λ _. empty) (controller_unpublish_volume C config id node)
  handle error_text ctx config (list_volumes_request r) =
      answer (λ (vs, token). volumes vs token) (list_volumes C r)
  handle error_text ctx config (expand_request r) =
      answer expanded (controller_expand_volume C config r)
  handle error_text ctx config (get_volume_request id) = answer volume (controller_get_volume C id)
  handle error_text ctx config (create_snapshot_request r) =
      answer snapshot (create_snapshot C ctx config r)
  handle error_text ctx config (delete_snapshot_request id) =
      answer (λ _. empty) (delete_snapshot C config id)
  handle error_text ctx config (list_snapshots_request r) =
      answer (λ (ss, token). snapshots ss token) (list_snapshots C r)
  handle error_text ctx config (validate_request r) =
      answer validated (lift (validate_volume_capabilities error_text r))
  handle error_text ctx config capabilities_request =
      return (capabilities controller_get_capabilities)
