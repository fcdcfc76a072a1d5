-- ===== src/Driver/Service/Statuses.antt =====
-- Every handler answers errors as gRPC statuses, and gives its locks back.
use nobus_csi.Common.{ℕ, Bool, String}
use nobus_csi.Cloud.Errors.{Error}
use nobus_csi.Cloud.Interface.{Cloud}
use nobus_csi.Driver.Config.{Config}
use nobus_csi.Driver.Session.{Driver}
use nobus_csi.Driver.Service.{Request, handle}
use nobus_csi.Driver.Status.Laws.{Any, Holds, IsStatus}
use nobus_csi.Driver.Session.Ensures.{Ensures, ensures_rules}
use nobus_csi.Driver.Session.Keeps.{KeepsLocks, keeps_locks}
use nobus_csi.Driver.Volumes.Create.Locks.{create_volume-KeepsLocks}
use nobus_csi.Driver.Volumes.Create.Outcome.{create_volume-Ensures}
use nobus_csi.Driver.Volumes.Attach.Statuses.{publish-Ensures, unpublish-Ensures}
use nobus_csi.Driver.Volumes.Others.Statuses.{
  delete_volume-Ensures, list_volumes-Ensures, expand-Ensures, get_volume-Ensures, validate-Holds,
}
use nobus_csi.Driver.Snapshots.Statuses.{
  create_snapshot-Ensures, delete_snapshot-Ensures, list_snapshots-Ensures,
}
use nobus_csi.Driver.Volumes.Attach.{controller_publish_volume, controller_unpublish_volume}
use nobus_csi.Driver.Volumes.Others.{
  delete_volume, list_volumes, controller_expand_volume, controller_get_volume,
}
use nobus_csi.Driver.Snapshots.{create_snapshot, delete_snapshot, list_snapshots}

module _ (C : Cloud) (error_text : Error → String) (ctx : ℕ → Bool) (config : Config) where
  -- Whatever the request and the provider, when any handler of the controller returns both lock tables are as it found
  -- them.
  pub handle-KeepsLocks : (r : Request) → KeepsLocks (handle C error_text ctx config r)
  unfolding handle controller_publish_volume controller_unpublish_volume delete_volume list_volumes
      controller_expand_volume controller_get_volume create_snapshot delete_snapshot list_snapshots
  handle-KeepsLocks (Request.create_volume_request r) =
      search (keeps_locks, create_volume-KeepsLocks)
  handle-KeepsLocks _ = search (keeps_locks)

  handle-Ensures : (r : Request) → Ensures Any IsStatus (handle C error_text ctx config r)
  unfolding handle
  handle-Ensures (Request.create_volume_request r) = search (ensures_rules, create_volume-Ensures)
  handle-Ensures (Request.delete_volume_request id) = search (ensures_rules, delete_volume-Ensures)
  handle-Ensures (Request.publish_request r) = search (ensures_rules, publish-Ensures)
  handle-Ensures (Request.unpublish_request id node) = search (ensures_rules, unpublish-Ensures)
  handle-Ensures (Request.list_volumes_request r) = search (ensures_rules, list_volumes-Ensures)
  handle-Ensures (Request.expand_request r) = search (ensures_rules, expand-Ensures)
  handle-Ensures (Request.get_volume_request id) = search (ensures_rules, get_volume-Ensures)
  handle-Ensures (Request.create_snapshot_request r) =
      search (ensures_rules, create_snapshot-Ensures)
  handle-Ensures (Request.delete_snapshot_request id) =
      search (ensures_rules, delete_snapshot-Ensures)
  handle-Ensures (Request.list_snapshots_request r) = search (ensures_rules, list_snapshots-Ensures)
  handle-Ensures (Request.validate_request r) = search (ensures_rules, validate-Holds)
  handle-Ensures Request.capabilities_request = search ensures_rules

  -- Whatever the request and the provider, an error that any handler of the controller returns is a gRPC status.
  pub handle-IsStatus :
      (r : Request) (d : Driver C) → Holds Any IsStatus (handle C error_text ctx config r d).0
  handle-IsStatus r d = (handle-Ensures r).at d
