-- ===== src/Pulumi/Client/Storage/Snapshots.antt =====
-- snapshot.go: the client's calls about snapshots.
use nobus_csi.Common.{ℕ, String, List, [], ◌∷◌, ◌++◌, Option, none, some, ◌==◌, if◌then◌else◌}
use nobus_csi.Common.Assoc.{Dict}
use nobus_csi.Cloud.Errors.{Sentinel, Result, ok, err, sentinel}
use nobus_csi.Cloud.Interface.{Run}
use nobus_csi.Cloud.Run.{return, lift, ◌>>=◌}
use nobus_csi.Pulumi.Client.Shapes.{no_payload, snapshot_payload, Snapshot, CreateSnapshotRequest}
use nobus_csi.Pulumi.Client.Calls.{
  Transport, Session, Context, request, project_query, do_request, decoded, ignored, is_wanted,
}
use nobus_csi.Pulumi.Client.Lists.{decode_list}
use nobus_csi.Pulumi.Client.Waits.{wait_until}

abbrev snapshot_path : String
snapshot_path = "/api/v3/volume/snapshot"

-- A reply with no identifier means that there is no such snapshot.
unfoldable pub found_snapshot : Snapshot → Result Snapshot
found_snapshot snap = if snap.id == "" then err (sentinel Sentinel.not_found) else ok snap

abbrev with_snapshot : String → String → String → Dict
with_snapshot project zone id = project_query project zone ++ ("snapshot_id", id) ∷ []

module _ (T : Transport) where
  unfoldable pub create_snapshot : Context → CreateSnapshotRequest → Run (Session T) Snapshot
  create_snapshot ctx req =
      do_request T ctx (request "POST" snapshot_path none (snapshot_payload req))
        (λ b. decoded T (T.as_snapshot b))

  unfoldable pub list_snapshots : Context → String → String → Run (Session T) (List Snapshot)
  list_snapshots ctx project zone = do
    listed ←
        do_request T ctx
          (request "GET" "/api/v3/volume/snapshot/list" (some (project_query project zone))
            no_payload)
          (λ b. decoded T (T.as_snapshots b))
    lift (decode_list listed)

  unfoldable pub get_snapshot : Context → String → String → String → Run (Session T) Snapshot
  unfolding found_snapshot
  get_snapshot ctx project zone id = do
    snap ←
        do_request T ctx
          (request "GET" snapshot_path (some (with_snapshot project zone id)) no_payload)
          (λ b. decoded T (T.as_snapshot b))
    lift (found_snapshot snap)

  unfoldable pub delete_snapshot : Context → String → String → String → Run (Session T) Unit
  delete_snapshot ctx project zone id =
      do_request T ctx
        (request "DELETE" snapshot_path (some (with_snapshot project zone id)) no_payload)
        (ignored T)

  look_for_status :
      List String → String → String → String → Context → Run (Session T) (Option Snapshot)
  look_for_status want project zone id ctx = do
    snap ← get_snapshot ctx project zone id
    return (if is_wanted T want snap.status then some snap else none)

  unfoldable pub wait_snapshot_status :
      ℕ → Context → String → String → String → List String → Run (Session T) Snapshot
  unfolding look_for_status
  wait_snapshot_status poll ctx project zone id want =
      wait_until T poll ctx 300_000 (look_for_status want project zone id)
