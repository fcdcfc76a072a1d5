-- ===== src/Driver/Snapshots.antt =====
-- internal/driver/snapshot.go.
pub mod Statuses
use nobus_csi.Common.{
  ℕ, zero, suc, ◌+◌, ◌*◌, Bool, true, false, not, ◌&&◌, String, ◌<>◌, List, [], ◌∷◌, map, Option,
  none, some, ◌==◌, eqb, leb, if◌then◌else◌,
}
use nobus_csi.Common.Text.{or_else}
use nobus_csi.Common.Sort.{sort_by}
use nobus_csi.Cloud.Errors.{Sentinel, Code, Error, errors_is, Result, ok, err, sentinel}
use nobus_csi.Cloud.Types.{SnapshotSpec, Snapshot, Volume, snapshot_available}
use nobus_csi.Cloud.Interface.{Run, Cloud}
use nobus_csi.Driver.Status.{status, status_error, grpc_error}
use nobus_csi.Driver.Config.{Config}
use nobus_csi.Driver.Csi.{CreateSnapshotRequest, CsiSnapshot, ListRequest}
use nobus_csi.Driver.SnapshotId.{encode_snapshot_id, decode_snapshot_id}
use nobus_csi.Driver.Session.{
  Session, Driver, return, raise, lift, attempt, fail_as, call, require, ◌>>=◌, ◌>>◌, wait,
  with_name, without_lock,
}
use nobus_csi.Driver.Volumes.Reconcile.{named_page}
use nobus_csi.Driver.Volumes.Others.{listing_page}

unfoldable pub csi_snapshot : Snapshot → CsiSnapshot
csi_snapshot s = record {
  size_bytes = s.size_bytes;
  snapshot_id = encode_snapshot_id s.id s.availability_zone;
  source_volume_id = s.volume_id;
  ready_to_use = s.status == snapshot_available;
  creation_time = if eqb s.created_at 0 then none else some s.created_at;
}

abbrev add_snapshot : Snapshot → Result (List Snapshot) → Result (List Snapshot)
add_snapshot s (ok ss) = ok (s ∷ ss)
add_snapshot s (err e) = err e

abbrev in_zone : Snapshot → String → Snapshot
in_zone s zone = if s.availability_zone == "" then record s { availability_zone = zone } else s

-- The listed snapshots of the name, if each of them is of the source volume.
unfoldable pub compatible_snapshots :
    String → String → String → List Snapshot → Result (List Snapshot)
compatible_snapshots name source zone [] = ok []
compatible_snapshots name source zone (s ∷ ss) =
    let rest = compatible_snapshots name source zone ss in
    if not (s.name == name)
    then rest
    else if not (s.volume_id == source)
    then err (status Code.already_exists "snapshot name exists for a different source volume")
    else add_snapshot (in_zone s zone) rest

module _ (C : Cloud) where
  continue_after : Run (Session C) Unit → Result Unit → Run (Session C) Unit
  continue_after rest (ok _) = rest
  continue_after rest (err e) =
      if not (errors_is e Sentinel.not_found) && not (errors_is e Sentinel.conflict)
      then raise e
      else rest

  delete_duplicates : String → List Snapshot → Run (Session C) Unit
  unfolding continue_after
  delete_duplicates zone [] = return tt
  delete_duplicates zone (d ∷ ds) = do
    deleted ← attempt (call (C.delete_snapshot d.id zone))
    continue_after (delete_duplicates zone ds) deleted

  keep_first : String → List Snapshot → Run (Session C) Snapshot
  unfolding delete_duplicates
  keep_first zone [] = raise (sentinel Sentinel.not_found)
  keep_first zone (canonical ∷ duplicates) = do delete_duplicates zone duplicates; return canonical

  module _ (name source zone : String) where
    unfoldable pub reconcile_snapshot_by_name : Run (Session C) Snapshot
    unfolding keep_first
    reconcile_snapshot_by_name = do
      listed ← call (C.list_snapshots (named_page name zone))
      compatible ← lift (compatible_snapshots name source zone listed.0)
      keep_first zone (sort_by (λ (s : Snapshot). s.id) compatible)

    module _ (ctx : ℕ → Bool) where
      last_sample : Result Snapshot → Run (Session C) Snapshot
      last_sample (ok s) = return s
      last_sample (err e) = raise (
          if errors_is e Sentinel.not_found
          then status_error (sentinel Sentinel.unavailable)
          else grpc_error e)

      after_sample :
          (String → ℕ → ℕ → Run (Session C) Snapshot)
          → String
          → ℕ
          → ℕ
          → Result Snapshot
          → Run (Session C) Snapshot
      after_sample more previous stable delay (err e) =
          if not (errors_is e Sentinel.not_found)
          then raise (grpc_error e)
          else do fail_as status_error (wait ctx delay); more previous stable (delay * 2)
      after_sample more previous stable delay (ok s) =
          let count = if s.id == previous then stable + 1 else 1 in
          if leb 3 count
          then return s
          else do fail_as status_error (wait ctx delay); more s.id count (delay * 2)

      sample_rounds : ℕ → String → ℕ → ℕ → Run (Session C) Snapshot
      unfolding after_sample last_sample
      sample_rounds zero previous stable delay = do
        seen ← attempt reconcile_snapshot_by_name
        last_sample seen
      sample_rounds (suc rounds) previous stable delay = do
        seen ← attempt reconcile_snapshot_by_name
        after_sample (sample_rounds rounds) previous stable delay seen

      unfoldable pub reconcile_created_snapshot : Run (Session C) Snapshot
      unfolding sample_rounds
      reconcile_created_snapshot = sample_rounds 7 "" 0 100

  module _ (ctx : ℕ → Bool) (config : Config) (request : CreateSnapshotRequest) where
    snapshot_spec : String → SnapshotSpec
    snapshot_spec zone = record {
      name = request.name;
      volume_id = request.source_volume_id;
      project_id = config.project_id;
      availability_zone = zone;
      force = true;
      metadata = ("csi.driver", config.driver_name) ∷ [];
    }

    after_lookup : String → Result Snapshot → Run (Session C) CsiSnapshot
    unfolding snapshot_spec
    after_lookup zone (ok existing) = return (csi_snapshot existing)
    after_lookup zone (err e) =
        if not (errors_is e Sentinel.not_found) then raise (grpc_error e) else do
          fail_as status_error (call (C.create_snapshot (snapshot_spec zone)))
          canonical ← reconcile_created_snapshot request.name request.source_volume_id zone ctx
          return (csi_snapshot canonical)

    unfoldable pub create_snapshot_with : Run (Session C) CsiSnapshot
    unfolding after_lookup
    create_snapshot_with = do
      v ← fail_as status_error (call (C.get_volume_by_id request.source_volume_id))
      let zone = or_else v.availability_zone config.availability_zone
      seen ← attempt (reconcile_snapshot_by_name request.name request.source_volume_id zone)
      after_lookup zone seen

    unfoldable pub create_snapshot : Run (Driver C) CsiSnapshot
    unfolding create_snapshot_with
    create_snapshot = require request.name "snapshot name is required" (
        require request.source_volume_id "source volume id is required" (
          with_name ("snapshot:" <> request.name)
            "another create operation is in flight for this snapshot name" create_snapshot_with))

  after_delete : Result Unit → Run (Session C) Unit
  after_delete (ok _) = return tt
  after_delete (err e) =
      if errors_is e Sentinel.not_found then return tt else raise (status_error e)

  unfoldable pub delete_snapshot : Config → String → Run (Driver C) Unit
  unfolding after_delete
  delete_snapshot config snapshot_id = require snapshot_id "snapshot id is required" (
      without_lock (do
        let decoded = decode_snapshot_id snapshot_id config.availability_zone
        deleted ← attempt (call (C.delete_snapshot decoded.0 decoded.1))
        after_delete deleted))

  unfoldable pub list_snapshots : ListRequest → Run (Driver C) (List CsiSnapshot × String)
  list_snapshots request = without_lock (do
    listed ← fail_as status_error (call (C.list_snapshots (listing_page request)))
    return (map csi_snapshot listed.0, listed.1))
