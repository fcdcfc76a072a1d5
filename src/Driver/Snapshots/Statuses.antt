-- ===== src/Driver/Snapshots/Statuses.antt =====
-- The errors of the snapshot handlers are gRPC statuses.
use nobus_csi.Common.{ℕ, zero, suc, Bool, true, false, String, if◌then◌else◌}
use nobus_csi.Cloud.Errors.{Code, Error, Result, ok, err}
use nobus_csi.Cloud.Types.{Snapshot}
use nobus_csi.Cloud.Interface.{Run, Cloud}
use nobus_csi.Driver.Config.{Config}
use nobus_csi.Driver.Status.{status}
use nobus_csi.Driver.Status.Laws.{Any, IsStatus, status_error-IsStatus, grpc_error-IsStatus}
use nobus_csi.Driver.Session.{Session}
use nobus_csi.Driver.Session.Ensures.{Ensures, ensures_rules}
use nobus_csi.Driver.Session.Ensures.{Ensures-bind, Ensures-attempt}
use nobus_csi.Driver.Csi.{CreateSnapshotRequest, ListRequest}
use nobus_csi.Driver.Snapshots.{
  last_sample, after_sample, sample_rounds, reconcile_created_snapshot, after_lookup,
  create_snapshot, after_delete, delete_snapshot, list_snapshots,
}

aborted-IsStatus : (m : String) → IsStatus (status Code.aborted m)
aborted-IsStatus m = tt

if-IsStatus : (b : Bool) (d e : Error) → IsStatus d → IsStatus e → IsStatus (if b then d else e)
if-IsStatus true d e hd he = hd
if-IsStatus false d e hd he = he

module _ (C : Cloud) where
  module _ (name source zone : String) (ctx : ℕ → Bool) where
    last_sample-Ensures :
        (r : Result Snapshot)
        → Ensures {S = Session C} Any IsStatus (last_sample C name source zone ctx r)
    unfolding last_sample
    last_sample-Ensures (ok v) = search ensures_rules
    last_sample-Ensures (err e) =
        search (ensures_rules, if-IsStatus, status_error-IsStatus, grpc_error-IsStatus)

    after_sample-Ensures :
        (more : String → ℕ → ℕ → Run (Session C) Snapshot) (previous : String) (stable delay : ℕ)
        (r : Result Snapshot)
        → ((p : String) (n d : ℕ) → Ensures Any IsStatus (more p n d))
        → Ensures Any IsStatus (after_sample C name source zone ctx more previous stable delay r)
    unfolding after_sample
    after_sample-Ensures more previous stable delay (ok v) h =
        search (ensures_rules, status_error-IsStatus, h)
    after_sample-Ensures more previous stable delay (err e) h =
        search (ensures_rules, status_error-IsStatus, grpc_error-IsStatus, h)

    sample_rounds-Ensures :
        (rounds : ℕ) (previous : String) (stable delay : ℕ)
        → Ensures {S = Session C} Any IsStatus
            (sample_rounds C name source zone ctx rounds previous stable delay)
    unfolding sample_rounds
    sample_rounds-Ensures zero previous stable delay = search (ensures_rules, last_sample-Ensures)
    sample_rounds-Ensures (suc rounds) previous stable delay =
        Ensures-bind _ _ (Ensures-attempt _)
          (λ seen. after_sample-Ensures _ previous stable delay seen (sample_rounds-Ensures rounds))

    reconcile_created_snapshot-Ensures :
        Ensures Any IsStatus (reconcile_created_snapshot C name source zone ctx)
    unfolding reconcile_created_snapshot
    reconcile_created_snapshot-Ensures = sample_rounds-Ensures 7 "" 0 100

  module _ (ctx : ℕ → Bool) (config : Config) (request : CreateSnapshotRequest) where
    after_lookup-Ensures :
        (zone : String) (r : Result Snapshot)
        → Ensures Any IsStatus (after_lookup C ctx config request zone r)
    unfolding after_lookup
    after_lookup-Ensures zone (ok s) = search ensures_rules
    after_lookup-Ensures zone (err e) = search (
      ensures_rules, status_error-IsStatus, grpc_error-IsStatus, reconcile_created_snapshot-Ensures,
    )

    pub create_snapshot-Ensures : Ensures Any IsStatus (create_snapshot C ctx config request)
    unfolding create_snapshot
    create_snapshot-Ensures =
        search (ensures_rules, aborted-IsStatus, status_error-IsStatus, after_lookup-Ensures) depth
          10

  after_delete-Ensures : (r : Result Unit) → Ensures {S = Session C} Any IsStatus (after_delete C r)
  unfolding after_delete
  after_delete-Ensures (ok u) = search ensures_rules
  after_delete-Ensures (err e) = search (ensures_rules, status_error-IsStatus)

  pub delete_snapshot-Ensures :
      (config : Config) (id : String) → Ensures Any IsStatus (delete_snapshot C config id)
  unfolding delete_snapshot
  delete_snapshot-Ensures config id = search (ensures_rules, after_delete-Ensures) depth 8

  pub list_snapshots-Ensures : (r : ListRequest) → Ensures Any IsStatus (list_snapshots C r)
  unfolding list_snapshots
  list_snapshots-Ensures r = search (ensures_rules, status_error-IsStatus)
