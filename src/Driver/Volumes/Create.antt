-- ===== src/Driver/Volumes/Create.antt =====
-- `CreateVolume` and `csiVolume` of internal/driver/controller.go.
pub mod Outcome
pub mod Locks
use nobus_csi.Common.{
  ℕ, Bool, true, false, not, String, List, [], ◌∷◌, Option, none, some, if◌then◌else◌,
}
use nobus_csi.Cloud.Errors.{Sentinel, Error, errors_is, Result, ok, err}
use nobus_csi.Cloud.Types.{VolumeSpec, Volume}
use nobus_csi.Cloud.Interface.{Run, Cloud}
use nobus_csi.Driver.Status.{status_error, grpc_error}
use nobus_csi.Driver.Config.{Config}
use nobus_csi.Driver.Csi.{CreateVolumeRequest, CsiVolume}
use nobus_csi.Driver.Params.Capabilities.{validate_capabilities}
use nobus_csi.Driver.Params.Zones.{topology_zone_key}
use nobus_csi.Driver.Params.Spec.{volume_spec, volume_context}
use nobus_csi.Driver.Session.{Session, Driver, return, raise, attempt, call, ◌>>=◌, ◌>>◌, with_name}
use nobus_csi.Driver.Volumes.Reconcile.{
  reconcile_volume_by_name, reconcile_created_volume, verify_volume,
}

unfoldable pub csi_volume : Volume → CsiVolume
csi_volume v = record {
  volume_id = v.id;
  capacity_bytes = v.size_bytes;
  volume_context = volume_context v;
  accessible_topology = ((topology_zone_key, v.availability_zone) ∷ []) ∷ [];
}

module _ (C : Cloud) (ctx : ℕ → Bool) where
  -- The way out of every success.
  unfoldable pub answer_verified : VolumeSpec → Volume → Run (Session C) CsiVolume
  answer_verified spec v = do verified ← verify_volume C v spec; return (csi_volume verified)

  -- Another caller created the volume between the look and the call; `failed` is that call's error.
  after_conflict : VolumeSpec → Error → Result Volume → Run (Session C) CsiVolume
  unfolding answer_verified
  after_conflict spec failed (ok v) = answer_verified spec v
  after_conflict spec failed (err e) = raise (status_error failed)

  after_create : VolumeSpec → Result Volume → Run (Session C) CsiVolume
  unfolding answer_verified after_conflict
  after_create spec (err e) =
      if errors_is e Sentinel.already_exists
      then (do seen ← attempt (reconcile_volume_by_name C spec); after_conflict spec e seen)
      else raise (status_error e)
  after_create spec (ok _) = do
    canonical ← reconcile_created_volume C ctx spec
    answer_verified spec canonical

  after_lookup : VolumeSpec → Result Volume → Run (Session C) CsiVolume
  unfolding answer_verified after_create
  after_lookup spec (ok existing) = answer_verified spec existing
  after_lookup spec (err e) =
      if not (errors_is e Sentinel.not_found)
      then raise (grpc_error e)
      else do created ← attempt (call (C.create_volume spec)); after_create spec created

  unfoldable pub create_with : VolumeSpec → Run (Session C) CsiVolume
  unfolding after_lookup
  create_with spec = do seen ← attempt (reconcile_volume_by_name C spec); after_lookup spec seen

  create_named : CreateVolumeRequest → Result VolumeSpec → Run (Driver C) CsiVolume
  create_named request (err e) = raise e
  create_named request (ok spec) =
      with_name request.name "another create operation is in flight for this volume name"
        (create_with spec)

  create_checked : Config → CreateVolumeRequest → Option Error → Run (Driver C) CsiVolume
  unfolding create_named
  create_checked config request (some e) = raise e
  create_checked config request none = create_named request (volume_spec request config)

  unfoldable pub create_volume : Config → CreateVolumeRequest → Run (Driver C) CsiVolume
  unfolding create_checked
  create_volume config request =
      create_checked config request (validate_capabilities request.volume_capabilities)
