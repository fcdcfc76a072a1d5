-- ===== src/Cloud/Fake.antt =====
-- internal/cloud/fake.go: the provider kept in memory, which the driver runs on in tests and where
-- NOBUS_ALLOW_FAKE is set. The mutex makes each method one step. `time.Now` is the field `now`.
pub mod State
pub mod Volumes
pub mod Snapshots
use nobus_csi.Common.{
  ℕ, suc, ◌+◌, Bool, true, false, not, ◌&&◌, ◌||◌, String, ◌<>◌, List, [], ◌∷◌, ◌++◌, Option, none,
  some, same, ◌==◌, if◌then◌else◌,
}
use nobus_csi.Common.Int.{ℤ, eqb_ℤ, ltb_ℤ}
use nobus_csi.Common.Lists.{keep}
use nobus_csi.Common.Assoc.{Assoc, lookup, insert, erase, values}
use nobus_csi.Common.Decimal.{itoa}
use nobus_csi.Common.Sort.{sort_by}
use nobus_csi.Cloud.Errors.{Result, ok, err, sentinel, Sentinel}
use nobus_csi.Cloud.Types.{
  Page, VolumeSpec, Volume, Attachment, SnapshotSpec, Snapshot, InstanceMetadata,
  default_volume_type, encrypted_volume_type, volume_available, volume_in_use, snapshot_available,
}
use nobus_csi.Cloud.Interface.{Run, Cloud}
use nobus_csi.Cloud.Page.{paginate}
use nobus_csi.Cloud.Fake.State.{Fake, new_fake, fail, set_volume, on_page, elsewhere}
use nobus_csi.Cloud.Fake.Volumes.{
  create_volume, get_volume_by_id, list_volumes, delete_volume, resize_volume, attach_volume,
  detach_volume,
}
use nobus_csi.Cloud.Fake.Snapshots.{create_snapshot, delete_snapshot, list_snapshots}

unfoldable pub get_instance_metadata : Run Fake InstanceMetadata
get_instance_metadata f = (ok f.metadata, f)

-- The provider as an implementation of the interface.
abbrev pub fake_cloud : Cloud
fake_cloud = record {
  State = Fake;
  create_volume = create_volume;
  get_volume_by_id = get_volume_by_id;
  list_volumes = list_volumes;
  delete_volume = delete_volume;
  resize_volume = resize_volume;
  attach_volume = attach_volume;
  detach_volume = detach_volume;
  create_snapshot = create_snapshot;
  delete_snapshot = delete_snapshot;
  list_snapshots = list_snapshots;
  get_instance_metadata = get_instance_metadata;
}
