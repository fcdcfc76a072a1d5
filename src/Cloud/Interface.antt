-- ===== src/Cloud/Interface.antt =====
-- The interface `Cloud` of internal/cloud/cloud.go. A provider is a state and a method for each
-- call: what a call returns, and the state that it leaves.
use nobus_csi.Common.{String, List}
use nobus_csi.Common.Int.{ℤ}
use nobus_csi.Cloud.Errors.{Result}
use nobus_csi.Cloud.Types.{Page, VolumeSpec, Volume, SnapshotSpec, Snapshot, InstanceMetadata}

-- A computation that returns or fails, and leaves a state either way.
abbrev pub Run : Type 0 → Type 0 → Type 0
Run S A = S → Result A × S

pub record Cloud : Type 1 where
  pub State : Type 0
  pub create_volume : VolumeSpec → Run State Volume
  pub get_volume_by_id : String → Run State Volume
  pub list_volumes : Page → Run State (List Volume × String)
  pub delete_volume : String → Run State Unit
  pub resize_volume : String → ℤ → String → Run State ℤ
  pub attach_volume : String → String → String → Run State String
  pub detach_volume : String → String → String → Run State Unit
  pub create_snapshot : SnapshotSpec → Run State Snapshot
  pub delete_snapshot : String → String → Run State Unit
  pub list_snapshots : Page → Run State (List Snapshot × String)
  pub get_instance_metadata : Run State InstanceMetadata
