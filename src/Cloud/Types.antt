-- ===== src/Cloud/Types.antt =====
-- internal/cloud/cloud.go: the data that the driver and a provider exchange.
use nobus_csi.Common.{ℕ, String, Bool, List}
use nobus_csi.Common.Int.{ℤ}
use nobus_csi.Common.Assoc.{Dict}

pub record Page : Type 0 where
  pub token : String
  pub size : ℤ
  pub name : String
  pub availability_zone : String

pub record VolumeSpec : Type 0 where
  pub name : String
  pub size_bytes : ℤ
  pub availability_zone : String
  pub project_id : String
  pub volume_type : String
  pub snapshot_id : String
  pub encrypted : Bool
  pub metadata : Dict

pub record Attachment : Type 0 where
  pub instance_id : String
  pub device_path : String

pub record Volume : Type 0 where
  pub id : String
  pub name : String
  pub size_bytes : ℤ
  pub status : String
  pub availability_zone : String
  pub volume_type : String
  pub encrypted : Bool
  pub multiattach : Bool
  pub metadata : Dict
  pub attachments : List Attachment

pub record SnapshotSpec : Type 0 where
  pub name : String
  pub volume_id : String
  pub project_id : String
  pub availability_zone : String
  pub force : Bool
  pub metadata : Dict

-- `created_at` counts from the zero time of package `time`: 0 is what `IsZero` tests.
pub record Snapshot : Type 0 where
  pub id : String
  pub name : String
  pub volume_id : String
  pub size_bytes : ℤ
  pub status : String
  pub created_at : ℕ
  pub availability_zone : String
  pub metadata : Dict

pub record InstanceMetadata : Type 0 where
  pub instance_id : String
  pub availability_zone : String
  pub region : String
  pub max_volumes_per_node : ℤ

abbrev pub default_volume_type : String
default_volume_type = "__DEFAULT__"

abbrev pub encrypted_volume_type : String
encrypted_volume_type = "Encrypted-v1"

abbrev pub volume_available : String
volume_available = "available"

abbrev pub volume_in_use : String
volume_in_use = "in-use"

abbrev pub snapshot_available : String
snapshot_available = "available"
