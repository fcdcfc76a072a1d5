-- ===== src/Driver/Csi.antt =====
-- The messages of the CSI protocol, as the fields that the driver reads and writes. The generated
-- getters answer a nil message with zero values, so a message that is only read through them is a
-- record of those values; a pointer that the code tests for nil is an `Option`.
use nobus_csi.Common.{ℕ, Bool, String, List, Option}
use nobus_csi.Common.Int.{ℤ}
use nobus_csi.Common.Assoc.{Dict}

pub record CapacityRange : Type 0 where
  pub required_bytes : ℤ
  pub limit_bytes : ℤ

-- The modes that the code names; the enum is open, so any other number may arrive.
pub data AccessMode : Type 0 where
  single_node_writer single_node_single_writer : AccessMode
  single_node_reader_only single_node_multi_writer : AccessMode
  other_mode : ℕ → AccessMode

-- The `oneof` of a capability. A mount has its file system type and its flags.
pub data AccessType : Type 0 where
  mount : String → List String → AccessType
  block : AccessType
  unset : AccessType

pub record VolumeCapability : Type 0 where
  pub access_mode : AccessMode
  pub access_type : AccessType

-- A topology is its segments.
pub record TopologyRequirement : Type 0 where
  pub requisite : List Dict
  pub preferred : List Dict

-- `volume_content_source`: absent, a snapshot's identifier, or a source of another kind.
pub data ContentSource : Type 0 where
  no_source other_source : ContentSource
  snapshot_source_id : String → ContentSource

pub record CreateVolumeRequest : Type 0 where
  pub name : String
  pub capacity_range : CapacityRange
  pub volume_capabilities : List (Option VolumeCapability)
  pub parameters : Dict
  pub volume_content_source : ContentSource
  pub accessibility_requirements : TopologyRequirement

pub record CsiVolume : Type 0 where
  pub volume_id : String
  pub capacity_bytes : ℤ
  pub volume_context : Dict
  pub accessible_topology : List Dict

pub record PublishRequest : Type 0 where
  pub volume_id : String
  pub node_id : String
  pub volume_context : Dict

pub record ExpandRequest : Type 0 where
  pub volume_id : String
  pub capacity_range : CapacityRange

pub record ExpandResponse : Type 0 where
  pub capacity_bytes : ℤ
  pub node_expansion_required : Bool

pub record ListRequest : Type 0 where
  pub starting_token : String
  pub max_entries : ℤ

pub record ValidateRequest : Type 0 where
  pub volume_id : String
  pub volume_capabilities : List (Option VolumeCapability)
  pub parameters : Dict
  pub volume_context : Dict

-- The answer carries a message, or confirms the request's fields.
pub data ValidateResponse : Type 0 where
  refused : String → ValidateResponse
  confirmed : List (Option VolumeCapability) → Dict → Dict → ValidateResponse

pub record CreateSnapshotRequest : Type 0 where
  pub name : String
  pub source_volume_id : String

-- `creation_time` is absent where the provider gave no time.
pub record CsiSnapshot : Type 0 where
  pub size_bytes : ℤ
  pub snapshot_id : String
  pub source_volume_id : String
  pub ready_to_use : Bool
  pub creation_time : Option ℕ
