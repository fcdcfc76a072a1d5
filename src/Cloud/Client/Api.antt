-- ===== src/Cloud/Client/Api.antt =====
-- The structures that the client sends and receives, and how they become the provider's data.
pub mod Sizes
use nobus_csi.Common.{ℕ, Bool, String, List, [], ◌∷◌, map, Option, none, some, ◌==◌, if◌then◌else◌}
use nobus_csi.Common.Int.{ℤ, pos, negsuc, add64, mul64, quot64}
use nobus_csi.Common.Assoc.{Dict}
use nobus_csi.Cloud.Errors.{Sentinel, Result, ok, err, sentinel}
use nobus_csi.Cloud.Types.{VolumeSpec, Volume, Attachment, SnapshotSpec, Snapshot}

pub record VolumeCreateRequest : Type 0 where
  pub size : ℤ
  pub name : String
  pub volume_type : String
  pub availability_zone : String
  pub snapshot_id : String
  pub encrypted : Bool
  pub metadata : Dict
  pub project_id : String

pub record AttachVolumeRequest : Type 0 where
  pub project_id : String
  pub availability_zone : String
  pub server_id : String
  pub volume_id : String

pub record ExtendVolumeRequest : Type 0 where
  pub project_id : String
  pub availability_zone : String
  pub volume_id : String
  pub new_size : ℤ

pub record SnapshotRequest : Type 0 where
  pub volume_id : String
  pub name : String
  pub force : Bool
  pub project_id : String
  pub availability_zone : String
  pub metadata : Dict

-- What is encoded as the body of a request.
pub data Payload : Type 0 where
  no_payload : Payload
  volume_payload : VolumeCreateRequest → Payload
  attach_payload : AttachVolumeRequest → Payload
  extend_payload : ExtendVolumeRequest → Payload
  snapshot_payload : SnapshotRequest → Payload

pub record ApiAttachment : Type 0 where
  pub server_id : String
  pub device : String

pub record ApiVolume : Type 0 where
  pub id : String
  pub name : String
  pub size : ℤ
  pub status : String
  pub availability_zone : String
  pub volume_type : String
  pub encrypted : Bool
  pub multiattach : Bool
  pub metadata : Dict
  pub attachments : List ApiAttachment

pub record ApiSnapshot : Type 0 where
  pub id : String
  pub name : String
  pub volume_id : String
  pub status : String
  pub size : ℤ
  pub created_at : String
  pub availability_zone : String
  pub metadata : Dict

abbrev pub bytes_per_gib : ℤ
bytes_per_gib = pos 1_073_741_824

-- `int` has 64 bits.
unfoldable pub bytes_to_gib : ℤ → ℤ
bytes_to_gib size_bytes = quot64 (add64 (add64 size_bytes bytes_per_gib) (negsuc 0)) bytes_per_gib

unfoldable pub attachment_to_domain : ApiAttachment → Attachment
attachment_to_domain a = record { instance_id = a.server_id; device_path = a.device }

unfoldable pub volume_to_domain : ApiVolume → Volume
unfolding attachment_to_domain
volume_to_domain v = record {
  id = v.id;
  name = v.name;
  size_bytes = mul64 v.size bytes_per_gib;
  status = v.status;
  availability_zone = v.availability_zone;
  volume_type = v.volume_type;
  encrypted = v.encrypted;
  multiattach = v.multiattach;
  metadata = v.metadata;
  attachments = map attachment_to_domain v.attachments;
}

-- `parse layout value` is `time.Parse`, in the unit of the snapshots' times.
module _ (parse : String → String → Option ℕ) where
  first_layout : String → List String → Result ℕ
  first_layout value [] = err (sentinel Sentinel.invalid)
  first_layout value (layout ∷ layouts) = elim (parse layout value) [
    | none ↦ first_layout value layouts
    | some t ↦ ok t
  ]

  unfoldable pub parse_nobus_time : String → Result ℕ
  unfolding first_layout
  parse_nobus_time value =
      if value == ""
      then ok 0
      else first_layout value (
          "2006-01-02T15:04:05.999999999Z07:00" ∷ "2006-01-02T15:04:05.999999"
          ∷ "2006-01-02T15:04:05.999" ∷ "2006-01-02T15:04:05" ∷ [])

  snapshot_at : ApiSnapshot → Result ℕ → Result Snapshot
  snapshot_at s (err e) = err e
  snapshot_at s (ok created_at) = ok (record {
    id = s.id;
    name = s.name;
    volume_id = s.volume_id;
    size_bytes = mul64 s.size bytes_per_gib;
    status = s.status;
    created_at = created_at;
    availability_zone = s.availability_zone;
    metadata = s.metadata;
  })

  unfoldable pub snapshot_to_domain : ApiSnapshot → Result Snapshot
  unfolding parse_nobus_time snapshot_at
  snapshot_to_domain s = snapshot_at s (parse_nobus_time s.created_at)
