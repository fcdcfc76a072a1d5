-- ===== src/Driver/Node.antt =====
-- internal/driver/node.go: the node service. `require` and the other steps are those of the
-- controller's handlers, on the mounter's state.
pub mod Idempotent
pub mod Statuses
use nobus_csi.Common.{
  Bool, true, false, not, ◌&&◌, ◌||◌, String, List, [], ◌∷◌, ◌++◌, Option, none, some, ◌==◌,
  if◌then◌else◌,
}
use nobus_csi.Common.Int.{ℤ, pos, ltb_ℤ}
use nobus_csi.Common.Text.{or_else}
use nobus_csi.Common.Assoc.{Dict, get_or_empty}
use nobus_csi.Cloud.Errors.{Code}
use nobus_csi.Cloud.Types.{InstanceMetadata}
use nobus_csi.Cloud.Interface.{Run, Cloud}
use nobus_csi.Mount.{Mounter, Stats}
use nobus_csi.Driver.Status.{status, status_error}
use nobus_csi.Driver.Csi.{AccessType, mount, block, unset, VolumeCapability}
use nobus_csi.Driver.Params.Zones.{topology_zone_key}
use nobus_csi.Driver.Session.{return, raise, fail_as, require, ◌>>=◌, ◌>>◌}

abbrev pub default_fs_type : String
default_fs_type = "ext4"

pub record NodeStageRequest : Type 0 where
  pub volume_id : String
  pub staging_target_path : String
  pub volume_capability : Option VolumeCapability
  pub publish_context : Dict

pub record NodePublishRequest : Type 0 where
  pub volume_id : String
  pub staging_target_path : String
  pub target_path : String
  pub readonly : Bool
  pub volume_capability : Option VolumeCapability
  pub publish_context : Dict

pub record NodeExpandRequest : Type 0 where
  pub volume_path : String
  pub volume_capability : Option VolumeCapability
  pub required_bytes : ℤ

unfoldable pub fs_type_of : AccessType → String
fs_type_of (mount fs_type flags) = or_else fs_type default_fs_type
fs_type_of block = default_fs_type
fs_type_of unset = default_fs_type

unfoldable pub flags_of : AccessType → List String
flags_of (mount fs_type flags) = flags
flags_of block = []
flags_of unset = []

unfoldable pub is_block_access : AccessType → Bool
is_block_access block = true
is_block_access (mount fs_type flags) = false
is_block_access unset = false

unfoldable pub expand_fs_type : Option VolumeCapability → String
unfolding fs_type_of
expand_fs_type none = default_fs_type
expand_fs_type (some c) = fs_type_of c.access_type

module _ (M : Mounter) where
  unfoldable pub stage_with : NodeStageRequest → Option VolumeCapability → Run M.State Unit
  unfolding fs_type_of flags_of
  stage_with request none = raise (status Code.invalid_argument "volume capability is required")
  stage_with request (some c) = do
    mounted ← fail_as status_error (M.is_mounted request.staging_target_path)
    if mounted then return tt else do
      device ←
          fail_as status_error
            (M.find_device request.volume_id (get_or_empty "device_path" request.publish_context))
      fail_as status_error (
          M.stage device request.staging_target_path (fs_type_of c.access_type)
            (flags_of c.access_type))

  unfoldable pub node_stage_volume : NodeStageRequest → Run M.State Unit
  unfolding stage_with
  node_stage_volume request = require request.volume_id "volume id is required" (
      require request.staging_target_path "staging target path is required"
        (stage_with request request.volume_capability))

  unfoldable pub node_unstage_volume : String → String → Run M.State Unit
  node_unstage_volume id path =
      require id "volume id is required"
        (require path "staging target path is required" (fail_as status_error (M.unmount path)))

  -- What is mounted: the device of a block volume, the staged directory otherwise.
  unfoldable pub publish_source : NodePublishRequest → AccessType → Run M.State String
  unfolding is_block_access
  publish_source request access =
      if is_block_access access
      then fail_as status_error
          (M.find_device request.volume_id (get_or_empty "device_path" request.publish_context))
      else return request.staging_target_path

  unfoldable pub publish_with : NodePublishRequest → Option VolumeCapability → Run M.State Unit
  unfolding publish_source flags_of is_block_access
  publish_with request none = raise (status Code.invalid_argument "volume capability is required")
  publish_with request (some c) = do
    mounted ← fail_as status_error (M.is_mounted request.target_path)
    if mounted then return tt else do
      source ← publish_source request c.access_type
      fail_as status_error (
          M.publish source request.target_path request.readonly (is_block_access c.access_type)
            (flags_of c.access_type))

  unfoldable pub node_publish_volume : NodePublishRequest → Run M.State Unit
  unfolding publish_with
  node_publish_volume request = require request.volume_id "volume id is required" (
      require request.target_path "target path is required"
        (publish_with request request.volume_capability))

  unfoldable pub node_unpublish_volume : String → String → Run M.State Unit
  node_unpublish_volume id path =
      require id "volume id is required"
        (require path "target path is required" (fail_as status_error (M.unmount path)))

  -- The usage in bytes and in inodes is read from one `Stats`.
  unfoldable pub node_get_volume_stats : String → Run M.State Stats
  node_get_volume_stats path = require path "volume path is required" (do
    block_device ← fail_as status_error (M.is_block path)
    fail_as status_error (M.stats path block_device))

  unfoldable pub node_expand_volume : NodeExpandRequest → Run M.State ℤ
  unfolding expand_fs_type
  node_expand_volume request = require request.volume_path "volume path is required" (do
    fail_as status_error (M.expand request.volume_path (expand_fs_type request.volume_capability))
    return request.required_bytes)

unfoldable pub node_availability_zone : String → String → String
node_availability_zone metadata_zone configured =
    if not (configured == "") && (metadata_zone == "" || metadata_zone == "nova")
    then configured
    else metadata_zone

-- `accessible_topology` is absent where there are no segments; 0 volumes per node is the field's
-- zero value.
pub record NodeInfo : Type 0 where
  pub node_id : String
  pub accessible_topology : Option Dict
  pub max_volumes_per_node : ℤ

abbrev topology_region_key : String
topology_region_key = "topology.csi.nobus.io/region"

abbrev segment : String → String → Dict
segment key value = if value == "" then [] else (key, value) ∷ []

abbrev topology : Dict → Option Dict
topology [] = none
topology (entry ∷ rest) = some (entry ∷ rest)

unfoldable pub node_info : String → InstanceMetadata → NodeInfo
unfolding node_availability_zone
node_info configured m = record {
  node_id = m.instance_id;
  accessible_topology = topology (
      segment topology_zone_key (node_availability_zone m.availability_zone configured)
      ++ segment topology_region_key m.region);
  max_volumes_per_node =
      if ltb_ℤ (pos 0) m.max_volumes_per_node then m.max_volumes_per_node else pos 0;
}

unfoldable pub node_get_info : (C : Cloud) → String → Run C.State NodeInfo
node_get_info C configured = do
  m ← fail_as status_error C.get_instance_metadata
  return (node_info configured m)
