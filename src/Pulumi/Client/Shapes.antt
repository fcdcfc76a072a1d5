-- ===== src/Pulumi/Client/Shapes.antt =====
-- The structures of volume.go, snapshot.go, backup.go, compute.go and catalog.go. A pointer is an
-- `Option`; a nil list or map is an empty one.
pub mod Networks
use nobus_csi.Common.{Bool, String, List, Option}
use nobus_csi.Common.Int.{ℤ}
use nobus_csi.Common.Assoc.{Assoc, Dict}
use nobus_csi.Pulumi.Client.Shapes.Networks.{
  CreateNetworkRequest, NetworkUpdate, SubnetCreate, SubnetUpdate, PortCreate, PortUpdate,
  RouterWrite, SecurityGroupWrite, SecurityGroupRuleCreate, FloatingIpCreate, FloatingIpUpdate,
}

pub record VolumeAttachment : Type 0 where
  pub server_id : String
  pub device : String

pub record Volume : Type 0 where
  pub id : String
  pub name : String
  pub description : String
  pub size : ℤ
  pub status : String
  pub volume_type : String
  pub availability_zone : String
  pub multiattach : Bool
  pub metadata : Dict
  pub attachments : List VolumeAttachment

pub record CreateVolumeRequest : Type 0 where
  pub size : ℤ
  pub name : String
  pub description : String
  pub volume_type : String
  pub availability_zone : String
  pub snapshot_id : String
  pub source_vol_id : String
  pub image_ref : String
  pub metadata : Dict
  pub multiattach : Option Bool
  pub project_id : String

pub record UpdateVolumeRequest : Type 0 where
  pub name : String
  pub description : String
  pub metadata : Dict
  pub project_id : String
  pub availability_zone : String

pub record AttachVolumeRequest : Type 0 where
  pub project_id : String
  pub availability_zone : String
  pub server_id : String
  pub volume_id : String

pub record Snapshot : Type 0 where
  pub id : String
  pub name : String
  pub description : String
  pub volume_id : String
  pub status : String
  pub size : ℤ
  pub created_at : String
  pub metadata : Dict

pub record CreateSnapshotRequest : Type 0 where
  pub volume_id : String
  pub name : String
  pub description : String
  pub force : Bool
  pub metadata : Dict
  pub project_id : String
  pub availability_zone : String

pub record Backup : Type 0 where
  pub id : String
  pub name : String
  pub description : String
  pub volume_id : String
  pub size : ℤ
  pub container : String
  pub status : String
  pub created_at : String
  pub availability_zone : String
  pub metadata : Dict

pub record CreateBackupRequest : Type 0 where
  pub volume_id : String
  pub name : String
  pub description : String
  pub container : String
  pub incremental : Bool
  pub force : Bool
  pub snapshot_id : String
  pub metadata : Dict
  pub project_id : String
  pub availability_zone : String

pub record KeyPair : Type 0 where
  pub id : String
  pub name : String
  pub public_key : String
  pub private_key : String
  pub fingerprint : String
  pub key_type : String
  pub user_id : String

pub record CreateKeyPairRequest : Type 0 where
  pub name : String
  pub project_id : String
  pub availability_zone : String

pub record AddressEntry : Type 0 where
  pub addr : String
  pub version : ℤ
  pub kind : String

-- The networks of an instance, and what each assigns.
abbrev pub Addresses : Type 0
Addresses = Assoc (List AddressEntry)

pub record Instance : Type 0 where
  pub id : String
  pub name : String
  pub status : String
  pub description : String
  pub key_name : String
  pub created : String
  pub updated : String
  pub addresses : Addresses

pub record CreateInstanceRequest : Type 0 where
  pub project_id : String
  pub availability_zone : String
  pub name : String
  pub image : String
  pub flavor : String
  pub key_name : String
  pub volume_size : Option ℤ
  pub network_id : String
  pub security_groups : List String
  pub admin_pass : String
  pub user_data : String

pub record UpdateInstanceRequest : Type 0 where
  pub project_id : String
  pub availability_zone : String
  pub server_id : String
  pub name : String
  pub description : String
  pub hostname : String

pub record ResizeInstanceRequest : Type 0 where
  pub project_id : String
  pub availability_zone : String
  pub server_id : String
  pub flavor_id : String

pub record BaseServerRequest : Type 0 where
  pub project_id : String
  pub availability_zone : String
  pub server_id : String

pub record SecurityGroupActionRequest : Type 0 where
  pub project_id : String
  pub availability_zone : String
  pub server_id : String
  pub security_group_name : String

pub record SetTagsRequest : Type 0 where
  pub project_id : String
  pub availability_zone : String
  pub server_id : String
  pub tags : List String

pub record Flavor : Type 0 where
  pub id : String
  pub name : String
  pub vcpus : ℤ
  pub ram : ℤ
  pub disk : ℤ

pub record Image : Type 0 where
  pub id : String
  pub name : String

pub record Project : Type 0 where
  pub id : String
  pub name : String
  pub availability_zone : String
  pub is_default : Bool

-- What is encoded as the body of a request. The project, the zone and the identifier stand before
-- the body of a request about networks.
pub data Payload : Type 0 where
  no_payload : Payload
  volume_payload : CreateVolumeRequest → Payload
  volume_update_payload : UpdateVolumeRequest → Payload
  attach_payload : AttachVolumeRequest → Payload
  snapshot_payload : CreateSnapshotRequest → Payload
  backup_payload : CreateBackupRequest → Payload
  key_pair_payload : CreateKeyPairRequest → Payload
  instance_payload : CreateInstanceRequest → Payload
  instance_update_payload : UpdateInstanceRequest → Payload
  resize_payload : ResizeInstanceRequest → Payload
  server_payload : BaseServerRequest → Payload
  security_group_payload : SecurityGroupActionRequest → Payload
  tags_payload : SetTagsRequest → Payload
  network_payload : CreateNetworkRequest → Payload
  network_update_payload : String → String → String → NetworkUpdate → Payload
  subnet_payload : String → String → SubnetCreate → Payload
  subnet_update_payload : String → String → String → SubnetUpdate → Payload
  port_payload : String → String → PortCreate → Payload
  port_update_payload : String → String → String → PortUpdate → Payload
  router_payload : String → String → RouterWrite → Payload
  router_update_payload : String → String → String → RouterWrite → Payload
  group_payload : String → String → SecurityGroupWrite → Payload
  group_update_payload : String → String → String → SecurityGroupWrite → Payload
  rule_payload : String → String → SecurityGroupRuleCreate → Payload
  floating_ip_payload : String → String → FloatingIpCreate → Payload
  floating_ip_update_payload : String → String → String → FloatingIpUpdate → Payload

-- The `data` of a listing, by its first byte: nothing or null, an array, an object, or another value.
-- An array is given by what decoding its items gives.
pub data Items (A : Type 0) : Type 0 where
  blank : Items A
  array : Option (List A) → Items A
  undecodable : Items A
  missing_items : Items A
  null_items : Items A
  wrapped_items : Option (List A) → Items A
  other_value : Items A
