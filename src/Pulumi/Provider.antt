-- ===== src/Pulumi/Provider.antt =====
-- The Pulumi provider of pulumi-nobus/provider/pkg/provider.
pub mod Scope
pub mod Sets
pub mod Diff
pub mod Check
pub mod Steps
pub mod Volume
pub mod VolumeAttachment
pub mod VolumeSnapshot
pub mod VolumeBackup
pub mod KeyPair
pub mod Instance
pub mod Functions
pub mod Network
pub mod Subnet
pub mod Port
pub mod Router
pub mod SecurityGroup
pub mod SecurityGroupRule
pub mod FloatingIp
pub mod Reported
pub mod Configure
