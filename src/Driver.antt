-- ===== src/Driver.antt =====
-- internal/driver: the CSI services.
pub mod Status
pub mod Locks
pub mod Node
pub mod Config
pub mod Csi
pub mod Session
pub mod Volumes
pub mod Snapshots
pub mod Service
pub mod SnapshotId
pub mod Params
pub mod Identity
pub mod Server
