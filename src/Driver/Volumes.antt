-- ===== src/Driver/Volumes.antt =====
-- The volume half of internal/driver/controller.go.
pub mod Reconcile
pub mod Create
pub mod Attach
pub mod Others
