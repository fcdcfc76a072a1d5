-- ===== src/Driver/Params.antt =====
-- internal/driver/params.go.
pub mod Capacity
pub mod Zones
pub mod Capabilities
pub mod Spec
