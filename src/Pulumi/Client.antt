-- ===== src/Pulumi/Client.antt =====
-- pulumi-nobus/provider/pkg/nobusapi. HTTP and JSON are parameters, as for the driver's own client.
pub mod Shapes
pub mod Calls
pub mod Lists
pub mod Waits
pub mod Addresses
pub mod Storage
pub mod Compute
pub mod Catalog
pub mod Networks
pub mod Setup
