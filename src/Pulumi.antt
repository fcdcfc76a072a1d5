-- ===== src/Pulumi.antt =====
-- pulumi-nobus/provider: the client of the Nobus API and the resources of the Pulumi provider.
pub mod Client
pub mod Provider
