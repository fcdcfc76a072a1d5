-- ===== src/Cloud.antt =====
-- internal/cloud: the provider's data, its errors, its interface, and the two providers, one in
-- memory and the client of the API.
pub mod Errors
pub mod Types
pub mod Interface
pub mod Page
pub mod Run
pub mod Fake
pub mod Client
