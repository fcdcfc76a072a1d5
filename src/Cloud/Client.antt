-- ===== src/Cloud/Client.antt =====
-- internal/cloud/client.go: the client of the Nobus API, as a provider. HTTP and JSON are
-- parameters: a transport takes a request, whose body is the structure that is encoded, and gives a
-- reply, with what decoding its body gives.
pub mod Api
pub mod Calls
pub mod Volumes
pub mod Snapshots
pub mod Setup
