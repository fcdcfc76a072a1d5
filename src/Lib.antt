-- ===== src/Lib.antt =====
-- A model of the CSI driver for Nobus block storage and of the Pulumi provider for the Nobus cloud,
-- with the properties that make them correct.
--
-- The program. A container orchestrator calls the gRPC handlers of the driver (internal/driver). The
-- controller's handlers create, delete, attach, detach and grow volumes and snapshots through the
-- interface `Cloud` of a provider (internal/cloud), which is a client of the Nobus HTTP API or a fake
-- in memory. The node's handlers mount volumes through the interface `Mounter` (internal/mount).
-- The API gives no idempotent creation, so the driver looks volumes and snapshots up by name before
-- and after creating them, keeps the one with the first identifier and deletes idle duplicates.
--
-- The Pulumi provider (pulumi-nobus/provider/pkg/provider) checks the arguments of a resource, tells
-- how a state differs from new arguments, and creates, reads, updates and deletes the resource by a
-- client of its own (pulumi-nobus/provider/pkg/nobusapi), which tries a call again while the API is
-- unavailable, and polls until a resource has a wanted status.
--
-- The files.
--   Common           lists, texts, addresses, decimal numbers, sorting, maps and 64-bit integers
--   Cloud            internal/cloud: Errors and Types (errors.go, cloud.go), Interface (the record
--                    `Cloud`), Run (how a function returns or fails), Page (`paginate`)
--   Cloud.Fake       internal/cloud/fake.go
--   Cloud.Client     internal/cloud/client.go: Api (the structures), Calls (`do`, `mapHTTPError`),
--                    Volumes and Snapshots (the methods, and `client_cloud`), Setup (`NewClient`)
--   Driver           internal/driver: Status (errors.go), Locks (locks.go), Config (config.go), Csi
--                    (the protocol's messages), Params (params.go), Session (the driver's state and
--                    how a handler runs), Volumes (controller.go), Snapshots and SnapshotId
--                    (snapshot.go), Node (node.go), Service (one request of each kind),
--                    Identity (identity.go, and what the services can do), Server (server.go
--                    and cmd/nobus-csi)
--   Metadata         internal/metadata/cloudinit.go
--   Mount            internal/mount/interface.go and fake.go, and Linux for linux.go and devices.go
--   Pulumi.Client    pulumi-nobus/provider/pkg/nobusapi: Shapes (the structures), Calls (`do` of
--                    client.go), Lists (`decodeList`), Waits (`waitUntil`), Storage (volume.go,
--                    snapshot.go, backup.go), Compute (compute.go), Catalog (catalog.go),
--                    Addresses (addresses.go), Networks (network.go), Setup (`NewClient`)
--   Pulumi.Provider  pulumi-nobus/provider/pkg/provider: Scope (types.go and the resolution of
--                    provider.go), Sets and Check (check.go), Diff, Steps (what an operation
--                    returns), Volume and VolumeAttachment (volume.go), VolumeSnapshot
--                    (snapshot.go), VolumeBackup (backup.go), KeyPair and Instance (compute.go),
--                    Network, Subnet, Port and Router (network.go), SecurityGroup,
--                    SecurityGroupRule and FloatingIp (security.go), Functions (functions.go),
--                    Reported (what all differences report), Configure (`Configure`)
--   Tests            runs on concrete inputs
-- A function keeps the source's name in lower case with underscores. What a function does once a
-- call has returned is a function of its own, `after_create` of `CreateVolume` for one.
--
-- State. A provider or a mounter is a record with a state type and a function for each method, which
-- returns a value or an error and the next state, so that every theorem about the controller holds of
-- any provider. A handler's state is the provider's, the time that the request has waited, and the
-- two tables of locks. An error is a gRPC status or the sentinels that a chain of errors wraps.
--
-- Bounds. The loop after a creation makes eight looks, as the source does. The waits of the client
-- are given 61 and 91 polls, one more than fit into two and three minutes at two seconds each. Sizes
-- are `int64` with wrap-around written out. A wait of the Pulumi client is given one poll more than
-- fit into its limit, and the search for a device 241 looks, one more than the intervals before its
-- deadline. A call takes no time on the clock, which the waits alone advance.
--
-- Parameters. HTTP, JSON, `time.Parse`, the texts of HTTP statuses, the reading of files and the
-- calls of a Linux host are arguments of the definitions that use them, and so are `strings.ToLower`,
-- `strings.EqualFold`, `url.Parse`, the environment and `infer.DefaultCheck`. A context is a function
-- that says when it is done.
--
-- Not modelled. The loop that serves a socket, the signals and flags of the command, which are input
-- and output; the choice of a mounter by the operating system; log messages; the registration of the
-- Pulumi provider's resources; and its test API, software kit and examples.
pub mod Common
pub mod Cloud
pub mod Driver
pub mod Metadata
pub mod Mount
pub mod Pulumi
pub mod Tests
