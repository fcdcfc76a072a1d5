-- ===== src/Cloud/Client/Snapshots.antt =====
-- The client's calls about snapshots and the instance, and the client as a provider.
use nobus_csi.Common.{ℕ, Bool, String, List, [], ◌∷◌, ◌++◌, Option, none, some, ◌==◌, if◌then◌else◌}
use nobus_csi.Common.Int.{pos}
use nobus_csi.Common.Text.{or_else}
use nobus_csi.Common.Sort.{sort_by}
use nobus_csi.Cloud.Errors.{Sentinel, Error, Result, ok, err, sentinel}
use nobus_csi.Cloud.Types.{Page, SnapshotSpec, Snapshot, InstanceMetadata}
use nobus_csi.Cloud.Interface.{Run, Cloud}
use nobus_csi.Cloud.Page.{paginate}
use nobus_csi.Cloud.Run.{lift, ◌>>=◌}
use nobus_csi.Cloud.Client.Api.{
  no_payload, snapshot_payload, ApiSnapshot, SnapshotRequest, snapshot_to_domain,
}
use nobus_csi.Cloud.Client.Calls.{Transport, ClientConfig, zone_query, decoded, drain}
use nobus_csi.Cloud.Client.Volumes.{
  Polling, api, create_volume, get_volume_by_id, list_volumes, delete_volume, resize_volume,
  attach_volume, detach_volume,
}
use nobus_csi.Metadata.{
  Files, Instance, Failure, not_exist, refused, invalid, canceled, deadline_exceeded, undecodable,
  wrapped, Outcome, done, failed, read_cloud_init,
}

abbrev snapshot_path : String
snapshot_path = "/api/v3/volume/snapshot"

abbrev snapshot_create : SnapshotSpec → SnapshotRequest
snapshot_create spec = record {
  volume_id = spec.volume_id;
  name = spec.name;
  force = spec.force;
  project_id = spec.project_id;
  availability_zone = spec.availability_zone;
  metadata = spec.metadata;
}

abbrev zone_or : String → Snapshot → Snapshot
zone_or zone s = record s { availability_zone = or_else s.availability_zone zone }

abbrev add_snapshot : String → Result Snapshot → Result (List Snapshot) → Result (List Snapshot)
add_snapshot zone (err e) rest = err e
add_snapshot zone (ok s) (ok rest) = ok (zone_or zone s ∷ rest)
add_snapshot zone (ok s) (err e) = err e

-- The first snapshot that cannot be read fails the listing.
unfoldable pub listed_snapshots :
    (String → String → Option ℕ) → String → List ApiSnapshot → Result (List Snapshot)
listed_snapshots parse zone [] = ok []
listed_snapshots parse zone (s ∷ ss) =
    add_snapshot zone (snapshot_to_domain parse s) (listed_snapshots parse zone ss)

-- The context's errors pass; every other failure leaves the provider unavailable.
unfoldable pub metadata_error : Failure → Error
metadata_error canceled = sentinel Sentinel.canceled
metadata_error deadline_exceeded = sentinel Sentinel.deadline_exceeded
metadata_error not_exist = sentinel Sentinel.unavailable
metadata_error refused = sentinel Sentinel.unavailable
metadata_error invalid = sentinel Sentinel.unavailable
metadata_error undecodable = sentinel Sentinel.unavailable
metadata_error (wrapped e) = metadata_error e

unfoldable pub instance_metadata : Outcome Instance → Result InstanceMetadata
unfolding metadata_error
instance_metadata (failed e) = err (metadata_error e)
instance_metadata (done i) = ok (record {
  instance_id = i.id;
  availability_zone = i.availability_zone;
  region = i.region;
  max_volumes_per_node = pos 0;
})

module _ (T : Transport) (config : ClientConfig) (parse : String → String → Option ℕ) where
  unfoldable pub create_snapshot : SnapshotSpec → Run (Polling T) Snapshot
  create_snapshot spec = do
    created ←
        api T config
          (record {
            method = "POST";
            path = snapshot_path;
            query = none;
            payload = snapshot_payload (snapshot_create spec);
          })
          (λ b. decoded T b.snapshot)
    lift (snapshot_to_domain parse created)

  unfoldable pub delete_snapshot : String → String → Run (Polling T) Unit
  delete_snapshot id zone =
      api T config
        (record {
          method = "DELETE";
          path = snapshot_path;
          query = some (zone_query config zone ++ ("snapshot_id", id) ∷ []);
          payload = no_payload;
        })
        (drain T)

  unfoldable pub list_snapshots : Page → Run (Polling T) (List Snapshot × String)
  unfolding listed_snapshots
  list_snapshots page = do
    listed ←
        api T config
          (record {
            method = "GET";
            path = "/api/v3/volume/snapshot/list";
            query = some (
                zone_query config page.availability_zone
                ++ (if page.name == "" then [] else ("name", page.name) ∷ []));
            payload = no_payload;
          })
          (λ b. decoded T b.snapshots)
    snapshots ←
        lift
          (listed_snapshots parse (or_else page.availability_zone config.availability_zone) listed)
    lift (paginate (sort_by (λ (s : Snapshot). s.id) snapshots) page)

  -- The client as an implementation of the interface.
  abbrev pub client_cloud : (ℕ → Bool) → (String → Option Failure) → Files → Cloud
  client_cloud ctx at_path files = record {
    State = Polling T;
    create_volume = create_volume T config;
    get_volume_by_id = get_volume_by_id T config;
    list_volumes = list_volumes T config;
    delete_volume = delete_volume T config ctx;
    resize_volume = resize_volume T config;
    attach_volume = attach_volume T config ctx;
    detach_volume = detach_volume T config;
    create_snapshot = create_snapshot;
    delete_snapshot = delete_snapshot;
    list_snapshots = list_snapshots;
    get_instance_metadata = λ s. (instance_metadata (read_cloud_init at_path files), s);
  }
