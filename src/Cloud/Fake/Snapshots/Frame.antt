-- ===== src/Cloud/Fake/Snapshots/Frame.antt =====
-- The calls about snapshots leave the volumes alone.
use nobus_csi.Common.{◌≡◌, refl, String, Option, none, some, arith}
use nobus_csi.Common.Int.{ℤ}
use nobus_csi.Common.Assoc.{lookup}
use nobus_csi.Cloud.Types.{Volume, Snapshot, SnapshotSpec}
use nobus_csi.Cloud.Fake.State.{Fake}
use nobus_csi.Cloud.Fake.Snapshots.{
  snapshot_found, snapshot_or_reuse, add_snapshot, create_snapshot, delete_found, delete_snapshot,
}

snapshot_or_reuse-volumes :
    (o : Option Snapshot) (size : ℤ) (spec : SnapshotSpec) (f : Fake)
    → (snapshot_or_reuse o size spec f).1.volumes ≡ f.volumes
unfolding snapshot_or_reuse add_snapshot
snapshot_or_reuse-volumes none size spec f = refl
snapshot_or_reuse-volumes (some s) size spec f = refl

snapshot_found-volumes :
    (o : Option Volume) (spec : SnapshotSpec) (f : Fake)
    → (snapshot_found o spec f).1.volumes ≡ f.volumes
unfolding snapshot_found
snapshot_found-volumes none spec f = refl
snapshot_found-volumes (some v) spec f = snapshot_or_reuse-volumes _ v.size_bytes spec f

pub create_snapshot-volumes :
    (spec : SnapshotSpec) (f : Fake) → (create_snapshot spec f).1.volumes ≡ f.volumes
unfolding create_snapshot
create_snapshot-volumes spec f = snapshot_found-volumes (lookup spec.volume_id f.volumes) spec f

delete_found-volumes :
    (o : Option Snapshot) (id zone : String) (f : Fake)
    → (delete_found o id zone f).1.volumes ≡ f.volumes
unfolding delete_found
delete_found-volumes none id zone f = refl
delete_found-volumes (some s) id zone f = ground (arith)

pub delete_snapshot-volumes :
    (id zone : String) (f : Fake) → (delete_snapshot id zone f).1.volumes ≡ f.volumes
unfolding delete_snapshot
delete_snapshot-volumes id zone f = delete_found-volumes (lookup id f.snapshots) id zone f
