-- ===== src/Cloud/Fake/Snapshots.antt =====
-- The methods of the provider kept in memory that are about snapshots.
pub mod Frame
use nobus_csi.Common.{suc, String, ◌<>◌, List, [], ◌∷◌, Option, none, some, ◌==◌, if◌then◌else◌}
use nobus_csi.Common.Int.{ℤ}
use nobus_csi.Common.Lists.{keep}
use nobus_csi.Common.Assoc.{lookup, insert, erase, values}
use nobus_csi.Common.Decimal.{itoa}
use nobus_csi.Common.Sort.{sort_by}
use nobus_csi.Cloud.Errors.{Result, ok, err, sentinel, Sentinel}
use nobus_csi.Cloud.Types.{Page, Volume, SnapshotSpec, Snapshot, snapshot_available}
use nobus_csi.Cloud.Interface.{Run}
use nobus_csi.Cloud.Page.{paginate}
use nobus_csi.Cloud.Fake.State.{Fake, fail, on_page, elsewhere}

unfoldable pub find_snapshot : String → List Snapshot → Option Snapshot
find_snapshot name [] = none
find_snapshot name (s ∷ ss) = if s.name == name then some s else find_snapshot name ss

add_snapshot : String → ℤ → SnapshotSpec → Fake → Result Snapshot × Fake
add_snapshot id size spec f =
    let s : Snapshot = record {
      id = id;
      name = spec.name;
      volume_id = spec.volume_id;
      size_bytes = size;
      status = snapshot_available;
      created_at = f.now;
      availability_zone = spec.availability_zone;
      metadata = spec.metadata;
    } in
    (ok s, record f { snapshots = insert id s f.snapshots; next_snapshot = suc f.next_snapshot })

snapshot_or_reuse : Option Snapshot → ℤ → SnapshotSpec → Run Fake Snapshot
unfolding add_snapshot
snapshot_or_reuse none size spec f = add_snapshot ("snap-" <> itoa f.next_snapshot) size spec f
snapshot_or_reuse (some s) size spec f =
    (if s.volume_id == spec.volume_id then ok s else err (sentinel Sentinel.already_exists), f)

snapshot_found : Option Volume → SnapshotSpec → Run Fake Snapshot
unfolding snapshot_or_reuse find_snapshot
snapshot_found none spec f = fail Sentinel.not_found f
snapshot_found (some v) spec f =
    snapshot_or_reuse (find_snapshot spec.name (values f.snapshots)) v.size_bytes spec f

unfoldable pub create_snapshot : SnapshotSpec → Run Fake Snapshot
unfolding snapshot_found
create_snapshot spec f = snapshot_found (lookup spec.volume_id f.volumes) spec f

delete_found : Option Snapshot → String → String → Run Fake Unit
delete_found none id zone f = (ok tt, f)
delete_found (some s) id zone f =
    if elsewhere zone s.availability_zone
    then fail Sentinel.not_found f
    else (ok tt, record f { snapshots = erase id f.snapshots })

unfoldable pub delete_snapshot : String → String → Run Fake Unit
unfolding delete_found
delete_snapshot id zone f = delete_found (lookup id f.snapshots) id zone f

unfoldable pub list_snapshots : Page → Run Fake (List Snapshot × String)
list_snapshots page f = (
  paginate
      (sort_by (λ (s : Snapshot). s.id)
        (keep (λ (s : Snapshot). on_page page s.availability_zone s.name) (values f.snapshots)))
      page,
  f,
)
