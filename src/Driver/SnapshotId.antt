-- ===== src/Driver/SnapshotId.antt =====
-- `encodeSnapshotID` and `decodeSnapshotID` of internal/driver/snapshot.go.
use nobus_csi.Common.{◌≡◌, ◌≢◌, false, String, ◌<>◌, none, some, arith}
use nobus_csi.Common.{◌==◌, eq_iff, if◌then◌else◌}
use nobus_csi.Common.Text.{cut_slash}
use nobus_csi.Common.Text.Laws.{has_slash, cut_slash-append, cut_slash-eq-none}

unfoldable pub encode_snapshot_id : String → String → String
encode_snapshot_id id zone = if zone == "" then id else zone <> ("/" <> id)

-- The identifier and the zone.
unfoldable pub decode_snapshot_id : String → String → String × String
decode_snapshot_id id fallback = elim (cut_slash id) [
  | none ↦ (id, fallback)
  | some (zone, snapshot) ↦ (snapshot, zone)
]

-- Decoding gives back the identifier and the zone that were encoded, whatever slashes the identifier
-- holds, if the zone is not empty and holds no slash.
pub decode_snapshot_id-encode_snapshot_id :
    (id zone fallback : String)
    → zone ≢ ""
    → has_slash zone ≡ false
    → decode_snapshot_id (encode_snapshot_id id zone) fallback ≡ (id, zone)
unfolding decode_snapshot_id encode_snapshot_id
decode_snapshot_id-encode_snapshot_id id zone fallback filled plain =
    ground (arith, cut_slash-append zone id plain, eq_iff zone "")

-- An identifier with no zone and no slash, such as one registered before, decodes to itself in the
-- fallback zone.
pub decode_snapshot_id-raw :
    (id fallback : String)
    → has_slash id ≡ false
    → decode_snapshot_id (encode_snapshot_id id "") fallback ≡ (id, fallback)
unfolding decode_snapshot_id encode_snapshot_id
decode_snapshot_id-raw id fallback plain = ground (arith, cut_slash-eq-none id plain)
