-- ===== src/Tests/Params.antt =====
-- What requests ask for, and the identifiers of snapshots.
use nobus_csi.Common.{ℕ, ◌≡◌, ◌≢◌, ◌↔◌, refl, true, String, [], ◌∷◌, none, some, arith}
use nobus_csi.Common.Int.{pos, negsuc, add64, mul64}
use nobus_csi.Driver.Config.{config_from_env}
use nobus_csi.Common.Lists.{All}
use nobus_csi.Common.Text.Laws.{has_slash}
use nobus_csi.Cloud.Errors.{Sentinel, Code, ok, wrap}
use nobus_csi.Cloud.Types.{VolumeSpec}
use nobus_csi.Driver.Csi.{TopologyRequirement}
use nobus_csi.Driver.Status.{status_error}
use nobus_csi.Driver.Status.Laws.{HasCode, status_error-code_of}
use nobus_csi.Driver.SnapshotId.{
  encode_snapshot_id, decode_snapshot_id, decode_snapshot_id-encode_snapshot_id,
}
use nobus_csi.Driver.Params.Capacity.{requested_bytes, round_up}
use nobus_csi.Driver.Params.Capacity.Rounding.{
  IsServed, wanted, requested_bytes-IsServed, requested_bytes_overflow,
}
use nobus_csi.Driver.Params.Zones.{selected_zone, preferred_zone, topology_zone_key, topology_zones}
use nobus_csi.Driver.Params.Zones.Choice.{mentions, selected_zone-requisite}
use nobus_csi.Driver.Params.Capabilities.{validate_capabilities}
use nobus_csi.Driver.Params.Capabilities.Laws.{Acceptable, validate_capabilities_iff}
use nobus_csi.Driver.Params.Spec.{volume_spec, unknown_parameter, snapshot_source}
use nobus_csi.Driver.Params.Spec.Checks.{Accepts, volume_spec-Accepts}
use nobus_csi.Tests.Data.{apart, writer, test_config, test_request, test_spec}

-- A request of 1.5 GB in whole GiB.
requested_bytes-IsServed_example :
    IsServed (pos 0) (wanted 1_500_000_000 1_073_741_824) 1_073_741_824 (
      requested_bytes
        (record { required_bytes = pos 1_500_000_000; limit_bytes = pos 0 })
        (pos 1_073_741_824)
        (pos 1_073_741_824))
requested_bytes-IsServed_example =
    requested_bytes-IsServed 1_500_000_000 1_073_741_824 1_073_741_824 (pos 0) (omega arith)
      (omega arith)

-- A request of the largest `int64`, with a limit of 2 GiB.
requested_bytes_overflow_example :
    (n : ℕ) × (requested_bytes
        (record { required_bytes = pos 9_223_372_036_854_775_807; limit_bytes = pos 2_147_483_648 })
        (pos 1_073_741_824)
        (pos 1_073_741_824)
      ≡ ok (negsuc n))
requested_bytes_overflow_example =
    requested_bytes_overflow 9_223_372_036_854_775_807 1_073_741_824 1_073_741_824
      (pos 2_147_483_648) (omega arith) (omega arith) (λ e. omega arith) (omega arith)

abbrev in_zones : String → String → TopologyRequirement
in_zones requisite preferred = record {
  requisite = ((topology_zone_key, requisite) ∷ []) ∷ [];
  preferred = ((topology_zone_key, preferred) ∷ []) ∷ [];
}

abbrev unconstrained : TopologyRequirement
unconstrained = record { requisite = []; preferred = [] }

selected_zone-requisite_example :
    (selected_zone (in_zones "az1" "az2") "az3" ≢ "")
    × (mentions (in_zones "az1" "az2").requisite (selected_zone (in_zones "az1" "az2") "az3")
        ≡ true)
selected_zone-requisite_example =
    selected_zone-requisite (in_zones "az1" "az2") "az3" "az1" (apart "az1" "" refl) refl

validate_capabilities_iff_example :
    (validate_capabilities (some writer ∷ []) ≡ none)
    ↔ ((some writer ∷ [] ≢ []) × All Acceptable (some writer ∷ []))
validate_capabilities_iff_example = validate_capabilities_iff (some writer ∷ [])

abbrev marked_spec : VolumeSpec
marked_spec = record test_spec { metadata = ("csi.driver", "csi.nobus.io") ∷ [] }

volume_spec-Accepts_example : Accepts test_request test_config marked_spec
unfolding volume_spec unknown_parameter requested_bytes selected_zone preferred_zone topology_zones
    config_from_env round_up snapshot_source mul64 add64
volume_spec-Accepts_example = volume_spec-Accepts test_request test_config {spec = marked_spec} refl

decode_snapshot_id-encode_snapshot_id_example :
    decode_snapshot_id (encode_snapshot_id "snap/1" "az1") "az2" ≡ ("snap/1", "az1")
unfolding has_slash
decode_snapshot_id-encode_snapshot_id_example =
    decode_snapshot_id-encode_snapshot_id "snap/1" "az1" "az2" (apart "az1" "" refl) refl

status_error-code_of_example :
    HasCode Code.resource_exhausted
      (status_error (wrap (Sentinel.quota_exceeded ∷ Sentinel.quota_exceeded ∷ [])))
status_error-code_of_example =
    status_error-code_of Sentinel.quota_exceeded (Sentinel.quota_exceeded ∷ []) (refl, tt)
