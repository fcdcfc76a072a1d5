-- ===== src/Driver/Params/Spec.antt =====
-- `volumeSpec`, `snapshotSource` and `volumeContext` of internal/driver/params.go.
pub mod Checks
use nobus_csi.Common.{Bool, true, false, ◌||◌, String, List, [], ◌∷◌, ◌++◌, Option, none, some}
use nobus_csi.Common.{◌==◌, if◌then◌else◌}
use nobus_csi.Common.Int.{ℤ}
use nobus_csi.Common.Text.{contains, or_else}
use nobus_csi.Common.Assoc.{Dict, lookup, get_or_empty}
use nobus_csi.Cloud.Errors.{Code, Error, str, format, grpc, Result, ok, err}
use nobus_csi.Cloud.Types.{VolumeSpec, Volume}
use nobus_csi.Driver.Status.{status}
use nobus_csi.Driver.Config.{Config}
use nobus_csi.Driver.Csi.{
  CreateVolumeRequest, ContentSource, no_source, other_source, snapshot_source_id,
}
use nobus_csi.Driver.SnapshotId.{decode_snapshot_id}
use nobus_csi.Driver.Params.Capacity.{requested_bytes}
use nobus_csi.Driver.Params.Zones.{selected_zone}

abbrev pub supported_parameters : List String
supported_parameters =
    "availability_zone" ∷ "project_id" ∷ "region" ∷ "volume_type" ∷ "encrypted" ∷ []

-- The first key that is not supported.
unfoldable pub unknown_parameter : Dict → Option String
unknown_parameter [] = none
unknown_parameter ((k, v) ∷ d) =
    if contains supported_parameters k then unknown_parameter d else some k

-- `strconv.ParseBool`
unfoldable pub parse_bool : String → Option Bool
parse_bool s =
    if contains ("1" ∷ "t" ∷ "T" ∷ "TRUE" ∷ "true" ∷ "True" ∷ []) s
    then some true
    else if contains ("0" ∷ "f" ∷ "F" ∷ "FALSE" ∷ "false" ∷ "False" ∷ []) s
    then some false
    else none

-- The parameter `encrypted`: false where it is missing, `none` where it is no truth value.
unfoldable pub encrypted_of : Option String → Option Bool
unfolding parse_bool
encrypted_of none = some false
encrypted_of (some raw) = parse_bool raw

unfoldable pub snapshot_source : ContentSource → String → String
snapshot_source no_source fallback = ""
snapshot_source other_source fallback = ""
snapshot_source (snapshot_source_id id) fallback = (decode_snapshot_id id fallback).0

abbrev pub invalid : {A : Type 0} → String → Result A
invalid m = err (status Code.invalid_argument m)

module _ (request : CreateVolumeRequest) (defaults : Config) where
  open request use {name, capacity_range, parameters, volume_content_source}

  spec_with : ℤ → String → String → Option Bool → Result VolumeSpec
  spec_with size zone project none = invalid "encrypted must be true or false"
  spec_with size zone project (some encrypted) = ok (record {
    name = name;
    size_bytes = size;
    availability_zone = zone;
    project_id = project;
    volume_type = or_else (get_or_empty "volume_type" parameters) defaults.volume_type;
    snapshot_id = snapshot_source volume_content_source defaults.availability_zone;
    encrypted = encrypted;
    metadata = ("csi.driver", defaults.driver_name) ∷ [];
  })

  spec_in : ℤ → String → String → Result VolumeSpec
  unfolding spec_with encrypted_of
  spec_in size zone project =
      if zone == ""
      then invalid "availability_zone is required"
      else if project == ""
      then invalid "project_id is required"
      else spec_with size zone project (encrypted_of (lookup "encrypted" parameters))

  -- The zone and the project: the parameter, else the driver's own; a topology overrides the zone.
  unfoldable pub requested_zone : String
  requested_zone =
      selected_zone request.accessibility_requirements
        (or_else (get_or_empty "availability_zone" parameters) defaults.availability_zone)

  unfoldable pub requested_project : String
  requested_project = or_else (get_or_empty "project_id" parameters) defaults.project_id

  spec_of_size : Result ℤ → Result VolumeSpec
  unfolding spec_in requested_zone requested_project
  spec_of_size (err e) = err e
  spec_of_size (ok size) = spec_in size requested_zone requested_project

  spec_checked : Option String → Result VolumeSpec
  unfolding spec_of_size
  spec_checked (some key) =
      err (grpc Code.invalid_argument (format "unknown parameter %q" (str key ∷ [])))
  spec_checked none = spec_of_size (
      requested_bytes capacity_range defaults.minimum_volume_bytes
        defaults.volume_granularity_bytes)

  unfoldable pub volume_spec : Result VolumeSpec
  unfolding spec_checked
  volume_spec =
      if name == ""
      then invalid "volume name is required"
      else spec_checked (unknown_parameter parameters)

-- The context that a created volume answers with.
unfoldable pub volume_context : Volume → Dict
volume_context v =
    let type_entry : Dict =
      if v.volume_type == "" then [] else ("volume_type", v.volume_type) ∷ [] in
    ("availability_zone", v.availability_zone)
    ∷ (type_entry ++ (("encrypted", if v.encrypted then "true" else "false") ∷ []))
