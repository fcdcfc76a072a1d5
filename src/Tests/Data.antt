-- ===== src/Tests/Data.antt =====
-- The inputs of the tests.
use nobus_csi.Common.{
  ◌≡◌, ◌≢◌, arith, eq_iff, ℕ, Bool, true, false, String, List, [], ◌∷◌, none, some, ◌==◌,
  if◌then◌else◌,
}
use nobus_csi.Common.Int.{pos}
use nobus_csi.Cloud.Types.{Volume, VolumeSpec, Attachment, InstanceMetadata}
use nobus_csi.Cloud.Fake.State.{Fake, new_fake}
use nobus_csi.Cloud.Fake.{fake_cloud}
use nobus_csi.Cloud.Client.Api.{ApiVolume}
use nobus_csi.Cloud.Client.Calls.{Transport, ClientConfig, replied, Body}
use nobus_csi.Driver.Config.{Config, config_from_env}
use nobus_csi.Driver.Csi.{
  CreateVolumeRequest, VolumeCapability, single_node_writer, mount, no_source, PublishRequest,
}
use nobus_csi.Driver.Session.{Session, Driver}

abbrev pub gib : ℕ
gib = 1_073_741_824

abbrev pub test_env : String → String
test_env key =
    if key == "NOBUS_AVAILABILITY_ZONE"
    then "az1"
    else if key == "NOBUS_PROJECT_ID"
    then "project"
    else ""

abbrev pub test_config : Config
test_config = config_from_env test_env

abbrev pub never : ℕ → Bool
never t = false

abbrev pub test_metadata : InstanceMetadata
test_metadata = record {
  instance_id = "node-1";
  availability_zone = "az1";
  region = "region1";
  max_volumes_per_node = pos 0;
}

abbrev pub writer : VolumeCapability
writer = record { access_mode = single_node_writer; access_type = mount "ext4" [] }

abbrev pub test_request : CreateVolumeRequest
test_request = record {
  name = "data";
  capacity_range = record { required_bytes = pos 1_500_000_000; limit_bytes = pos 0 };
  volume_capabilities = some writer ∷ [];
  parameters = [];
  volume_content_source = no_source;
  accessibility_requirements = record { requisite = []; preferred = [] };
}

abbrev pub test_spec : VolumeSpec
test_spec = record {
  name = "data";
  size_bytes = pos 2_147_483_648;
  availability_zone = "az1";
  project_id = "project";
  volume_type = "";
  snapshot_id = "";
  encrypted = false;
  metadata = [];
}

abbrev pub idle : String → Volume
idle id = record {
  id = id;
  name = "data";
  size_bytes = pos 2_147_483_648;
  status = "available";
  availability_zone = "az1";
  volume_type = "__DEFAULT__";
  encrypted = false;
  multiattach = false;
  metadata = [];
  attachments = [];
}

abbrev pub device_on : String → Attachment
device_on node = record { instance_id = node; device_path = "/dev/vdb" }

abbrev pub attached_to : String → Volume
attached_to node = record (idle "vol-1") { status = "in-use"; attachments = device_on node ∷ [] }

abbrev pub holding : List (String × Volume) → Fake
holding volumes = record (new_fake test_metadata 0) { volumes = volumes; next_volume = 3 }

abbrev pub empty_fake : Fake
empty_fake = holding []

abbrev pub session_on : Fake → Session fake_cloud
session_on f = record { store = f; elapsed = 0 }

abbrev pub driver_on : Fake → Driver fake_cloud
driver_on f = record { session = session_on f; locks = []; names = [] }

abbrev pub publish_request : PublishRequest
publish_request = record { volume_id = "vol-1"; node_id = "node-1"; volume_context = [] }

-- An API with a list of volumes; a `DELETE` removes them all.
abbrev empty_body : Body
empty_body = record {
  message = "";
  volume = none;
  volumes = none;
  snapshot = none;
  snapshots = none;
  drained = true;
}

abbrev pub test_transport : Transport
test_transport = record {
  State = List ApiVolume;
  send = λ request volumes.
      if request.method == "DELETE"
      then (replied 200 empty_body, [])
      else (replied 200 (record empty_body { volumes = some volumes }), volumes);
  status_text = λ code. "";
  mentions = λ message word. false;
}

abbrev pub client_config : ClientConfig
client_config = record { project_id = "project"; availability_zone = "az1" }

abbrev pub api_volume : ApiVolume
api_volume = record {
  id = "vol-1";
  name = "data";
  size = pos 2;
  status = "available";
  availability_zone = "az1";
  volume_type = "";
  encrypted = false;
  multiattach = false;
  metadata = [];
  attachments = [];
}

-- Two texts that a comparison tells apart.
pub apart : (a b : String) → (a == b) ≡ false → a ≢ b
apart a b h e = ground (arith, eq_iff a b)
