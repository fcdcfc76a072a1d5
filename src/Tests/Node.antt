-- ===== src/Tests/Node.antt =====
-- The node service on the mounter in memory, and the files of cloud-init.
use nobus_csi.Common.{
  ◌≡◌, refl, false, true, ℕ, zero, suc, ◌+◌, String, ◌<>◌, arith, [], ◌∷◌, none, some, ◌==◌,
  if◌then◌else◌,
}
use nobus_csi.Mount.{fake_mounter, fake_is_mounted, fake_mount, fake_find_device}
use nobus_csi.Cloud.Errors.{ok}
use nobus_csi.Cloud.Run.{◌>>=◌}
use nobus_csi.Driver.Node.{
  NodeStageRequest, NodePublishRequest, node_stage_volume, node_publish_volume,
}
use nobus_csi.Driver.Node.Idempotent.{
  Settles, fake_mounter-Tells, node_stage_volume-Settles, node_publish_volume-Settles,
}
use nobus_csi.Mount.Linux.{Host, Waiting, device_candidates, on_host}
use nobus_csi.Mount.Linux.{Reply, done as there, missing}
use nobus_csi.Mount.Linux.Devices.{seek, linux_find_device}
use nobus_csi.Mount.Linux.Devices.Enough.{linux_find_device-enough}
use nobus_csi.Metadata.{
  CloudInitData, Files, done, failed, not_exist, read_path, read_cloud_init, first_path,
}
use nobus_csi.Metadata.Paths.{read_cloud_init-first}
use nobus_csi.Tests.Data.{writer}

abbrev stage_request : NodeStageRequest
stage_request = record {
  volume_id = "vol-1";
  staging_target_path = "/staging";
  volume_capability = some writer;
  publish_context = ("device_path", "/dev/vdb") ∷ [];
}

staged_once :
    node_stage_volume fake_mounter stage_request [] ≡ (ok tt, ("/staging", "/dev/vdb") ∷ [])
unfolding node_stage_volume ◌>>=◌ fake_is_mounted fake_mount fake_find_device
staged_once = refl

node_stage_volume-Settles_example :
    Settles
      (node_stage_volume fake_mounter stage_request)
      (node_stage_volume fake_mounter stage_request [])
node_stage_volume-Settles_example =
    node_stage_volume-Settles fake_mounter fake_mounter-Tells stage_request []

abbrev publish_request : NodePublishRequest
publish_request = record {
  volume_id = "vol-1";
  staging_target_path = "/staging";
  target_path = "/target";
  readonly = false;
  volume_capability = some writer;
  publish_context = [];
}

node_publish_volume-Settles_example :
    Settles
      (node_publish_volume fake_mounter publish_request)
      (node_publish_volume fake_mounter publish_request [])
node_publish_volume-Settles_example =
    node_publish_volume-Settles fake_mounter fake_mounter-Tells publish_request []

abbrev instance_data : CloudInitData
instance_data = record {
  v1 = record {
    instance_id = "node-1";
    instance_id_hyphen = "";
    availability_zone = "az1";
    availability_zone_hyphen = "";
    region = "region1";
  };
  ds = record { instance_id = ""; instance_id_hyphen = ""; availability_zone = ""; region = "" };
}

-- Only the second file is there.
abbrev second_only : Files
second_only path = if path == first_path then failed not_exist else done (done instance_data)

read_cloud_init-first_example :
    read_cloud_init (λ path. none) second_only ≡ read_path second_only first_path
read_cloud_init-first_example = read_cloud_init-first (λ path. none) second_only refl

-- A host that has a device after some looks at its names.
look_at : String → ℕ → Reply String × ℕ
look_at path zero = (there "/dev/vdb", 0)
look_at path (suc looks) = (missing, looks)

abbrev slow_host : Host
slow_host = record {
  State = ℕ;
  directory = λ path. path;
  join = λ folder file. folder <> "/" <> file;
  is_likely_not_mount_point = λ target s. (there true, s);
  mkdir_all = λ path s. (there tt, s);
  create_file = λ path s. (there tt, s);
  format_and_mount = λ source target fs_type flags s. (there tt, s);
  mount = λ source target flags s. (there tt, s);
  unmount = λ target s. (there tt, s);
  stat = λ target s. (missing, s);
  statfs = λ target s. (missing, s);
  findmnt = λ target s. (there "ext4", s);
  command = λ name target s. (there tt, s);
  eval_symlinks = look_at;
}

abbrev slow : Waiting slow_host
slow = record { host = 5; elapsed = 0 }

linux_find_device-enough_example :
    seek slow_host (λ t. none) (device_candidates slow_host.join "vol-1" "") (0 + 120_000) 300 slow
    ≡ linux_find_device slow_host (λ t. none) "vol-1" "" slow
linux_find_device-enough_example =
    linux_find_device-enough slow_host (λ t. none) "vol-1" "" 300 slow (omega arith)

linux_find_device_late :
    linux_find_device slow_host (λ t. none) "vol-1" "" slow
    ≡ (ok "/dev/vdb", record { host = 0; elapsed = 1_000 })
unfolding linux_find_device seek look_at ◌>>=◌ device_candidates on_host
linux_find_device_late = refl
