-- ===== src/Pulumi/Provider/VolumeBackup.antt =====
-- The resource VolumeBackup of backup.go.
pub mod Lifecycle
pub mod Settled
use nobus_csi.Common.{Bool, false, not, ◌&&◌, String, [], ◌∷◌, Option, ◌==◌, same}
use nobus_csi.Common.Int.{ℤ, pos}
use nobus_csi.Common.Assoc.{Dict}
use nobus_csi.Common.Text.{or_else}
use nobus_csi.Pulumi.Client.Shapes as Api
use nobus_csi.Pulumi.Provider.Scope.{Config, bare_resource_id}
use nobus_csi.Pulumi.Provider.Diff.{
  DiffResponse, replace_diff, update_diff, compare_all, dict_equal,
}
use nobus_csi.Pulumi.Provider.Check.{
  PropertyMap, Checked, check_resource_args, add_failures, failing,
}

pub record VolumeBackupArgs : Type 0 where
  pub volume_id : String
  pub availability_zone : String
  pub name : String
  pub description : String
  pub container : String
  pub incremental : Bool
  pub force : Bool
  pub snapshot_id : String
  pub metadata : Dict
  pub project_id : String

pub record VolumeBackupState : Type 0 where
  pub args : VolumeBackupArgs
  pub status : String
  pub size : ℤ
  pub created_at : String

-- `VolumeBackupArgs{}` and `VolumeBackupState{}`
abbrev pub no_args : VolumeBackupArgs
no_args = record {
  volume_id = "";
  availability_zone = "";
  name = "";
  description = "";
  container = "";
  incremental = false;
  force = false;
  snapshot_id = "";
  metadata = [];
  project_id = "";
}

abbrev pub plain : VolumeBackupArgs → VolumeBackupState
plain args = record { args = args; status = ""; size = pos 0; created_at = "" }

abbrev pub no_state : VolumeBackupState
no_state = plain no_args

unfoldable pub check :
    (PropertyMap → Checked VolumeBackupArgs)
    → Option Config
    → PropertyMap
    → Checked VolumeBackupArgs
check default_check cfg inputs =
    add_failures (λ a. failing (("volumeId", a.volume_id == "") ∷ []))
      (check_resource_args default_check cfg inputs (λ a. a.availability_zone))

-- What the API tells, where the arguments leave it open.
filled : VolumeBackupArgs → Api.Backup → VolumeBackupArgs
filled input backup = record input {
  name = or_else input.name backup.name;
  description = or_else input.description backup.description;
  volume_id = or_else input.volume_id backup.volume_id;
  container = or_else input.container backup.container;
}

unfoldable pub state_from_backup : VolumeBackupArgs → Api.Backup → VolumeBackupState
unfolding filled
state_from_backup input backup = record {
  args = filled input backup;
  status = backup.status;
  size = backup.size;
  created_at = backup.created_at;
}

unfoldable pub diff : VolumeBackupState → VolumeBackupArgs → DiffResponse
unfolding replace_diff update_diff compare_all
diff olds news =
    let old = olds.args in
    compare_all
      (replace_diff "availabilityZone" (
          not (news.availability_zone == "")
          && not (old.availability_zone == news.availability_zone))
        ∷ replace_diff "volumeId" (
            not (news.volume_id == "")
            && not (bare_resource_id old.volume_id == bare_resource_id news.volume_id))
        ∷ replace_diff "name" (not (news.name == "") && not (old.name == news.name))
        ∷ replace_diff "description" (not (old.description == news.description))
        ∷ replace_diff "container" (not (old.container == news.container))
        ∷ replace_diff "incremental" (not (same old.incremental news.incremental))
        ∷ replace_diff "force" (not (same old.force news.force))
        ∷ replace_diff "snapshotId"
            (not (bare_resource_id old.snapshot_id == bare_resource_id news.snapshot_id))
        ∷ replace_diff "metadata" (not (dict_equal old.metadata news.metadata))
        ∷ [])
      []
