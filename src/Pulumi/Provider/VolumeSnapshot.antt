-- ===== src/Pulumi/Provider/VolumeSnapshot.antt =====
-- The resource VolumeSnapshot of snapshot.go.
pub mod Lifecycle
use nobus_csi.Common.{Bool, false, not, ◌&&◌, String, [], ◌∷◌, Option, ◌==◌, same}
use nobus_csi.Common.Int.{ℤ, pos}
use nobus_csi.Common.Assoc.{Dict}
use nobus_csi.Common.Text.{or_else}
use nobus_csi.Pulumi.Client.Shapes as Api
use nobus_csi.Pulumi.Provider.Scope.{Config, bare_resource_id}
use nobus_csi.Pulumi.Provider.Diff.{
  DiffResponse, replace_diff, update_diff, compare_all, dict_equal,
}
use nobus_csi.Pulumi.Provider.Check.{
  PropertyMap, Checked, check_resource_args, add_failures, failing,
}

pub record VolumeSnapshotArgs : Type 0 where
  pub volume_id : String
  pub availability_zone : String
  pub name : String
  pub description : String
  pub force : Bool
  pub metadata : Dict
  pub project_id : String

pub record VolumeSnapshotState : Type 0 where
  pub args : VolumeSnapshotArgs
  pub status : String
  pub size : ℤ
  pub created_at : String

-- `VolumeSnapshotArgs{}` and `VolumeSnapshotState{}`
abbrev pub no_args : VolumeSnapshotArgs
no_args = record {
  volume_id = "";
  availability_zone = "";
  name = "";
  description = "";
  force = false;
  metadata = [];
  project_id = "";
}

abbrev pub plain : VolumeSnapshotArgs → VolumeSnapshotState
plain args = record { args = args; status = ""; size = pos 0; created_at = "" }

abbrev pub no_state : VolumeSnapshotState
no_state = plain no_args

unfoldable pub check :
    (PropertyMap → Checked VolumeSnapshotArgs)
    → Option Config
    → PropertyMap
    → Checked VolumeSnapshotArgs
check default_check cfg inputs =
    add_failures (λ a. failing (("volumeId", a.volume_id == "") ∷ []))
      (check_resource_args default_check cfg inputs (λ a. a.availability_zone))

-- What the API tells, where the arguments leave it open.
filled : VolumeSnapshotArgs → Api.Snapshot → VolumeSnapshotArgs
filled input snap = record input {
  name = or_else input.name snap.name;
  description = or_else input.description snap.description;
  volume_id = or_else input.volume_id snap.volume_id;
}

unfoldable pub state_from_snapshot : VolumeSnapshotArgs → Api.Snapshot → VolumeSnapshotState
unfolding filled
state_from_snapshot input snap = record {
  args = filled input snap;
  status = snap.status;
  size = snap.size;
  created_at = snap.created_at;
}

unfoldable pub diff : VolumeSnapshotState → VolumeSnapshotArgs → DiffResponse
unfolding replace_diff update_diff compare_all
diff olds news =
    let old = olds.args in
    compare_all
      (replace_diff "availabilityZone" (
          not (news.availability_zone == "")
          && not (old.availability_zone == news.availability_zone))
        ∷ replace_diff "volumeId" (
            not (news.volume_id == "")
            && not (bare_resource_id old.volume_id == bare_resource_id news.volume_id))
        ∷ replace_diff "name" (not (news.name == "") && not (old.name == news.name))
        ∷ replace_diff "description" (not (old.description == news.description))
        ∷ replace_diff "force" (not (same old.force news.force))
        ∷ replace_diff "metadata" (not (dict_equal old.metadata news.metadata))
        ∷ [])
      []
