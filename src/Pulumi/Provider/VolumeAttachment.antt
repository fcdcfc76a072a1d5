-- ===== src/Pulumi/Provider/VolumeAttachment.antt =====
-- The resource VolumeAttachment of volume.go.
pub mod Lifecycle
use nobus_csi.Common.{not, ◌&&◌, String, [], ◌∷◌, Option, ◌==◌}
use nobus_csi.Pulumi.Client.Shapes as Api
use nobus_csi.Pulumi.Provider.Scope.{Config, bare_resource_id}
use nobus_csi.Pulumi.Provider.Diff.{DiffResponse, replace_diff, update_diff, compare_all}
use nobus_csi.Pulumi.Provider.Check.{
  PropertyMap, Checked, check_resource_args, add_failures, failing,
}

pub record VolumeAttachmentArgs : Type 0 where
  pub volume_id : String
  pub instance_id : String
  pub availability_zone : String
  pub project_id : String

pub record VolumeAttachmentState : Type 0 where
  pub args : VolumeAttachmentArgs
  pub device : String

-- `VolumeAttachmentArgs{}` and `VolumeAttachmentState{}`
abbrev pub no_args : VolumeAttachmentArgs
no_args = record { volume_id = ""; instance_id = ""; availability_zone = ""; project_id = "" }

abbrev pub plain : VolumeAttachmentArgs → VolumeAttachmentState
plain args = record { args = args; device = "" }

abbrev pub no_state : VolumeAttachmentState
no_state = plain no_args

unfoldable pub check :
    (PropertyMap → Checked VolumeAttachmentArgs)
    → Option Config
    → PropertyMap
    → Checked VolumeAttachmentArgs
check default_check cfg inputs =
    add_failures
      (λ a. failing (("volumeId", a.volume_id == "") ∷ ("instanceId", a.instance_id == "") ∷ []))
      (check_resource_args default_check cfg inputs (λ a. a.availability_zone))

unfoldable pub diff : VolumeAttachmentState → VolumeAttachmentArgs → DiffResponse
unfolding replace_diff update_diff compare_all
diff olds news =
    let old = olds.args in
    compare_all
      (replace_diff "availabilityZone" (
          not (news.availability_zone == "")
          && not (old.availability_zone == news.availability_zone))
        ∷ replace_diff "volumeId" (
            not (news.volume_id == "")
            && not (bare_resource_id old.volume_id == bare_resource_id news.volume_id))
        ∷ replace_diff "instanceId" (
            not (news.instance_id == "")
            && not (bare_resource_id old.instance_id == bare_resource_id news.instance_id))
        ∷ [])
      []
