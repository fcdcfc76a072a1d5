-- ===== src/Pulumi/Provider/Volume.antt =====
-- The resource Volume of volume.go.
pub mod Lifecycle
pub mod Settled
pub mod Kept
use nobus_csi.Common.{
  ℕ, Bool, true, false, not, ◌&&◌, String, List, [], ◌∷◌, Option, none, some, ◌==◌, if◌then◌else◌,
}
use nobus_csi.Common.Int.{ℤ, pos, leb_ℤ, eqb_ℤ}
use nobus_csi.Common.Assoc.{Dict}
use nobus_csi.Common.Text.{or_else}
use nobus_csi.Cloud.Errors.{Sentinel, Error, errors_is, Result, ok, err}
use nobus_csi.Cloud.Interface.{Run}
use nobus_csi.Cloud.Run.{lift, ◌>>=◌, ◌>>◌}
use nobus_csi.Pulumi.Client.Shapes.{CreateVolumeRequest, UpdateVolumeRequest}
use nobus_csi.Pulumi.Client.Shapes as Api
use nobus_csi.Pulumi.Client.Calls.{Transport, Session, Context}
use nobus_csi.Pulumi.Provider.Scope.{
  Config, scoped_id, bare_resource_id, resolve_scope, resolve_import,
}
use nobus_csi.Pulumi.Provider.Diff.{
  DiffResponse, replace_diff, update_diff, compare_all, dict_equal,
}
use nobus_csi.Pulumi.Provider.Check.{
  PropertyMap, Checked, check_resource_args, add_failures, failing,
}

pub record VolumeArgs : Type 0 where
  pub size : ℤ
  pub availability_zone : String
  pub name : String
  pub description : String
  pub volume_type : String
  pub project_id : String
  pub snapshot_id : String
  pub source_vol_id : String
  pub image_ref : String
  pub metadata : Dict
  pub multiattach : Option Bool

pub record VolumeState : Type 0 where
  pub args : VolumeArgs
  pub status : String
  pub is_multiattach : Bool
  pub attached_to : String
  pub device : String

-- `VolumeArgs{}` and `VolumeState{}`
abbrev pub no_args : VolumeArgs
no_args = record {
  size = pos 0;
  availability_zone = "";
  name = "";
  description = "";
  volume_type = "";
  project_id = "";
  snapshot_id = "";
  source_vol_id = "";
  image_ref = "";
  metadata = [];
  multiattach = none;
}

abbrev pub plain : VolumeArgs → VolumeState
plain args = record {
  args = args;
  status = "";
  is_multiattach = false;
  attached_to = "";
  device = "";
}

abbrev pub no_state : VolumeState
no_state = plain no_args

unfoldable pub check :
    (PropertyMap → Checked VolumeArgs) → Option Config → PropertyMap → Checked VolumeArgs
check default_check cfg inputs =
    add_failures (λ a. failing (("size", leb_ℤ a.size (pos 0)) ∷ []))
      (check_resource_args default_check cfg inputs (λ a. a.availability_zone))

-- What the API tells, where the arguments leave it open, and the first attachment.
filled : VolumeArgs → Api.Volume → VolumeArgs
filled input vol = record input {
  name = or_else input.name vol.name;
  description = or_else input.description vol.description;
  volume_type = or_else input.volume_type vol.volume_type;
  size = if eqb_ℤ input.size (pos 0) then vol.size else input.size;
}

abbrev first_server : List Api.VolumeAttachment → String
first_server [] = ""
first_server (a ∷ rest) = a.server_id

abbrev first_device : List Api.VolumeAttachment → String
first_device [] = ""
first_device (a ∷ rest) = a.device

unfoldable pub state_from_volume : VolumeArgs → Api.Volume → VolumeState
unfolding filled
state_from_volume input vol = record {
  args = filled input vol;
  status = vol.status;
  is_multiattach = vol.multiattach;
  attached_to = first_server vol.attachments;
  device = first_device vol.attachments;
}

unfoldable pub diff : VolumeState → VolumeArgs → DiffResponse
unfolding replace_diff update_diff compare_all
diff olds news =
    let old = olds.args in
    compare_all
      (replace_diff "availabilityZone" (
          not (news.availability_zone == "")
          && not (old.availability_zone == news.availability_zone))
        ∷ replace_diff "size" (not (eqb_ℤ news.size (pos 0)) && not (eqb_ℤ old.size news.size))
        ∷ replace_diff "volumeType"
            (not (news.volume_type == "") && not (old.volume_type == news.volume_type))
        ∷ replace_diff "snapshotId"
            (not (news.snapshot_id == "") && not (old.snapshot_id == news.snapshot_id))
        ∷ replace_diff "sourceVolId"
            (not (news.source_vol_id == "") && not (old.source_vol_id == news.source_vol_id))
        ∷ replace_diff "imageRef"
            (not (news.image_ref == "") && not (old.image_ref == news.image_ref))
        ∷ update_diff "name" (not (news.name == "") && not (old.name == news.name))
        ∷ update_diff "description" (not (old.description == news.description))
        ∷ update_diff "metadata" (not (dict_equal old.metadata news.metadata))
        ∷ [])
      []
