-- ===== src/Mount.antt =====
-- internal/mount: the interface `Mounter` of interface.go, and the mounter of fake.go that keeps its
-- mounts in memory. The mutex makes each method of the fake one step.
pub mod Linux
use nobus_csi.Common.{
  Bool, true, false, String, ◌<>◌, List, [], Option, none, some, ◌==◌, not, if◌then◌else◌,
}
use nobus_csi.Common.Int.{ℤ, pos}
use nobus_csi.Common.Assoc.{Assoc, lookup, insert, erase}
use nobus_csi.Cloud.Errors.{ok}
use nobus_csi.Cloud.Interface.{Run}

pub record Stats : Type 0 where
  pub total_bytes : ℤ
  pub available_bytes : ℤ
  pub used_bytes : ℤ
  pub total_inodes : ℤ
  pub free_inodes : ℤ
  pub used_inodes : ℤ

pub record Mounter : Type 1 where
  pub State : Type 0
  pub is_mounted : String → Run State Bool
  pub stage : String → String → String → List String → Run State Unit
  pub publish : String → String → Bool → Bool → List String → Run State Unit
  pub unmount : String → Run State Unit
  pub stats : String → Bool → Run State Stats
  pub is_block : String → Run State Bool
  pub expand : String → String → Run State Unit
  pub find_device : String → String → Run State String

-- The source that each target is mounted from.
abbrev pub Mounted : Type 0
Mounted = Assoc String

abbrev pub new_fake_mounter : Mounted
new_fake_mounter = []

is_key : Option String → Bool
is_key none = false
is_key (some source) = true

unfoldable pub fake_is_mounted : String → Run Mounted Bool
unfolding is_key
fake_is_mounted target mounted = (ok (is_key (lookup target mounted)), mounted)

unfoldable pub fake_mount : String → String → Run Mounted Unit
fake_mount source target mounted = (ok tt, insert target source mounted)

unfoldable pub fake_unmount : String → Run Mounted Unit
fake_unmount target mounted = (ok tt, erase target mounted)

abbrev pub fake_stats : Stats
fake_stats = record {
  total_bytes = pos 1_073_741_824;
  available_bytes = pos 536_870_912;
  used_bytes = pos 536_870_912;
  total_inodes = pos 0;
  free_inodes = pos 0;
  used_inodes = pos 0;
}

unfoldable pub fake_find_device : String → String → Run Mounted String
fake_find_device id hint mounted =
    (ok (if not (hint == "") then hint else "/dev/disk/by-id/virtio-" <> id), mounted)

abbrev pub fake_mounter : Mounter
fake_mounter = record {
  State = Mounted;
  is_mounted = fake_is_mounted;
  stage = λ source target fs_type flags. fake_mount source target;
  publish = λ source target readonly block flags. fake_mount source target;
  unmount = fake_unmount;
  stats = λ target block mounted. (ok fake_stats, mounted);
  is_block = λ target mounted. (ok false, mounted);
  expand = λ target fs_type mounted. (ok tt, mounted);
  find_device = fake_find_device;
}
