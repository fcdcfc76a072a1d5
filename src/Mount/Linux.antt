-- ===== src/Mount/Linux.antt =====
-- linux.go and devices.go of internal/mount: the mounter of a Linux host.
pub mod Devices
use nobus_csi.Common.{
  ℕ, zero, suc, ◌+◌, Bool, true, false, not, ◌||◌, String, ◌<>◌, List, [], ◌∷◌, ◌++◌, Option, none,
  some, ◌==◌, leb, if◌then◌else◌,
}
use nobus_csi.Common.Int.{ℤ, pos, mul64, sub64}
use nobus_csi.Common.Text.{or_else}
use nobus_csi.Cloud.Errors.{Sentinel, Error, Result, ok, err, wrap, sentinel}
use nobus_csi.Cloud.Interface.{Run}
use nobus_csi.Cloud.Run.{return, raise, ◌>>=◌, ◌>>◌}
use nobus_csi.Mount.{Stats}

-- What a call of the host returns: the errors that `os.IsNotExist` tells are apart.
pub data Reply (A : Type 0) : Type 0 where
  done : A → Reply A
  missing : Reply A
  broken : Reply A

pub record FileInfo : Type 0 where
  pub size : ℤ
  pub is_device : Bool

-- `unix.Statfs_t`, its fields converted to `int64`.
pub record FileSystem : Type 0 where
  pub blocks : ℤ
  pub bsize : ℤ
  pub bavail : ℤ
  pub files : ℤ
  pub ffree : ℤ

-- The calls of the packages os, path/filepath, unix, k8s.io/mount-utils and k8s.io/utils/exec.
-- `findmnt` is the trimmed output of that command, `create_file` opens a file and closes it.
pub record Host : Type 1 where
  pub State : Type 0
  pub directory : String → String
  pub join : String → String → String
  pub is_likely_not_mount_point : String → State → Reply Bool × State
  pub mkdir_all : String → State → Reply Unit × State
  pub create_file : String → State → Reply Unit × State
  pub format_and_mount : String → String → String → List String → State → Reply Unit × State
  pub mount : String → String → List String → State → Reply Unit × State
  pub unmount : String → State → Reply Unit × State
  pub stat : String → State → Reply FileInfo × State
  pub statfs : String → State → Reply FileSystem × State
  pub findmnt : String → State → Reply String × State
  pub command : String → String → State → Reply Unit × State
  pub eval_symlinks : String → State → Reply String × State

-- The host, and the milliseconds that the mounter has waited.
pub record Waiting (H : Host) : Type 0 where
  pub host : H.State
  pub elapsed : ℕ

abbrev pub Context : Type 0
Context = ℕ → Option Sentinel

-- An error of the host wraps none of the sentinels.
abbrev pub as_result : {A : Type 0} → Reply A → Result A
as_result (done a) = ok a
as_result missing = err (wrap [])
as_result broken = err (wrap [])

unfoldable pub device_candidates : (String → String → String) → String → String → List String
device_candidates join id hint =
    hint
    ∷ join "/dev/disk/by-id" ("virtio-" <> id)
    ∷ join "/dev/disk/by-id" ("scsi-0QEMU_QEMU_HARDDISK_" <> id)
    ∷ []

abbrev is_mounted_of : Reply Bool → Result Bool
is_mounted_of (done not_mount) = ok (not not_mount)
is_mounted_of missing = ok false
is_mounted_of broken = err (wrap [])

unfoldable pub stats_of : FileSystem → Stats
stats_of fs =
    let total = mul64 fs.blocks fs.bsize in
    let free = mul64 fs.bavail fs.bsize in
    record {
      total_bytes = total;
      available_bytes = free;
      used_bytes = sub64 total free;
      total_inodes = fs.files;
      free_inodes = fs.ffree;
      used_inodes = sub64 fs.files fs.ffree;
    }

module _ (H : Host) where
  -- A call of the host.
  unfoldable pub on_host :
      {A B : Type 0} → (H.State → Reply A × H.State) → (Reply A → Result B) → Run (Waiting H) B
  on_host call answer s =
      let (reply, host) = call s.host in (answer reply, record s { host = host })

  unless_ended : Option Sentinel → Run (Waiting H) Unit
  unless_ended none = return tt
  unless_ended (some e) = raise (wrap (e ∷ []))

  -- `if err := ctx.Err(); err != nil { return err }`
  check_context : Context → Run (Waiting H) Unit
  unfolding unless_ended
  check_context ctx s = unless_ended (ctx s.elapsed) s

  unfoldable pub linux_is_mounted : String → Run (Waiting H) Bool
  linux_is_mounted target = on_host (H.is_likely_not_mount_point target) is_mounted_of

  unfoldable pub linux_stage :
      Context → String → String → String → List String → Run (Waiting H) Unit
  unfolding check_context
  linux_stage ctx source target fs_type flags = do
    on_host (H.mkdir_all target) as_result
    check_context ctx
    on_host (H.format_and_mount source target fs_type flags) as_result

  -- A block device is mounted on a file, a file system on a directory.
  make_target : Bool → String → Run (Waiting H) Unit
  make_target false target = on_host (H.mkdir_all target) as_result
  make_target true target = do
    on_host (H.mkdir_all (H.directory target)) as_result
    on_host (H.create_file target) as_result

  unfoldable pub linux_publish :
      Context → String → String → Bool → Bool → List String → Run (Waiting H) Unit
  unfolding make_target check_context
  linux_publish ctx source target readonly block flags = do
    make_target block target
    check_context ctx
    on_host (H.mount source target ("bind" ∷ (flags ++ (if readonly then "ro" ∷ [] else []))))
        as_result

  unmount_if : Context → String → Bool → Run (Waiting H) Unit
  unmount_if ctx target false = return tt
  unmount_if ctx target true = do check_context ctx; on_host (H.unmount target) as_result

  unfoldable pub linux_unmount : Context → String → Run (Waiting H) Unit
  unfolding unmount_if check_context
  linux_unmount ctx target = do mounted ← linux_is_mounted target; unmount_if ctx target mounted

  device_stats : ℤ → Stats
  device_stats size = record {
    total_bytes = size;
    available_bytes = pos 0;
    used_bytes = pos 0;
    total_inodes = pos 0;
    free_inodes = pos 0;
    used_inodes = pos 0;
  }

  abbrev stats_reply : Reply FileSystem → Result Stats
  stats_reply (done fs) = ok (stats_of fs)
  stats_reply missing = err (wrap [])
  stats_reply broken = err (wrap [])

  unfoldable pub linux_stats : String → Bool → Run (Waiting H) Stats
  unfolding device_stats
  linux_stats target block = do
    info ← on_host (H.stat target) as_result
    if block then return (device_stats info.size) else on_host (H.statfs target) stats_reply

  unfoldable pub linux_is_block : String → Run (Waiting H) Bool
  linux_is_block target = do info ← on_host (H.stat target) as_result; return info.is_device

  -- The file system that is found there decides, and the one that was asked for where none is.
  unfoldable pub grow : String → String → Run (Waiting H) Unit
  grow target selected =
      if selected == "ext4" || selected == "ext3" || selected == "ext2"
      then on_host (H.command "resize2fs" target) as_result
      else if selected == "xfs"
      then on_host (H.command "xfs_growfs" target) as_result
      else raise (wrap [])

  unfoldable pub linux_expand : String → String → Run (Waiting H) Unit
  unfolding grow
  linux_expand target fs_type = do
    actual ← on_host (H.findmnt target) as_result
    grow target (or_else actual fs_type)
