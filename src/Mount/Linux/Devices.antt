-- ===== src/Mount/Linux/Devices.antt =====
-- `FindDevice` of linux.go: the device of a volume, once one of its names is there.
pub mod Enough
use nobus_csi.Common.{
  ℕ, zero, suc, ◌+◌, Bool, true, false, String, List, [], ◌∷◌, Option, none, some, ◌==◌, ◌||◌, leb,
  if◌then◌else◌,
}
use nobus_csi.Cloud.Errors.{Sentinel, Result, ok, err, wrap, sentinel}
use nobus_csi.Cloud.Interface.{Run}
use nobus_csi.Cloud.Run.{return, raise, ◌>>=◌}
use nobus_csi.Mount.Linux.{
  Host, Reply, done, missing, broken, Waiting, Context, on_host, device_candidates,
  linux_is_mounted, linux_stage, linux_publish, linux_unmount, linux_stats, linux_is_block,
  linux_expand,
}
use nobus_csi.Mount.{Mounter}

-- A candidate that is there, none that is, or an error.
abbrev pub found_of : Reply String → Result (Option String)
found_of (done path) = ok (some path)
found_of missing = ok none
found_of broken = err (wrap [])

module _ (H : Host) where
  unfoldable pub after_candidate :
      Run (Waiting H) (Option String) → Option String → Run (Waiting H) (Option String)
  after_candidate rest (some path) = return (some path)
  after_candidate rest none = rest

  -- The first candidate that is there.
  unfoldable pub first_device : List String → Run (Waiting H) (Option String)
  unfolding after_candidate
  first_device [] = return none
  first_device (c ∷ cs) =
      if c == ""
      then first_device cs
      else on_host H (H.eval_symlinks c) found_of >>= after_candidate (first_device cs)

-- `deviceWaitInterval` and `deviceWaitTimeout`, in milliseconds.
abbrev pub device_wait_interval : ℕ
device_wait_interval = 500

abbrev pub device_wait_timeout : ℕ
device_wait_timeout = 120_000

-- One look more than there are intervals before the deadline.
abbrev pub device_looks : ℕ
device_looks = 241

unfoldable pub is_ended : Option Sentinel → Bool
is_ended none = false
is_ended (some e) = true

module _ (H : Host) (ctx : Context) where
  unfoldable pub look_again : Run (Waiting H) String → Bool → Run (Waiting H) String
  look_again rest false = rest
  look_again rest true = raise (sentinel Sentinel.unavailable)

  -- A tick later the context is done, the deadline has passed, or the mounter looks again. The
  -- deadline wins over a tick of the same time.
  unfoldable pub await_device : ℕ → Run (Waiting H) String → Run (Waiting H) String
  unfolding look_again is_ended
  await_device deadline rest s =
      let now = s.elapsed + device_wait_interval in
      look_again rest (is_ended (ctx now) || leb deadline now) (record s { elapsed = now })

  unfoldable pub found_or : Run (Waiting H) String → Option String → Run (Waiting H) String
  found_or rest (some path) = return path
  found_or rest none = rest

  unfoldable pub seek : List String → ℕ → ℕ → Run (Waiting H) String
  unfolding first_device found_or await_device
  seek candidates deadline zero = raise (sentinel Sentinel.unavailable)
  seek candidates deadline (suc looks) =
      first_device H candidates
      >>= found_or (await_device deadline (seek candidates deadline looks))

  unfoldable pub linux_find_device : String → String → Run (Waiting H) String
  unfolding seek
  linux_find_device id hint s =
      seek (device_candidates H.join id hint) (s.elapsed + device_wait_timeout) device_looks s

-- The mounter of a Linux host, in the calls of one context.
module _ (H : Host) (ctx : Context) where
  abbrev pub linux_mounter : Mounter
  linux_mounter = record {
    State = Waiting H;
    is_mounted = linux_is_mounted H;
    stage = linux_stage H ctx;
    publish = linux_publish H ctx;
    unmount = linux_unmount H ctx;
    stats = linux_stats H;
    is_block = linux_is_block H;
    expand = linux_expand H;
    find_device = linux_find_device H ctx;
  }
