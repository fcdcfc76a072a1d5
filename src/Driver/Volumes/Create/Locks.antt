-- ===== src/Driver/Volumes/Create/Locks.antt =====
-- `CreateVolume` gives its lock back.
use nobus_csi.Common.{ℕ, Bool, Option, none, some}
use nobus_csi.Cloud.Errors.{Error, Result, ok, err}
use nobus_csi.Cloud.Types.{VolumeSpec}
use nobus_csi.Cloud.Interface.{Cloud}
use nobus_csi.Driver.Config.{Config}
use nobus_csi.Driver.Csi.{CreateVolumeRequest}
use nobus_csi.Driver.Params.Capabilities.{validate_capabilities}
use nobus_csi.Driver.Params.Spec.{volume_spec}
use nobus_csi.Driver.Session.Keeps.{KeepsLocks, raise-KeepsLocks, with_name-KeepsLocks}
use nobus_csi.Driver.Volumes.Create.{create_named, create_checked, create_volume}

module _ (C : Cloud) (ctx : ℕ → Bool) (config : Config) (request : CreateVolumeRequest) where
  create_named-KeepsLocks :
      (made : Result VolumeSpec) → KeepsLocks (create_named C ctx request made)
  unfolding create_named
  create_named-KeepsLocks (err e) = raise-KeepsLocks e
  create_named-KeepsLocks (ok spec) = with_name-KeepsLocks _ _ _

  create_checked-KeepsLocks :
      (bad : Option Error) → KeepsLocks (create_checked C ctx config request bad)
  unfolding create_checked
  create_checked-KeepsLocks (some e) = raise-KeepsLocks e
  create_checked-KeepsLocks none = create_named-KeepsLocks (volume_spec request config)

  pub create_volume-KeepsLocks : KeepsLocks (create_volume C ctx config request)
  unfolding create_volume
  create_volume-KeepsLocks =
      create_checked-KeepsLocks (validate_capabilities request.volume_capabilities)
