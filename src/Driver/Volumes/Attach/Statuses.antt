-- ===== src/Driver/Volumes/Attach/Statuses.antt =====
-- The errors of publishing and unpublishing are gRPC statuses.
use nobus_csi.Common.{String, Option, none, some}
use nobus_csi.Cloud.Errors.{Code, Error, Result, ok, err}
use nobus_csi.Cloud.Types.{Volume}
use nobus_csi.Cloud.Interface.{Cloud}
use nobus_csi.Driver.Config.{Config}
use nobus_csi.Driver.Status.{status}
use nobus_csi.Driver.Status.Laws.{Any, IsStatus, status_error-IsStatus}
use nobus_csi.Driver.Session.{Session}
use nobus_csi.Driver.Session.Ensures.{Ensures, ensures_rules}
use nobus_csi.Driver.Csi.{PublishRequest}
use nobus_csi.Driver.Volumes.Attach.{
  after_recovery, after_attach, publish_found, controller_publish_volume, gone_is_done,
  after_detach, unpublish_found, controller_unpublish_volume, attached_device_after_publish_error,
}

aborted-IsStatus : (m : String) → IsStatus (status Code.aborted m)
aborted-IsStatus m = tt

module _ (C : Cloud) where
  after_recovery-Ensures :
      (e : Error) (o : Option String) → Ensures {S = Session C} Any IsStatus (after_recovery C e o)
  unfolding after_recovery
  after_recovery-Ensures e (some device) = search ensures_rules
  after_recovery-Ensures e none = search (ensures_rules, status_error-IsStatus)

  after_attach-Ensures :
      (id node : String) (r : Result String) → Ensures Any IsStatus (after_attach C id node r)
  unfolding after_attach attached_device_after_publish_error
  after_attach-Ensures id node (ok device) = search ensures_rules
  after_attach-Ensures id node (err e) = search (ensures_rules, after_recovery-Ensures)

  publish_found-Ensures :
      (config : Config) (r : PublishRequest) (v : Volume)
      → Ensures Any IsStatus (publish_found C config r v)
  unfolding publish_found
  publish_found-Ensures config r v =
      search (ensures_rules, status_error-IsStatus, after_attach-Ensures)

  pub publish-Ensures :
      (config : Config) (r : PublishRequest)
      → Ensures Any IsStatus (controller_publish_volume C config r)
  unfolding controller_publish_volume
  publish-Ensures config r =
      search (ensures_rules, aborted-IsStatus, status_error-IsStatus, publish_found-Ensures) depth 8

  gone_is_done-Ensures : (e : Error) → Ensures {S = Session C} Any IsStatus (gone_is_done C e)
  unfolding gone_is_done
  gone_is_done-Ensures e = search (ensures_rules, status_error-IsStatus)

  after_detach-Ensures : (r : Result Unit) → Ensures {S = Session C} Any IsStatus (after_detach C r)
  unfolding after_detach
  after_detach-Ensures (ok u) = search ensures_rules
  after_detach-Ensures (err e) = gone_is_done-Ensures e

  unpublish_found-Ensures :
      (config : Config) (id node : String) (r : Result Volume)
      → Ensures Any IsStatus (unpublish_found C config id node r)
  unfolding unpublish_found
  unpublish_found-Ensures config id node (ok v) = search (ensures_rules, after_detach-Ensures)
  unpublish_found-Ensures config id node (err e) = gone_is_done-Ensures e

  pub unpublish-Ensures :
      (config : Config) (id node : String)
      → Ensures Any IsStatus (controller_unpublish_volume C config id node)
  unfolding controller_unpublish_volume
  unpublish-Ensures config id node =
      search (ensures_rules, aborted-IsStatus, unpublish_found-Ensures) depth 8
