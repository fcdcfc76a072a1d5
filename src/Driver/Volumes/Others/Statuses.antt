-- ===== src/Driver/Volumes/Others/Statuses.antt =====
-- The errors of the other volume handlers are gRPC statuses.
use nobus_csi.Common.{String, arith}
use nobus_csi.Cloud.Errors.{Code, Error, Result, ok, err}
use nobus_csi.Cloud.Interface.{Cloud}
use nobus_csi.Driver.Config.{Config}
use nobus_csi.Driver.Status.{status}
use nobus_csi.Driver.Status.Laws.{Any, Holds, IsStatus, status_error-IsStatus}
use nobus_csi.Driver.Session.{Session}
use nobus_csi.Driver.Session.Ensures.{Ensures, ensures_rules}
use nobus_csi.Driver.Csi.{ExpandRequest, ListRequest, ValidateRequest}
use nobus_csi.Driver.Params.Spec.Checks.{requested_bytes-IsStatus}
use nobus_csi.Driver.Volumes.Others.{
  after_delete, delete_volume, list_volumes, expand_with, controller_expand_volume,
  controller_get_volume, validate_volume_capabilities,
}

aborted-IsStatus : (m : String) → IsStatus (status Code.aborted m)
aborted-IsStatus m = tt

pub validate-Holds :
    (error_text : Error → String) (r : ValidateRequest)
    → Holds Any IsStatus (validate_volume_capabilities error_text r)
unfolding validate_volume_capabilities
validate-Holds error_text r = ground arith

module _ (C : Cloud) where
  after_delete-Ensures : (r : Result Unit) → Ensures {S = Session C} Any IsStatus (after_delete C r)
  unfolding after_delete
  after_delete-Ensures (ok u) = search ensures_rules
  after_delete-Ensures (err e) = search (ensures_rules, status_error-IsStatus)

  pub delete_volume-Ensures : (id : String) → Ensures Any IsStatus (delete_volume C id)
  unfolding delete_volume
  delete_volume-Ensures id = search (ensures_rules, aborted-IsStatus, after_delete-Ensures) depth 8

  pub list_volumes-Ensures : (r : ListRequest) → Ensures Any IsStatus (list_volumes C r)
  unfolding list_volumes
  list_volumes-Ensures r = search (ensures_rules, status_error-IsStatus)

  expand_with-Ensures :
      (config : Config) (r : ExpandRequest) → Ensures Any IsStatus (expand_with C config r)
  unfolding expand_with
  expand_with-Ensures config r =
      search (ensures_rules, status_error-IsStatus, requested_bytes-IsStatus) depth 8

  pub expand-Ensures :
      (config : Config) (r : ExpandRequest)
      → Ensures Any IsStatus (controller_expand_volume C config r)
  unfolding controller_expand_volume
  expand-Ensures config r = search (ensures_rules, aborted-IsStatus, expand_with-Ensures) depth 8

  pub get_volume-Ensures : (id : String) → Ensures Any IsStatus (controller_get_volume C id)
  unfolding controller_get_volume
  get_volume-Ensures id = search (ensures_rules, status_error-IsStatus) depth 8
