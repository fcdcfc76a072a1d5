-- ===== src/Driver/Status.antt =====
-- internal/driver/errors.go: the gRPC status that the driver answers an error with.
pub mod Laws
use nobus_csi.Common.{Bool, true, false, ◌||◌, String, if◌then◌else◌}
use nobus_csi.Cloud.Errors.{Sentinel, Code, Message, text, Error, grpc, wrap, errors_is}

abbrev pub status : Code → String → Error
status c m = grpc c (text m)

-- `err == nil` has no counterpart: a value of `Error` is an error.
unfoldable pub status_error : Error → Error
status_error e =
    if errors_is e Sentinel.canceled
    then status Code.canceled "operation canceled"
    else if errors_is e Sentinel.deadline_exceeded
    then status Code.deadline_exceeded "operation timed out"
    else if errors_is e Sentinel.not_found
    then status Code.not_found "resource not found"
    else if errors_is e Sentinel.already_exists
    then status Code.already_exists "resource already exists"
    else if errors_is e Sentinel.quota_exceeded
    then status Code.resource_exhausted "provider quota exhausted"
    else if errors_is e Sentinel.conflict
    then status Code.failed_precondition "resource is in an incompatible state"
    else if errors_is e Sentinel.rate_limited || errors_is e Sentinel.unavailable
    then status Code.unavailable "provider is unavailable"
    else if errors_is e Sentinel.out_of_range
    then status Code.out_of_range "requested capacity is out of range"
    else if errors_is e Sentinel.unauthorized
    then status Code.permission_denied "provider credentials are not authorized"
    else if errors_is e Sentinel.invalid
    then status Code.invalid_argument "provider rejected the request"
    else status Code.internal "internal driver error"

-- `status.FromError` finds a status in a status alone: no chain of the code wraps one.
unfoldable pub grpc_error : Error → Error
unfolding status_error
grpc_error (grpc c m) = grpc c m
grpc_error (wrap xs) = status_error (wrap xs)
