-- ===== src/Driver/Params/Capabilities.antt =====
-- `validateCapabilities` and `capabilityMessage` of internal/driver/params.go.
pub mod Laws
use nobus_csi.Common.{ℕ, suc, ◌+◌, Bool, true, false, String, List, [], ◌∷◌, Option, none, some}
use nobus_csi.Common.Int.{pos}
use nobus_csi.Cloud.Errors.{Code, Message, text, format, num, enum, Error, grpc}
use nobus_csi.Driver.Csi.{
  AccessMode, other_mode, single_node_writer, single_node_single_writer, single_node_reader_only,
  single_node_multi_writer, AccessType, mount, block, unset, VolumeCapability,
}
use nobus_csi.Driver.Status.{status}

-- The error of an unsupported mode. The number of the mode stands for its name.
check_mode : AccessMode → Option Error
check_mode (other_mode n) =
    some (grpc Code.invalid_argument (format "unsupported access mode %s" (enum n ∷ [])))
check_mode _ = none

check_type : ℕ → AccessType → Option Error
check_type index unset = some (
    grpc Code.invalid_argument
      (format "volume capability %d requires mount or block access type" (num (pos index) ∷ [])))
check_type index _ = none

abbrev first_error : Option Error → Option Error → Option Error
first_error (some e) later = some e
first_error none later = later

unfoldable pub check_capability : ℕ → Option VolumeCapability → Option Error
unfolding check_mode check_type
check_capability index none =
    some
      (grpc Code.invalid_argument (format "volume capability %d is empty" (num (pos index) ∷ [])))
check_capability index (some c) =
    first_error (check_mode c.access_mode) (check_type index c.access_type)

check_from : ℕ → List (Option VolumeCapability) → Option Error
check_from index [] = none
check_from index (c ∷ cs) = first_error (check_capability index c) (check_from (suc index) cs)

-- The first error, if there is one.
unfoldable pub validate_capabilities : List (Option VolumeCapability) → Option Error
unfolding check_from check_capability
validate_capabilities [] = some (status Code.invalid_argument "volume capabilities are required")
validate_capabilities (c ∷ cs) = check_from 0 (c ∷ cs)

-- `err.Error()` of a status is the text that the gRPC library gives it.
unfoldable pub capability_message : (Error → String) → List (Option VolumeCapability) → String
capability_message error_text capabilities = elim (validate_capabilities capabilities) [
  | none ↦ ""
  | some e ↦ error_text e
]
