-- ===== src/Driver/Params/Capabilities/Laws.antt =====
-- Which capabilities are accepted.
use nobus_csi.Common.{ℕ, suc, ◌≡◌, refl, ◌↔◌, List, [], ◌∷◌, Option, none, some, arith, ◌≢◌}
use mathlib.Core.Path.{subst}
use nobus_csi.Common.Lists.{All}
use nobus_csi.Cloud.Errors.{Error}
use nobus_csi.Driver.Status.Laws.{IsStatus}
use nobus_csi.Driver.Csi.{AccessMode, other_mode, AccessType, unset, VolumeCapability}
use nobus_csi.Driver.Params.Capabilities.{
  check_mode, check_type, check_capability, check_from, first_error, validate_capabilities,
}

abbrev IsRefusal : Option Error → Type 0
IsRefusal none = Unit
IsRefusal (some e) = IsStatus e

check_capability-IsRefusal :
    (i : ℕ) (c : Option VolumeCapability) → IsRefusal (check_capability i c)
unfolding check_capability
check_capability-IsRefusal i none = tt
check_capability-IsRefusal i (some c) = ground arith

check_from-IsRefusal : (i : ℕ) (cs : List (Option VolumeCapability)) → IsRefusal (check_from i cs)
unfolding check_from
check_from-IsRefusal i [] = tt
check_from-IsRefusal i (c ∷ cs) =
    ground (arith, check_capability-IsRefusal i c, check_from-IsRefusal (suc i) cs)

pub validate_capabilities-IsStatus :
    (cs : List (Option VolumeCapability)) {e : Error}
    → validate_capabilities cs ≡ some e
    → IsStatus e
unfolding validate_capabilities
validate_capabilities-IsStatus [] h = ground arith
validate_capabilities-IsStatus (c ∷ cs) h = subst IsRefusal h (check_from-IsRefusal 0 (c ∷ cs))

-- One node at a time.
abbrev pub SingleNode : AccessMode → Type 0
SingleNode (other_mode n) = ⊥
SingleNode _ = Unit

abbrev pub HasAccess : AccessType → Type 0
HasAccess unset = ⊥
HasAccess _ = Unit

abbrev pub Acceptable : Option VolumeCapability → Type 0
Acceptable none = ⊥
Acceptable (some c) = SingleNode c.access_mode × HasAccess c.access_type

accept_one :
    (m : AccessMode) (i : ℕ) (t : AccessType)
    → (first_error (check_mode m) (check_type i t) ≡ none) ↔ (SingleNode m × HasAccess t)
unfolding check_mode check_type
accept_one m i t = ground arith

check_capability_iff :
    (i : ℕ) (c : Option VolumeCapability) → (check_capability i c ≡ none) ↔ Acceptable c
unfolding check_capability
check_capability_iff i none = ground arith
check_capability_iff i (some c) = accept_one c.access_mode i c.access_type

check_from_iff :
    (i : ℕ) (cs : List (Option VolumeCapability)) → (check_from i cs ≡ none) ↔ All Acceptable cs
unfolding check_from
check_from_iff i [] = (λ h. tt, λ h. refl)
check_from_iff i (c ∷ cs) = ground (arith, check_capability_iff i c, check_from_iff (suc i) cs)

-- Capabilities are accepted exactly when there is one, and each is given, has a single-node mode, and
-- asks for a mount or a block device.
pub validate_capabilities_iff :
    (cs : List (Option VolumeCapability))
    → (validate_capabilities cs ≡ none) ↔ ((cs ≢ []) × All Acceptable cs)
unfolding validate_capabilities
validate_capabilities_iff [] = (λ h. cc, λ h. absurd (h.0 refl))
validate_capabilities_iff (c ∷ cs) =
    (λ h. (λ e. cc, (check_from_iff 0 (c ∷ cs)).0 h), λ h. (check_from_iff 0 (c ∷ cs)).1 h.1)
