-- ===== src/Driver/Params/Capacity.antt =====
-- `requestedBytes` and `roundUp` of internal/driver/params.go, over `int64`.
pub mod Rounding
use nobus_csi.Common.{
  ℕ, suc, ◌+◌, ◌*◌, ◌/◌, ◌%◌, ◌≤◌, ◌<◌, ◌≡◌, refl, ◌≢◌, ◌⊎◌, inl, inr, Bool, true, false, ◌||◌,
  ◌&&◌, String, List, [], ◌∷◌, arith, ltb, leb, eqb, if◌then◌else◌, Bool-cases,
}
use native.Mathlib.Nat.{div-add-mod, mod-lt}
use nobus_csi.Common.Int.{
  add64_pos, mul64_pos, wrap64_pos, ℤ, pos, negsuc, ◌≤ℤ◌, ltb_ℤ, leb_ℤ, eqb_ℤ, limit63, wrap64,
  add64, mul64, quot64, rem64, pos_part, neg_part, sub_ℕ,
}
use nobus_csi.Cloud.Errors.{Code, str, num, format, grpc, Result, ok, err}
use nobus_csi.Driver.Csi.{CapacityRange}

unfoldable pub round_up : ℤ → ℤ → ℤ
unfolding quot64 rem64
round_up value granularity =
    if leb_ℤ granularity (pos 0) || eqb_ℤ (rem64 value granularity) (pos 0)
    then value
    else mul64 (add64 (quot64 value granularity) (pos 1)) granularity

-- The driver's minimum stands in for a missing or zero requirement.
or_minimum : ℤ → ℤ → ℤ
or_minimum required minimum = if eqb_ℤ required (pos 0) then minimum else required

-- A limit that is not positive is no limit.
limited : ℤ → ℤ → Result ℤ
limited limit rounded =
    if ltb_ℤ (pos 0) limit && ltb_ℤ limit rounded
    then err (
        grpc Code.out_of_range (
          format "requested capacity %d exceeds limit %d after rounding"
            (num rounded ∷ num limit ∷ [])))
    else ok rounded

unfoldable pub requested_bytes : CapacityRange → ℤ → ℤ → Result ℤ
unfolding or_minimum limited
requested_bytes capacity minimum granularity =
    limited capacity.limit_bytes (round_up (or_minimum capacity.required_bytes minimum) granularity)
