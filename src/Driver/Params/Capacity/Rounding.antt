-- ===== src/Driver/Params/Capacity/Rounding.antt =====
-- What rounding up to the granularity gives, where it fits in `int64` and where it does not.
use nobus_csi.Common.{
  ℕ, ◌+◌, ◌-◌, ◌*◌, ◌/◌, ◌%◌, ◌≤◌, ◌<◌, ◌≡◌, refl, ◌≢◌, ◌⊎◌, inl, inr, true, ◌&&◌, arith, eqb,
  if◌then◌else◌, Bool-cases,
}
use native.Mathlib.Nat.{zero-mod, div-add-mod, mod-lt, mul-mod_left}
use native.Mathlib.Decide.{dec_lt}
use nobus_csi.Common.Int.{
  ℤ, pos, negsuc, ◌≤ℤ◌, ltb_ℤ, limit63, wrap64_overflow, add64_pos, mul64_pos,
}
use nobus_csi.Cloud.Errors.{Code, Result, ok, err}
use nobus_csi.Driver.Status.Laws.{HasCode}
use nobus_csi.Driver.Params.Capacity.{or_minimum, limited, round_up, requested_bytes}

-- The least multiple of `g` that is at least `v`.
unfoldable pub ceiling : ℕ → ℕ → ℕ
ceiling v g = if eqb (v % g) 0 then v else (v / g + 1) * g

ceiling_bounds :
    (v g : ℕ) → 0 < g → (v ≤ ceiling v g) × (ceiling v g < v + g) × (ceiling v g % g ≡ 0)
unfolding ceiling
ceiling_bounds v g pg = elim (Bool-cases (eqb (v % g) 0)) [
  | inl whole ↦ rw whole (omega arith, omega arith, ground arith)
  | inr part ↦ rw part (
    ground (arith, div-add-mod v g, mod-lt v pg),
    ground (arith, div-add-mod v g),
    mul-mod_left (v / g + 1) g,
  )
]

round_up-eq-ceiling :
    (v g : ℕ) → 0 < g → v + g ≤ limit63 → round_up (pos v) (pos g) ≡ pos (ceiling v g)
unfolding round_up ceiling
round_up-eq-ceiling v g pg fits = elim (Bool-cases (eqb (v % g) 0)) [
  | inl whole ↦ ground arith
  | inr part ↦
      rw part (ground (arith, add64_pos (v / g) 1, mul64_pos (v / g + 1) g, div-add-mod v g))
]

mul_mono : (a b g : ℕ) → a ≤ b → a * g ≤ b * g
mul_mono a b g h = grind arith

quotient_lt : (v g k : ℕ) → v ≤ k → k % g ≡ 0 → v % g ≢ 0 → v / g + 1 ≤ k / g
quotient_lt v g k le whole part = elim (dec_lt (v / g) (k / g)) [
  | yes lt ↦ omega arith
  | no ge ↦
      absurd
        (omega (arith, mul_mono (k / g) (v / g) g (omega arith), div-add-mod k g, div-add-mod v g))
]

ceiling_least : (v g k : ℕ) → 0 < g → v ≤ k → k % g ≡ 0 → ceiling v g ≤ k
unfolding ceiling
ceiling_least v g k pg le whole = elim (Bool-cases (eqb (v % g) 0)) [
  | inl at ↦ rw at le
  | inr part ↦ rw part (
      omega (
        arith,
        mul_mono (v / g + 1) (k / g) g (quotient_lt v g k le whole (ground arith)),
        div-add-mod k g,
      ))
]

-- The bytes that a request asks for: the driver's minimum stands in for 0.
abbrev pub wanted : ℕ → ℕ → ℕ
wanted required minimum = if eqb required 0 then minimum else required

-- A capacity was granted: the least multiple of the granularity that serves, within the limit. Or it
-- was refused: there is a limit, and no multiple that serves is within it.
abbrev pub IsServed : ℤ → ℕ → ℕ → Result ℤ → Type 0
IsServed limit v g (ok size) =
    (k : ℕ) × (size ≡ pos k)
    × (v ≤ k)
    × (k < v + g)
    × (k % g ≡ 0)
    × ((limit ≤ℤ pos 0) ⊎ (pos k ≤ℤ limit))
IsServed limit v g (err e) =
    HasCode Code.out_of_range e
    × (pos 1 ≤ℤ limit)
    × ((k : ℕ) → v ≤ k → k % g ≡ 0 → ltb_ℤ limit (pos k) ≡ true)

limited-IsServed :
    (limit : ℤ) (v g : ℕ) → 0 < g → IsServed limit v g (limited limit (pos (ceiling v g)))
unfolding limited
limited-IsServed limit v g pg =
    elim (Bool-cases (ltb_ℤ (pos 0) limit && ltb_ℤ limit (pos (ceiling v g)))) [
      | inl over ↦
          rw over
            (refl, ground arith, λ k le whole. ground (arith, ceiling_least v g k pg le whole))
      | inr within ↦ rw within (
        ceiling v g,
        refl,
        (ceiling_bounds v g pg).0,
        (ceiling_bounds v g pg).1,
        (ceiling_bounds v g pg).2,
        ground arith,
      )
    ]

wanted-or_minimum :
    (required minimum : ℕ) → or_minimum (pos required) (pos minimum) ≡ pos (wanted required minimum)
unfolding or_minimum
wanted-or_minimum required minimum = ground arith

-- Where the required bytes, or the minimum if none are required, and a positive granularity add up to
-- at most 2^63, the capacity granted is the least multiple of the granularity that is no less than
-- those bytes, within the limit if there is one; and a request is refused, with `OutOfRange`, only
-- if there is a limit and no such multiple is within it.
pub requested_bytes-IsServed :
    (required minimum g : ℕ) (limit : ℤ)
    → 0 < g
    → wanted required minimum + g ≤ limit63
    → IsServed limit (wanted required minimum) g (
        requested_bytes
          (record { required_bytes = pos required; limit_bytes = limit })
          (pos minimum)
          (pos g))
unfolding requested_bytes
requested_bytes-IsServed required minimum g limit pg fits =
    rw (wanted-or_minimum required minimum, round_up-eq-ceiling (wanted required minimum) g pg fits)
      (limited-IsServed limit (wanted required minimum) g pg)

round_up_overflow :
    (v g : ℕ)
    → v < limit63
    → g < limit63
    → v % g ≢ 0
    → limit63 ≤ (v / g + 1) * g
    → round_up (pos v) (pos g) ≡ negsuc (18_446_744_073_709_551_615 - (v / g + 1) * g)
unfolding round_up
round_up_overflow v g sv sg part big = ground (
  arith,
  add64_pos (v / g) 1,
  mul64_pos (v / g + 1) g,
  div-add-mod v g,
  wrap64_overflow ((v / g + 1) * g),
)

limited_negative : (limit : ℤ) (n : ℕ) → limited limit (negsuc n) ≡ ok (negsuc n)
unfolding limited
limited_negative limit n = ground arith

nonzero :
    (required minimum g : ℕ)
    → required % g ≢ 0
    → or_minimum (pos required) (pos minimum) ≡ pos required
unfolding or_minimum
nonzero required minimum g part = ground (arith, zero-mod g)

-- Where the required bytes are no multiple of the granularity and the next multiple is 2^63 or more,
-- the request is granted a negative capacity, whatever its limit.
pub requested_bytes_overflow :
    (required minimum g : ℕ) (limit : ℤ)
    → required < limit63
    → g < limit63
    → required % g ≢ 0
    → limit63 ≤ (required / g + 1) * g
    → (n : ℕ) × (requested_bytes
          (record { required_bytes = pos required; limit_bytes = limit })
          (pos minimum)
          (pos g)
        ≡ ok (negsuc n))
unfolding requested_bytes
requested_bytes_overflow required minimum g limit small sg part big = (
  18_446_744_073_709_551_615 - (required / g + 1) * g,
  rw (nonzero required minimum g part, round_up_overflow required g small sg part big)
      (limited_negative limit _),
)
