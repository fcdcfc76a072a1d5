-- ===== src/Common/Decimal.antt =====
-- `strconv.Itoa` on numbers of at most twenty digits, and `strconv.Atoi`.
pub mod RoundTrip
use Prim.Native.Nat.{ℕ, zero, suc, ◌+◌, ◌-◌, ◌*◌, ◌/◌, ◌%◌}
use Prim.Native.Char.{Char, code}
use Prim.Native.String.{String}
use mathlib.Core.Bool.{Bool, ◌&&◌}
use mathlib.Core.Option.{Option, none, some}
use mathlib.Core.Path.{◌≡◌, refl}
use nobus_csi.Common.Tests.{ltb, leb, eqb, if◌then◌else◌}
use nobus_csi.Common.Int.{ℤ, pos, negsuc, sub_ℕ}

abbrev digit : ℕ → Char
digit zero = "0"
digit (suc zero) = "1"
digit (suc (suc zero)) = "2"
digit (suc (suc (suc zero))) = "3"
digit (suc (suc (suc (suc zero)))) = "4"
digit (suc (suc (suc (suc (suc zero))))) = "5"
digit (suc (suc (suc (suc (suc (suc zero)))))) = "6"
digit (suc (suc (suc (suc (suc (suc (suc zero))))))) = "7"
digit (suc (suc (suc (suc (suc (suc (suc (suc zero)))))))) = "8"
digit _ = "9"

print : ℕ → ℕ → String → String
print zero n out = out
print (suc rounds) n out =
    let last = String.◌∷◌ (digit (n % 10)) out in
    let more = print rounds (n / 10) last in if ltb n 10 then last else more

unfoldable pub itoa : ℕ → String
unfolding print
itoa n = print 20 n ""

abbrev is_digit : Char → Bool
is_digit c = leb b'0' (code c) && leb (code c) b'9'

scan : String → ℕ → Option ℕ
scan String.[] n = some n
scan (String.◌∷◌ c s) n =
    let rest = scan s (n * 10 + (code c - b'0')) in if is_digit c then rest else none

scan_some : String → Option ℕ
scan_some String.[] = none
scan_some (String.◌∷◌ c s) = scan (String.◌∷◌ c s) 0

-- An `int` has 64 bits: a value outside its range is an error.
in_range : Option ℕ → Option ℤ
in_range none = none
in_range (some n) = if ltb n 9_223_372_036_854_775_808 then some (pos n) else none

negated : Option ℕ → Option ℤ
negated none = none
negated (some n) = if leb n 9_223_372_036_854_775_808 then some (sub_ℕ 0 n) else none

unfoldable pub atoi : String → Option ℤ
unfolding scan scan_some in_range negated
atoi String.[] = none
atoi (String.◌∷◌ c s) =
    if eqb (code c) b'-'
    then negated (scan_some s)
    else if eqb (code c) b'+'
    then in_range (scan_some s)
    else in_range (scan_some (String.◌∷◌ c s))

itoa_120 : itoa 120 ≡ "120"
unfolding itoa
itoa_120 = refl

atoi_signs : (atoi "-7" ≡ some (negsuc 6)) × (atoi "+7" ≡ some (pos 7)) × (atoi "1x" ≡ none)
unfolding atoi
atoi_signs = (refl, refl, refl)
