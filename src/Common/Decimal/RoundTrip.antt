-- ===== src/Common/Decimal/RoundTrip.antt =====
-- `Atoi` reads back what `Itoa` prints.
use Prim.Native.Nat.{ℕ, zero, suc, ◌+◌, ◌-◌, ◌*◌, ◌/◌, ◌%◌, ◌^◌, ◌<◌}
use Prim.Native.Char.{code}
use Prim.Native.String.{String}
use native.Mathlib.Nat.{pow-suc}
use native.Mathlib.Omega.{arith}
use mathlib.Core.Bool.{true, false, ◌&&◌}
use mathlib.Core.Logic.{inl, inr, ◌≢◌}
use mathlib.Core.Option.{some}
use mathlib.Core.Path.{◌≡◌, refl, ◌∙◌}
use nobus_csi.Common.Tests.{ltb, leb, eqb, Bool-cases}
use nobus_csi.Common.Int.{pos}
use nobus_csi.Common.Decimal.{digit, is_digit, print, scan, itoa, atoi}

code-digit : (d : ℕ) → d < 10 → code (digit d) ≡ b'0' + d
code-digit zero h = refl
code-digit (suc zero) h = refl
code-digit (suc (suc zero)) h = refl
code-digit (suc (suc (suc zero))) h = refl
code-digit (suc (suc (suc (suc zero)))) h = refl
code-digit (suc (suc (suc (suc (suc zero))))) h = refl
code-digit (suc (suc (suc (suc (suc (suc zero)))))) h = refl
code-digit (suc (suc (suc (suc (suc (suc (suc zero))))))) h = refl
code-digit (suc (suc (suc (suc (suc (suc (suc (suc zero)))))))) h = refl
code-digit (suc (suc (suc (suc (suc (suc (suc (suc (suc zero))))))))) h = refl
code-digit (suc (suc (suc (suc (suc (suc (suc (suc (suc (suc n)))))))))) h = absurd (omega arith)

is_digit-digit : (d : ℕ) → d < 10 → is_digit (digit d) ≡ true
is_digit-digit d h = ground (arith, code-digit d h)

scan-digit : (d n : ℕ) (s : String) → d < 10 → scan (String.◌∷◌ (digit d) s) n ≡ scan s (n * 10 + d)
unfolding scan
scan-digit d n s h = rw (is_digit-digit d h, code-digit d h) (λ i. scan s (n * 10 + cancel i))
  where
    cancel : b'0' + d - b'0' ≡ d
    cancel = omega arith

scan_at : (out : String) (m n : ℕ) → m ≡ n → scan out m ≡ scan out n
scan_at out m n e = λ i. scan out (e i)

one_digit : (n : ℕ) → n < 10 ^ suc zero → ltb n 10 ≡ true
one_digit n h = ground arith

fewer_digits : (rounds n : ℕ) → n < 10 ^ suc (suc rounds) → n / 10 < 10 ^ suc rounds
fewer_digits rounds n h = omega (arith, pow-suc 10 (suc rounds))

scan-print :
    (rounds n : ℕ) (out : String)
    → n < 10 ^ suc rounds
    → scan (print (suc rounds) n out) 0 ≡ scan out n
unfolding print
scan-print zero n out h =
    rw (one_digit n h)
      (scan-digit (n % 10) 0 out (omega arith) ∙ scan_at out (0 * 10 + n % 10) n (omega arith))
scan-print (suc rounds) n out h = elim (Bool-cases (ltb n 10)) [
  | inl small ↦
      rw small
        (scan-digit (n % 10) 0 out (omega arith) ∙ scan_at out (0 * 10 + n % 10) n (ground arith))
  | inr big ↦ rw big (
      scan-print rounds (n / 10) (String.◌∷◌ (digit (n % 10)) out) (fewer_digits rounds n h)
      ∙ scan-digit (n % 10) (n / 10) out (omega arith)
      ∙ scan_at out (n / 10 * 10 + n % 10) n (omega arith))
]

-- The text begins with a digit.
abbrev FirstDigit : String → Type 0
FirstDigit String.[] = ⊥
FirstDigit (String.◌∷◌ c s) = is_digit c ≡ true

print-FirstDigit :
    (rounds n : ℕ) (out : String) → n < 10 ^ suc rounds → FirstDigit (print (suc rounds) n out)
unfolding print
print-FirstDigit zero n out h = rw (one_digit n h) (is_digit-digit (n % 10) (omega arith))
print-FirstDigit (suc rounds) n out h = elim (Bool-cases (ltb n 10)) [
  | inl small ↦ rw small (is_digit-digit (n % 10) (omega arith))
  | inr big ↦
      rw big (
        print-FirstDigit rounds (n / 10) (String.◌∷◌ (digit (n % 10)) out)
          (fewer_digits rounds n h))
]

not_sign : (c : ℕ) → (leb b'0' c && leb c b'9') ≡ true → (eqb c b'-' ≡ false) × (eqb c b'+' ≡ false)
not_sign c h = ground arith

atoi_of_digit :
    (s : String) {n : ℕ}
    → FirstDigit s
    → scan s 0 ≡ some n
    → n < 9_223_372_036_854_775_808
    → atoi s ≡ some (pos n)
unfolding atoi
atoi_of_digit String.[] f e h = absurd f
atoi_of_digit (String.◌∷◌ c s) f e h =
    rw ((not_sign (code c) f).0, (not_sign (code c) f).1, e) (ground arith)

pub itoa-ne-empty : (n : ℕ) → n < 9_223_372_036_854_775_808 → itoa n ≢ ""
unfolding itoa
itoa-ne-empty n h e = rw e at (print-FirstDigit 19 n "" (omega arith))

-- `Atoi` reads back what `Itoa` prints of a number that an `int` holds.
pub atoi-itoa : (n : ℕ) → n < 9_223_372_036_854_775_808 → atoi (itoa n) ≡ some (pos n)
unfolding itoa scan
atoi-itoa n h =
    atoi_of_digit (print 20 n "") (print-FirstDigit 19 n "" (omega arith))
      (scan-print 19 n "" (omega arith)) h
