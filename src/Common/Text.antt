-- ===== src/Common/Text.antt =====
-- Texts: Go's `cmp.Or` and `cmp.Compare` on strings, `slices.Contains`, `strings.Cut`,
-- `strings.Split`, `strings.TrimPrefix` and `strings.TrimSpace`.
pub mod Laws
use Prim.Native.Char.{Char, code}
use Prim.Native.Nat.{ℕ}
use Prim.Native.String.{String, ◌++◌ as ◌<>◌}
use mathlib.Core.Path.{◌≡◌, refl}
use mathlib.Core.Logic.{◌≢◌, ◌⊎◌, inl, inr}
use mathlib.Core.Bool.{Bool, true, false, ◌&&◌, ◌||◌}
use mathlib.Core.Option.{Option, none, some}
use mathlib.Core.List.{List, [], ◌∷◌}
use native.Mathlib.Omega.{arith}
use text.Mathlib.Text.{◌==◌}
use text.Mathlib.TextEquality.{eq_iff, Char-path}
use text.Mathlib.TextLemmas.{nil-append, cons-append}
use nobus_csi.Common.Tests.{ltb, leb, eqb, if◌then◌else◌}

-- `cmp.Or(a, b)`: the first that is not empty.
abbrev pub or_else : String → String → String
or_else a b = if a == "" then b else a

-- `slices.Contains`
abbrev pub contains : List String → String → Bool
contains [] k = false
contains (x ∷ xs) k = k == x || contains xs k

-- `cmp.Compare(s, t) <= 0`. Go compares bytes, which orders UTF-8 as the code points do.
unfoldable pub le_text : String → String → Bool
le_text String.[] t = true
le_text (String.◌∷◌ c s) String.[] = false
le_text (String.◌∷◌ c s) (String.◌∷◌ d t) =
    if ltb (code c) (code d) then true else if ltb (code d) (code c) then false else le_text s t

-- `strings.Cut` at a slash: what stands before the first one and behind it.
unfoldable pub cut_slash : String → Option (String × String)
cut_slash String.[] = none
cut_slash (String.◌∷◌ c s) =
    let later : Option (String × String) = elim (cut_slash s) [
      | none ↦ none
      | some (a, b) ↦ some (String.◌∷◌ c a, b)
    ] in
    if eqb (code c) b'/' then some ("", s) else later

-- `strings.HasPrefix` and `strings.TrimPrefix`: the text behind a prefix, which comes first.
unfoldable pub strip_prefix : String → String → Option String
strip_prefix String.[] t = some t
strip_prefix (String.◌∷◌ c s) String.[] = none
strip_prefix (String.◌∷◌ c s) (String.◌∷◌ d t) =
    let rest = strip_prefix s t in if eqb (code c) (code d) then rest else none

-- `strings.Split` at the slashes.
with_first : Char → List String → List String
with_first c [] = String.◌∷◌ c String.[] ∷ []
with_first c (p ∷ ps) = String.◌∷◌ c p ∷ ps

unfoldable pub split_slash : String → List String
unfolding with_first
split_slash String.[] = "" ∷ []
split_slash (String.◌∷◌ c s) =
    let rest = split_slash s in if eqb (code c) b'/' then "" ∷ rest else with_first c rest

-- `unicode.IsSpace`
abbrev pub is_space : ℕ → Bool
is_space n =
    (leb 9 n && leb n 13)
    || eqb n 32
    || eqb n 133
    || eqb n 160
    || eqb n 5760
    || (leb 8192 n && leb n 8202)
    || eqb n 8232
    || eqb n 8233
    || eqb n 8239
    || eqb n 8287
    || eqb n 12288

-- `strings.TrimSpace(s) == ""`
unfoldable pub is_blank : String → Bool
is_blank String.[] = true
is_blank (String.◌∷◌ c s) = is_space (code c) && is_blank s

-- `strings.Cut` at a colon: the text before it, and the text behind it if there is one.
unfoldable pub cut_colon : String → String × Option String
cut_colon String.[] = ("", none)
cut_colon (String.◌∷◌ c s) =
    let (a, b) = cut_colon s in if eqb (code c) b':' then ("", some s) else (String.◌∷◌ c a, b)

-- `strings.TrimRight(s, "/")`
unfoldable pub trim_slashes : String → String
trim_slashes String.[] = ""
trim_slashes (String.◌∷◌ c s) =
    let rest = trim_slashes s in if eqb (code c) b'/' && rest == "" then "" else String.◌∷◌ c rest
