-- ===== src/Common/Text/Laws.antt =====
-- The order of texts is total, and cutting at a slash undoes joining with one.
use mathlib.Core.List.{[], ◌∷◌}
use Prim.Native.Char.{Char, code}
use Prim.Native.String.{String, ◌++◌ as ◌<>◌}
use mathlib.Core.Path.{◌≡◌, refl}
use mathlib.Core.Bool.{Bool, true, false, ◌||◌}
use mathlib.Core.Option.{none, some}
use native.Mathlib.Omega.{arith}
use text.Mathlib.TextEquality.{Char-path}
use text.Mathlib.TextLemmas.{nil-append, cons-append}
use nobus_csi.Common.Tests.{eqb}
use nobus_csi.Common.Text.{le_text, cut_slash, split_slash, strip_prefix}

pub le_text_refl : (s : String) → le_text s s ≡ true
unfolding le_text
le_text_refl String.[] = refl
le_text_refl (String.◌∷◌ c s) = ground (arith, le_text_refl s)

pub le_text_total : (s t : String) → le_text s t ≡ false → le_text t s ≡ true
unfolding le_text
le_text_total String.[] t h = cc
le_text_total (String.◌∷◌ c s) String.[] h = refl
le_text_total (String.◌∷◌ c s) (String.◌∷◌ d t) h = ground (arith, le_text_total s t)

pub le_text_trans : (s t u : String) → le_text s t ≡ true → le_text t u ≡ true → le_text s u ≡ true
unfolding le_text
le_text_trans String.[] t u h k = refl
le_text_trans (String.◌∷◌ c s) String.[] u h k = cc
le_text_trans (String.◌∷◌ c s) (String.◌∷◌ d t) String.[] h k = cc
le_text_trans (String.◌∷◌ c s) (String.◌∷◌ d t) (String.◌∷◌ e u) h k =
    ground (arith, le_text_trans s t u)

cons_path : {c d : Char} {s t : String} → c ≡ d → s ≡ t → String.◌∷◌ c s ≡ String.◌∷◌ d t
cons_path p q = λ i. String.◌∷◌ (p i) (q i)

pub le_text_antisymm : (s t : String) → le_text s t ≡ true → le_text t s ≡ true → s ≡ t
unfolding le_text
le_text_antisymm String.[] String.[] h k = refl
le_text_antisymm String.[] (String.◌∷◌ d t) h k = cc
le_text_antisymm (String.◌∷◌ c s) String.[] h k = cc
le_text_antisymm (String.◌∷◌ c s) (String.◌∷◌ d t) h k =
    cons_path (Char-path c d (ground arith)) (le_text_antisymm s t (ground arith) (ground arith))

-- The text holds a slash.
unfoldable pub has_slash : String → Bool
has_slash String.[] = false
has_slash (String.◌∷◌ c s) = eqb (code c) b'/' || has_slash s

pub cut_slash-append :
    (a b : String) → has_slash a ≡ false → cut_slash (a <> ("/" <> b)) ≡ some (a, b)
unfolding has_slash cut_slash
cut_slash-append String.[] b h = rw (nil-append, cons-append, nil-append) refl
cut_slash-append (String.◌∷◌ c a) b h = rw cons-append (ground (arith, cut_slash-append a b))

pub cut_slash-eq-none : (s : String) → has_slash s ≡ false → cut_slash s ≡ none
unfolding has_slash cut_slash
cut_slash-eq-none String.[] h = refl
cut_slash-eq-none (String.◌∷◌ c s) h = ground (arith, cut_slash-eq-none s)

pub split_slash-append :
    (a b : String) → has_slash a ≡ false → split_slash (a <> ("/" <> b)) ≡ a ∷ split_slash b
unfolding has_slash split_slash
split_slash-append String.[] b h = rw (nil-append, cons-append, nil-append) refl
split_slash-append (String.◌∷◌ c a) b h = rw cons-append (ground (arith, split_slash-append a b))

pub split_slash-eq_self : (s : String) → has_slash s ≡ false → split_slash s ≡ s ∷ []
unfolding has_slash split_slash
split_slash-eq_self String.[] h = refl
split_slash-eq_self (String.◌∷◌ c s) h = ground (arith, split_slash-eq_self s)

pub strip_prefix-append : (p t : String) → strip_prefix p (p <> t) ≡ some t
unfolding strip_prefix
strip_prefix-append String.[] t = rw nil-append refl
strip_prefix-append (String.◌∷◌ c s) t = rw cons-append (ground (arith, strip_prefix-append s t))

-- What stands behind a prefix, joined to it, is the text.
pub append-strip_prefix : (p t u : String) → strip_prefix p t ≡ some u → t ≡ p <> u
unfolding strip_prefix
append-strip_prefix String.[] t u h = rw nil-append (cc)
append-strip_prefix (String.◌∷◌ c s) String.[] u h = cc
append-strip_prefix (String.◌∷◌ c s) (String.◌∷◌ d t) u h =
    rw cons-append
      (cons_path (Char-path d c (ground arith)) (append-strip_prefix s t u (ground arith)))
