-- ===== src/Common/Sort/Unique.antt =====
-- The sorted texts do not depend on the order in which they came.
use Prim.Native.String.{String}
use mathlib.Core.Path.{◌≡◌, refl, sym, ap, ◌∙◌}
use mathlib.Core.List.{List, [], ◌∷◌, foldr, Perm}
use mathlib.Core.List.Perm
use mathlib.Core.HLevel.{hedberg}
use text.Mathlib.Text.{◌==◌}
use text.Mathlib.TextEquality.{eq_iff}
use mathlib.Core.Logic.{inl, inr}
use native.Mathlib.Omega.{arith}
use nobus_csi.Common.Tests.{Bool-cases}
use nobus_csi.Common.Text.Laws.{le_text_total, le_text_trans, le_text_antisymm}
use nobus_csi.Common.Sort.{sort_by, insert_sorted}

abbrev itself : String → String
itself s = s

insert_sorted_comm :
    (s t : String) (xs : List String)
    → insert_sorted itself s (insert_sorted itself t xs)
      ≡ insert_sorted itself t (insert_sorted itself s xs)
unfolding insert_sorted
insert_sorted_comm s t [] =
    ground (arith, le_text_total s t, le_text_total t s, le_text_antisymm s t)
insert_sorted_comm s t (x ∷ xs) = ground (
  arith,
  insert_sorted_comm s t xs,
  le_text_total s t,
  le_text_total t s,
  le_text_antisymm s t,
  le_text_total s x,
  le_text_total t x,
  le_text_trans s t x,
  le_text_trans t s x,
  le_text_trans s x t,
  le_text_trans t x s,
  le_text_total x s,
  le_text_total x t,
)

sort_by-foldr : (xs : List String) → sort_by itself xs ≡ foldr (insert_sorted itself) [] xs
unfolding sort_by
sort_by-foldr [] = refl
sort_by-foldr (x ∷ xs) = ap (insert_sorted itself x) (sort_by-foldr xs)

String-discrete : Discrete String
String-discrete s t = elim (Bool-cases (s == t)) [
  | inl e ↦ yes ((eq_iff s t).0 e)
  | inr ne ↦ no (λ e. ground (arith, eq_iff s t))
]

String-list-set : IsSet (List String)
String-list-set = hlevel (hedberg String-discrete)

pub sort_by_unique : {xs ys : List String} → Perm xs ys → sort_by itself xs ≡ sort_by itself ys
unfolding sort_by
sort_by_unique {xs} {ys} p =
    sort_by-foldr xs
    ∙ Perm.foldr-eq String-list-set (insert_sorted itself) insert_sorted_comm p []
    ∙ sym (sort_by-foldr ys)
