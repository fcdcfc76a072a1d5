-- ===== src/Pulumi/Provider/Sets.antt =====
-- The comparisons of lists of check.go, which read the lists as sets of bare identifiers.
pub mod Laws
use nobus_csi.Common.{Bool, true, false, not, ◌&&◌, String, List, [], ◌∷◌, ◌==◌, eqb, if◌then◌else◌}
use nobus_csi.Common.Lists.{length, keep}
use nobus_csi.Common.Text.{contains}
use nobus_csi.Common.Sort.{sort_by}
use nobus_csi.Pulumi.Provider.Scope.{bare_resource_id, bare_ids}

abbrev pub sorted : List String → List String
sorted xs = sort_by (λ (s : String). s) xs

-- `BareResourceID(aa[i]) != BareResourceID(bb[i])` at no index.
unfoldable pub same_bare : List String → List String → Bool
same_bare [] ys = true
same_bare (x ∷ xs) [] = true
same_bare (x ∷ xs) (y ∷ ys) = bare_resource_id x == bare_resource_id y && same_bare xs ys

unfoldable pub string_slices_equal : List String → List String → Bool
unfolding same_bare
string_slices_equal a b =
    if eqb (length a) (length b) then same_bare (sorted a) (sorted b) else false

-- The keys of a set that is filled from a list.
distinct : List String → List String
distinct [] = []
distinct (x ∷ xs) = let rest = distinct xs in if contains rest x then rest else x ∷ rest

-- The bare identifiers of the first list that the second lacks.
unfoldable pub only_in : List String → List String → List String
unfolding distinct
only_in from other =
    sorted (keep (λ v. not (contains (bare_ids other) v)) (distinct (bare_ids from)))

-- What to add and what to remove.
unfoldable pub slice_diff : List String → List String → List String × List String
slice_diff old news = (only_in news old, only_in old news)
