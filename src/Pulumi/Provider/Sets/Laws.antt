-- ===== src/Pulumi/Provider/Sets/Laws.antt =====
-- The lists that the comparisons answer, as sets.
use nobus_csi.Common.{
  ◌≡◌, refl, sym, ap, ◌∙◌, Bool, true, false, not, ◌&&◌, ◌||◌, String, List, [], ◌∷◌, map, ◌==◌,
  eq_iff, arith,
}
use nobus_csi.Common.Lists.{length, keep}
use nobus_csi.Common.Text.{contains}
use nobus_csi.Common.Sort.{sort_by, insert_sorted}
use nobus_csi.Pulumi.Provider.Scope.{bare_resource_id, bare_ids}
use nobus_csi.Pulumi.Provider.Sets.{
  sorted, same_bare, string_slices_equal, distinct, only_in, slice_diff,
}

abbrev itself : String → String
itself s = s

module _ (f : String → String) (x : String) where
  contains-insert_sorted :
      (a : String) (xs : List String)
      → contains (map f (insert_sorted itself a xs)) x ≡ (x == f a || contains (map f xs) x)
  unfolding insert_sorted
  contains-insert_sorted a [] = refl
  contains-insert_sorted a (y ∷ ys) = ground (arith, contains-insert_sorted a ys)

  contains-sort_by :
      (xs : List String) → contains (map f (sort_by itself xs)) x ≡ contains (map f xs) x
  unfolding sort_by
  contains-sort_by [] = refl
  contains-sort_by (y ∷ ys) =
      ground (arith, contains-insert_sorted y (sort_by itself ys), contains-sort_by ys)

contains-map_id : (x : String) (xs : List String) → contains (map itself xs) x ≡ contains xs x
contains-map_id x [] = refl
contains-map_id x (y ∷ ys) = ap (λ (b : Bool). x == y || b) (contains-map_id x ys)

contains-sorted : (x : String) (xs : List String) → contains (sorted xs) x ≡ contains xs x
contains-sorted x xs =
    sym (contains-map_id x (sorted xs)) ∙ contains-sort_by itself x xs ∙ contains-map_id x xs

contains-distinct : (x : String) (xs : List String) → contains (distinct xs) x ≡ contains xs x
unfolding distinct
contains-distinct x [] = refl
contains-distinct x (y ∷ ys) =
    ground (arith, contains-distinct x ys, contains-distinct y ys, eq_iff x y)

contains-keep :
    (p : String → Bool) (x : String) (xs : List String)
    → contains (keep p xs) x ≡ (p x && contains xs x)
contains-keep p x [] = ground arith
contains-keep p x (y ∷ ys) = ground (arith, contains-keep p x ys, eq_iff x y)

only_in-contains :
    (from other : List String) (x : String)
    → contains (only_in from other) x
      ≡ (not (contains (bare_ids other) x) && contains (bare_ids from) x)
unfolding only_in
only_in-contains from other x =
    contains-sorted x _
    ∙ contains-keep (λ v. not (contains (bare_ids other) v)) x (distinct (bare_ids from))
    ∙ ap (λ (b : Bool). not (contains (bare_ids other) x) && b)
        (contains-distinct x (bare_ids from))

length-insert_sorted :
    (a : String) (xs : List String) → length (insert_sorted itself a xs) ≡ length (a ∷ xs)
unfolding insert_sorted
length-insert_sorted a [] = refl
length-insert_sorted a (y ∷ ys) = ground (arith, length-insert_sorted a ys)

length-sorted : (xs : List String) → length (sorted xs) ≡ length xs
unfolding sort_by
length-sorted [] = refl
length-sorted (y ∷ ys) = omega (arith, length-insert_sorted y (sorted ys), length-sorted ys)

same_bare-map :
    (xs ys : List String)
    → length xs ≡ length ys
    → same_bare xs ys ≡ true
    → map bare_resource_id xs ≡ map bare_resource_id ys
unfolding same_bare
same_bare-map [] [] l h = refl
same_bare-map [] (y ∷ ys) l h = absurd (omega arith)
same_bare-map (x ∷ xs) [] l h = absurd (omega arith)
same_bare-map (x ∷ xs) (y ∷ ys) l h =
    ground (
      arith,
      eq_iff (bare_resource_id x) (bare_resource_id y),
      same_bare-map xs ys (omega arith),
      h,
    )

-- Two lists that compare as equal hold the same bare identifiers.
pub string_slices_equal-contains :
    (a b : List String) (x : String)
    → string_slices_equal a b ≡ true
    → contains (bare_ids a) x ≡ contains (bare_ids b) x
unfolding string_slices_equal bare_ids
string_slices_equal-contains a b x h =
    sym (contains-sort_by bare_resource_id x a)
    ∙ ap (λ (l : List String). contains l x)
        (same_bare-map (sorted a) (sorted b) (ground (arith, length-sorted a, length-sorted b, h))
          (ground (arith, h)))
    ∙ contains-sort_by bare_resource_id x b

-- Removing what is to be removed from the bare identifiers of the old list, and adding what is to be
-- added, gives those of the new one; nothing is added that was there, and nothing removed that was not.
pub slice_diff-Exact :
    (old news : List String) (x : String)
    → (contains (bare_ids news) x ≡ (
        contains (slice_diff old news).0 x
        || (not (contains (slice_diff old news).1 x) && contains (bare_ids old) x)))
      × ((contains (slice_diff old news).0 x && contains (bare_ids old) x) ≡ false)
      × ((contains (slice_diff old news).1 x && not (contains (bare_ids old) x)) ≡ false)
unfolding slice_diff
slice_diff-Exact old news x =
    let add = only_in-contains news old x in
    let remove = only_in-contains old news x in
    (ground (arith, add, remove), ground (arith, add), ground (arith, remove))
