-- ===== src/Common/Sort.antt =====
-- `slices.SortFunc` by a text, the identifiers of the code. Go's sort is not stable: this one keeps
-- the order of elements with equal identifiers, and the code sorts by identifiers that differ.
pub mod Unique
use Prim.Native.String.{String}
use mathlib.Core.Path.{◌≡◌}
use mathlib.Core.Bool.{true}
use mathlib.Core.List.{List, [], ◌∷◌, Perm}
use mathlib.Core.List.Perm
use nobus_csi.Common.Tests.{if◌then◌else◌, Bool-cases}
use nobus_csi.Common.Lists.{All}
use nobus_csi.Common.Text.{le_text}
use nobus_csi.Common.Text.Laws.{le_text_total, le_text_trans}
use mathlib.Core.Logic.{inl, inr}

module _ {ℓ} {A : Type ℓ} (key : A → String) where
  unfoldable pub insert_sorted : A → List A → List A
  insert_sorted a [] = a ∷ []
  insert_sorted a (x ∷ xs) =
      let rest = insert_sorted a xs in if le_text (key a) (key x) then a ∷ x ∷ xs else x ∷ rest

  unfoldable pub sort_by : List A → List A
  unfolding insert_sorted
  sort_by [] = []
  sort_by (x ∷ xs) = insert_sorted x (sort_by xs)

  -- No later element has a smaller key.
  abbrev pub IsSorted : List A → Type 0
  IsSorted [] = Unit
  IsSorted (x ∷ xs) = All (λ y. le_text (key x) (key y) ≡ true) xs × IsSorted xs

  insert_sorted-perm : (a : A) (xs : List A) → Perm (insert_sorted a xs) (a ∷ xs)
  unfolding insert_sorted
  insert_sorted-perm a [] = Perm.refl (a ∷ [])
  insert_sorted-perm a (x ∷ xs) = elim (Bool-cases (le_text (key a) (key x))) [
    | inl le ↦ rw le (Perm.refl (a ∷ x ∷ xs))
    | inr gt ↦ rw gt (Perm.trans (Perm.cons x (insert_sorted-perm a xs)) (Perm.swap a x xs))
  ]

  pub sort_by-perm : (xs : List A) → Perm (sort_by xs) xs
  unfolding sort_by
  sort_by-perm [] = Perm.refl []
  sort_by-perm (x ∷ xs) =
      Perm.trans (insert_sorted-perm x (sort_by xs)) (Perm.cons x (sort_by-perm xs))

  insert_sorted-All {κ} :
      (P : A → Type κ) (a : A) (xs : List A) → P a → All P xs → All P (insert_sorted a xs)
  unfolding insert_sorted
  insert_sorted-All P a [] p h = (p, tt)
  insert_sorted-All P a (x ∷ xs) p h = elim (Bool-cases (le_text (key a) (key x))) [
    | inl le ↦ rw le (p, h)
    | inr gt ↦ rw gt (h.0, insert_sorted-All P a xs p h.1)
  ]

  pub sort_by-All {κ} : (P : A → Type κ) (xs : List A) → All P xs → All P (sort_by xs)
  unfolding sort_by
  sort_by-All P [] h = tt
  sort_by-All P (x ∷ xs) h = insert_sorted-All P x (sort_by xs) h.0 (sort_by-All P xs h.1)

  below-All :
      (a x : A) (xs : List A)
      → le_text (key a) (key x) ≡ true
      → All (λ y. le_text (key x) (key y) ≡ true) xs
      → All (λ y. le_text (key a) (key y) ≡ true) xs
  below-All a x [] le h = tt
  below-All a x (y ∷ ys) le h =
      (le_text_trans (key a) (key x) (key y) le h.0, below-All a x ys le h.1)

  insert_sorted-IsSorted : (a : A) (xs : List A) → IsSorted xs → IsSorted (insert_sorted a xs)
  unfolding insert_sorted
  insert_sorted-IsSorted a [] h = (tt, tt)
  insert_sorted-IsSorted a (x ∷ xs) h = elim (Bool-cases (le_text (key a) (key x))) [
    | inl le ↦ rw le ((le, below-All a x xs le h.0), h)
    | inr gt ↦ rw gt (
      insert_sorted-All (λ y. le_text (key x) (key y) ≡ true) a xs
          (le_text_total (key a) (key x) gt) h.0,
      insert_sorted-IsSorted a xs h.1,
    )
  ]

  pub sort_by-IsSorted : (xs : List A) → IsSorted (sort_by xs)
  unfolding sort_by
  sort_by-IsSorted [] = tt
  sort_by-IsSorted (x ∷ xs) = insert_sorted-IsSorted x (sort_by xs) (sort_by-IsSorted xs)
