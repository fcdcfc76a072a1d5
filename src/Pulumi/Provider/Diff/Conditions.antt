-- ===== src/Pulumi/Provider/Diff/Conditions.antt =====
-- When the fields of a resource count as changed. Each condition is stated of the values, with the
-- Boolean test that the code makes.
use nobus_csi.Common.{
  ◌≡◌, refl, sym, ◌↔◌, Bool, true, false, not, ◌&&◌, String, List, [], ◌∷◌, Option, none, some,
  eq_iff, arith, eqb, same, ap, ◌∙◌, suc, Bool-cases, inl, inr,
}
use nobus_csi.Common.Int.{ℤ, pos, negsuc, pos_part, neg_part, eqb_ℤ}
use nobus_csi.Common.Lists.{All, length}
use nobus_csi.Common.Assoc.{Dict, lookup}
use nobus_csi.Common.Sort.{sort_by, insert_sorted}
use nobus_csi.Pulumi.Provider.Scope.{bare_resource_id, bare_ids}
use nobus_csi.Pulumi.Provider.Sets.{string_slices_equal, same_bare, sorted}
use nobus_csi.Pulumi.Provider.Diff.{int_ptr_equal, bool_ptr_equal, dict_equal, within, value_is}

pub not_iff : (b : Bool) (P : Type 0) → (b ≡ true) ↔ P → (not b ≡ true) ↔ (P → ⊥)
not_iff true P h = (λ e. absurd (ground (arith, e)), λ n. absurd (n (h.0 refl)))
not_iff false P h = (λ e p. ground (arith, h.1 p), λ n. refl)

pub and_iff :
    (b c : Bool) (P Q : Type 0) → (b ≡ true) ↔ P → (c ≡ true) ↔ Q → ((b && c) ≡ true) ↔ (P × Q)
and_iff true c P Q h k = (λ e. (h.0 refl, k.0 e), λ p. k.1 p.1)
and_iff false c P Q h k = (λ e. absurd (ground (arith, e)), λ p. ground (arith, h.1 p.0))

pub eqb_ℤ_iff : (a b : ℤ) → (eqb_ℤ a b ≡ true) ↔ (a ≡ b)
eqb_ℤ_iff (pos a) (pos b) = (λ h. ap pos (ground (arith, h)), λ h. ground (arith, ap pos_part h))
eqb_ℤ_iff (pos a) (negsuc b) =
    (λ h. absurd (ground (arith, h)), λ h. absurd (ground (arith, ap neg_part h)))
eqb_ℤ_iff (negsuc a) (pos b) =
    (λ h. absurd (ground (arith, h)), λ h. absurd (ground (arith, ap neg_part h)))
eqb_ℤ_iff (negsuc a) (negsuc b) =
    (λ h. ap negsuc (ground (arith, h)), λ h. ground (arith, ap neg_part h))

pub int_ptr_equal_iff : (a b : Option ℤ) → (int_ptr_equal a b ≡ true) ↔ (a ≡ b)
unfolding int_ptr_equal
int_ptr_equal_iff none none = (λ h. refl, λ h. refl)
int_ptr_equal_iff none (some b) = (λ h. cc, λ h. cc)
int_ptr_equal_iff (some a) none = (λ h. cc, λ h. cc)
int_ptr_equal_iff (some a) (some b) =
    (λ h. ap some ((eqb_ℤ_iff a b).0 h), λ h. (eqb_ℤ_iff a b).1 (ground (arith, h)))

pub same_iff : (a b : Bool) → (same a b ≡ true) ↔ (a ≡ b)
same_iff true b = (λ h. sym h, λ h. sym h)
same_iff false true = (λ h. h, λ h. h)
same_iff false false = (λ h. refl, λ h. refl)

pub bool_ptr_equal_iff : (a b : Option Bool) → (bool_ptr_equal a b ≡ true) ↔ (a ≡ b)
unfolding bool_ptr_equal
bool_ptr_equal_iff none none = (λ h. refl, λ h. refl)
bool_ptr_equal_iff none (some b) = (λ h. cc, λ h. cc)
bool_ptr_equal_iff (some a) none = (λ h. cc, λ h. cc)
bool_ptr_equal_iff (some a) (some b) =
    (λ h. ap some ((same_iff a b).0 h), λ h. (same_iff a b).1 (ground (arith, h)))

-- Lists of one length agree at every index exactly where their bare identifiers are one list.
same_bare_iff :
    (xs ys : List String)
    → eqb (length xs) (length ys) ≡ true
    → (same_bare xs ys ≡ true) ↔ (bare_ids xs ≡ bare_ids ys)
unfolding same_bare bare_ids
same_bare_iff [] [] e = (λ h. refl, λ h. refl)
same_bare_iff [] (y ∷ ys) e = absurd (ground (arith, e))
same_bare_iff (x ∷ xs) [] e = absurd (ground (arith, e))
same_bare_iff (x ∷ xs) (y ∷ ys) e =
    let rest = same_bare_iff xs ys (ground (arith, e)) in
    let first = eq_iff (bare_resource_id x) (bare_resource_id y) in
    (λ h. ground (arith, h, rest, first), λ h. ground (arith, h, rest, first))

length-insert_sorted :
    (x : String) (xs : List String)
    → length (insert_sorted (λ (s : String). s) x xs) ≡ suc (length xs)
unfolding insert_sorted
length-insert_sorted x [] = refl
length-insert_sorted x (y ∷ ys) = ground (arith, length-insert_sorted x ys)

length-sorted : (xs : List String) → length (sorted xs) ≡ length xs
unfolding sort_by
length-sorted [] = refl
length-sorted (x ∷ xs) = length-insert_sorted x (sorted xs) ∙ ap suc (length-sorted xs)

length-bare_ids : (xs : List String) → length (bare_ids xs) ≡ length xs
unfolding bare_ids
length-bare_ids [] = refl
length-bare_ids (x ∷ xs) = ap suc (length-bare_ids xs)

-- Two lists are equal exactly where their bare identifiers are, once each list is sorted.
pub sets_iff :
    (a b : List String)
    → (string_slices_equal a b ≡ true) ↔ (bare_ids (sorted a) ≡ bare_ids (sorted b))
unfolding string_slices_equal
sets_iff a b = elim (Bool-cases (eqb (length a) (length b))) [
  | inl e ↦
      rw e
        (same_bare_iff (sorted a) (sorted b) (ground (arith, length-sorted a, length-sorted b, e)))
  | inr n ↦ rw n (
    λ h. absurd (ground (arith, h)),
    λ h. absurd (
        ground (
          arith,
          ap length h,
          length-bare_ids (sorted a),
          length-bare_ids (sorted b),
          length-sorted a,
          length-sorted b,
          n,
        )),
  )
]

value_is_iff : (v : String) (o : Option String) → (value_is v o ≡ true) ↔ (o ≡ some v)
unfolding value_is
value_is_iff v none = (λ h. cc, λ h. cc)
value_is_iff v (some w) =
    (λ h. ap some (sym ((eq_iff v w).0 h)), λ h. (eq_iff v w).1 (ground (arith, h)))

within_iff :
    (a b : Dict) → (within a b ≡ true) ↔ All (λ (e : String × String). lookup e.0 b ≡ some e.1) a
unfolding within
within_iff [] b = (λ h. tt, λ h. refl)
within_iff ((k, v) ∷ a) b = and_iff _ _ _ _ (value_is_iff v (lookup k b)) (within_iff a b)

-- The two have as many entries, and the second has each entry of the first.
abbrev pub SameEntries : Dict → Dict → Type 0
SameEntries a b = (length a ≡ length b) × All (λ (e : String × String). lookup e.0 b ≡ some e.1) a

pub dict_equal_iff : (a b : Dict) → (dict_equal a b ≡ true) ↔ SameEntries a b
unfolding dict_equal
dict_equal_iff a b =
    and_iff _ _ _ _ (λ h. ground (arith, h), λ h. ground (arith, h)) (within_iff a b)
