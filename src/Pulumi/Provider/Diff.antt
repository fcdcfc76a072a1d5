-- ===== src/Pulumi/Provider/Diff.antt =====
-- The differences of types.go, and the comparisons they are made of.
pub mod Laws
pub mod Fields
pub mod Conditions
pub mod Kinds
use nobus_csi.Common.{
  Bool, true, false, ◌&&◌, String, List, [], ◌∷◌, Option, none, some, ◌==◌, eqb, same,
  if◌then◌else◌,
}
use nobus_csi.Common.Int.{ℤ, eqb_ℤ}
use nobus_csi.Common.Lists.{length}
use nobus_csi.Common.Assoc.{Assoc, Dict, lookup, insert}

pub data DiffKind : Type 0 where
  update_replace : DiffKind
  update : DiffKind

pub record DiffResponse : Type 0 where
  pub delete_before_replace : Bool
  pub has_changes : Bool
  pub detailed_diff : Assoc DiffKind

unfoldable pub replace_diff : String → Bool → Assoc DiffKind → Assoc DiffKind
replace_diff field changed out = if changed then insert field DiffKind.update_replace out else out

unfoldable pub update_diff : String → Bool → Assoc DiffKind → Assoc DiffKind
update_diff field changed out = if changed then insert field DiffKind.update out else out

abbrev pub is_filled : Assoc DiffKind → Bool
is_filled [] = false
is_filled (e ∷ out) = true

unfoldable pub diff_response : Assoc DiffKind → DiffResponse
diff_response diff = record {
  delete_before_replace = true;
  has_changes = is_filled diff;
  detailed_diff = diff;
}

-- The comparisons of a resource, one after the other.
unfoldable pub compare_all : List (Assoc DiffKind → Assoc DiffKind) → Assoc DiffKind → DiffResponse
compare_all [] out = diff_response out
compare_all (step ∷ steps) out = compare_all steps (step out)

unfoldable pub int_ptr_equal : Option ℤ → Option ℤ → Bool
int_ptr_equal none none = true
int_ptr_equal none (some b) = false
int_ptr_equal (some a) none = false
int_ptr_equal (some a) (some b) = eqb_ℤ a b

unfoldable pub bool_ptr_equal : Option Bool → Option Bool → Bool
bool_ptr_equal none none = true
bool_ptr_equal none (some b) = false
bool_ptr_equal (some a) none = false
bool_ptr_equal (some a) (some b) = same a b

value_is : String → Option String → Bool
value_is v none = false
value_is v (some w) = v == w

-- Every entry of the first is in the second.
within : Dict → Dict → Bool
unfolding value_is
within [] b = true
within ((k, v) ∷ a) b = value_is v (lookup k b) && within a b

-- `maps.Equal`
unfoldable pub dict_equal : Dict → Dict → Bool
unfolding within
dict_equal a b = eqb (length a) (length b) && within a b
