-- ===== src/Pulumi/Provider/Diff/Laws.antt =====
-- What is compared with itself is equal.
use nobus_csi.Common.{◌≡◌, refl, Bool, true, false, not, ◌&&◌, String, [], ◌∷◌, ◌==◌, eq_iff, arith}
use nobus_csi.Common.Text.{or_else}
use nobus_csi.Common.Assoc.{Dict}
use nobus_csi.Common.{same}
use nobus_csi.Common.Int.{ℤ, pos, negsuc, eqb_ℤ}
use nobus_csi.Pulumi.Provider.Scope.{bare_resource_id}
use nobus_csi.Pulumi.Provider.Diff.{dict_equal, within, value_is}

-- No key stands twice, as in a map.
abbrev pub absent : String → Dict → Bool
absent k [] = true
absent k ((j, v) ∷ m) = not (j == k) && absent k m

abbrev pub is_map : Dict → Bool
is_map [] = true
is_map ((k, v) ∷ m) = absent k m && is_map m

within-cons :
    (k v : String) (a b : Dict)
    → absent k a ≡ true
    → within a b ≡ true
    → within a ((k, v) ∷ b) ≡ true
unfolding within
within-cons k v [] b h w = refl
within-cons k v ((j, w) ∷ a) b h e =
    ground (arith, within-cons k v a b, eq_iff k j, eq_iff j k, h, e)

within_self : (a : Dict) → is_map a ≡ true → within a a ≡ true
unfolding within value_is
within_self [] h = refl
within_self ((k, v) ∷ a) h =
    ground (arith, within-cons k v a a, within_self a, eq_iff k k, eq_iff v v, h)

pub dict_equal_self : (a : Dict) → is_map a ≡ true → dict_equal a a ≡ true
unfolding dict_equal
dict_equal_self a h = ground (arith, within_self a h)

-- A text that is compared where it is not empty does not differ from what it was filled to.
pub settled_text : (a b : String) → (not (a == "") && not (or_else a b == a)) ≡ false
settled_text a b = ground (arith, eq_iff a "", eq_iff a a)

pub settled_same : (a : String) → (not (a == "") && not (a == a)) ≡ false
settled_same a = ground (arith, eq_iff a a)

pub changed_text : (a b : String) → not (or_else a b == a) ≡ (a == "" && not (b == ""))
changed_text a b = ground (arith, eq_iff a "", eq_iff b "", eq_iff b a, eq_iff a a)

pub same_flag : (b : Bool) → not (same b b) ≡ false
same_flag true = refl
same_flag false = refl

pub same_bare_text : (a : String) → not (bare_resource_id a == bare_resource_id a) ≡ false
same_bare_text a = ground (arith, eq_iff (bare_resource_id a) (bare_resource_id a))

pub settled_bare :
    (a b : String)
    → (not (a == "") && not (bare_resource_id (or_else a b) == bare_resource_id a)) ≡ false
settled_bare a b = ground (arith, eq_iff a "", eq_iff (bare_resource_id a) (bare_resource_id a))

pub eqb_ℤ_self : (n : ℤ) → eqb_ℤ n n ≡ true
eqb_ℤ_self (pos n) = ground arith
eqb_ℤ_self (negsuc n) = ground arith
