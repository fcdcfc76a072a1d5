-- ===== src/Pulumi/Provider/Diff/Kinds.antt =====
-- The fields of a difference, by when each counts as changed. Every condition is stated of the old
-- and the new value, and the Boolean test of the code is shown to decide it.
use nobus_csi.Common.{
  ◌≡◌, ◌≢◌, ◌↔◌, Bool, not, ◌&&◌, String, List, Option, none, some, true, ◌==◌, eq_iff, same, refl,
}
use nobus_csi.Common.Int.{ℤ, pos, eqb_ℤ}
use nobus_csi.Common.Assoc.{Dict}
use nobus_csi.Pulumi.Provider.Scope.{bare_resource_id, bare_ids}
use nobus_csi.Pulumi.Provider.Sets.{string_slices_equal, sorted}
use nobus_csi.Pulumi.Provider.Instance.{is_some}
use nobus_csi.Pulumi.Provider.Diff.{DiffKind, int_ptr_equal, bool_ptr_equal, dict_equal}
use nobus_csi.Pulumi.Provider.Diff.Fields.{Field}
use nobus_csi.Pulumi.Provider.Diff.Conditions.{
  not_iff, and_iff, eqb_ℤ_iff, int_ptr_equal_iff, same_iff, bool_ptr_equal_iff, sets_iff,
  SameEntries, dict_equal_iff,
}

pub is_some_iff : (o : Option ℤ) → (is_some o ≡ true) ↔ (o ≢ none)
is_some_iff none = (λ h. cc, λ n. absurd (n refl))
is_some_iff (some n) = (λ h e. cc, λ h. refl)

-- A change of a field replaces the resource, or updates it.
abbrev pub replaced : DiffKind
replaced = DiffKind.update_replace

abbrev pub updated : DiffKind
updated = DiffKind.update

-- `kind` is what a change of the field does to the resource, `name` the field's.
module _ (kind : DiffKind) (name : String) where
  -- A text counts where it is given and differs.
  abbrev pub given : String → String → Field
  given old new = record {
    field = name;
    kind = kind;
    Changed = (new ≢ "") × (old ≢ new);
    test = not (new == "") && not (old == new);
    test_iff = and_iff _ _ _ _ (not_iff _ _ (eq_iff new "")) (not_iff _ _ (eq_iff old new));
  }

  -- The same, tested the other way round.
  abbrev pub given_late : String → String → Field
  given_late old new = record {
    field = name;
    kind = kind;
    Changed = (old ≢ new) × (new ≢ "");
    test = not (old == new) && not (new == "");
    test_iff = and_iff _ _ _ _ (not_iff _ _ (eq_iff old new)) (not_iff _ _ (eq_iff new ""));
  }

  -- A text counts where it differs, also from an empty one.
  abbrev pub plain_text : String → String → Field
  plain_text old new = record {
    field = name;
    kind = kind;
    Changed = old ≢ new;
    test = not (old == new);
    test_iff = not_iff _ _ (eq_iff old new);
  }

  -- An identifier counts where it is given and differs in its bare part.
  abbrev pub given_id : String → String → Field
  given_id old new = record {
    field = name;
    kind = kind;
    Changed = (new ≢ "") × (bare_resource_id old ≢ bare_resource_id new);
    test = not (new == "") && not (bare_resource_id old == bare_resource_id new);
    test_iff =
        and_iff _ _ _ _ (not_iff _ _ (eq_iff new ""))
          (not_iff _ _ (eq_iff (bare_resource_id old) (bare_resource_id new)));
  }

  -- An identifier counts where it differs in its bare part.
  abbrev pub plain_id : String → String → Field
  plain_id old new = record {
    field = name;
    kind = kind;
    Changed = bare_resource_id old ≢ bare_resource_id new;
    test = not (bare_resource_id old == bare_resource_id new);
    test_iff = not_iff _ _ (eq_iff (bare_resource_id old) (bare_resource_id new));
  }

  -- A number counts where it is not zero and differs.
  abbrev pub given_number : ℤ → ℤ → Field
  given_number old new = record {
    field = name;
    kind = kind;
    Changed = (new ≢ pos 0) × (old ≢ new);
    test = not (eqb_ℤ new (pos 0)) && not (eqb_ℤ old new);
    test_iff =
        and_iff _ _ _ _ (not_iff _ _ (eqb_ℤ_iff new (pos 0))) (not_iff _ _ (eqb_ℤ_iff old new));
  }

  -- A number that may be absent counts where it differs.
  abbrev pub optional_number : Option ℤ → Option ℤ → Field
  optional_number old new = record {
    field = name;
    kind = kind;
    Changed = old ≢ new;
    test = not (int_ptr_equal old new);
    test_iff = not_iff _ _ (int_ptr_equal_iff old new);
  }

  -- A number that may be absent counts where it is given and differs.
  abbrev pub given_optional : Option ℤ → Option ℤ → Field
  given_optional old new = record {
    field = name;
    kind = kind;
    Changed = (new ≢ none) × (old ≢ new);
    test = is_some new && not (int_ptr_equal old new);
    test_iff = and_iff _ _ _ _ (is_some_iff new) (not_iff _ _ (int_ptr_equal_iff old new));
  }

  -- A truth value counts where it differs.
  abbrev pub flag : Bool → Bool → Field
  flag old new = record {
    field = name;
    kind = kind;
    Changed = old ≢ new;
    test = not (same old new);
    test_iff = not_iff _ _ (same_iff old new);
  }

  -- A truth value that may be absent counts where it differs.
  abbrev pub optional_flag : Option Bool → Option Bool → Field
  optional_flag old new = record {
    field = name;
    kind = kind;
    Changed = old ≢ new;
    test = not (bool_ptr_equal old new);
    test_iff = not_iff _ _ (bool_ptr_equal_iff old new);
  }

  -- Identifiers count where they differ in their bare parts, once both lists are sorted.
  abbrev pub identifiers : List String → List String → Field
  identifiers old new = record {
    field = name;
    kind = kind;
    Changed = bare_ids (sorted old) ≢ bare_ids (sorted new);
    test = not (string_slices_equal old new);
    test_iff = not_iff _ _ (sets_iff old new);
  }

  -- A map counts where it has other entries.
  abbrev pub metadata : Dict → Dict → Field
  metadata old new = record {
    field = name;
    kind = kind;
    Changed = SameEntries old new → ⊥;
    test = not (dict_equal old new);
    test_iff = not_iff _ _ (dict_equal_iff old new);
  }
