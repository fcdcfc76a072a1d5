-- ===== src/Pulumi/Provider/Diff/Fields.antt =====
-- What a difference reports, field by field: when a field counts as changed, in words of its old and
-- its new value, and the Boolean test that decides it.
use nobus_csi.Common.{
  ◌≡◌, refl, sym, ◌∙◌, ◌≢◌, ◌↔◌, Bool, true, false, not, ◌&&◌, String, List, [], ◌∷◌, none, some,
  ◌==◌, eq_iff, arith, Bool-cases, inl, inr, if◌then◌else◌,
}
use mathlib.Core.Path.{subst}
use nobus_csi.Common.Lists.{All}
use nobus_csi.Common.Assoc.{Assoc, lookup, insert, lookup-insert}
use nobus_csi.Pulumi.Provider.Diff.{
  DiffKind, DiffResponse, replace_diff, update_diff, compare_all, diff_response, is_filled,
}

pub record Field : Type 1 where
  pub field : String
  pub kind : DiffKind
  pub Changed : Type 0
  pub test : Bool
  pub test_iff : (test ≡ true) ↔ Changed

-- Exactly the changed fields have an entry, each of its kind, no other name has one, and the
-- response tells no change exactly where no field is changed.
abbrev pub Reports : List Field → DiffResponse → Type 0
Reports fields response =
    All (λ (f : Field). (lookup f.field response.detailed_diff ≡ some f.kind) ↔ f.Changed) fields
    × ((g : String)
        → All (λ (f : Field). f.field ≢ g) fields
        → lookup g response.detailed_diff ≡ none)
    × ((response.has_changes ≡ false) ↔ All (λ (f : Field). f.Changed → ⊥) fields)

mark : DiffKind → String → Bool → Assoc DiffKind → Assoc DiffKind
mark DiffKind.update_replace = replace_diff
mark DiffKind.update = update_diff

-- The comparisons of the fields, in their order.
unfoldable pub steps : List Field → List (Assoc DiffKind → Assoc DiffKind)
unfolding mark
steps [] = []
steps (f ∷ fs) = mark f.kind f.field f.test ∷ steps fs

abbrev names_apart : String → List Field → Bool
names_apart g [] = true
names_apart g (f ∷ fs) = not (f.field == g) && names_apart g fs

-- No two fields have one name.
abbrev pub is_table : List Field → Bool
is_table [] = true
is_table (f ∷ fs) = names_apart f.field fs && is_table fs

lookup-mark :
    (kind : DiffKind) (name : String) (b : Bool) (g : String) (out : Assoc DiffKind)
    → lookup g (mark kind name b out) ≡ (if b && name == g then some kind else lookup g out)
unfolding mark replace_diff update_diff
lookup-mark DiffKind.update_replace name b g out =
    ground (arith, lookup-insert name g DiffKind.update_replace out)
lookup-mark DiffKind.update name b g out = ground (arith, lookup-insert name g DiffKind.update out)

lookup-compare_other :
    (g : String) (fs : List Field) (out : Assoc DiffKind)
    → names_apart g fs ≡ true
    → lookup g (compare_all (steps fs) out).detailed_diff ≡ lookup g out
unfolding compare_all diff_response steps
lookup-compare_other g [] out h = refl
lookup-compare_other g (f ∷ fs) out h = ground (
  arith,
  lookup-compare_other g fs (mark f.kind f.field f.test out),
  lookup-mark f.kind f.field f.test g out,
  h,
)

filled-insert :
    (k : String) (v : DiffKind) (out : Assoc DiffKind) → is_filled (insert k v out) ≡ true
filled-insert k v [] = refl
filled-insert k v ((j, w) ∷ out) = ground arith

filled-mark :
    (kind : DiffKind) (name : String) (b : Bool) (out : Assoc DiffKind)
    → is_filled (mark kind name b out) ≡ (if b then true else is_filled out)
unfolding mark replace_diff update_diff
filled-mark DiffKind.update_replace name true out = filled-insert name DiffKind.update_replace out
filled-mark DiffKind.update_replace name false out = refl
filled-mark DiffKind.update name true out = filled-insert name DiffKind.update out
filled-mark DiffKind.update name false out = refl

reported_iff :
    (b : Bool) (kind : DiffKind) (P : Type 0)
    → (b ≡ true) ↔ P
    → ((if b then some kind else none) ≡ some kind) ↔ P
reported_iff true kind P h = (λ e. h.0 refl, λ p. refl)
reported_iff false kind P h = (λ e. absurd (ground (arith, e)), λ p. absurd (ground (arith, h.1 p)))

unreported_iff : (b : Bool) (P : Type 0) → (b ≡ true) ↔ P → (b ≡ false) ↔ (P → ⊥)
unreported_iff true P h = (λ e. absurd (ground (arith, e)), λ n. absurd (n (h.0 refl)))
unreported_iff false P h = (λ e p. ground (arith, h.1 p), λ n. refl)

-- No name of the fields has an entry yet.
abbrev Fresh : List Field → Assoc DiffKind → Type 0
Fresh fs out = All (λ (f : Field). lookup f.field out ≡ none) fs

mark-Fresh :
    (f : Field) (fs : List Field) (out : Assoc DiffKind)
    → names_apart f.field fs ≡ true
    → Fresh fs out
    → Fresh fs (mark f.kind f.field f.test out)
mark-Fresh f [] out h k = tt
mark-Fresh f (g ∷ gs) out h k = (
  ground (
    arith,
    lookup-mark f.kind f.field f.test g.field out,
    eq_iff f.field g.field,
    eq_iff g.field f.field,
    h,
    k.0,
  ),
  mark-Fresh f gs out (ground (arith, h)) k.1,
)

entry_of :
    (f : Field) (fs : List Field) (out : Assoc DiffKind)
    → names_apart f.field fs ≡ true
    → lookup f.field out ≡ none
    → lookup f.field (compare_all (steps (f ∷ fs)) out).detailed_diff
      ≡ (if f.test then some f.kind else none)
unfolding compare_all steps
entry_of f fs out h k =
    lookup-compare_other f.field fs (mark f.kind f.field f.test out) h
    ∙ ground (arith, lookup-mark f.kind f.field f.test f.field out, eq_iff f.field f.field, k)

entries_iff :
    (fs : List Field) (out : Assoc DiffKind)
    → is_table fs ≡ true
    → Fresh fs out
    → All
        (λ (f : Field).
          (lookup f.field (compare_all (steps fs) out).detailed_diff ≡ some f.kind) ↔ f.Changed)
        fs
unfolding compare_all steps
entries_iff [] out h k = tt
entries_iff (f ∷ fs) out h k = (
  rw (entry_of f fs out (ground (arith, h)) k.0) (reported_iff f.test f.kind f.Changed f.test_iff),
  entries_iff fs (mark f.kind f.field f.test out) (ground (arith, h))
      (mark-Fresh f fs out (ground (arith, h)) k.1),
)

others_apart :
    (g : String) (fs : List Field) → All (λ (f : Field). f.field ≢ g) fs → names_apart g fs ≡ true
others_apart g [] h = refl
others_apart g (f ∷ fs) h = ground (arith, others_apart g fs h.1, eq_iff f.field g, h.0)

filled-compare_all :
    (fs : List Field) (out : Assoc DiffKind)
    → is_filled out ≡ true
    → (compare_all (steps fs) out).has_changes ≡ true
unfolding compare_all diff_response steps
filled-compare_all [] out h = h
filled-compare_all (f ∷ fs) out h =
    filled-compare_all fs (mark f.kind f.field f.test out)
      (ground (arith, filled-mark f.kind f.field f.test out, h))

mark_unchanged :
    (kind : DiffKind) (name : String) (b : Bool) (out : Assoc DiffKind)
    → b ≡ false
    → mark kind name b out ≡ out
unfolding mark replace_diff update_diff
mark_unchanged DiffKind.update_replace name b out h = rw h refl
mark_unchanged DiffKind.update name b out h = rw h refl

quiet_iff :
    (fs : List Field)
    → ((compare_all (steps fs) []).has_changes ≡ false) ↔ All (λ (f : Field). f.Changed → ⊥) fs
unfolding compare_all diff_response steps mark replace_diff update_diff
quiet_iff [] = (λ h. tt, λ h. refl)
quiet_iff (f ∷ fs) = elim (Bool-cases f.test) [
  | inl changed ↦ (
    λ h. absurd (
        ground (
          arith,
          h,
          filled-compare_all fs (mark f.kind f.field f.test [])
              (ground (arith, filled-mark f.kind f.field f.test [], changed)),
        )),
    λ h. absurd (h.0 (f.test_iff.0 changed)),
  )
  | inr kept ↦
      subst
        (λ out.
          ((compare_all (steps fs) out).has_changes ≡ false)
          ↔ ((f.Changed → ⊥) × All (λ (g : Field). g.Changed → ⊥) fs))
        (sym (mark_unchanged f.kind f.field f.test [] kept))
        (
          λ h. ((unreported_iff f.test f.Changed f.test_iff).0 kept, (quiet_iff fs).0 h),
          λ h. (quiet_iff fs).1 h.1,
        )
]

-- Whatever the fields of a table, the comparisons one after the other report what has changed.
pub compare_all-Reports :
    (fs : List Field) → is_table fs ≡ true → Reports fs (compare_all (steps fs) [])
compare_all-Reports fs h = (
  entries_iff fs [] h (none_yet fs),
  λ g apart. lookup-compare_other g fs [] (others_apart g fs apart),
  quiet_iff fs,
)
  where
    none_yet : (gs : List Field) → Fresh gs []
    none_yet [] = tt
    none_yet (g ∷ gs) = (refl, none_yet gs)
