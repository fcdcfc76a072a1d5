-- ===== src/Pulumi/Provider/Check.antt =====
-- The checks of check.go: the provider's defaults, and what a resource must have.
use nobus_csi.Common.{
  Bool, true, false, not, ◌&&◌, String, List, [], ◌∷◌, ◌++◌, Option, none, some, ◌==◌,
  if◌then◌else◌,
}
use nobus_csi.Common.Text.{is_blank}
use nobus_csi.Common.Assoc.{Assoc, lookup, insert}
use nobus_csi.Cloud.Errors.{Error}
use nobus_csi.Pulumi.Provider.Scope.{Config}

pub data PropertyValue : Type 0 where
  null : PropertyValue
  text : String → PropertyValue
  other : PropertyValue

abbrev pub PropertyMap : Type 0
PropertyMap = Assoc PropertyValue

-- The property that failed its check. The reason is a fixed text.
abbrev pub CheckFailure : Type 0
CheckFailure = String

-- The arguments, what failed, and an error of the check itself.
pub record Checked (I : Type 0) : Type 0 where
  pub args : I
  pub failures : List CheckFailure
  pub failed : Option Error

abbrev blank_value : Option PropertyValue → Bool
blank_value none = true
blank_value (some null) = true
blank_value (some (text s)) = is_blank s
blank_value (some other) = false

unfoldable pub blank_input : PropertyMap → String → Bool
blank_input inputs key = blank_value (lookup key inputs)

fill : String → String → PropertyMap → PropertyMap
unfolding blank_input
fill key value inputs =
    if blank_input inputs key && not (value == "") then insert key (text value) inputs else inputs

unfoldable pub with_defaults : Option Config → PropertyMap → PropertyMap
unfolding fill
with_defaults none inputs = inputs
with_defaults (some cfg) inputs =
    fill "projectId" cfg.project_id (fill "availabilityZone" cfg.availability_zone inputs)

abbrev when : Bool → CheckFailure → List CheckFailure
when true f = f ∷ []
when false f = []

module _ {I : Type 0} where
  abbrev passed : Checked I → Bool
  passed c = elim c.failed [
    | some e ↦ false
    | none ↦ elim c.failures [ [] ↦ true | f ∷ fs ↦ false ]
  ]

  -- More failures, where there are none yet.
  unfoldable pub add_failures : (I → List CheckFailure) → Checked I → Checked I
  add_failures more c = if passed c then record c { failures = c.failures ++ more c.args } else c

  -- `default_check` is `infer.DefaultCheck`, which reads the arguments from the inputs.
  unfoldable pub check_resource_args :
      (PropertyMap → Checked I) → Option Config → PropertyMap → (I → String) → Checked I
  unfolding with_defaults add_failures
  check_resource_args default_check cfg inputs zone =
      add_failures (λ args. when (is_blank (zone args)) "availabilityZone")
        (default_check (with_defaults cfg inputs))

-- The failures of a resource's own checks, each with the test that it fails.
unfoldable pub failing : List (String × Bool) → List CheckFailure
failing [] = []
failing ((name, fails) ∷ rest) = when fails name ++ failing rest
