-- ===== src/Driver/Params/Spec/Checks.antt =====
-- What a request that `volumeSpec` accepts has in common.
use nobus_csi.Common.{
  ◌≡◌, refl, ◌≢◌, Bool, true, ◌&&◌, String, [], ◌∷◌, Option, none, some, arith, ◌==◌, eq_iff,
  Bool-cases, Option-cases, inl, inr,
}
use nobus_csi.Common.Int.{ℤ, pos, ltb_ℤ}
use nobus_csi.Common.Text.{contains}
use nobus_csi.Common.Lists.{All}
use nobus_csi.Common.Assoc.{Dict, lookup}
use nobus_csi.Cloud.Errors.{Result, ok, err}
use nobus_csi.Cloud.Types.{VolumeSpec}
use nobus_csi.Driver.Status.Laws.{IsStatus, Holds, Any, IsStatus-if}
use nobus_csi.Driver.Config.{Config}
use nobus_csi.Driver.Csi.{CreateVolumeRequest, CapacityRange}
use nobus_csi.Driver.Params.Capacity.{requested_bytes}
use nobus_csi.Driver.Params.Spec.{
  supported_parameters, unknown_parameter, encrypted_of, spec_with, spec_in, spec_of_size,
  spec_checked, requested_zone, requested_project, volume_spec,
}

abbrev pub Supported : Dict → Type 0
Supported = All (λ (k, v). contains supported_parameters k ≡ true)

unknown_parameter-none : (d : Dict) → unknown_parameter d ≡ none → Supported d
unfolding unknown_parameter
unknown_parameter-none [] h = tt
unknown_parameter-none ((k, v) ∷ d) h = ground (arith, unknown_parameter-none d)

-- What an accepted request's specification satisfies.
pub record Accepts (request : CreateVolumeRequest) (defaults : Config) (spec : VolumeSpec)
    : Type 0 where
  pub named : (request.name ≢ "") × (spec.name ≡ request.name)
  pub known : Supported request.parameters
  pub sized :
      requested_bytes request.capacity_range defaults.minimum_volume_bytes
        defaults.volume_granularity_bytes
      ≡ ok spec.size_bytes
  pub zoned :
      (spec.availability_zone ≢ "") × (spec.availability_zone ≡ requested_zone request defaults)
  pub owned : (spec.project_id ≢ "") × (spec.project_id ≡ requested_project request defaults)
  pub secured : encrypted_of (lookup "encrypted" request.parameters) ≡ some spec.encrypted

spec_with-ok :
    (request : CreateVolumeRequest) (defaults : Config) (size : ℤ) (zone project : String)
    (flag : Option Bool) (spec : VolumeSpec)
    → spec_with request defaults size zone project flag ≡ ok spec
    → (spec.name ≡ request.name)
      × (spec.size_bytes ≡ size)
      × (spec.availability_zone ≡ zone)
      × (spec.project_id ≡ project)
      × (flag ≡ some spec.encrypted)
unfolding spec_with
spec_with-ok request defaults size zone project none spec h = cc
spec_with-ok request defaults size zone project (some b) spec h = ground arith

spec_in-ok :
    (request : CreateVolumeRequest) (defaults : Config) (size : ℤ) (zone project : String)
    (spec : VolumeSpec)
    → spec_in request defaults size zone project ≡ ok spec
    → (zone ≢ "")
      × (project ≢ "")
      × (spec_with request defaults size zone project
            (encrypted_of (lookup "encrypted" request.parameters))
          ≡ ok spec)
unfolding spec_in
spec_in-ok request defaults size zone project spec h =
    ground (arith, eq_iff zone "", eq_iff project "")

accepted :
    (request : CreateVolumeRequest) (defaults : Config) (spec : VolumeSpec) (size : Result ℤ)
    → size
      ≡ requested_bytes request.capacity_range defaults.minimum_volume_bytes
          defaults.volume_granularity_bytes
    → request.name ≢ ""
    → Supported request.parameters
    → spec_of_size request defaults size ≡ ok spec
    → Accepts request defaults spec
unfolding spec_of_size
accepted request defaults spec (err e) s n k h = cc
accepted request defaults spec (ok size) s n k h =
    let (z, p, w) =
      spec_in-ok request defaults size (requested_zone request defaults)
        (requested_project request defaults) spec h in
    let (name, sized, zone, project, flag) =
      spec_with-ok request defaults size (requested_zone request defaults)
        (requested_project request defaults) (encrypted_of (lookup "encrypted" request.parameters))
        spec w in
    record {
      named = (n, name);
      known = k;
      sized = cc;
      zoned = (rw zone z, zone);
      owned = (rw project p, project);
      secured = flag;
    }

-- A request that is accepted has a name, known parameters alone, a zone, a project and a truth value
-- for `encrypted`, and its specification has the size, zone, project and encryption asked for.
pub volume_spec-Accepts :
    (request : CreateVolumeRequest) (defaults : Config) {spec : VolumeSpec}
    → volume_spec request defaults ≡ ok spec
    → Accepts request defaults spec
unfolding volume_spec
volume_spec-Accepts request defaults {spec} h = elim (Bool-cases (request.name == "")) [
  | inl empty ↦ absurd (cc (rw empty at h))
  | inr named ↦ elim (Option-cases (unknown_parameter request.parameters)) [
    | inl known ↦
        accepted request defaults spec _ refl (ground (arith, eq_iff request.name ""))
          (unknown_parameter-none request.parameters known) (rw (named, known) at h)
    | inr (key, unknown) ↦ absurd (cc (rw (named, unknown) at h))
  ]
]

pub requested_bytes-IsStatus :
    (capacity : CapacityRange) (minimum granularity : ℤ)
    → Holds Any IsStatus (requested_bytes capacity minimum granularity)
unfolding requested_bytes
requested_bytes-IsStatus capacity minimum granularity =
    IsStatus-if (ltb_ℤ (pos 0) capacity.limit_bytes && ltb_ℤ capacity.limit_bytes _) _ _ tt tt

spec_with-IsStatus :
    (request : CreateVolumeRequest) (defaults : Config) (size : ℤ) (zone project : String)
    (flag : Option Bool)
    → Holds Any IsStatus (spec_with request defaults size zone project flag)
unfolding spec_with
spec_with-IsStatus request defaults size zone project none = tt
spec_with-IsStatus request defaults size zone project (some b) = tt

spec_of_size-IsStatus :
    (request : CreateVolumeRequest) (defaults : Config) (size : Result ℤ)
    → Holds Any IsStatus size
    → Holds Any IsStatus (spec_of_size request defaults size)
unfolding spec_of_size spec_in
spec_of_size-IsStatus request defaults (err e) h = h
spec_of_size-IsStatus request defaults (ok size) h =
    IsStatus-if (requested_zone request defaults == "") _ _ tt (
      IsStatus-if (requested_project request defaults == "") _ _ tt
        (spec_with-IsStatus request defaults size _ _ _))

spec_checked-IsStatus :
    (request : CreateVolumeRequest) (defaults : Config) (key : Option String)
    → Holds Any IsStatus (spec_checked request defaults key)
unfolding spec_checked
spec_checked-IsStatus request defaults (some key) = tt
spec_checked-IsStatus request defaults none = spec_of_size-IsStatus request defaults _ (
    requested_bytes-IsStatus request.capacity_range defaults.minimum_volume_bytes
      defaults.volume_granularity_bytes)

pub volume_spec-IsStatus :
    (request : CreateVolumeRequest) (defaults : Config)
    → Holds Any IsStatus (volume_spec request defaults)
unfolding volume_spec
volume_spec-IsStatus request defaults =
    IsStatus-if (request.name == "") _ _ tt
      (spec_checked-IsStatus request defaults (unknown_parameter request.parameters))
