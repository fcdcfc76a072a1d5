-- ===== src/Driver/Volumes/Create/Outcome.antt =====
-- What `CreateVolume` answers, whatever the provider does.
use nobus_csi.Common.{
  ℕ, ◌≡◌, refl, Bool, true, Option, none, some, arith, eq_iff, [], ◌∷◌, if◌then◌else◌,
}
use nobus_csi.Cloud.Errors.{Error, Result, ok, err}
use nobus_csi.Cloud.Types.{VolumeSpec, Volume}
use nobus_csi.Cloud.Interface.{Cloud}
use nobus_csi.Driver.Status.Laws.{Any, Holds, IsStatus, status_error-IsStatus, grpc_error-IsStatus}
use nobus_csi.Driver.Session.{Driver}
use nobus_csi.Driver.Session.Ensures.{
  Ensures, ensures_rules, Ensures-return, Ensures-raise, Ensures-with_name, Ensures-weaken,
  Ensures-bind_strong,
}
use nobus_csi.Common.Assoc.{lookup}
use nobus_csi.Driver.Config.{Config}
use nobus_csi.Driver.Csi.{CreateVolumeRequest, CsiVolume}
use nobus_csi.Driver.Params.Capabilities.{validate_capabilities}
use nobus_csi.Driver.Params.Capabilities.Laws.{validate_capabilities-IsStatus}
use nobus_csi.Driver.Params.Capacity.{requested_bytes}
use nobus_csi.Driver.Params.Zones.{topology_zone_key}
use nobus_csi.Driver.Params.Spec.{volume_spec, volume_context, encrypted_of, requested_zone}
use nobus_csi.Driver.Params.Spec.Checks.{Accepts, volume_spec-Accepts, volume_spec-IsStatus}
use nobus_csi.Driver.Volumes.Reconcile.{compatible_volume}
use nobus_csi.Driver.Volumes.Reconcile.Verified.{
  verify_volume-Ensures, reconcile_created_volume-Ensures,
}
use nobus_csi.Driver.Volumes.Create.{
  csi_volume, answer_verified, after_conflict, after_create, after_lookup, create_with,
  create_named, create_checked, create_volume,
}

-- The answer is that of a volume which fits the specification.
abbrev pub Fits : VolumeSpec → CsiVolume → Type 0
Fits spec answer = (v : Volume) × (answer ≡ csi_volume v) × (compatible_volume v spec ≡ true)

module _ (C : Cloud) (ctx : ℕ → Bool) (spec : VolumeSpec) where
  answer_verified-Ensures :
      (v : Volume) → Ensures (Fits spec) IsStatus (answer_verified C ctx spec v)
  unfolding answer_verified
  answer_verified-Ensures v =
      Ensures-bind_strong _ _ (verify_volume-Ensures C spec v)
        (λ w fits. Ensures-return (csi_volume w) (w, refl, fits))

  after_conflict-Ensures :
      (failed : Error) (r : Result Volume)
      → Ensures (Fits spec) IsStatus (after_conflict C ctx spec failed r)
  unfolding after_conflict
  after_conflict-Ensures failed (ok v) = answer_verified-Ensures v
  after_conflict-Ensures failed (err e) = search (ensures_rules, status_error-IsStatus)

  after_create-Ensures :
      (r : Result Volume) → Ensures (Fits spec) IsStatus (after_create C ctx spec r)
  unfolding after_create
  after_create-Ensures (ok v) =
      search (ensures_rules, answer_verified-Ensures, reconcile_created_volume-Ensures)
  after_create-Ensures (err e) =
      search (ensures_rules, status_error-IsStatus, after_conflict-Ensures)

  after_lookup-Ensures :
      (r : Result Volume) → Ensures (Fits spec) IsStatus (after_lookup C ctx spec r)
  unfolding after_lookup
  after_lookup-Ensures (ok v) = answer_verified-Ensures v
  after_lookup-Ensures (err e) = search (ensures_rules, grpc_error-IsStatus, after_create-Ensures)

  create_with-Ensures : Ensures (Fits spec) IsStatus (create_with C ctx spec)
  unfolding create_with
  create_with-Ensures = search (ensures_rules, after_lookup-Ensures)

-- What a successful answer has: the capabilities are fine, the request makes a specification, the
-- capacity is the requested one after rounding, and zone and encryption are those asked for.
pub record Answers (config : Config) (request : CreateVolumeRequest) (answer : CsiVolume)
    : Type 0 where
  pub capable : validate_capabilities request.volume_capabilities ≡ none
  pub spec : VolumeSpec
  pub accepts : Accepts request config spec
  pub capacity :
      requested_bytes request.capacity_range config.minimum_volume_bytes
        config.volume_granularity_bytes
      ≡ ok answer.capacity_bytes
  pub zone :
      answer.accessible_topology ≡ ((topology_zone_key, requested_zone request config) ∷ []) ∷ []
  pub encryption : encrypted_of (lookup "encrypted" request.parameters) ≡ some spec.encrypted
  pub context :
      lookup "encrypted" answer.volume_context ≡ some (if spec.encrypted then "true" else "false")

size_of_compatible :
    (v : Volume) (spec : VolumeSpec)
    → compatible_volume v spec ≡ true
    → v.size_bytes ≡ spec.size_bytes
unfolding compatible_volume
size_of_compatible v spec h = ground arith

zone_of_compatible :
    (v : Volume) (spec : VolumeSpec)
    → compatible_volume v spec ≡ true
    → v.availability_zone ≡ spec.availability_zone
unfolding compatible_volume
zone_of_compatible v spec h = ground (arith, eq_iff v.availability_zone spec.availability_zone)

encryption_of_compatible :
    (v : Volume) (spec : VolumeSpec)
    → compatible_volume v spec ≡ true
    → v.encrypted ≡ spec.encrypted
unfolding compatible_volume
encryption_of_compatible v spec h = ground arith

context_encrypted :
    (v : Volume)
    → lookup "encrypted" (volume_context v) ≡ some (if v.encrypted then "true" else "false")
unfolding volume_context
context_encrypted v = ground arith

Fits-Answers :
    (config : Config) (request : CreateVolumeRequest) (spec : VolumeSpec) (answer : CsiVolume)
    → validate_capabilities request.volume_capabilities ≡ none
    → volume_spec request config ≡ ok spec
    → Fits spec answer
    → Answers config request answer
unfolding csi_volume
Fits-Answers config request spec answer capable made (v, e, fits) =
    let accepts = volume_spec-Accepts request config {spec = spec} made in
    record {
      capable = capable;
      spec = spec;
      accepts = accepts;
      capacity = rw (e, size_of_compatible v spec fits) accepts.sized;
      zone = rw (e, zone_of_compatible v spec fits, accepts.zoned.1);
      encryption = accepts.secured;
      context = rw (e, context_encrypted v, encryption_of_compatible v spec fits);
    }

module _ (C : Cloud) (ctx : ℕ → Bool) (config : Config) (request : CreateVolumeRequest) where
  create_named-Holds :
      (made : Result VolumeSpec)
      → validate_capabilities request.volume_capabilities ≡ none
      → volume_spec request config ≡ made
      → Holds Any IsStatus made
      → Ensures (Answers config request) IsStatus (create_named C ctx request made)
  unfolding create_named
  create_named-Holds (err e) capable same h = Ensures-raise e h
  create_named-Holds (ok spec) capable same h =
      Ensures-with_name _ _ _ (λ m. tt)
        (Ensures-weaken (create_with C ctx spec)
          (λ a fits. Fits-Answers config request spec a capable same fits)
          (create_with-Ensures C ctx spec))

  create_checked-Holds :
      (bad : Option Error)
      → validate_capabilities request.volume_capabilities ≡ bad
      → Ensures (Answers config request) IsStatus (create_checked C ctx config request bad)
  unfolding create_checked
  create_checked-Holds (some e) h =
      Ensures-raise e (validate_capabilities-IsStatus request.volume_capabilities h)
  create_checked-Holds none h =
      create_named-Holds (volume_spec request config) h refl (volume_spec-IsStatus request config)

  -- Whatever the provider answers, `CreateVolume` either fails with a gRPC status, or its answer has
  -- the requested capacity after rounding, the requested zone and the requested encryption, and the
  -- request was valid.
  pub create_volume-Answers :
      (d : Driver C)
      → Holds (Answers config request) IsStatus (create_volume C ctx config request d).0
  unfolding create_volume
  create_volume-Answers d =
      (create_checked-Holds (validate_capabilities request.volume_capabilities) refl).at d

  pub create_volume-Ensures : Ensures Any IsStatus (create_volume C ctx config request)
  create_volume-Ensures =
      Ensures-weaken (create_volume C ctx config request) (λ a _. tt)
        (record { at = create_volume-Answers })
