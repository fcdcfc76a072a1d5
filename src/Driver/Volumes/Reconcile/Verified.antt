-- ===== src/Driver/Volumes/Reconcile/Verified.antt =====
-- The last check of a volume, and the statuses that the reconciling functions fail with.
use nobus_csi.Common.{ℕ, zero, suc, ◌≡◌, Bool, true, false, not, String, arith, if◌then◌else◌}
use nobus_csi.Cloud.Errors.{Error, Result, ok, err}
use nobus_csi.Cloud.Types.{VolumeSpec, Volume}
use nobus_csi.Cloud.Interface.{Run, Cloud}
use nobus_csi.Driver.Status.Laws.{Any, IsStatus, status_error-IsStatus, grpc_error-IsStatus}
use nobus_csi.Driver.Session.{Session}
use nobus_csi.Driver.Session.Ensures.{
  Ensures, ensures_rules, Ensures-if, Ensures-raise, Ensures-return, Ensures-bind, Ensures-attempt,
}
use nobus_csi.Driver.Volumes.Reconcile.{
  compatible_volume, check_verified, with_zone, verify_volume, name_taken, reconcile_created_volume,
  sample_rounds, after_sample, last_sample,
}

abbrev pub Compatible : VolumeSpec → Volume → Type 0
Compatible spec v = compatible_volume v spec ≡ true

not-false : (b : Bool) → not b ≡ false → b ≡ true
not-false b h = ground arith

if-IsStatus : (b : Bool) (d e : Error) → IsStatus d → IsStatus e → IsStatus (if b then d else e)
if-IsStatus true d e hd he = hd
if-IsStatus false d e hd he = he

module _ (C : Cloud) (spec : VolumeSpec) where
  check_verified-Ensures :
      (r : Result Volume)
      → Ensures {S = Session C} (Compatible spec) IsStatus (check_verified C spec r)
  unfolding check_verified
  check_verified-Ensures (ok v) =
      Ensures-if (not (compatible_volume (with_zone C v spec) spec)) _ _
        (λ _. Ensures-raise name_taken tt) (λ h. Ensures-return _ (not-false _ h))
  check_verified-Ensures (err e) = search (ensures_rules, if-IsStatus, status_error-IsStatus)

  pub verify_volume-Ensures :
      (v : Volume) → Ensures (Compatible spec) IsStatus (verify_volume C v spec)
  unfolding verify_volume
  verify_volume-Ensures v = search (ensures_rules, check_verified-Ensures)

  module _ (ctx : ℕ → Bool) where
    last_sample-Ensures :
        (r : Result Volume) → Ensures {S = Session C} Any IsStatus (last_sample C ctx spec r)
    unfolding last_sample
    last_sample-Ensures (ok v) = search ensures_rules
    last_sample-Ensures (err e) =
        search (ensures_rules, if-IsStatus, status_error-IsStatus, grpc_error-IsStatus)

    after_sample-Ensures :
        (more : String → ℕ → ℕ → Run (Session C) Volume) (previous : String) (stable delay : ℕ)
        (r : Result Volume)
        → ((p : String) (n d : ℕ) → Ensures Any IsStatus (more p n d))
        → Ensures Any IsStatus (after_sample C ctx spec more previous stable delay r)
    unfolding after_sample
    after_sample-Ensures more previous stable delay (ok v) h =
        search (ensures_rules, status_error-IsStatus, h)
    after_sample-Ensures more previous stable delay (err e) h =
        search (ensures_rules, status_error-IsStatus, grpc_error-IsStatus, h)

    sample_rounds-Ensures :
        (rounds : ℕ) (previous : String) (stable delay : ℕ)
        → Ensures {S = Session C} Any IsStatus
            (sample_rounds C ctx spec rounds previous stable delay)
    unfolding sample_rounds
    sample_rounds-Ensures zero previous stable delay = search (ensures_rules, last_sample-Ensures)
    sample_rounds-Ensures (suc rounds) previous stable delay =
        Ensures-bind _ _ (Ensures-attempt _)
          (λ seen. after_sample-Ensures _ previous stable delay seen (sample_rounds-Ensures rounds))

    pub reconcile_created_volume-Ensures :
        Ensures Any IsStatus (reconcile_created_volume C ctx spec)
    unfolding reconcile_created_volume
    reconcile_created_volume-Ensures = sample_rounds-Ensures 7 "" 0 100
