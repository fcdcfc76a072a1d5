-- ===== src/Driver/Volumes/Reconcile.antt =====
-- `reconcileVolumeByName`, `reconcileCreatedVolume` and `verifyVolume` of
-- internal/driver/controller.go.
pub mod Calls
pub mod Rounds
pub mod Verified
use nobus_csi.Common.{
  ℕ, zero, suc, ◌+◌, ◌*◌, Bool, true, false, not, ◌&&◌, ◌||◌, String, List, [], ◌∷◌, ◌==◌, same,
  leb, if◌then◌else◌,
}
use nobus_csi.Common.Int.{pos, eqb_ℤ}
use nobus_csi.Common.Sort.{sort_by}
use nobus_csi.Cloud.Errors.{Sentinel, Code, Error, errors_is, Result, ok, err, sentinel}
use nobus_csi.Cloud.Types.{Page, VolumeSpec, Volume, Attachment, volume_in_use}
use nobus_csi.Cloud.Interface.{Run, Cloud}
use nobus_csi.Driver.Status.{status, status_error, grpc_error}
use nobus_csi.Driver.Session.{
  Session, return, raise, lift, attempt, fail_as, call, ◌>>=◌, ◌>>◌, wait,
}

unfoldable pub compatible_volume : Volume → VolumeSpec → Bool
compatible_volume v spec =
    eqb_ℤ v.size_bytes spec.size_bytes
    && v.availability_zone == spec.availability_zone
    && (spec.volume_type == "" || v.volume_type == spec.volume_type)
    && same v.encrypted spec.encrypted

abbrev pub name_taken : Error
name_taken = status Code.already_exists "volume name exists with different parameters"

abbrev no_attachment : List Attachment → Bool
no_attachment [] = true
no_attachment (a ∷ rest) = false

unfoldable pub deletable_duplicate_volume : Volume → Bool
deletable_duplicate_volume v = no_attachment v.attachments && not (v.status == volume_in_use)

abbrev add_volume : Volume → Result (List Volume) → Result (List Volume)
add_volume v (ok vs) = ok (v ∷ vs)
add_volume v (err e) = err e

-- The listed volumes of the name, if each of them fits the specification.
unfoldable pub compatible_volumes : VolumeSpec → List Volume → Result (List Volume)
compatible_volumes spec [] = ok []
compatible_volumes spec (v ∷ vs) =
    let rest = compatible_volumes spec vs in
    if not (v.name == spec.name)
    then rest
    else if not (compatible_volume v spec)
    then err name_taken
    else add_volume v rest

-- The page that asks for a name in a zone.
abbrev pub named_page : String → String → Page
named_page name zone = record { token = ""; size = pos 0; name = name; availability_zone = zone }

module _ (C : Cloud) where
  -- A duplicate that is gone, or that the provider will not let go, is passed over.
  continue_after : Run (Session C) Unit → Result Unit → Run (Session C) Unit
  continue_after rest (ok _) = rest
  continue_after rest (err e) =
      if not (errors_is e Sentinel.not_found) && not (errors_is e Sentinel.conflict)
      then raise e
      else rest

  delete_duplicates : List Volume → Run (Session C) Unit
  unfolding continue_after
  delete_duplicates [] = return tt
  delete_duplicates (d ∷ ds) =
      let rest = delete_duplicates ds in
      if not (deletable_duplicate_volume d)
      then rest
      else do deleted ← attempt (call (C.delete_volume d.id)); continue_after rest deleted

  -- The volumes in the order of their identifiers: the first is kept.
  keep_first : List Volume → Run (Session C) Volume
  unfolding delete_duplicates
  keep_first [] = raise (sentinel Sentinel.not_found)
  keep_first (canonical ∷ duplicates) = do delete_duplicates duplicates; return canonical

  unfoldable pub reconcile_volume_by_name : VolumeSpec → Run (Session C) Volume
  unfolding keep_first
  reconcile_volume_by_name spec = do
    listed ← call (C.list_volumes (named_page spec.name spec.availability_zone))
    compatible ← lift (compatible_volumes spec listed.0)
    keep_first (sort_by (λ (v : Volume). v.id) compatible)

  with_zone : Volume → VolumeSpec → Volume
  with_zone v spec =
      if v.availability_zone == ""
      then record v { availability_zone = spec.availability_zone }
      else v

  check_verified : VolumeSpec → Result Volume → Run (Session C) Volume
  unfolding with_zone
  check_verified spec (err e) = raise (
      if errors_is e Sentinel.not_found
      then status_error (sentinel Sentinel.unavailable)
      else status_error e)
  check_verified spec (ok v) =
      if not (compatible_volume (with_zone v spec) spec)
      then raise name_taken
      else return (with_zone v spec)

  unfoldable pub verify_volume : Volume → VolumeSpec → Run (Session C) Volume
  unfolding check_verified
  verify_volume v spec = do
    found ← attempt (call (C.get_volume_by_id v.id))
    check_verified spec found

  module _ (ctx : ℕ → Bool) (spec : VolumeSpec) where
    last_sample : Result Volume → Run (Session C) Volume
    last_sample (ok v) = return v
    last_sample (err e) = raise (
        if errors_is e Sentinel.not_found
        then status_error (sentinel Sentinel.unavailable)
        else grpc_error e)

    -- The rest of the loop is `more`, from the identifier seen last, how often it was seen in a row,
    -- and the delay in milliseconds.
    after_sample :
        (String → ℕ → ℕ → Run (Session C) Volume)
        → String
        → ℕ
        → ℕ
        → Result Volume
        → Run (Session C) Volume
    after_sample more previous stable delay (err e) =
        if not (errors_is e Sentinel.not_found)
        then raise (grpc_error e)
        else do fail_as status_error (wait ctx delay); more previous stable (delay * 2)
    after_sample more previous stable delay (ok v) =
        let count = if v.id == previous then stable + 1 else 1 in
        if leb 3 count
        then return v
        else do fail_as status_error (wait ctx delay); more v.id count (delay * 2)

    sample_rounds : ℕ → String → ℕ → ℕ → Run (Session C) Volume
    unfolding after_sample last_sample
    sample_rounds zero previous stable delay = do
      seen ← attempt (reconcile_volume_by_name spec)
      last_sample seen
    sample_rounds (suc rounds) previous stable delay = do
      seen ← attempt (reconcile_volume_by_name spec)
      after_sample (sample_rounds rounds) previous stable delay seen

    -- Seven rounds, the first delay 100 ms, then one last look.
    unfoldable pub reconcile_created_volume : Run (Session C) Volume
    unfolding sample_rounds
    reconcile_created_volume = sample_rounds 7 "" 0 100
