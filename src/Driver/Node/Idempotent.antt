-- ===== src/Driver/Node/Idempotent.antt =====
-- Staging and publishing a volume again, on any mounter that tells what it has mounted.
use nobus_csi.Common.{
  ◌≡◌, refl, sym, arith, eq_iff, ap, ◌∙◌, if◌then◌else◌, Bool, true, false, String, List, Option,
  none, some, ◌==◌, Bool-cases, inl, inr,
}
use mathlib.Core.Path.{subst}
use nobus_csi.Cloud.Errors.{Error, Result, ok, err}
use nobus_csi.Cloud.Interface.{Run}
use nobus_csi.Mount.{Mounter, Mounted, fake_mounter, fake_is_mounted, fake_mount}
use nobus_csi.Common.Assoc.{lookup, insert, lookup-insert}
use nobus_csi.Driver.Session.{return, raise, fail_as, require, after, with_error, ◌>>=◌}
use nobus_csi.Driver.Status.{status_error}
use nobus_csi.Driver.Csi.{VolumeCapability}
use nobus_csi.Driver.Node.{
  NodeStageRequest, NodePublishRequest, stage_with, node_stage_volume, publish_with,
  node_publish_volume,
}

-- Once the run has succeeded, the same run succeeds again and changes nothing.
abbrev pub Settles : {S : Type 0} → Run S Unit → Result Unit × S → Type 0
Settles m (ok u, s) = m s ≡ (ok tt, s)
Settles m (err e, s) = Unit

-- A success of a mount shows at its target.
abbrev pub Shows : (M : Mounter) → String → Result Unit × M.State → Type 0
Shows M target (ok u, s) = M.is_mounted target s ≡ (ok true, s)
Shows M target (err e, s) = Unit

-- A mounter that looks without changing anything, and that finds what it has mounted.
pub record Tells (M : Mounter) : Type 0 where
  pub is_mounted_keeps : (target : String) (s : M.State) → (M.is_mounted target s).1 ≡ s
  pub stage_shows :
      (source target fs_type : String) (flags : List String) (s : M.State)
      → Shows M target (M.stage source target fs_type flags s)
  pub publish_shows :
      (source target : String) (readonly block : Bool) (flags : List String) (s : M.State)
      → Shows M target (M.publish source target readonly block flags s)

require-Settles :
    {S : Type 0} (value message : String) (body : Run S Unit) (s : S)
    → Settles body (body s)
    → Settles (require value message body) (require value message body s)
unfolding raise
require-Settles value message body s h = elim (Bool-cases (value == "")) [
  | inl e ↦ rw e tt
  | inr n ↦ rw n h
]

module _ (M : Mounter) (target : String) where
  Shows-fail_as :
      (f : Error → Error) (r : Result Unit × M.State)
      → Shows M target r
      → Shows M target (with_error f r)
  Shows-fail_as f (ok u, s) h = h
  Shows-fail_as f (err e, s) h = tt

  Shows-after :
      {A : Type 0} (r : Result A × M.State) (f : A → Run M.State Unit)
      → ((a : A) (s : M.State) → Shows M target (f a s))
      → Shows M target (after r f)
  Shows-after (ok a, s) f h = h a s
  Shows-after (err e, s) f h = tt

module _ (M : Mounter) (tells : Tells M) where
  -- The handlers' guard: what is mounted is left alone.
  abbrev guarded : String → Run M.State Unit → Run M.State Unit
  guarded target body = do
    mounted ← fail_as status_error (M.is_mounted target)
    if mounted then return tt else body

  guarded-mounted :
      (target : String) (body : Run M.State Unit) (s : M.State)
      → M.is_mounted target s ≡ (ok true, s)
      → guarded target body s ≡ (ok tt, s)
  unfolding ◌>>=◌ return fail_as
  guarded-mounted target body s h = rw h refl

  shown-Settles :
      (target : String) (body : Run M.State Unit) (r : Result Unit × M.State)
      → Shows M target r
      → Settles (guarded target body) r
  shown-Settles target body (ok u, s) h = guarded-mounted target body s h
  shown-Settles target body (err e, s) h = tt

  guarded-Settles :
      (target : String) (body : Run M.State Unit) (s : M.State)
      → ((t : M.State) → Shows M target (body t))
      → Settles (guarded target body) (guarded target body s)
  unfolding ◌>>=◌ return fail_as
  guarded-Settles target body s h = go (M.is_mounted target s) refl
    where
      go :
          (r : Result Bool × M.State)
          → M.is_mounted target s ≡ r
          → Settles
              (guarded target body)
              (after (with_error status_error r) (λ mounted. if mounted then return tt else body))
      go (ok true, t) e = guarded-mounted target body t (
          subst (λ u. M.is_mounted target u ≡ (ok true, t))
            (sym (tells.is_mounted_keeps target s) ∙ ap (λ p. p.1) e) e)
      go (ok false, t) e = shown-Settles target body (body t) (h t)
      go (err x, t) e = tt

  stage_with-Settles :
      (request : NodeStageRequest) (c : Option VolumeCapability) (s : M.State)
      → Settles (stage_with M request c) (stage_with M request c s)
  unfolding stage_with ◌>>=◌ raise fail_as
  stage_with-Settles request none s = tt
  stage_with-Settles request (some c) s = guarded-Settles request.staging_target_path _ s (λ t.
      Shows-after M request.staging_target_path _ _ (λ device u.
        Shows-fail_as M request.staging_target_path status_error _
          (tells.stage_shows device request.staging_target_path _ _ u)))

  -- Once staging a volume has succeeded, staging it again by the same request succeeds and changes
  -- nothing, on every mounter that tells what it has mounted.
  pub node_stage_volume-Settles :
      (request : NodeStageRequest) (s : M.State)
      → Settles (node_stage_volume M request) (node_stage_volume M request s)
  unfolding node_stage_volume
  node_stage_volume-Settles request s =
      require-Settles request.volume_id "volume id is required" _ s (
        require-Settles request.staging_target_path "staging target path is required" _ s
          (stage_with-Settles request request.volume_capability s))

  publish_with-Settles :
      (request : NodePublishRequest) (c : Option VolumeCapability) (s : M.State)
      → Settles (publish_with M request c) (publish_with M request c s)
  unfolding publish_with ◌>>=◌ raise fail_as
  publish_with-Settles request none s = tt
  publish_with-Settles request (some c) s = guarded-Settles request.target_path _ s (λ t.
      Shows-after M request.target_path _ _ (λ source u.
        Shows-fail_as M request.target_path status_error _
          (tells.publish_shows source request.target_path request.readonly _ _ u)))

  -- Once publishing a volume on a node has succeeded, publishing it again by the same request
  -- succeeds and changes nothing, on every mounter that tells what it has mounted.
  pub node_publish_volume-Settles :
      (request : NodePublishRequest) (s : M.State)
      → Settles (node_publish_volume M request) (node_publish_volume M request s)
  unfolding node_publish_volume
  node_publish_volume-Settles request s =
      require-Settles request.volume_id "volume id is required" _ s (
        require-Settles request.target_path "target path is required" _ s
          (publish_with-Settles request request.volume_capability s))

found_after :
    (target source : String) (m : Mounted) → lookup target (insert target source m) ≡ some source
found_after target source m =
    ground (arith, lookup-insert target target source m, eq_iff target target)

-- The mounter in memory tells what it has mounted.
pub fake_mounter-Tells : Tells fake_mounter
unfolding fake_is_mounted fake_mount
fake_mounter-Tells = record {
  is_mounted_keeps = λ target s. refl;
  stage_shows = λ source target fs_type flags s. rw (found_after target source s) refl;
  publish_shows = λ source target readonly block flags s. rw (found_after target source s) refl;
}
