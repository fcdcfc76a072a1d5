-- ===== src/Driver/Volumes/Attach/Guards.antt =====
-- What `ControllerPublishVolume` and `ControllerUnpublishVolume` do by the attachments that they
-- read: when they answer without a call that attaches or detaches.
use nobus_csi.Common.{
  ◌≡◌, refl, ◌≢◌, ◌⊎◌, inl, inr, Bool, true, false, String, List, [], ◌∷◌, ◌++◌, arith, eq_iff,
  Bool-cases,
}
use nobus_csi.Common.Lists.{All}
use nobus_csi.Cloud.Errors.{Code, Error, ok, err}
use nobus_csi.Cloud.Types.{Volume, Attachment}
use nobus_csi.Cloud.Interface.{Cloud}
use nobus_csi.Driver.Status.{status, status_error}
use nobus_csi.Driver.Config.{Config}
use nobus_csi.Driver.Csi.{PublishRequest}
use nobus_csi.Driver.Session.{Session, return, raise, attempt, fail_as, call, ◌>>=◌}
use nobus_csi.Driver.Volumes.Attach.{
  device_in, attached_device, node_in, attached_to_node, device_context, attach_unless,
  publish_found, publish_with, is_filled, unpublish_found, unpublish_with,
}

-- No attachment of the list is to the node.
abbrev pub AwayFrom : String → List Attachment → Type 0
AwayFrom node = All (λ (a : Attachment). a.instance_id ≢ node)

device_in-AwayFrom :
    (xs : List Attachment) (node : String) (others : Bool)
    → AwayFrom node xs
    → device_in xs node others ≡ ("", others)
unfolding device_in
device_in-AwayFrom [] node others h = refl
device_in-AwayFrom (a ∷ xs) node others h =
    ground (arith, eq_iff a.instance_id node, device_in-AwayFrom xs node others h.1, h.0)

-- The first attachment to the node decides.
device_in-first :
    (before after : List Attachment) (a : Attachment) (node : String) (others : Bool)
    → AwayFrom node before
    → a.instance_id ≡ node
    → device_in (before ++ a ∷ after) node others ≡ (a.device_path, false)
unfolding device_in
device_in-first [] after a node others h e = ground (arith, eq_iff a.instance_id node, e)
device_in-first (b ∷ before) after a node others h e =
    ground (arith, eq_iff b.instance_id node, device_in-first before after a node others h.1 e, h.0)

node_in-AwayFrom :
    (xs : List Attachment) (node : String) → AwayFrom node xs → node_in xs node ≡ false
unfolding node_in
node_in-AwayFrom [] node h = refl
node_in-AwayFrom (a ∷ xs) node h =
    ground (arith, eq_iff a.instance_id node, node_in-AwayFrom xs node h.1, h.0)

elsewhere :
    (xs : List Attachment) (node : String)
    → xs ≢ []
    → AwayFrom node xs
    → device_in xs node (is_filled xs) ≡ ("", true)
elsewhere [] node n h = absurd (n refl)
elsewhere (a ∷ xs) node n h = device_in-AwayFrom (a ∷ xs) node true h

-- The answer to a volume that is in use elsewhere.
abbrev pub in_use_elsewhere : Error
in_use_elsewhere = status Code.failed_precondition "resource is in an incompatible state"

module _ (C : Cloud) (config : Config) (request : PublishRequest) (v : Volume) (s : Session C)
    (t : C.State) where
  -- Reading the volume gave `v`.
  abbrev Reads : Type 0
  Reads = C.get_volume_by_id request.volume_id s.store ≡ (ok v, t)

  -- Where the volume that the provider returns is a multi-attach volume, or is attached, but not to
  -- the node of the request, publishing fails with `FailedPrecondition`, and the provider is left as
  -- reading the volume left it: no call attaches anything.
  pub publish_with-refuses :
      Reads
      → ((v.multiattach ≡ true) ⊎ ((v.attachments ≢ []) × AwayFrom request.node_id v.attachments))
      → publish_with C config request s ≡ (err in_use_elsewhere, record s { store = t })
  unfolding publish_with publish_found attach_unless attached_device ◌>>=◌ call fail_as raise
      status_error
  publish_with-refuses r (inl m) = rw (r, m) refl
  publish_with-refuses r (inr (some_attached, away)) = elim (Bool-cases v.multiattach) [
    | inl m ↦ rw (r, m) refl
    | inr m ↦ rw (r, m, elsewhere v.attachments request.node_id some_attached away) refl
  ]

  -- Where the first attachment of the volume to the node of the request has a device path, and the
  -- volume is not a multi-attach volume, publishing answers that path, and the provider is left as
  -- reading the volume left it.
  pub publish_with-again :
      (before after : List Attachment) (a : Attachment)
      → Reads
      → v.multiattach ≡ false
      → v.attachments ≡ before ++ a ∷ after
      → AwayFrom request.node_id before
      → a.instance_id ≡ request.node_id
      → a.device_path ≢ ""
      → publish_with C config request s
        ≡ (ok (device_context a.device_path), record s { store = t })
  unfolding publish_with publish_found attach_unless attached_device ◌>>=◌ call fail_as return
  publish_with-again before after a r m e h n d =
      rw
        (
          r,
          m,
          e,
          device_in-first before after a request.node_id (is_filled (before ++ a ∷ after)) h n,
        )
        (ground (arith, eq_iff a.device_path "", d))

module _ (C : Cloud) (config : Config) (id node : String) (v : Volume) (s : Session C)
    (t : C.State) where
  -- Where the volume that the provider returns has no attachment to the node, unpublishing succeeds,
  -- and the provider is left as reading the volume left it: no call detaches anything.
  pub unpublish_with-done :
      C.get_volume_by_id id s.store ≡ (ok v, t)
      → AwayFrom node v.attachments
      → unpublish_with C config id node s ≡ (ok tt, record s { store = t })
  unfolding unpublish_with unpublish_found attached_to_node ◌>>=◌ call attempt return
  unpublish_with-done r away = rw (r, node_in-AwayFrom v.attachments node away) refl
