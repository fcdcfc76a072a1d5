-- ===== src/Pulumi/Provider/Volume/Kept.antt =====
-- A volume that the API has made is not lost by what fails after it.
use nobus_csi.Common.{ℕ, ◌≡◌, refl, ap, false, String, [], ◌∷◌, none, some}
use nobus_csi.Cloud.Errors.{Error, Result, ok, err}
use nobus_csi.Cloud.Run.{lift}
use nobus_csi.Pulumi.Client.Shapes as Api
use nobus_csi.Pulumi.Client.Calls.{Transport, Session, Context}
use nobus_csi.Pulumi.Client.Calls.Answers.{Given}
use nobus_csi.Pulumi.Client.Storage.{create_volume, wait_volume_status}
use nobus_csi.Pulumi.Client.Storage.Ready.{IsReady, wait_volume_status-IsReady}
use nobus_csi.Pulumi.Provider.Scope.{Config, Location, scoped_id, resolve_scope}
use nobus_csi.Pulumi.Provider.Steps.{Created, finish, or_return, returned}
use nobus_csi.Pulumi.Provider.Volume.{VolumeArgs, VolumeState, state_from_volume}
use nobus_csi.Pulumi.Provider.Volume.Lifecycle.{create, create_request, located}

module _ (T : Transport) (poll : ℕ) (cfg : Config) (ctx : Context) (place : Location)
    (created : Api.Volume) where
  -- Both ends of the wait name the volume.
  waited-id :
      (input : VolumeArgs) (r : Result Api.Volume) (s : Session T)
      → Given (IsReady T ("available" ∷ []) place.project place.zone created.id) r
      → (returned {R = Created VolumeState}
          (λ (e : Error). record {
            id = scoped_id place.zone place.project created.id;
            state = state_from_volume input created;
            failed = some e;
          })
          (λ ready. finish (record {
            id = scoped_id place.zone place.project ready.id;
            state = state_from_volume input ready;
            failed = none;
          }))
          (r, s)).0.id
        ≡ scoped_id place.zone place.project created.id
  unfolding finish
  waited-id input (ok ready) s h = ap (λ (id : String). scoped_id place.zone place.project id) h.0
  waited-id input (err e) s h = refl

  -- Once the API has made a volume, the identifier that is returned is that volume's, however the wait
  -- for it ends.
  pub create-keeps :
      (name : String) (args : VolumeArgs) (s t : Session T)
      → resolve_scope cfg args.project_id args.availability_zone ≡ ok place
      → create_volume T ctx
          (create_request place.project place.zone (located place.project place.zone args))
          s
        ≡ (ok created, t)
      → (create T poll cfg ctx name args false s).0.id
        ≡ scoped_id place.zone place.project created.id
  unfolding create or_return lift
  create-keeps name args s t resolved made =
      let waited = wait_volume_status T poll ctx place.project place.zone created.id in
      rw (resolved, made)
        (waited-id (located place.project place.zone args) (waited ("available" ∷ []) t).0
          (waited ("available" ∷ []) t).1
          ((wait_volume_status-IsReady T ("available" ∷ []) place.project place.zone created.id poll
              ctx).at
            t))
