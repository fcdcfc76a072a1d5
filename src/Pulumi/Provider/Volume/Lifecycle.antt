-- ===== src/Pulumi/Provider/Volume/Lifecycle.antt =====
-- `Create`, `Read`, `Update` and `Delete` of the resource Volume.
use nobus_csi.Common.{ℕ, Bool, String, [], ◌∷◌, none, some, if◌then◌else◌}
use nobus_csi.Common.Int.{pos, eqb_ℤ}
use nobus_csi.Common.Text.{or_else}
use nobus_csi.Cloud.Errors.{Sentinel, Error, errors_is}
use nobus_csi.Cloud.Interface.{Run}
use nobus_csi.Cloud.Run.{lift, ◌>>=◌}
use nobus_csi.Pulumi.Client.Shapes.{CreateVolumeRequest, UpdateVolumeRequest}
use nobus_csi.Pulumi.Client.Calls.{Transport, Session, Context}
use nobus_csi.Pulumi.Client.Storage.{
  create_volume, get_volume, update_volume, delete_volume, wait_volume_status,
}
use nobus_csi.Pulumi.Provider.Scope.{
  Config, scoped_id, bare_resource_id, resolve_scope, resolve_import,
}
use nobus_csi.Pulumi.Provider.Steps.{Created, Reading, Updated, finish, or_return, gone_is_fine}
use nobus_csi.Pulumi.Provider.Volume.{
  VolumeArgs, VolumeState, no_args, no_state, plain, state_from_volume,
}

abbrev pub create_request : String → String → VolumeArgs → CreateVolumeRequest
create_request project zone input = record {
  size = input.size;
  name = input.name;
  description = input.description;
  volume_type = input.volume_type;
  availability_zone = zone;
  snapshot_id = bare_resource_id input.snapshot_id;
  source_vol_id = bare_resource_id input.source_vol_id;
  image_ref = bare_resource_id input.image_ref;
  metadata = input.metadata;
  multiattach = input.multiattach;
  project_id = project;
}

abbrev update_request : String → String → VolumeArgs → UpdateVolumeRequest
update_request project zone news = record {
  name = news.name;
  description = news.description;
  metadata = news.metadata;
  project_id = project;
  availability_zone = zone;
}

abbrev refused : Error → Created VolumeState
refused e = record { id = ""; state = no_state; failed = some e }

abbrev pub located : String → String → VolumeArgs → VolumeArgs
located project zone a = record a { project_id = project; availability_zone = zone }

module _ (T : Transport) (poll : ℕ) (cfg : Config) (ctx : Context) where
  unfoldable pub create : String → VolumeArgs → Bool → Session T → Created VolumeState × Session T
  create name args preview =
      or_return (lift (resolve_scope cfg args.project_id args.availability_zone)) refused (λ place.
        let project = place.project in
        let zone = place.zone in
        let input = located project zone args in
        if preview
        then finish
            (record { id = scoped_id zone project name; state = plain input; failed = none })
        else or_return (create_volume T ctx (create_request project zone input)) refused (λ created.
          or_return (wait_volume_status T poll ctx project zone created.id ("available" ∷ []))
            (λ e. record {
              id = scoped_id zone project created.id;
              state = state_from_volume input created;
              failed = some e;
            })
            (λ ready. finish (record {
              id = scoped_id zone project ready.id;
              state = state_from_volume input ready;
              failed = none;
            }))))

  unfoldable pub read :
      String → VolumeArgs → VolumeState → Session T → Reading VolumeArgs VolumeState × Session T
  read id inputs state =
      let kept : Error → Reading VolumeArgs VolumeState =
        λ e. record { id = id; args = inputs; state = state; failed = some e } in
      or_return
        (lift (
          resolve_import cfg id (or_else state.args.project_id inputs.project_id)
            (or_else state.args.availability_zone inputs.availability_zone)))
        kept
        (λ place.
          or_return (get_volume T ctx place.project place.zone place.id)
            (λ e.
              if errors_is e Sentinel.not_found
              then record { id = ""; args = no_args; state = no_state; failed = none }
              else kept e)
            (λ got.
              let known = if eqb_ℤ state.args.size (pos 0) then inputs else state.args in
              let seen = state_from_volume (located place.project place.zone known) got in
              finish (record {
                id = scoped_id place.zone place.project got.id;
                args = seen.args;
                state = seen;
                failed = none;
              })))

  unfoldable pub update :
      String → VolumeState → VolumeArgs → Bool → Session T → Updated VolumeState × Session T
  update id olds news preview =
      or_return
        (lift (
          resolve_import cfg id (or_else news.project_id olds.args.project_id)
            (or_else news.availability_zone olds.args.availability_zone)))
        (λ e. record { state = olds; failed = some e })
        (λ place.
          let input = located place.project place.zone news in
          let state : VolumeState = record olds { args = input } in
          if preview
          then finish (record { state = state; failed = none })
          else or_return
              (update_volume T ctx place.id (update_request place.project place.zone input))
              (λ e. record { state = state; failed = some e })
              (λ updated.
                finish (record { state = state_from_volume input updated; failed = none })))

  unfoldable pub delete : String → VolumeState → Run (Session T) Unit
  delete id state = do
    place ← lift (resolve_import cfg id state.args.project_id state.args.availability_zone)
    gone_is_fine (delete_volume T ctx place.project place.zone place.id)
