-- ===== src/Pulumi/Provider/VolumeSnapshot/Lifecycle.antt =====
-- `Create`, `Read` and `Delete` of the resource VolumeSnapshot.
use nobus_csi.Common.{ℕ, Bool, String, [], ◌∷◌, none, some, ◌==◌, if◌then◌else◌}
use nobus_csi.Common.Text.{or_else}
use nobus_csi.Cloud.Errors.{Sentinel, Error, errors_is}
use nobus_csi.Cloud.Interface.{Run}
use nobus_csi.Cloud.Run.{lift, ◌>>=◌}
use nobus_csi.Pulumi.Client.Shapes.{CreateSnapshotRequest}
use nobus_csi.Pulumi.Client.Calls.{Transport, Session, Context}
use nobus_csi.Pulumi.Client.Storage.Snapshots.{
  create_snapshot, get_snapshot, delete_snapshot, wait_snapshot_status,
}
use nobus_csi.Pulumi.Provider.Scope.{
  Config, scoped_id, bare_resource_id, resolve_scope, resolve_import,
}
use nobus_csi.Pulumi.Provider.Steps.{Created, Reading, finish, or_return, gone_is_fine}
use nobus_csi.Pulumi.Provider.VolumeSnapshot.{
  VolumeSnapshotArgs, VolumeSnapshotState, no_args, no_state, plain, state_from_snapshot,
}

abbrev create_request : String → String → VolumeSnapshotArgs → CreateSnapshotRequest
create_request project zone input = record {
  volume_id = input.volume_id;
  name = input.name;
  description = input.description;
  force = input.force;
  metadata = input.metadata;
  project_id = project;
  availability_zone = zone;
}

abbrev refused : Error → Created VolumeSnapshotState
refused e = record { id = ""; state = no_state; failed = some e }

abbrev located : String → String → VolumeSnapshotArgs → VolumeSnapshotArgs
located project zone a = record a { project_id = project; availability_zone = zone }

-- The arguments as they are created with: bare identifiers, in their place.
abbrev placed : String → String → VolumeSnapshotArgs → VolumeSnapshotArgs
placed project zone a = record (located project zone a) { volume_id = bare_resource_id a.volume_id }

module _ (T : Transport) (poll : ℕ) (cfg : Config) (ctx : Context) where
  unfoldable pub create :
      String → VolumeSnapshotArgs → Bool → Session T → Created VolumeSnapshotState × Session T
  create name args preview =
      or_return (lift (resolve_scope cfg args.project_id args.availability_zone)) refused (λ place.
        let project = place.project in
        let zone = place.zone in
        let input = placed project zone args in
        if preview
        then finish
            (record { id = scoped_id zone project name; state = plain input; failed = none })
        else or_return (create_snapshot T ctx (create_request project zone input)) refused
            (λ created.
              or_return (wait_snapshot_status T poll ctx project zone created.id ("available" ∷ []))
                (λ e. record {
                  id = scoped_id zone project created.id;
                  state = state_from_snapshot input created;
                  failed = some e;
                })
                (λ ready. finish (record {
                  id = scoped_id zone project ready.id;
                  state = state_from_snapshot input ready;
                  failed = none;
                }))))

  unfoldable pub read :
      String
      → VolumeSnapshotArgs
      → VolumeSnapshotState
      → Session T
      → Reading VolumeSnapshotArgs VolumeSnapshotState × Session T
  read id inputs state =
      let kept : Error → Reading VolumeSnapshotArgs VolumeSnapshotState =
        λ e. record { id = id; args = inputs; state = state; failed = some e } in
      or_return
        (lift (
          resolve_import cfg id (or_else state.args.project_id inputs.project_id)
            (or_else state.args.availability_zone inputs.availability_zone)))
        kept
        (λ place.
          or_return (get_snapshot T ctx place.project place.zone place.id)
            (λ e.
              if errors_is e Sentinel.not_found
              then record { id = ""; args = no_args; state = no_state; failed = none }
              else kept e)
            (λ got.
              let known = if state.args.volume_id == "" then inputs else state.args in
              let seen = state_from_snapshot (located place.project place.zone known) got in
              finish (record {
                id = scoped_id place.zone place.project got.id;
                args = seen.args;
                state = seen;
                failed = none;
              })))

  unfoldable pub delete : String → VolumeSnapshotState → Run (Session T) Unit
  delete id state = do
    place ← lift (resolve_import cfg id state.args.project_id state.args.availability_zone)
    gone_is_fine (delete_snapshot T ctx place.project place.zone place.id)
