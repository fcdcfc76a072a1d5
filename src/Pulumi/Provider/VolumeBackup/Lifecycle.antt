-- ===== src/Pulumi/Provider/VolumeBackup/Lifecycle.antt =====
-- `Create`, `Read` and `Delete` of the resource VolumeBackup.
use nobus_csi.Common.{ℕ, Bool, String, [], ◌∷◌, none, some, ◌==◌, if◌then◌else◌}
use nobus_csi.Common.Text.{or_else}
use nobus_csi.Cloud.Errors.{Sentinel, Error, errors_is}
use nobus_csi.Cloud.Interface.{Run}
use nobus_csi.Cloud.Run.{lift, ◌>>=◌}
use nobus_csi.Pulumi.Client.Shapes.{CreateBackupRequest}
use nobus_csi.Pulumi.Client.Calls.{Transport, Session, Context}
use nobus_csi.Pulumi.Client.Storage.Backups.{
  create_backup, get_backup, delete_backup, wait_backup_status,
}
use nobus_csi.Pulumi.Provider.Scope.{
  Config, scoped_id, bare_resource_id, resolve_scope, resolve_import,
}
use nobus_csi.Pulumi.Provider.Steps.{Created, Reading, finish, or_return, gone_is_fine}
use nobus_csi.Pulumi.Provider.VolumeBackup.{
  VolumeBackupArgs, VolumeBackupState, no_args, no_state, plain, state_from_backup,
}

abbrev create_request : String → String → VolumeBackupArgs → CreateBackupRequest
create_request project zone input = record {
  volume_id = input.volume_id;
  name = input.name;
  description = input.description;
  container = input.container;
  incremental = input.incremental;
  force = input.force;
  snapshot_id = input.snapshot_id;
  metadata = input.metadata;
  project_id = project;
  availability_zone = zone;
}

abbrev refused : Error → Created VolumeBackupState
refused e = record { id = ""; state = no_state; failed = some e }

abbrev located : String → String → VolumeBackupArgs → VolumeBackupArgs
located project zone a = record a { project_id = project; availability_zone = zone }

-- The arguments as they are created with: bare identifiers, in their place.
abbrev placed : String → String → VolumeBackupArgs → VolumeBackupArgs
placed project zone a = record (located project zone a) {
  volume_id = bare_resource_id a.volume_id;
  snapshot_id = bare_resource_id a.snapshot_id;
}

module _ (T : Transport) (poll : ℕ) (cfg : Config) (ctx : Context) where
  unfoldable pub create :
      String → VolumeBackupArgs → Bool → Session T → Created VolumeBackupState × Session T
  create name args preview =
      or_return (lift (resolve_scope cfg args.project_id args.availability_zone)) refused (λ place.
        let project = place.project in
        let zone = place.zone in
        let input = placed project zone args in
        if preview
        then finish
            (record { id = scoped_id zone project name; state = plain input; failed = none })
        else or_return (create_backup T ctx (create_request project zone input)) refused (λ created.
          or_return (wait_backup_status T poll ctx project zone created.id ("available" ∷ []))
            (λ e. record {
              id = scoped_id zone project created.id;
              state = state_from_backup input created;
              failed = some e;
            })
            (λ ready. finish (record {
              id = scoped_id zone project ready.id;
              state = state_from_backup input ready;
              failed = none;
            }))))

  unfoldable pub read :
      String
      → VolumeBackupArgs
      → VolumeBackupState
      → Session T
      → Reading VolumeBackupArgs VolumeBackupState × Session T
  read id inputs state =
      let kept : Error → Reading VolumeBackupArgs VolumeBackupState =
        λ e. record { id = id; args = inputs; state = state; failed = some e } in
      or_return
        (lift (
          resolve_import cfg id (or_else state.args.project_id inputs.project_id)
            (or_else state.args.availability_zone inputs.availability_zone)))
        kept
        (λ place.
          or_return (get_backup T ctx place.project place.zone place.id)
            (λ e.
              if errors_is e Sentinel.not_found
              then record { id = ""; args = no_args; state = no_state; failed = none }
              else kept e)
            (λ got.
              let known = if state.args.volume_id == "" then inputs else state.args in
              let seen = state_from_backup (located place.project place.zone known) got in
              finish (record {
                id = scoped_id place.zone place.project got.id;
                args = seen.args;
                state = seen;
                failed = none;
              })))

  unfoldable pub delete : String → VolumeBackupState → Run (Session T) Unit
  delete id state = do
    place ← lift (resolve_import cfg id state.args.project_id state.args.availability_zone)
    gone_is_fine (delete_backup T ctx place.project place.zone place.id)
