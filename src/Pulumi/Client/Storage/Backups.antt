-- ===== src/Pulumi/Client/Storage/Backups.antt =====
-- backup.go: the client's calls about backups.
use nobus_csi.Common.{ℕ, String, List, [], ◌∷◌, ◌++◌, Option, none, some, ◌==◌, if◌then◌else◌}
use nobus_csi.Common.Assoc.{Dict}
use nobus_csi.Common.Text.{or_else}
use nobus_csi.Cloud.Errors.{Sentinel, Result, ok, err, sentinel}
use nobus_csi.Cloud.Interface.{Run}
use nobus_csi.Cloud.Run.{return, lift, ◌>>=◌}
use nobus_csi.Pulumi.Client.Shapes.{no_payload, backup_payload, Backup, CreateBackupRequest}
use nobus_csi.Pulumi.Client.Calls.{
  Transport, Session, Context, request, project_query, do_request, decoded, ignored, is_wanted,
}
use nobus_csi.Pulumi.Client.Lists.{decode_list}
use nobus_csi.Pulumi.Client.Waits.{wait_until}

abbrev backup_path : String
backup_path = "/api/v3/volume/backup"

-- A reply with no identifier means that there is no such backup.
unfoldable pub found_backup : Backup → Result Backup
found_backup backup = if backup.id == "" then err (sentinel Sentinel.not_found) else ok backup

-- A backup whose zone the API left out is in the one that was asked for.
unfoldable pub in_asked_zone : String → Backup → Backup
in_asked_zone zone b = record b { availability_zone = or_else b.availability_zone zone }

abbrev with_backup : String → String → String → Dict
with_backup project zone id = project_query project zone ++ ("backup_id", id) ∷ []

module _ (T : Transport) where
  unfoldable pub create_backup : Context → CreateBackupRequest → Run (Session T) Backup
  unfolding in_asked_zone
  create_backup ctx req = do
    created ←
        do_request T ctx (request "POST" backup_path none (backup_payload req))
          (λ b. decoded T (T.as_backup b))
    return (in_asked_zone req.availability_zone created)

  unfoldable pub list_backups : Context → String → String → Run (Session T) (List Backup)
  list_backups ctx project zone = do
    listed ←
        do_request T ctx
          (request "GET" "/api/v3/volume/backup/list" (some (project_query project zone))
            no_payload)
          (λ b. decoded T (T.as_backups b))
    lift (decode_list listed)

  unfoldable pub get_backup : Context → String → String → String → Run (Session T) Backup
  unfolding found_backup
  get_backup ctx project zone id = do
    backup ←
        do_request T ctx (request "GET" backup_path (some (with_backup project zone id)) no_payload)
          (λ b. decoded T (T.as_backup b))
    lift (found_backup backup)

  unfoldable pub delete_backup : Context → String → String → String → Run (Session T) Unit
  delete_backup ctx project zone id =
      do_request T ctx
        (request "DELETE" backup_path (some (with_backup project zone id)) no_payload) (ignored T)

  look_for_status :
      List String → String → String → String → Context → Run (Session T) (Option Backup)
  look_for_status want project zone id ctx = do
    backup ← get_backup ctx project zone id
    return (if is_wanted T want backup.status then some backup else none)

  unfoldable pub wait_backup_status :
      ℕ → Context → String → String → String → List String → Run (Session T) Backup
  unfolding look_for_status
  wait_backup_status poll ctx project zone id want =
      wait_until T poll ctx 600_000 (look_for_status want project zone id)
