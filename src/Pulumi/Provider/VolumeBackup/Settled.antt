-- ===== src/Pulumi/Provider/VolumeBackup/Settled.antt =====
-- What still differs right after a backup was created.
use nobus_csi.Common.{
  ◌≡◌, refl, Bool, true, false, not, ◌&&◌, String, [], ◌∷◌, ◌++◌, ◌==◌, if◌then◌else◌,
}
use nobus_csi.Common.Assoc.{Assoc}
use nobus_csi.Pulumi.Client.Shapes as Api
use nobus_csi.Pulumi.Provider.Diff.{DiffKind, diff_response, replace_diff}
use nobus_csi.Pulumi.Provider.Diff.Laws.{
  same_flag, same_bare_text, settled_bare, is_map, dict_equal_self, settled_text, settled_same,
  changed_text,
}
use nobus_csi.Pulumi.Provider.VolumeBackup.{VolumeBackupArgs, state_from_backup, diff}

abbrev replaced_if : Bool → String → Assoc DiffKind
replaced_if changed field = if changed then (field, DiffKind.update_replace) ∷ [] else []

abbrev only_api : String → String → Bool
only_api asked told = asked == "" && not (told == "")

two_changes :
    (d c : Bool)
    → diff_response (replace_diff "container" c (replace_diff "description" d []))
      ≡ diff_response (replaced_if d "description" ++ replaced_if c "container")
unfolding replace_diff
two_changes true true = refl
two_changes true false = refl
two_changes false true = refl
two_changes false false = refl

-- A backup's state, as it is kept after the API told of the backup, differs from the arguments exactly
-- in the description and in the container, each where the arguments leave it empty and the API does
-- not; a backup that differs in one of them is replaced.
pub diff-state_from_backup :
    (input : VolumeBackupArgs) (backup : Api.Backup)
    → is_map input.metadata ≡ true
    → diff (state_from_backup input backup) input
      ≡ diff_response (
          replaced_if (only_api input.description backup.description) "description"
          ++ replaced_if (only_api input.container backup.container) "container")
unfolding diff state_from_backup
diff-state_from_backup input backup h =
    rw
      (
        settled_same input.availability_zone,
        settled_bare input.volume_id backup.volume_id,
        settled_text input.name backup.name,
        changed_text input.description backup.description,
        changed_text input.container backup.container,
        same_flag input.incremental,
        same_flag input.force,
        same_bare_text input.snapshot_id,
        dict_equal_self input.metadata h,
      )
      (two_changes _ _)
