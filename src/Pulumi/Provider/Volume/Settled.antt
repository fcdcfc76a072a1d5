-- ===== src/Pulumi/Provider/Volume/Settled.antt =====
-- What still differs right after a volume was created or updated.
use nobus_csi.Common.{◌≡◌, refl, true, false, not, ◌&&◌, [], ◌∷◌, ◌==◌, arith, if◌then◌else◌}
use nobus_csi.Common.Int.{ℤ, pos, eqb_ℤ}
use nobus_csi.Pulumi.Client.Shapes as Api
use nobus_csi.Pulumi.Provider.Diff.{DiffKind, diff_response}
use nobus_csi.Pulumi.Provider.Diff.Laws.{
  eqb_ℤ_self, is_map, dict_equal_self, settled_text, settled_same, changed_text,
}
use nobus_csi.Pulumi.Provider.Volume.{VolumeArgs, state_from_volume, diff}

settled_size :
    (a b : ℤ) → (not (eqb_ℤ a (pos 0)) && not (eqb_ℤ (if eqb_ℤ a (pos 0) then b else a) a)) ≡ false
settled_size a b = ground (arith, eqb_ℤ_self a)

-- A volume's state, as it is kept after the API told of the volume, differs from the arguments exactly
-- in the description, and only where the arguments leave it empty and the API does not.
pub diff-state_from_volume :
    (input : VolumeArgs) (vol : Api.Volume)
    → is_map input.metadata ≡ true
    → diff (state_from_volume input vol) input
      ≡ diff_response (
          if input.description == "" && not (vol.description == "")
          then ("description", DiffKind.update) ∷ []
          else [])
unfolding diff state_from_volume
diff-state_from_volume input vol h =
    rw
      (
        settled_same input.availability_zone,
        settled_size input.size vol.size,
        settled_text input.volume_type vol.volume_type,
        settled_same input.snapshot_id,
        settled_same input.source_vol_id,
        settled_same input.image_ref,
        settled_text input.name vol.name,
        changed_text input.description vol.description,
        dict_equal_self input.metadata h,
      )
      refl
