-- ===== src/Cloud/Fake/Volumes/Again.antt =====
-- `CreateVolume` again of the provider in memory: a second call of the same specification.
use nobus_csi.Common.{
  ◌≡◌, refl, Bool, true, false, String, ◌<>◌, [], ◌∷◌, none, some, arith, inl, inr, Bool-cases,
  Option-cases, ◌==◌, eq_refl, eq_iff, same,
}
use nobus_csi.Common.Int.{ℤ, pos, negsuc, eqb_ℤ}
use nobus_csi.Common.Assoc.{Assoc, insert, values}
use nobus_csi.Common.Decimal.{itoa}
use nobus_csi.Cloud.Types.{VolumeSpec, Volume}
use nobus_csi.Cloud.Fake.State.{Fake}
use nobus_csi.Cloud.Fake.Volumes.{
  find_volume, new_volume, add_volume, create_or_reuse, create_volume, differs,
  provider_volume_type,
}

-- The new volume is the only one of its name.
find_volume-insert :
    (name id : String) (v : Volume) (m : Assoc Volume)
    → find_volume name (values m) ≡ none
    → v.name ≡ name
    → find_volume name (values (insert id v m)) ≡ some v
unfolding find_volume
find_volume-insert name id v [] h e = ground (arith, eq_iff v.name name)
find_volume-insert name id v ((j, w) ∷ m) h e =
    ground
      (arith, eq_iff v.name name, eq_iff w.name name, eq_iff j id, find_volume-insert name id v m)

same_refl : (b : Bool) → same b b ≡ true
same_refl true = refl
same_refl false = refl

eqb_ℤ_refl : (a : ℤ) → eqb_ℤ a a ≡ true
eqb_ℤ_refl (pos n) = ground arith
eqb_ℤ_refl (negsuc n) = ground arith

new_volume-fits : (id : String) (spec : VolumeSpec) → differs (new_volume id spec) spec ≡ false
unfolding differs new_volume provider_volume_type
new_volume-fits id spec = elim (Bool-cases (spec.volume_type == "")) [
  | inl plain ↦
      rw
        (
          plain,
          eqb_ℤ_refl spec.size_bytes,
          eq_refl spec.availability_zone,
          same_refl spec.encrypted,
        )
        refl
  | inr given ↦
      rw
        (
          given,
          eqb_ℤ_refl spec.size_bytes,
          eq_refl spec.availability_zone,
          same_refl spec.encrypted,
          eq_refl spec.volume_type,
        )
        refl
]

-- Creating a volume a second time by the same specification answers as the first time did, a volume
-- or an error, and leaves the provider as it was.
pub create_volume-again :
    (spec : VolumeSpec) (f : Fake)
    → create_volume spec (create_volume spec f).1 ≡ create_volume spec f
unfolding create_volume create_or_reuse add_volume new_volume
create_volume-again spec f = elim (Option-cases (find_volume spec.name (values f.volumes))) [
  | inl fresh ↦
      rw
        (
          fresh,
          find_volume-insert spec.name ("vol-" <> itoa f.next_volume)
              (new_volume ("vol-" <> itoa f.next_volume) spec) f.volumes fresh refl,
          new_volume-fits ("vol-" <> itoa f.next_volume) spec,
        )
        refl
  | inr (v, taken) ↦ rw (taken, taken) refl
]
