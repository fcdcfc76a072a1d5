-- ===== src/Cloud/Fake/Volumes/Invariant.antt =====
-- What every sequence of calls keeps of the provider in memory: each volume stands under its own
-- identifier, and its status agrees with its attachments.
use nobus_csi.Common.{
  ℕ, ◌≡◌, refl, String, List, [], ◌∷◌, Option, none, some, inl, inr, Bool-cases, ◌==◌,
  if◌then◌else◌,
}
use nobus_csi.Common.Int.{ℤ, ltb_ℤ}
use nobus_csi.Common.Assoc.{lookup}
use nobus_csi.Common.Assoc.Entries.{Entries, insert-Entries, erase-Entries, lookup-Entries, Found}
use nobus_csi.Cloud.Types.{
  VolumeSpec, Volume, Attachment, SnapshotSpec, InstanceMetadata, volume_available, volume_in_use,
}
use nobus_csi.Cloud.Fake.State.{Fake, new_fake, elsewhere}
use nobus_csi.Cloud.Fake.Volumes.{
  new_volume, add_volume, create_or_reuse, create_volume, delete_volume, resize_found,
  resize_volume, attach_to, attach_found, attach_volume, detach_found, detach_volume, detached,
  device_of, without_node, is_empty,
}
use nobus_csi.Cloud.Fake.Snapshots.{create_snapshot, delete_snapshot}
use nobus_csi.Cloud.Fake.Snapshots.Frame.{create_snapshot-volumes, delete_snapshot-volumes}

-- The calls that may change the provider.
pub data Call : Type 0 where
  create : VolumeSpec → Call
  delete : String → Call
  resize : String → ℤ → String → Call
  attach detach : String → String → String → Call
  snapshot : SnapshotSpec → Call
  drop_snapshot : String → String → Call

abbrev pub perform : Call → Fake → Fake
perform (create spec) f = (create_volume spec f).1
perform (delete id) f = (delete_volume id f).1
perform (resize id size zone) f = (resize_volume id size zone f).1
perform (attach id node zone) f = (attach_volume id node zone f).1
perform (detach id node zone) f = (detach_volume id node zone f).1
perform (snapshot spec) f = (create_snapshot spec f).1
perform (drop_snapshot id zone) f = (delete_snapshot id zone f).1

abbrev pub perform_all : List Call → Fake → Fake
perform_all [] f = f
perform_all (c ∷ cs) f = perform_all cs (perform c f)

-- No attachment and available, or one attachment, with the volume's own device, and in use.
abbrev Attached : String → String → List Attachment → Type 0
Attached id status [] = status ≡ volume_available
Attached id status (a ∷ []) = (status ≡ volume_in_use) × (a.device_path ≡ device_of id)
Attached id status (a ∷ b ∷ rest) = ⊥

abbrev pub Sound : String → Volume → Type 0
Sound id v = (v.id ≡ id) × Attached id v.status v.attachments

abbrev Kept : Fake → Type 0
Kept f = Entries Sound f.volumes

create_or_reuse-Kept :
    (o : Option Volume) (spec : VolumeSpec) (f : Fake) → Kept f → Kept (create_or_reuse o spec f).1
unfolding create_or_reuse add_volume new_volume
create_or_reuse-Kept none spec f h = insert-Entries Sound _ _ f.volumes (refl, refl) h
create_or_reuse-Kept (some v) spec f h = h

resize_found-Kept :
    (o : Option Volume) (id : String) (size : ℤ) (zone : String) (f : Fake)
    → Found Sound id o
    → Kept f
    → Kept (resize_found o id size zone f).1
unfolding resize_found
resize_found-Kept none id size zone f o h = h
resize_found-Kept (some v) id size zone f o h =
    elim (Bool-cases (elsewhere zone v.availability_zone)) [
      | inl away ↦ rw away h
      | inr here ↦ elim (Bool-cases (ltb_ℤ size v.size_bytes)) [
        | inl less ↦ rw (here, less) h
        | inr more ↦ rw (here, more) (insert-Entries Sound id _ f.volumes o h)
      ]
    ]

attach_to-Kept :
    (as_read : List Attachment) (v : Volume) (id node : String) (f : Fake)
    → v.id ≡ id
    → Kept f
    → Kept (attach_to as_read v id node f).1
unfolding attach_to
attach_to-Kept [] v id node f e h =
    insert-Entries Sound id
      (record v {
        attachments = record { instance_id = node; device_path = device_of id } ∷ [];
        status = volume_in_use;
      })
      f.volumes (e, (refl, refl)) h
attach_to-Kept (a ∷ rest) v id node f e h = elim (Bool-cases (a.instance_id == node)) [
  | inl same ↦ rw same h
  | inr other ↦ rw other h
]

attach_found-Kept :
    (o : Option Volume) (id node zone : String) (f : Fake)
    → Found Sound id o
    → Kept f
    → Kept (attach_found o id node zone f).1
unfolding attach_found
attach_found-Kept none id node zone f o h = h
attach_found-Kept (some v) id node zone f o h =
    elim (Bool-cases (elsewhere zone v.availability_zone)) [
      | inl away ↦ rw away h
      | inr here ↦ rw here (attach_to-Kept v.attachments v id node f o.0 h)
    ]

detached-Attached :
    (attached : List Attachment) (id node status : String)
    → Attached id status attached
    → Attached id
        (if is_empty (without_node node attached) then volume_available else status)
        (without_node node attached)
detached-Attached [] id node status h = refl
detached-Attached (a ∷ []) id node status h = elim (Bool-cases (a.instance_id == node)) [
  | inl same ↦ rw same refl
  | inr other ↦ rw other h
]
detached-Attached (a ∷ b ∷ rest) id node status h = absurd h

detach_found-Kept :
    (o : Option Volume) (id node zone : String) (f : Fake)
    → Found Sound id o
    → Kept f
    → Kept (detach_found o id node zone f).1
unfolding detach_found
detach_found-Kept none id node zone f o h = h
detach_found-Kept (some v) id node zone f o h =
    elim (Bool-cases (elsewhere zone v.availability_zone)) [
      | inl away ↦ rw away h
      | inr here ↦ rw here (
          insert-Entries Sound id (detached node v) f.volumes
            (o.0, detached-Attached v.attachments id node v.status o.1) h)
    ]

same_volumes-Kept : (f g : Fake) → g.volumes ≡ f.volumes → Kept f → Kept g
same_volumes-Kept f g e h = rw e h

perform-Kept : (c : Call) (f : Fake) → Kept f → Kept (perform c f)
unfolding create_volume delete_volume resize_volume attach_volume detach_volume
perform-Kept (create spec) f h = create_or_reuse-Kept _ spec f h
perform-Kept (delete id) f h = erase-Entries Sound id f.volumes h
perform-Kept (resize id size zone) f h =
    resize_found-Kept (lookup id f.volumes) id size zone f (lookup-Entries Sound id f.volumes h) h
perform-Kept (attach id node zone) f h =
    attach_found-Kept (lookup id f.volumes) id node zone f (lookup-Entries Sound id f.volumes h) h
perform-Kept (detach id node zone) f h =
    detach_found-Kept (lookup id f.volumes) id node zone f (lookup-Entries Sound id f.volumes h) h
perform-Kept (snapshot spec) f h =
    same_volumes-Kept f (create_snapshot spec f).1 (create_snapshot-volumes spec f) h
perform-Kept (drop_snapshot id zone) f h =
    same_volumes-Kept f (delete_snapshot id zone f).1 (delete_snapshot-volumes id zone f) h

perform_all-Kept : (cs : List Call) (f : Fake) → Kept f → Kept (perform_all cs f)
perform_all-Kept [] f h = h
perform_all-Kept (c ∷ cs) f h = perform_all-Kept cs (perform c f) (perform-Kept c f h)

-- After any sequence of calls to a new provider, what is found under an identifier is a volume with
-- that identifier, and either it has no attachment and is available, or it has one attachment, at
-- the volume's own device, and is in use.
pub perform_all-Sound :
    (cs : List Call) (metadata : InstanceMetadata) (now : ℕ) (id : String)
    → Found Sound id (lookup id (perform_all cs (new_fake metadata now)).volumes)
unfolding new_fake
perform_all-Sound cs metadata now id =
    lookup-Entries Sound id (perform_all cs (new_fake metadata now)).volumes
      (perform_all-Kept cs (new_fake metadata now) tt)
