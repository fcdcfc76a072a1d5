-- ===== src/Pulumi/Provider/Reported/Storage.antt =====
-- The fields of volumes, attachments, snapshots and backups, and what the differences report of them.
use nobus_csi.Common.{refl, List, [], ◌∷◌}
use nobus_csi.Pulumi.Provider.Diff.Fields.{Field, Reports, steps, compare_all-Reports}
use nobus_csi.Pulumi.Provider.Diff.Kinds.{
  flag, given, given_id, given_number, metadata, plain_id, plain_text, replaced, updated,
}
use nobus_csi.Pulumi.Provider.Volume as Volume
use nobus_csi.Pulumi.Provider.VolumeAttachment as VolumeAttachment
use nobus_csi.Pulumi.Provider.VolumeSnapshot as VolumeSnapshot
use nobus_csi.Pulumi.Provider.VolumeBackup as VolumeBackup

abbrev pub volume_fields : Volume.VolumeArgs → Volume.VolumeArgs → List Field
volume_fields old new =
    given replaced "availabilityZone" old.availability_zone new.availability_zone
    ∷ given_number replaced "size" old.size new.size
    ∷ given replaced "volumeType" old.volume_type new.volume_type
    ∷ given replaced "snapshotId" old.snapshot_id new.snapshot_id
    ∷ given replaced "sourceVolId" old.source_vol_id new.source_vol_id
    ∷ given replaced "imageRef" old.image_ref new.image_ref
    ∷ given updated "name" old.name new.name
    ∷ plain_text updated "description" old.description new.description
    ∷ metadata updated "metadata" old.metadata new.metadata
    ∷ []

pub volume-Reports :
    (s : Volume.VolumeState) (new : Volume.VolumeArgs)
    → Reports (volume_fields s.args new) (Volume.diff s new)
unfolding Volume.diff steps
volume-Reports s new = compare_all-Reports (volume_fields s.args new) refl

abbrev pub volume_attachment_fields :
    VolumeAttachment.VolumeAttachmentArgs → VolumeAttachment.VolumeAttachmentArgs → List Field
volume_attachment_fields old new =
    given replaced "availabilityZone" old.availability_zone new.availability_zone
    ∷ given_id replaced "volumeId" old.volume_id new.volume_id
    ∷ given_id replaced "instanceId" old.instance_id new.instance_id
    ∷ []

pub volume_attachment-Reports :
    (s : VolumeAttachment.VolumeAttachmentState) (new : VolumeAttachment.VolumeAttachmentArgs)
    → Reports (volume_attachment_fields s.args new) (VolumeAttachment.diff s new)
unfolding VolumeAttachment.diff steps
volume_attachment-Reports s new = compare_all-Reports (volume_attachment_fields s.args new) refl

abbrev pub volume_snapshot_fields :
    VolumeSnapshot.VolumeSnapshotArgs → VolumeSnapshot.VolumeSnapshotArgs → List Field
volume_snapshot_fields old new =
    given replaced "availabilityZone" old.availability_zone new.availability_zone
    ∷ given_id replaced "volumeId" old.volume_id new.volume_id
    ∷ given replaced "name" old.name new.name
    ∷ plain_text replaced "description" old.description new.description
    ∷ flag replaced "force" old.force new.force
    ∷ metadata replaced "metadata" old.metadata new.metadata
    ∷ []

pub volume_snapshot-Reports :
    (s : VolumeSnapshot.VolumeSnapshotState) (new : VolumeSnapshot.VolumeSnapshotArgs)
    → Reports (volume_snapshot_fields s.args new) (VolumeSnapshot.diff s new)
unfolding VolumeSnapshot.diff steps
volume_snapshot-Reports s new = compare_all-Reports (volume_snapshot_fields s.args new) refl

abbrev pub volume_backup_fields :
    VolumeBackup.VolumeBackupArgs → VolumeBackup.VolumeBackupArgs → List Field
volume_backup_fields old new =
    given replaced "availabilityZone" old.availability_zone new.availability_zone
    ∷ given_id replaced "volumeId" old.volume_id new.volume_id
    ∷ given replaced "name" old.name new.name
    ∷ plain_text replaced "description" old.description new.description
    ∷ plain_text replaced "container" old.container new.container
    ∷ flag replaced "incremental" old.incremental new.incremental
    ∷ flag replaced "force" old.force new.force
    ∷ plain_id replaced "snapshotId" old.snapshot_id new.snapshot_id
    ∷ metadata replaced "metadata" old.metadata new.metadata
    ∷ []

pub volume_backup-Reports :
    (s : VolumeBackup.VolumeBackupState) (new : VolumeBackup.VolumeBackupArgs)
    → Reports (volume_backup_fields s.args new) (VolumeBackup.diff s new)
unfolding VolumeBackup.diff steps
volume_backup-Reports s new = compare_all-Reports (volume_backup_fields s.args new) refl
