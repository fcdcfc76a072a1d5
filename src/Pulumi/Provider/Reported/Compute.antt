-- ===== src/Pulumi/Provider/Reported/Compute.antt =====
-- The fields of key pairs and instances, and what the differences report of them.
use nobus_csi.Common.{refl, List, [], ◌∷◌}
use nobus_csi.Pulumi.Provider.Diff.Fields.{Field, Reports, steps, compare_all-Reports}
use nobus_csi.Pulumi.Provider.Diff.Kinds.{
  given, given_id, given_late, given_optional, identifiers, optional_flag, plain_text, replaced,
  updated,
}
use nobus_csi.Pulumi.Provider.KeyPair as KeyPair
use nobus_csi.Pulumi.Provider.Instance as Instance

abbrev pub key_pair_fields : KeyPair.KeyPairArgs → KeyPair.KeyPairArgs → List Field
key_pair_fields old new =
    given_late replaced "availabilityZone" old.availability_zone new.availability_zone
    ∷ given_late replaced "name" old.name new.name
    ∷ given_late replaced "projectId" old.project_id new.project_id
    ∷ []

pub key_pair-Reports :
    (s : KeyPair.KeyPairState) (new : KeyPair.KeyPairArgs)
    → Reports (key_pair_fields s.args new) (KeyPair.diff s new)
unfolding KeyPair.diff steps
key_pair-Reports s new = compare_all-Reports (key_pair_fields s.args new) refl

abbrev pub instance_fields : Instance.InstanceArgs → Instance.InstanceArgs → List Field
instance_fields old new =
    given replaced "availabilityZone" old.availability_zone new.availability_zone
    ∷ given_id replaced "image" old.image new.image
    ∷ given replaced "keyName" old.key_name new.key_name
    ∷ given_id replaced "networkId" old.network_id new.network_id
    ∷ given_optional replaced "volumeSize" old.volume_size new.volume_size
    ∷ plain_text replaced "userData" old.user_data new.user_data
    ∷ given replaced "adminPass" old.admin_pass new.admin_pass
    ∷ given updated "name" old.name new.name
    ∷ given_id updated "flavor" old.flavor new.flavor
    ∷ identifiers updated "securityGroups" old.security_groups new.security_groups
    ∷ identifiers updated "tags" old.tags new.tags
    ∷ optional_flag updated "deleteVolume" old.delete_volume new.delete_volume
    ∷ []

pub instance-Reports :
    (s : Instance.InstanceState) (new : Instance.InstanceArgs)
    → Reports (instance_fields s.args new) (Instance.diff s new)
unfolding Instance.diff steps
instance-Reports s new = compare_all-Reports (instance_fields s.args new) refl
