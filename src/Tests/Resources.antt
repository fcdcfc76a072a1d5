-- ===== src/Tests/Resources.antt =====
-- The properties of all resources of the Pulumi provider, at concrete inputs.
use nobus_csi.Common.{◌≡◌, refl, false, [], ◌∷◌, some}
use nobus_csi.Cloud.Errors.{ok}
use nobus_csi.Cloud.Run.{◌>>=◌}
use nobus_csi.Pulumi.Client.Shapes.Networks.{NetworkSetup}
use nobus_csi.Pulumi.Client.Networks.{create_network_bundle}
use nobus_csi.Pulumi.Client.Calls.{Transport, Session, do_request}
use nobus_csi.Pulumi.Provider.Scope.{bare_resource_id}
use nobus_csi.Pulumi.Provider.Volume.{VolumeArgs, state_from_volume, diff}
use nobus_csi.Pulumi.Provider.Volume as Volume
use nobus_csi.Pulumi.Provider.VolumeBackup as Backup
use nobus_csi.Pulumi.Provider.Instance as Instance
use nobus_csi.Pulumi.Provider.KeyPair as KeyPair
use nobus_csi.Pulumi.Provider.VolumeAttachment as VolumeAttachment
use nobus_csi.Pulumi.Provider.Network as Network
use nobus_csi.Pulumi.Provider.Subnet as Subnet
use nobus_csi.Pulumi.Provider.Port as Port
use nobus_csi.Pulumi.Provider.Router as Router
use nobus_csi.Pulumi.Provider.SecurityGroup as SecurityGroup
use nobus_csi.Pulumi.Provider.SecurityGroupRule as SecurityGroupRule
use nobus_csi.Pulumi.Provider.FloatingIp as FloatingIp
use nobus_csi.Pulumi.Provider.VolumeSnapshot as VolumeSnapshot
use nobus_csi.Pulumi.Provider.Diff.Fields.{Reports}
use nobus_csi.Pulumi.Provider.Reported.{diff-Reports}
use nobus_csi.Pulumi.Provider.Reported.Compute.{key_pair_fields, instance_fields}
use nobus_csi.Pulumi.Provider.Reported.Storage.{
  volume_fields, volume_attachment_fields, volume_snapshot_fields, volume_backup_fields,
}
use nobus_csi.Pulumi.Provider.Reported.Networks.{
  network_fields, subnet_fields, port_fields, router_fields, security_group_fields,
  security_group_rule_fields, floating_ip_fields,
}
use nobus_csi.Pulumi.Provider.Network.Kept.{Kept, create-Kept}
use nobus_csi.Tests.PulumiData.{endless, one_volume_api, config}
use nobus_csi.Tests.Pulumi.{volume_args, backup_args, new_groups, here, is_here}

abbrev a_key_pair : KeyPair.KeyPairState
a_key_pair = KeyPair.plain KeyPair.no_args

abbrev a_instance : Instance.InstanceState
a_instance = Instance.plain new_groups

abbrev a_volume_attachment : VolumeAttachment.VolumeAttachmentState
a_volume_attachment = VolumeAttachment.plain VolumeAttachment.no_args

abbrev a_network : Network.NetworkState
a_network = Network.plain Network.no_args

abbrev a_subnet : Subnet.SubnetState
a_subnet = Subnet.plain Subnet.no_args

abbrev a_port : Port.PortState
a_port =
    Port.plain
      (record Port.no_args { device_id = "az1/project/srv-1"; security_groups = "b" ∷ "a" ∷ [] })

abbrev a_router : Router.RouterState
a_router = Router.plain Router.no_args

abbrev a_security_group : SecurityGroup.SecurityGroupState
a_security_group = SecurityGroup.plain SecurityGroup.no_args

abbrev a_security_group_rule : SecurityGroupRule.SecurityGroupRuleState
a_security_group_rule = SecurityGroupRule.plain SecurityGroupRule.no_args

abbrev a_floating_ip : FloatingIp.FloatingIpState
a_floating_ip = FloatingIp.plain FloatingIp.no_args

abbrev a_volume : Volume.VolumeState
a_volume = Volume.plain volume_args

abbrev a_volume_snapshot : VolumeSnapshot.VolumeSnapshotState
a_volume_snapshot = VolumeSnapshot.plain VolumeSnapshot.no_args

abbrev a_volume_backup : Backup.VolumeBackupState
a_volume_backup = Backup.plain backup_args

-- The instance gets another flavor, the network another name, the backup a container.
abbrev resized : Instance.InstanceArgs
resized = record new_groups { flavor = "m2.large" }

abbrev renamed : Network.NetworkArgs
renamed = record Network.no_args { name = "net-2" }

abbrev contained : Backup.VolumeBackupArgs
contained = record backup_args { container = "vault" }

diff-Reports_example :
    Reports
      (key_pair_fields a_key_pair.args a_key_pair.args)
      (KeyPair.diff a_key_pair a_key_pair.args)
    × Reports (instance_fields a_instance.args resized) (Instance.diff a_instance resized)
    × Reports
        (volume_attachment_fields a_volume_attachment.args a_volume_attachment.args)
        (VolumeAttachment.diff a_volume_attachment a_volume_attachment.args)
    × Reports (network_fields a_network.args renamed) (Network.diff a_network renamed)
    × Reports (subnet_fields a_subnet.args a_subnet.args) (Subnet.diff a_subnet a_subnet.args)
    × Reports (port_fields a_port.args a_port.args) (Port.diff a_port a_port.args)
    × Reports (router_fields a_router.args a_router.args) (Router.diff a_router a_router.args)
    × Reports
        (security_group_fields a_security_group.args a_security_group.args)
        (SecurityGroup.diff a_security_group a_security_group.args)
    × Reports
        (security_group_rule_fields a_security_group_rule.args a_security_group_rule.args)
        (SecurityGroupRule.diff a_security_group_rule a_security_group_rule.args)
    × Reports
        (floating_ip_fields a_floating_ip.args a_floating_ip.args)
        (FloatingIp.diff a_floating_ip a_floating_ip.args)
    × Reports (volume_fields a_volume.args a_volume.args) (Volume.diff a_volume a_volume.args)
    × Reports
        (volume_snapshot_fields a_volume_snapshot.args a_volume_snapshot.args)
        (VolumeSnapshot.diff a_volume_snapshot a_volume_snapshot.args)
    × Reports
        (volume_backup_fields a_volume_backup.args contained)
        (Backup.diff a_volume_backup contained)
diff-Reports_example =
    diff-Reports a_key_pair a_key_pair.args a_instance resized a_volume_attachment
      a_volume_attachment.args a_network renamed a_subnet a_subnet.args a_port a_port.args a_router
      a_router.args a_security_group a_security_group.args a_security_group_rule
      a_security_group_rule.args a_floating_ip a_floating_ip.args a_volume a_volume.args
      a_volume_snapshot a_volume_snapshot.args a_volume_backup contained

abbrev bundle : NetworkSetup
bundle = record { network_id = "net-1"; subnet_id = "sub-1"; router_id = "rt-1" }

-- An API that makes the network and answers nothing else.
abbrev bundle_api : Transport
bundle_api = record one_volume_api { as_network_setup = λ b. some bundle }

abbrev at_first : Session bundle_api
at_first = record { remote = 0; elapsed = 0 }

abbrev after_bundle : Session bundle_api
after_bundle = record { remote = 1; elapsed = 0 }

abbrev network_args : Network.NetworkArgs
network_args = record Network.no_args { network_name = "net"; availability_zone = "az1" }

bundled :
    create_network_bundle bundle_api endless
      (Network.create_request "project" "az1" (Network.located "project" "az1" network_args))
      at_first
    ≡ (ok bundle, after_bundle)
unfolding create_network_bundle do_request ◌>>=◌ bare_resource_id
bundled = refl

create-Kept_example :
    Kept bundle_api config endless here bundle
      (Network.create bundle_api config endless "net" network_args false at_first).0
create-Kept_example =
    create-Kept bundle_api config endless here bundle "net" network_args at_first after_bundle
      is_here bundled
