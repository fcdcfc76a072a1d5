-- ===== src/Pulumi/Provider/Reported.antt =====
-- What the differences of all thirteen resources report.
pub mod Compute
pub mod Storage
pub mod Networks
use nobus_csi.Pulumi.Provider.Diff.Fields.{Reports}
use nobus_csi.Pulumi.Provider.Reported.Compute.{
  key_pair_fields, key_pair-Reports, instance_fields, instance-Reports,
}
use nobus_csi.Pulumi.Provider.Reported.Storage.{
  volume_fields, volume-Reports, volume_attachment_fields, volume_attachment-Reports,
  volume_snapshot_fields, volume_snapshot-Reports, volume_backup_fields, volume_backup-Reports,
}
use nobus_csi.Pulumi.Provider.Reported.Networks.{
  network_fields, network-Reports, subnet_fields, subnet-Reports, port_fields, port-Reports,
  router_fields, router-Reports, security_group_fields, security_group-Reports,
  security_group_rule_fields, security_group_rule-Reports, floating_ip_fields, floating_ip-Reports,
}
use nobus_csi.Pulumi.Provider.KeyPair as KeyPair
use nobus_csi.Pulumi.Provider.Instance as Instance
use nobus_csi.Pulumi.Provider.VolumeAttachment as VolumeAttachment
use nobus_csi.Pulumi.Provider.Network as Network
use nobus_csi.Pulumi.Provider.Subnet as Subnet
use nobus_csi.Pulumi.Provider.Port as Port
use nobus_csi.Pulumi.Provider.Router as Router
use nobus_csi.Pulumi.Provider.SecurityGroup as SecurityGroup
use nobus_csi.Pulumi.Provider.SecurityGroupRule as SecurityGroupRule
use nobus_csi.Pulumi.Provider.FloatingIp as FloatingIp
use nobus_csi.Pulumi.Provider.Volume as Volume
use nobus_csi.Pulumi.Provider.VolumeSnapshot as VolumeSnapshot
use nobus_csi.Pulumi.Provider.VolumeBackup as VolumeBackup

-- The difference of any resource, between a state and new arguments, has an entry for exactly the
-- fields that have changed, each with the kind that the table of the resource gives the field, and
-- tells no change exactly where no field of the table has changed.
pub diff-Reports :
    (k : KeyPair.KeyPairState) (k_new : KeyPair.KeyPairArgs) (i : Instance.InstanceState)
    (i_new : Instance.InstanceArgs) (a : VolumeAttachment.VolumeAttachmentState)
    (a_new : VolumeAttachment.VolumeAttachmentArgs) (n : Network.NetworkState)
    (n_new : Network.NetworkArgs) (u : Subnet.SubnetState) (u_new : Subnet.SubnetArgs)
    (p : Port.PortState) (p_new : Port.PortArgs) (r : Router.RouterState)
    (r_new : Router.RouterArgs) (g : SecurityGroup.SecurityGroupState)
    (g_new : SecurityGroup.SecurityGroupArgs) (q : SecurityGroupRule.SecurityGroupRuleState)
    (q_new : SecurityGroupRule.SecurityGroupRuleArgs) (f : FloatingIp.FloatingIpState)
    (f_new : FloatingIp.FloatingIpArgs) (v : Volume.VolumeState) (v_new : Volume.VolumeArgs)
    (s : VolumeSnapshot.VolumeSnapshotState) (s_new : VolumeSnapshot.VolumeSnapshotArgs)
    (b : VolumeBackup.VolumeBackupState) (b_new : VolumeBackup.VolumeBackupArgs)
    → Reports (key_pair_fields k.args k_new) (KeyPair.diff k k_new)
      × Reports (instance_fields i.args i_new) (Instance.diff i i_new)
      × Reports (volume_attachment_fields a.args a_new) (VolumeAttachment.diff a a_new)
      × Reports (network_fields n.args n_new) (Network.diff n n_new)
      × Reports (subnet_fields u.args u_new) (Subnet.diff u u_new)
      × Reports (port_fields p.args p_new) (Port.diff p p_new)
      × Reports (router_fields r.args r_new) (Router.diff r r_new)
      × Reports (security_group_fields g.args g_new) (SecurityGroup.diff g g_new)
      × Reports (security_group_rule_fields q.args q_new) (SecurityGroupRule.diff q q_new)
      × Reports (floating_ip_fields f.args f_new) (FloatingIp.diff f f_new)
      × Reports (volume_fields v.args v_new) (Volume.diff v v_new)
      × Reports (volume_snapshot_fields s.args s_new) (VolumeSnapshot.diff s s_new)
      × Reports (volume_backup_fields b.args b_new) (VolumeBackup.diff b b_new)
diff-Reports k k_new i i_new a a_new n n_new u u_new p p_new r r_new g g_new q q_new f f_new v v_new
      s s_new b b_new =
    (
      key_pair-Reports k k_new,
      instance-Reports i i_new,
      volume_attachment-Reports a a_new,
      network-Reports n n_new,
      subnet-Reports u u_new,
      port-Reports p p_new,
      router-Reports r r_new,
      security_group-Reports g g_new,
      security_group_rule-Reports q q_new,
      floating_ip-Reports f f_new,
      volume-Reports v v_new,
      volume_snapshot-Reports s s_new,
      volume_backup-Reports b b_new,
    )
