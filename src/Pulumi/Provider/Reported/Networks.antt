-- ===== src/Pulumi/Provider/Reported/Networks.antt =====
-- The fields of networks, subnets, ports, routers, security groups and floating addresses, and what the differences report of them.
use nobus_csi.Common.{refl, List, [], ◌∷◌}
use nobus_csi.Pulumi.Provider.Diff.Fields.{Field, Reports, steps, compare_all-Reports}
use nobus_csi.Pulumi.Provider.Diff.Kinds.{
  given, given_id, given_number, identifiers, optional_number, plain_id, plain_text, replaced,
  updated,
}
use nobus_csi.Pulumi.Provider.Network as Network
use nobus_csi.Pulumi.Provider.Subnet as Subnet
use nobus_csi.Pulumi.Provider.Port as Port
use nobus_csi.Pulumi.Provider.Router as Router
use nobus_csi.Pulumi.Provider.SecurityGroup as SecurityGroup
use nobus_csi.Pulumi.Provider.SecurityGroupRule as SecurityGroupRule
use nobus_csi.Pulumi.Provider.FloatingIp as FloatingIp

abbrev pub network_fields : Network.NetworkArgs → Network.NetworkArgs → List Field
network_fields old new =
    given replaced "availabilityZone" old.availability_zone new.availability_zone
    ∷ given replaced "networkName" old.network_name new.network_name
    ∷ given replaced "subnetCidr" old.subnet_cidr new.subnet_cidr
    ∷ given replaced "routerName" old.router_name new.router_name
    ∷ given_id replaced "externalNetworkId" old.external_network_id new.external_network_id
    ∷ given updated "name" old.name new.name
    ∷ plain_text updated "description" old.description new.description
    ∷ []

pub network-Reports :
    (s : Network.NetworkState) (new : Network.NetworkArgs)
    → Reports (network_fields s.args new) (Network.diff s new)
unfolding Network.diff steps
network-Reports s new = compare_all-Reports (network_fields s.args new) refl

abbrev pub subnet_fields : Subnet.SubnetArgs → Subnet.SubnetArgs → List Field
subnet_fields old new =
    given replaced "availabilityZone" old.availability_zone new.availability_zone
    ∷ given_id replaced "networkId" old.network_id new.network_id
    ∷ given replaced "cidr" old.cidr new.cidr
    ∷ given_number replaced "ipVersion" old.ip_version new.ip_version
    ∷ given updated "name" old.name new.name
    ∷ plain_text updated "gatewayIp" old.gateway_ip new.gateway_ip
    ∷ []

pub subnet-Reports :
    (s : Subnet.SubnetState) (new : Subnet.SubnetArgs)
    → Reports (subnet_fields s.args new) (Subnet.diff s new)
unfolding Subnet.diff steps
subnet-Reports s new = compare_all-Reports (subnet_fields s.args new) refl

abbrev pub port_fields : Port.PortArgs → Port.PortArgs → List Field
port_fields old new =
    given replaced "availabilityZone" old.availability_zone new.availability_zone
    ∷ given_id replaced "networkId" old.network_id new.network_id
    ∷ given updated "name" old.name new.name
    ∷ plain_id updated "deviceId" old.device_id new.device_id
    ∷ identifiers updated "securityGroups" old.security_groups new.security_groups
    ∷ plain_text updated "description" old.description new.description
    ∷ []

pub port-Reports :
    (s : Port.PortState) (new : Port.PortArgs) → Reports (port_fields s.args new) (Port.diff s new)
unfolding Port.diff steps
port-Reports s new = compare_all-Reports (port_fields s.args new) refl

abbrev pub router_fields : Router.RouterArgs → Router.RouterArgs → List Field
router_fields old new =
    given replaced "availabilityZone" old.availability_zone new.availability_zone
    ∷ given updated "name" old.name new.name
    ∷ plain_text updated "description" old.description new.description
    ∷ []

pub router-Reports :
    (s : Router.RouterState) (new : Router.RouterArgs)
    → Reports (router_fields s.args new) (Router.diff s new)
unfolding Router.diff steps
router-Reports s new = compare_all-Reports (router_fields s.args new) refl

abbrev pub security_group_fields :
    SecurityGroup.SecurityGroupArgs → SecurityGroup.SecurityGroupArgs → List Field
security_group_fields old new =
    given replaced "availabilityZone" old.availability_zone new.availability_zone
    ∷ given updated "name" old.name new.name
    ∷ plain_text updated "description" old.description new.description
    ∷ []

pub security_group-Reports :
    (s : SecurityGroup.SecurityGroupState) (new : SecurityGroup.SecurityGroupArgs)
    → Reports (security_group_fields s.args new) (SecurityGroup.diff s new)
unfolding SecurityGroup.diff steps
security_group-Reports s new = compare_all-Reports (security_group_fields s.args new) refl

abbrev pub security_group_rule_fields :
    SecurityGroupRule.SecurityGroupRuleArgs → SecurityGroupRule.SecurityGroupRuleArgs → List Field
security_group_rule_fields old new =
    given replaced "availabilityZone" old.availability_zone new.availability_zone
    ∷ given_id replaced "securityGroupId" old.security_group_id new.security_group_id
    ∷ given replaced "direction" old.direction new.direction
    ∷ given replaced "ethertype" old.ethertype new.ethertype
    ∷ given replaced "protocol" old.protocol new.protocol
    ∷ optional_number replaced "portRangeMin" old.port_range_min new.port_range_min
    ∷ optional_number replaced "portRangeMax" old.port_range_max new.port_range_max
    ∷ given replaced "remoteIpPrefix" old.remote_ip_prefix new.remote_ip_prefix
    ∷ given_id replaced "remoteGroupId" old.remote_group_id new.remote_group_id
    ∷ plain_text replaced "description" old.description new.description
    ∷ []

pub security_group_rule-Reports :
    (s : SecurityGroupRule.SecurityGroupRuleState) (new : SecurityGroupRule.SecurityGroupRuleArgs)
    → Reports (security_group_rule_fields s.args new) (SecurityGroupRule.diff s new)
unfolding SecurityGroupRule.diff steps
security_group_rule-Reports s new = compare_all-Reports (security_group_rule_fields s.args new) refl

abbrev pub floating_ip_fields : FloatingIp.FloatingIpArgs → FloatingIp.FloatingIpArgs → List Field
floating_ip_fields old new =
    given replaced "availabilityZone" old.availability_zone new.availability_zone
    ∷ given_id replaced "floatingNetworkId" old.floating_network_id new.floating_network_id
    ∷ plain_id updated "portId" old.port_id new.port_id
    ∷ plain_text updated "description" old.description new.description
    ∷ []

pub floating_ip-Reports :
    (s : FloatingIp.FloatingIpState) (new : FloatingIp.FloatingIpArgs)
    → Reports (floating_ip_fields s.args new) (FloatingIp.diff s new)
unfolding FloatingIp.diff steps
floating_ip-Reports s new = compare_all-Reports (floating_ip_fields s.args new) refl
