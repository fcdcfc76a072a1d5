-- ===== src/Pulumi/Client/Shapes/Networks.antt =====
-- The structures of network.go.
use nobus_csi.Common.{Bool, String, List, Option}
use nobus_csi.Common.Int.{ℤ}

pub record NetworkSetup : Type 0 where
  pub network_id : String
  pub subnet_id : String
  pub router_id : String

pub record CreateNetworkRequest : Type 0 where
  pub project_id : String
  pub availability_zone : String
  pub network_name : String
  pub subnet_cidr : String
  pub router_name : String
  pub external_network_id : String
  pub dns_nameservers : List String
  pub enable_snat : Option Bool

pub record Network : Type 0 where
  pub id : String
  pub name : String
  pub description : String
  pub status : String
  pub admin_state_up : Option Bool
  pub shared : Option Bool
  pub mtu : Option ℤ
  pub port_security_enabled : Option Bool
  pub subnets : List String

pub record Subnet : Type 0 where
  pub id : String
  pub name : String
  pub description : String
  pub network_id : String
  pub cidr : String
  pub ip_version : ℤ
  pub gateway_ip : String
  pub enable_dhcp : Option Bool
  pub dns_nameservers : List String

pub record Port : Type 0 where
  pub id : String
  pub name : String
  pub description : String
  pub network_id : String
  pub status : String
  pub admin_state_up : Option Bool
  pub mac_address : String
  pub device_id : String
  pub device_owner : String
  pub security_groups : List String
  pub port_security_enabled : Option Bool

pub record Router : Type 0 where
  pub id : String
  pub name : String
  pub description : String
  pub status : String
  pub admin_state_up : Option Bool

pub record SecurityGroup : Type 0 where
  pub id : String
  pub name : String
  pub description : String

pub record SecurityGroupRule : Type 0 where
  pub id : String
  pub security_group_id : String
  pub direction : String
  pub ethertype : String
  pub protocol : String
  pub port_range_min : Option ℤ
  pub port_range_max : Option ℤ
  pub remote_ip_prefix : String
  pub remote_group_id : String
  pub description : String

pub record FloatingIp : Type 0 where
  pub id : String
  pub floating_network_id : String
  pub floating_ip_address : String
  pub port_id : String
  pub fixed_ip_address : String
  pub status : String
  pub description : String

pub record NetworkUpdate : Type 0 where
  pub name : String
  pub description : String
  pub admin_state_up : Option Bool

pub record SubnetCreate : Type 0 where
  pub network_id : String
  pub cidr : String
  pub ip_version : ℤ
  pub name : String
  pub description : String
  pub gateway_ip : String
  pub enable_dhcp : Option Bool
  pub dns_nameservers : List String

pub record SubnetUpdate : Type 0 where
  pub name : String
  pub description : String
  pub gateway_ip : String
  pub enable_dhcp : Option Bool
  pub dns_nameservers : List String

pub record PortCreate : Type 0 where
  pub network_id : String
  pub name : String
  pub description : String
  pub admin_state_up : Option Bool
  pub security_groups : List String
  pub device_id : String
  pub device_owner : String
  pub port_security_enabled : Option Bool

pub record PortUpdate : Type 0 where
  pub name : String
  pub description : String
  pub admin_state_up : Option Bool
  pub security_groups : List String
  pub port_security_enabled : Option Bool

pub record RouterWrite : Type 0 where
  pub name : String
  pub description : String
  pub admin_state_up : Option Bool

pub record SecurityGroupWrite : Type 0 where
  pub name : String
  pub description : String

pub record SecurityGroupRuleCreate : Type 0 where
  pub security_group_id : String
  pub direction : String
  pub ethertype : String
  pub protocol : String
  pub port_range_min : Option ℤ
  pub port_range_max : Option ℤ
  pub remote_ip_prefix : String
  pub remote_group_id : String
  pub description : String

pub record FloatingIpCreate : Type 0 where
  pub floating_network_id : String
  pub port_id : String
  pub fixed_ip_address : String
  pub description : String

pub record FloatingIpUpdate : Type 0 where
  pub port_id : Option String
  pub fixed_ip_address : String
  pub description : String
