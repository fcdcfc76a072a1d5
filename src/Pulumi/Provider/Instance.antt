-- ===== src/Pulumi/Provider/Instance.antt =====
-- The resource Instance of compute.go.
pub mod Lifecycle
pub mod Update
pub mod Groups
use nobus_csi.Common.{Bool, true, false, not, ◌&&◌, String, List, [], ◌∷◌, Option, none, some, ◌==◌}
use nobus_csi.Common.Int.{ℤ}
use nobus_csi.Common.Text.{is_blank}
use nobus_csi.Pulumi.Client.Shapes as Api
use nobus_csi.Pulumi.Client.Addresses.{parse_addresses}
use nobus_csi.Pulumi.Provider.Scope.{Config, bare_resource_id}
use nobus_csi.Pulumi.Provider.Sets.{string_slices_equal}
use nobus_csi.Pulumi.Provider.Diff.{
  DiffResponse, replace_diff, update_diff, compare_all, int_ptr_equal, bool_ptr_equal,
}
use nobus_csi.Pulumi.Provider.Check.{
  PropertyMap, Checked, check_resource_args, add_failures, failing,
}

pub record InstanceArgs : Type 0 where
  pub name : String
  pub image : String
  pub flavor : String
  pub key_name : String
  pub availability_zone : String
  pub project_id : String
  pub network_id : String
  pub volume_size : Option ℤ
  pub security_groups : List String
  pub tags : List String
  pub user_data : String
  pub admin_pass : String
  pub delete_volume : Option Bool

pub record InstanceState : Type 0 where
  pub args : InstanceArgs
  pub status : String
  pub created : String
  pub updated : String
  pub private_ipv4 : String
  pub public_ipv4 : String
  pub ipv4_addresses : List String
  pub ipv6_addresses : List String
  pub networks : List String

-- `InstanceArgs{}` and `InstanceState{}`
abbrev pub no_args : InstanceArgs
no_args = record {
  name = "";
  image = "";
  flavor = "";
  key_name = "";
  availability_zone = "";
  project_id = "";
  network_id = "";
  volume_size = none;
  security_groups = [];
  tags = [];
  user_data = "";
  admin_pass = "";
  delete_volume = none;
}

abbrev pub plain : InstanceArgs → InstanceState
plain args = record {
  args = args;
  status = "";
  created = "";
  updated = "";
  private_ipv4 = "";
  public_ipv4 = "";
  ipv4_addresses = [];
  ipv6_addresses = [];
  networks = [];
}

abbrev pub no_state : InstanceState
no_state = plain no_args

unfoldable pub check :
    (PropertyMap → Checked InstanceArgs) → Option Config → PropertyMap → Checked InstanceArgs
check default_check cfg inputs =
    add_failures
      (λ a. failing (
        ("name", is_blank a.name)
        ∷ ("image", is_blank a.image)
        ∷ ("flavor", is_blank a.flavor)
        ∷ ("keyName", is_blank a.key_name)
        ∷ []))
      (check_resource_args default_check cfg inputs (λ a. a.availability_zone))

unfoldable pub state_from_instance : InstanceArgs → Api.Instance → InstanceState
state_from_instance input inst =
    let parsed = parse_addresses inst.addresses in
    record {
      args = input;
      status = inst.status;
      created = inst.created;
      updated = inst.updated;
      private_ipv4 = parsed.private_ipv4;
      public_ipv4 = parsed.public_ipv4;
      ipv4_addresses = parsed.ipv4;
      ipv6_addresses = parsed.ipv6;
      networks = parsed.networks;
    }

abbrev other_bare : String → String → Bool
other_bare old new = not (new == "") && not (bare_resource_id old == bare_resource_id new)

abbrev pub is_some : Option ℤ → Bool
is_some none = false
is_some (some n) = true

unfoldable pub diff : InstanceState → InstanceArgs → DiffResponse
unfolding replace_diff update_diff compare_all
diff olds news =
    let old = olds.args in
    compare_all
      (replace_diff "availabilityZone" (
          not (news.availability_zone == "")
          && not (old.availability_zone == news.availability_zone))
        ∷ replace_diff "image" (other_bare old.image news.image)
        ∷ replace_diff "keyName" (not (news.key_name == "") && not (old.key_name == news.key_name))
        ∷ replace_diff "networkId" (other_bare old.network_id news.network_id)
        ∷ replace_diff "volumeSize"
            (is_some news.volume_size && not (int_ptr_equal old.volume_size news.volume_size))
        ∷ replace_diff "userData" (not (old.user_data == news.user_data))
        ∷ replace_diff "adminPass"
            (not (news.admin_pass == "") && not (old.admin_pass == news.admin_pass))
        ∷ update_diff "name" (not (news.name == "") && not (old.name == news.name))
        ∷ update_diff "flavor" (other_bare old.flavor news.flavor)
        ∷ update_diff "securityGroups"
            (not (string_slices_equal old.security_groups news.security_groups))
        ∷ update_diff "tags" (not (string_slices_equal old.tags news.tags))
        ∷ update_diff "deleteVolume" (not (bool_ptr_equal old.delete_volume news.delete_volume))
        ∷ [])
      []
