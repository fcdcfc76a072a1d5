-- ===== src/Pulumi/Provider/SecurityGroupRule.antt =====
-- The resource SecurityGroupRule of security.go.
use nobus_csi.Common.{Bool, not, ◌&&◌, String, [], ◌∷◌, Option, none, some, ◌==◌, if◌then◌else◌}
use nobus_csi.Common.Int.{ℤ}
use nobus_csi.Common.Text.{or_else}
use nobus_csi.Cloud.Errors.{Sentinel, Error, errors_is}
use nobus_csi.Cloud.Interface.{Run}
use nobus_csi.Cloud.Run.{lift, ◌>>=◌}
use nobus_csi.Pulumi.Client.Shapes.Networks.{SecurityGroupRuleCreate}
use nobus_csi.Pulumi.Client.Shapes.Networks as Api
use nobus_csi.Pulumi.Client.Calls.{Transport, Session, Context}
use nobus_csi.Pulumi.Client.Networks.Security.{
  create_security_group_rule, get_security_group_rule, delete_security_group_rule,
}
use nobus_csi.Pulumi.Provider.Scope.{
  Config, scoped_id, bare_resource_id, resolve_scope, resolve_import,
}
use nobus_csi.Pulumi.Provider.Diff.{DiffResponse, replace_diff, compare_all, int_ptr_equal}
use nobus_csi.Pulumi.Provider.Check.{
  PropertyMap, Checked, check_resource_args, add_failures, failing,
}
use nobus_csi.Pulumi.Provider.Steps.{Created, Reading, finish, or_return, gone_is_fine}

pub record SecurityGroupRuleArgs : Type 0 where
  pub security_group_id : String
  pub direction : String
  pub availability_zone : String
  pub ethertype : String
  pub protocol : String
  pub port_range_min : Option ℤ
  pub port_range_max : Option ℤ
  pub remote_ip_prefix : String
  pub remote_group_id : String
  pub description : String
  pub project_id : String

pub record SecurityGroupRuleState : Type 0 where
  pub args : SecurityGroupRuleArgs

-- `SecurityGroupRuleArgs{}` and `SecurityGroupRuleState{}`
abbrev pub no_args : SecurityGroupRuleArgs
no_args = record {
  security_group_id = "";
  direction = "";
  availability_zone = "";
  ethertype = "";
  protocol = "";
  port_range_min = none;
  port_range_max = none;
  remote_ip_prefix = "";
  remote_group_id = "";
  description = "";
  project_id = "";
}

abbrev pub plain : SecurityGroupRuleArgs → SecurityGroupRuleState
plain args = record { args = args }

abbrev pub no_state : SecurityGroupRuleState
no_state = plain no_args

unfoldable pub check :
    (PropertyMap → Checked SecurityGroupRuleArgs)
    → Option Config
    → PropertyMap
    → Checked SecurityGroupRuleArgs
check default_check cfg inputs =
    add_failures
      (λ a.
        failing
          (("securityGroupId", a.security_group_id == "") ∷ ("direction", a.direction == "") ∷ []))
      (check_resource_args default_check cfg inputs (λ a. a.availability_zone))

unfoldable pub diff : SecurityGroupRuleState → SecurityGroupRuleArgs → DiffResponse
unfolding replace_diff compare_all
diff olds news =
    let old = olds.args in
    compare_all
      (replace_diff "availabilityZone" (
          not (news.availability_zone == "")
          && not (old.availability_zone == news.availability_zone))
        ∷ replace_diff "securityGroupId" (
            not (news.security_group_id == "")
            && not
                (bare_resource_id old.security_group_id == bare_resource_id news.security_group_id))
        ∷ replace_diff "direction"
            (not (news.direction == "") && not (old.direction == news.direction))
        ∷ replace_diff "ethertype"
            (not (news.ethertype == "") && not (old.ethertype == news.ethertype))
        ∷ replace_diff "protocol" (not (news.protocol == "") && not (old.protocol == news.protocol))
        ∷ replace_diff "portRangeMin" (not (int_ptr_equal old.port_range_min news.port_range_min))
        ∷ replace_diff "portRangeMax" (not (int_ptr_equal old.port_range_max news.port_range_max))
        ∷ replace_diff "remoteIpPrefix" (
            not (news.remote_ip_prefix == "")
            && not (old.remote_ip_prefix == news.remote_ip_prefix))
        ∷ replace_diff "remoteGroupId" (
            not (news.remote_group_id == "")
            && not (bare_resource_id old.remote_group_id == bare_resource_id news.remote_group_id))
        ∷ replace_diff "description" (not (old.description == news.description))
        ∷ [])
      []

abbrev refused : Error → Created SecurityGroupRuleState
refused e = record { id = ""; state = no_state; failed = some e }

abbrev located : String → String → SecurityGroupRuleArgs → SecurityGroupRuleArgs
located project zone a = record a { project_id = project; availability_zone = zone }

-- The arguments as they are created with.
placed : String → String → SecurityGroupRuleArgs → SecurityGroupRuleArgs
placed project zone a = record (located project zone a) {
  security_group_id = bare_resource_id a.security_group_id;
  remote_group_id = bare_resource_id a.remote_group_id;
  ethertype = or_else a.ethertype "IPv4";
}

abbrev create_body : SecurityGroupRuleArgs → SecurityGroupRuleCreate
create_body a = record {
  security_group_id = a.security_group_id;
  direction = a.direction;
  ethertype = a.ethertype;
  protocol = a.protocol;
  port_range_min = a.port_range_min;
  port_range_max = a.port_range_max;
  remote_ip_prefix = a.remote_ip_prefix;
  remote_group_id = a.remote_group_id;
  description = a.description;
}

read_state : String → String → Api.SecurityGroupRule → SecurityGroupRuleState
read_state project zone got = record {
  args = record {
    security_group_id = got.security_group_id;
    direction = got.direction;
    availability_zone = zone;
    ethertype = got.ethertype;
    protocol = got.protocol;
    port_range_min = got.port_range_min;
    port_range_max = got.port_range_max;
    remote_ip_prefix = got.remote_ip_prefix;
    remote_group_id = got.remote_group_id;
    description = got.description;
    project_id = project;
  };
}

module _ (T : Transport) (cfg : Config) (ctx : Context) where
  unfoldable pub create :
      String → SecurityGroupRuleArgs → Bool → Session T → Created SecurityGroupRuleState × Session T
  unfolding placed
  create name args preview =
      or_return (lift (resolve_scope cfg args.project_id args.availability_zone)) refused (λ place.
        let project = place.project in
        let zone = place.zone in
        let input = placed project zone args in
        if preview
        then finish
            (record { id = scoped_id zone project name; state = plain input; failed = none })
        else or_return (create_security_group_rule T ctx project zone (create_body input)) refused
            (λ created. finish (record {
              id = scoped_id zone project created.id;
              state = plain input;
              failed = none;
            })))

  unfoldable pub read :
      String
      → SecurityGroupRuleArgs
      → SecurityGroupRuleState
      → Session T
      → Reading SecurityGroupRuleArgs SecurityGroupRuleState × Session T
  unfolding read_state
  read id inputs state =
      let kept : Error → Reading SecurityGroupRuleArgs SecurityGroupRuleState =
        λ e. record { id = id; args = inputs; state = state; failed = some e } in
      or_return
        (lift (
          resolve_import cfg id (or_else state.args.project_id inputs.project_id)
            (or_else state.args.availability_zone inputs.availability_zone)))
        kept
        (λ place.
          or_return (get_security_group_rule T ctx place.project place.zone place.id)
            (λ e.
              if errors_is e Sentinel.not_found
              then record { id = ""; args = no_args; state = no_state; failed = none }
              else kept e)
            (λ got.
              let seen = read_state place.project place.zone got in
              finish (record {
                id = scoped_id place.zone place.project got.id;
                args = seen.args;
                state = seen;
                failed = none;
              })))

  unfoldable pub delete : String → SecurityGroupRuleState → Run (Session T) Unit
  delete id state = do
    place ← lift (resolve_import cfg id state.args.project_id state.args.availability_zone)
    gone_is_fine (delete_security_group_rule T ctx place.project place.zone place.id)
