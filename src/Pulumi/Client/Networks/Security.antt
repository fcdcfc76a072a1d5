-- ===== src/Pulumi/Client/Networks/Security.antt =====
-- network.go: the client's calls about security groups, their rules and floating addresses.
use nobus_csi.Common.{String, [], ◌∷◌, ◌++◌, none, some}
use nobus_csi.Cloud.Interface.{Run}
use nobus_csi.Pulumi.Client.Shapes.{
  no_payload, group_payload, group_update_payload, rule_payload, floating_ip_payload,
  floating_ip_update_payload,
}
use nobus_csi.Pulumi.Client.Shapes.Networks.{
  SecurityGroup, SecurityGroupWrite, SecurityGroupRule, SecurityGroupRuleCreate, FloatingIp,
  FloatingIpCreate, FloatingIpUpdate,
}
use nobus_csi.Pulumi.Client.Calls.{
  Transport, Session, Context, request, project_query, do_request, decoded, ignored,
}

module _ (T : Transport) (ctx : Context) where
  unfoldable pub create_security_group :
      String → String → SecurityGroupWrite → Run (Session T) SecurityGroup
  create_security_group project zone body =
      do_request T ctx
        (request "POST" "/api/v3/network/security-group" none (group_payload project zone body))
        (λ b. decoded T (T.as_security_group b))

  unfoldable pub get_security_group : String → String → String → Run (Session T) SecurityGroup
  get_security_group project zone id =
      do_request T ctx
        (request "GET" "/api/v3/network/security-group"
          (some (project_query project zone ++ ("security_group_id", id) ∷ [])) no_payload)
        (λ b. decoded T (T.as_security_group b))

  unfoldable pub update_security_group :
      String → String → String → SecurityGroupWrite → Run (Session T) SecurityGroup
  update_security_group project zone id body =
      do_request T ctx
        (request "PUT" "/api/v3/network/security-group" none
          (group_update_payload project zone id body))
        (λ b. decoded T (T.as_security_group b))

  unfoldable pub delete_security_group : String → String → String → Run (Session T) Unit
  delete_security_group project zone id =
      do_request T ctx
        (request "DELETE" "/api/v3/network/security-group"
          (some (project_query project zone ++ ("security_group_id", id) ∷ [])) no_payload)
        (ignored T)

  unfoldable pub create_security_group_rule :
      String → String → SecurityGroupRuleCreate → Run (Session T) SecurityGroupRule
  create_security_group_rule project zone body =
      do_request T ctx
        (request "POST" "/api/v3/network/security-group-rule" none (rule_payload project zone body))
        (λ b. decoded T (T.as_security_group_rule b))

  unfoldable pub get_security_group_rule :
      String → String → String → Run (Session T) SecurityGroupRule
  get_security_group_rule project zone id =
      do_request T ctx
        (request "GET" "/api/v3/network/security-group-rule"
          (some (project_query project zone ++ ("security_group_rule_id", id) ∷ [])) no_payload)
        (λ b. decoded T (T.as_security_group_rule b))

  unfoldable pub delete_security_group_rule : String → String → String → Run (Session T) Unit
  delete_security_group_rule project zone id =
      do_request T ctx
        (request "DELETE" "/api/v3/network/security-group-rule"
          (some (project_query project zone ++ ("security_group_rule_id", id) ∷ [])) no_payload)
        (ignored T)

  unfoldable pub create_floating_ip :
      String → String → FloatingIpCreate → Run (Session T) FloatingIp
  create_floating_ip project zone body =
      do_request T ctx
        (request "POST" "/api/v3/network/floating-ip" none (floating_ip_payload project zone body))
        (λ b. decoded T (T.as_floating_ip b))

  unfoldable pub get_floating_ip : String → String → String → Run (Session T) FloatingIp
  get_floating_ip project zone id =
      do_request T ctx
        (request "GET" "/api/v3/network/floating-ip"
          (some (project_query project zone ++ ("floating_ip_id", id) ∷ [])) no_payload)
        (λ b. decoded T (T.as_floating_ip b))

  unfoldable pub update_floating_ip :
      String → String → String → FloatingIpUpdate → Run (Session T) FloatingIp
  update_floating_ip project zone id body =
      do_request T ctx
        (request "PUT" "/api/v3/network/floating-ip" none
          (floating_ip_update_payload project zone id body))
        (λ b. decoded T (T.as_floating_ip b))

  unfoldable pub delete_floating_ip : String → String → String → Run (Session T) Unit
  delete_floating_ip project zone id =
      do_request T ctx
        (request "DELETE" "/api/v3/network/floating-ip"
          (some (project_query project zone ++ ("floating_ip_id", id) ∷ [])) no_payload)
        (ignored T)
