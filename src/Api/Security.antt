-- ===== src/Api/Security.antt =====
-- spec.security (api/v1alpha1/hermesagent_security.go): RBAC and the network policy.
use hermes_agent_operator.Prelude.{
  String, StringMap, Bool, true, false, Option, none, some, List, [], get_or, and_then,
}
use hermes_agent_operator.Objects.{NetworkPolicyRule}

pub record RbacRule : Type 0 where
  pub api_groups : List String
  pub resources : List String
  pub verbs : List String

pub record Rbac : Type 0 where
  pub create_service_account : Option Bool
  pub service_account_name : String
  pub service_account_annotations : StringMap String
  pub additional_rules : List RbacRule

pub record NetworkPolicy : Type 0 where
  pub enabled : Option Bool
  pub allowed_ingress_cidrs : List String
  pub allowed_ingress_namespaces : List String
  pub allowed_egress_cidrs : List String
  pub allow_dns : Option Bool
  pub additional_egress : List NetworkPolicyRule

pub record HermesSecurity : Type 0 where
  pub rbac : Option Rbac
  pub network_policy : Option NetworkPolicy

abbrev pub should_create_service_account : Option Rbac → Bool
should_create_service_account none = false
should_create_service_account (some r) = get_or r.create_service_account true

abbrev pub get_additional_rules : Option Rbac → List RbacRule
get_additional_rules none = []
get_additional_rules (some r) = r.additional_rules

abbrev pub get_rbac : Option HermesSecurity → Option Rbac
get_rbac s = and_then s (λ x. x.rbac)

abbrev pub get_network_policy : Option HermesSecurity → Option NetworkPolicy
get_network_policy s = and_then s (λ x. x.network_policy)

abbrev pub network_policy_enabled : Option NetworkPolicy → Bool
network_policy_enabled none = false
network_policy_enabled (some n) = get_or n.enabled true

abbrev pub should_allow_dns : NetworkPolicy → Bool
should_allow_dns n = get_or n.allow_dns true
