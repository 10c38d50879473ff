-- ===== src/Role.antt =====
-- The agent's Role and RoleBinding (internal/usecase/hermesagent_role.go).
pub mod Requests
mod Examples
use hermes_agent_operator.Prelude.{
  String, Bool, true, false, Option, none, some, List, [], ◌∷◌, map, not, ◌&&◌, ◌||◌, str_eq,
  is_empty, is_some, if◌then◌else◌,
}
use hermes_agent_operator.Objects.{
  NsName, ObjectMeta, PolicyRule, Role, Subject, RoleRef, RoleBinding,
}
use hermes_agent_operator.Api.Security.{RbacRule, get_rbac, get_additional_rules}
use hermes_agent_operator.Api.Agent.{
  HermesAgent, HermesAgentStatus, get_service_account_name, resource_labels,
}
use hermes_agent_operator.Kube.Client.{Platform}
use hermes_agent_operator.Kube.Exec.{
  Outcome, Handler, Exec, pure, attempt, modify_status, finish, when, done, ◌>>=◌, ◌>>◌,
}
use hermes_agent_operator.Kube.Calls.{
  get_role, create_role, update_role, delete_role, get_role_binding, create_role_binding,
  update_role_binding, delete_role_binding, update_hermes_agent_status,
}
use hermes_agent_operator.Conditions.{deferred}

-- `equality.Semantic.DeepEqual`, which takes a nil slice for an empty one.
abbrev pub texts_equal : List String → List String → Bool
texts_equal [] [] = true
texts_equal [] (y ∷ ys) = false
texts_equal (x ∷ xs) [] = false
texts_equal (x ∷ xs) (y ∷ ys) = str_eq x y && texts_equal xs ys

abbrev pub rules_equal : List PolicyRule → List PolicyRule → Bool
rules_equal [] [] = true
rules_equal [] (s ∷ ss) = false
rules_equal (r ∷ rs) [] = false
rules_equal (r ∷ rs) (s ∷ ss) =
    (texts_equal r.api_groups s.api_groups
      && texts_equal r.resources s.resources
      && texts_equal r.verbs s.verbs
      && texts_equal r.resource_names s.resource_names
      && texts_equal r.non_resource_urls s.non_resource_urls)
    && rules_equal rs ss

abbrev pub subject_equal : Subject → Subject → Bool
subject_equal a b = str_eq a.kind b.kind && (str_eq a.name b.name && str_eq a.namespace b.namespace)

abbrev pub subjects_equal : List Subject → List Subject → Bool
subjects_equal [] [] = true
subjects_equal [] (y ∷ ys) = false
subjects_equal (x ∷ xs) [] = false
subjects_equal (x ∷ xs) (y ∷ ys) = subject_equal x y && subjects_equal xs ys

abbrev pub role_ref_equal : RoleRef → RoleRef → Bool
role_ref_equal a b =
    str_eq a.api_group b.api_group && (str_eq a.kind b.kind && str_eq a.name b.name)

pub role_equal : Role → Role → Bool
role_equal a b = rules_equal a.rules b.rules

pub role_binding_equal : RoleBinding → RoleBinding → Bool
role_binding_equal a b =
    subjects_equal a.subjects b.subjects && role_ref_equal a.role_ref b.role_ref

abbrev pub policy_rule : RbacRule → PolicyRule
policy_rule r = record {
  api_groups = r.api_groups;
  resources = r.resources;
  verbs = r.verbs;
  resource_names = [];
  non_resource_urls = [];
}

abbrev pub agent_rules : HermesAgent → List RbacRule
agent_rules ha = get_additional_rules (get_rbac ha.spec.security)

abbrev pub has_no_rules : List RbacRule → Bool
has_no_rules [] = true
has_no_rules (r ∷ rs) = false

-- `len(rules) == 0 || saName == ""`.
abbrev pub needs_no_role : HermesAgent → Bool
needs_no_role ha = has_no_rules (agent_rules ha) || is_empty (get_service_account_name ha)

-- `version` is "" for an object that is created, else that of the existing one.
abbrev pub role_meta : HermesAgent → String → ObjectMeta
role_meta ha version = record {
  name = ha.name;
  namespace = ha.namespace;
  labels = resource_labels ha;
  annotations = [];
  resource_version = version;
  creation_timestamp = 0;
  deletion_timestamp = none;
}

pub build_role : HermesAgent → String → Role
build_role ha version = record {
  meta = role_meta ha version;
  rules = map policy_rule (agent_rules ha);
}

abbrev pub agent_subject : HermesAgent → Subject
agent_subject ha = record {
  kind = "ServiceAccount";
  name = get_service_account_name ha;
  namespace = ha.namespace;
}

abbrev pub agent_role_ref : HermesAgent → RoleRef
agent_role_ref ha = record {
  api_group = "rbac.authorization.k8s.io";
  kind = "Role";
  name = ha.name;
}

pub build_role_binding : HermesAgent → String → RoleBinding
build_role_binding ha version = record {
  meta = role_meta ha version;
  subjects = agent_subject ha ∷ [];
  role_ref = agent_role_ref ha;
}

abbrev pub record_role : String → HermesAgentStatus → HermesAgentStatus
record_role name status =
    let managed = status.managed_resources in
    record status { managed_resources = record managed { role = name; role_binding = name } }

module _ {W : Type 0} (p : Platform W) (ha : HermesAgent) where
  abbrev pub role_ns_name : NsName
  role_ns_name = record { namespace = ha.namespace; name = ha.name }

  remove : Option Role → Option RoleBinding → Exec W Outcome
  remove existing binding = do
    when (is_some binding) (attempt (delete_role_binding p role_ns_name))
    when (is_some existing) (attempt (delete_role p role_ns_name))
    modify_status (record_role "")
    attempt (update_hermes_agent_status p ha)
    pure done

  put_role : Option Role → Exec W (Unit {0})
  put_role none = attempt (create_role p ha (build_role ha ""))
  put_role (some existing) =
      when (not (role_equal (build_role ha "") existing))
        (attempt (update_role p ha (build_role ha existing.meta.resource_version)))

  put_role_binding : Option RoleBinding → Exec W (Unit {0})
  put_role_binding none = attempt (create_role_binding p ha (build_role_binding ha ""))
  put_role_binding (some existing) =
      when (not (role_binding_equal (build_role_binding ha "") existing))
        (attempt (update_role_binding p ha (build_role_binding ha existing.meta.resource_version)))

  ensure : Option Role → Option RoleBinding → Exec W Outcome
  ensure existing binding = do
    put_role existing
    put_role_binding binding
    when (not (is_some existing) || not (is_some binding))
        (do modify_status (record_role ha.name); attempt (update_hermes_agent_status p ha))
    pure done

  with_both : Option Role → Option RoleBinding → Exec W Outcome
  with_both existing binding =
      if needs_no_role ha then remove existing binding else ensure existing binding

  role_body : Exec W Outcome
  role_body = do
    existing ← attempt (get_role p role_ns_name)
    binding ← attempt (get_role_binding p role_ns_name)
    with_both existing binding

  pub reconcile_role : Handler W
  reconcile_role = deferred p ha "RoleReconcileFailed" (finish role_body)
