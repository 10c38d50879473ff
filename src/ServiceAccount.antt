-- ===== src/ServiceAccount.antt =====
-- The agent's ServiceAccount (internal/usecase/hermesagent_serviceaccount.go).
pub mod Requests
mod Examples
use hermes_agent_operator.Prelude.{
  String, Bool, true, false, Option, none, some, List, [], ◌∷◌, StringMap, not, ◌&&◌, is_some,
  if_some, if◌then◌else◌,
}
use hermes_agent_operator.Objects.{NsName, ServiceAccount}
use hermes_agent_operator.Api.Security.{get_rbac, should_create_service_account}
use hermes_agent_operator.Api.Agent.{HermesAgent, HermesAgentStatus, resource_labels}
use hermes_agent_operator.Kube.Client.{Platform}
use hermes_agent_operator.Kube.Exec.{
  Outcome, Handler, Exec, pure, attempt, modify_status, finish, when, done, ◌>>=◌, ◌>>◌,
}
use hermes_agent_operator.Kube.Calls.{
  get_service_account, create_service_account, update_service_account, delete_service_account,
  update_hermes_agent_status,
}
use hermes_agent_operator.Conditions.{deferred}
use hermes_agent_operator.HermesSecret.{contents_equal}

abbrev pub record_service_account : String → HermesAgentStatus → HermesAgentStatus
record_service_account name status =
    let managed = status.managed_resources in
    record status { managed_resources = record managed { service_account = name } }

-- The annotations of the spec; a nil map is an empty one.
abbrev pub account_annotations : HermesAgent → StringMap String
account_annotations ha = if_some (get_rbac ha.spec.security) (λ r. r.service_account_annotations) []

-- `version` is "" for one that is created, else that of the existing one.
pub build_service_account : HermesAgent → String → ServiceAccount
build_service_account ha version = record {
  meta = record {
    name = ha.name;
    namespace = ha.namespace;
    labels = resource_labels ha;
    annotations = account_annotations ha;
    resource_version = version;
    creation_timestamp = 0;
    deletion_timestamp = none;
  };
}

pub service_account_equal : ServiceAccount → ServiceAccount → Bool
service_account_equal a b =
    contents_equal a.meta.labels b.meta.labels
    && contents_equal a.meta.annotations b.meta.annotations

module _ {W : Type 0} (p : Platform W) (ha : HermesAgent) where
  abbrev pub account_ns_name : NsName
  account_ns_name = record { namespace = ha.namespace; name = ha.name }

  record_account : String → Exec W Outcome
  record_account name = do
    modify_status (record_service_account name)
    attempt (update_hermes_agent_status p ha)
    pure done

  remove_account : Option ServiceAccount → Exec W Outcome
  remove_account existing = do
    when (is_some existing) (attempt (delete_service_account p account_ns_name))
    record_account ""

  update_account : ServiceAccount → Exec W Outcome
  update_account existing = do
    attempt (update_service_account p ha (build_service_account ha existing.meta.resource_version))
    pure done

  put_account : Option ServiceAccount → Exec W Outcome
  put_account none = do
    attempt (create_service_account p ha (build_service_account ha ""))
    record_account ha.name
  put_account (some existing) =
      if service_account_equal (build_service_account ha "") existing
      then pure done
      else update_account existing

  with_account : Option ServiceAccount → Exec W Outcome
  with_account existing =
      if should_create_service_account (get_rbac ha.spec.security)
      then put_account existing
      else remove_account existing

  service_account_body : Exec W Outcome
  service_account_body = do
    existing ← attempt (get_service_account p account_ns_name)
    with_account existing

  pub reconcile_service_account : Handler W
  reconcile_service_account =
      deferred p ha "ServiceAccountReconcileFailed" (finish service_account_body)
