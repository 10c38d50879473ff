-- ===== src/ServiceAccount/Requests.antt =====
-- What the reconciler of the ServiceAccount asks of the cluster, whatever the cluster answers.
use hermes_agent_operator.Prelude.{Bool, true, false, ◌≡◌}
use hermes_agent_operator.Objects.{ServiceAccount}
use hermes_agent_operator.Api.Security.{get_rbac, should_create_service_account}
use hermes_agent_operator.Api.Agent.{HermesAgent}
use hermes_agent_operator.Kube.Client.{service_account}
use hermes_agent_operator.Kube.Exec.{Request, create, update, delete, update_status}
use hermes_agent_operator.Kube.Writes.{Writes}
use hermes_agent_operator.ServiceAccount.{account_annotations}

-- Whether the spec asks for a ServiceAccount.
abbrev pub wants_account : HermesAgent → Bool
wants_account ha = should_create_service_account (get_rbac ha.spec.security)

-- The agent's ServiceAccount, with the annotations of the spec.
abbrev pub IsAccount : HermesAgent → ServiceAccount → Type 0
IsAccount ha o =
    (wants_account ha ≡ true)
    × ((o.meta.namespace ≡ ha.namespace)
        × ((o.meta.name ≡ ha.name) × (o.meta.annotations ≡ account_annotations ha)))

abbrev pub IsAccountWrite : HermesAgent → Request → Type 0
IsAccountWrite ha (create service_account o) = IsAccount ha o
IsAccountWrite ha (create _ o) = ⊥
IsAccountWrite ha (update service_account o) = IsAccount ha o
IsAccountWrite ha (update _ o) = ⊥
IsAccountWrite ha (delete service_account n) =
    (wants_account ha ≡ false) × ((n.namespace ≡ ha.namespace) × (n.name ≡ ha.name))
IsAccountWrite ha (delete _ n) = ⊥
IsAccountWrite ha (update_status _) = Unit
