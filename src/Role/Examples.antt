-- ===== src/Role/Examples.antt =====
-- The theorem on the Role's writes, at a concrete cluster.
use hermes_agent_operator.Prelude.{true, none, some, [], ◌∷◌, All}
use hermes_agent_operator.Api.Agent.{HermesAgent}
use hermes_agent_operator.Kube.Samples.{cluster, everything, cluster-OnlyOwns, start, sample_agent}
use hermes_agent_operator.Role.{reconcile_role}
use hermes_agent_operator.Role.Requests.{IsRoleWrite, reconcile_role-writes}

abbrev with_rules : HermesAgent
with_rules =
    let base = sample_agent none none in
    let spec = base.spec in
    record base {
      spec = record spec {
        security = some (record {
          rbac = some (record {
            create_service_account = some true;
            service_account_name = "";
            service_account_annotations = [];
            additional_rules =
                (record {
                  api_groups = "" ∷ [];
                  resources = "pods" ∷ [];
                  verbs = "get" ∷ "list" ∷ [];
                })
                ∷ [];
          });
          network_policy = none;
        });
      };
    }

reconcile_role-writes_example :
    All (IsRoleWrite with_rules) (reconcile_role (cluster everything) with_rules start).1.log
reconcile_role-writes_example =
    reconcile_role-writes (cluster everything) with_rules (cluster-OnlyOwns everything) start tt
