-- ===== src/Reconcile/Examples.antt =====
-- The theorems on the order, at a concrete cluster.
use hermes_agent_operator.Prelude.{none, some, ◌≡◌, ◌↔◌}
use hermes_agent_operator.Kube.Client.{err, Platform}
use hermes_agent_operator.Kube.Samples.{cluster, everything, start, sample_agent, no_kind}
use hermes_agent_operator.Api.Agent.{HermesAgent}
use hermes_agent_operator.Reconcile.{result_success, reconcile_agent}
use hermes_agent_operator.Reconcile.Order.{Completes, reconcilers, reconcile_agent-success_iff}

abbrev agent : HermesAgent
agent = sample_agent none none

-- A cluster that answers no read.
abbrev broken : Platform (Unit {0})
broken = record (cluster everything) { client_get = λ k n w. (err no_kind, w) }

reconcile_agent-success_iff_example :
    ((reconcile_agent (cluster everything) agent start).0.1 ≡ some result_success)
    ↔ Completes
        (reconcilers (cluster everything) agent)
        start
        (reconcile_agent (cluster everything) agent start).1
reconcile_agent-success_iff_example = reconcile_agent-success_iff (cluster everything) agent start
