-- ===== src/Reconcile.antt =====
-- One reconciliation (Reconcile, internal/usecase/hermesagent.go): the agent is read, and then the
-- reconcilers of its resources run in a fixed order.
pub mod Order
mod Examples
use hermes_agent_operator.Prelude.{
  ℕ, Bool, true, false, Option, none, some, List, [], ◌∷◌, not, ◌||◌, ◌==◌, is_some, if◌then◌else◌,
}
use hermes_agent_operator.Objects.{NsName, StatefulSet}
use hermes_agent_operator.Api.Agent.{HermesAgent, HermesAgentStatus}
use hermes_agent_operator.Kube.Client.{Error, Result, ok, err, Platform}
use hermes_agent_operator.Kube.Exec.{
  State, Outcome, Flow, next, stop, Handler, Exec, pure, done, failed_with, ◌>>=◌,
}
use hermes_agent_operator.Kube.Calls.{get_hermes_agent}
use hermes_agent_operator.HermesConfigMap.{reconcile_hermes_config_map}
use hermes_agent_operator.HermesSecret.{reconcile_hermes_secret}
use hermes_agent_operator.Egress.Ca.{reconcile_egress_ca}
use hermes_agent_operator.Egress.Tokens.{reconcile_egress_secret}
use hermes_agent_operator.ServiceAccount.{reconcile_service_account}
use hermes_agent_operator.SearxngSecret.{reconcile_searxng_secret}
use hermes_agent_operator.SearxngConfigMap.{reconcile_searxng_config_map}
use hermes_agent_operator.Role.{reconcile_role}
use hermes_agent_operator.Service.{reconcile_service}
use hermes_agent_operator.Ingress.{reconcile_ingress}
use hermes_agent_operator.NetworkPolicy.{reconcile_network_policy}
use hermes_agent_operator.Restore.{reconcile_restore}
use hermes_agent_operator.Snapshot.{reconcile_snapshot}
use hermes_agent_operator.Pod.{build_stateful_set}
use hermes_agent_operator.Workload.{reconcile_stateful_set}

-- The label of the counter `IncReconcile`.
pub data ReconcileResult : Type 0 where
  result_success result_error result_not_found : ReconcileResult

-- `err != nil || !result.IsZero()`.
abbrev pub ends : Outcome → Bool
ends o = is_some o.error || not (o.requeue_after == 0)

-- What is counted where a step has ended the reconciliation: only an error is.
abbrev pub counted : Outcome → Option ReconcileResult
counted o = if is_some o.error then some result_error else none

abbrev pub completed : Flow (Unit {0}) → Outcome × Option ReconcileResult
completed (next _) = (done, some result_success)
completed (stop o) = (o, counted o)

module _ {W : Type 0} where
  pub step : Handler W → Exec W (Unit {0})
  step h s = let (o, s') = h s in (if ends o then stop o else next tt, s')

  pub run_all : List (Handler W) → Exec W (Unit {0})
  run_all [] = pure tt
  run_all (h ∷ hs) = step h >>= λ _. run_all hs

  module _ (p : Platform W) where
    -- In the order of the source.
    pub all_steps : HermesAgent → List (Handler W)
    all_steps ha =
        reconcile_hermes_config_map p ha
        ∷ reconcile_hermes_secret p ha
        ∷ reconcile_searxng_config_map p ha
        ∷ reconcile_searxng_secret p ha
        ∷ reconcile_service_account p ha
        ∷ reconcile_role p ha
        ∷ reconcile_service p ha
        ∷ reconcile_ingress p ha
        ∷ reconcile_network_policy p ha
        ∷ reconcile_egress_ca p ha
        ∷ reconcile_egress_secret p ha
        ∷ reconcile_restore p ha
        ∷ reconcile_stateful_set p (build_stateful_set p.go_quote) ha
        ∷ reconcile_snapshot p ha
        ∷ []

    -- The agent is there, with its status.
    pub reconcile_agent : HermesAgent → State W → (Outcome × Option ReconcileResult) × State W
    reconcile_agent ha s = let (r, s') = run_all (all_steps ha) s in (completed r, s')

    abbrev pub with_agent :
        Result (Option (HermesAgent × HermesAgentStatus))
        → State W
        → (Outcome × Option ReconcileResult) × State W
    with_agent (ok none) s = ((done, some result_not_found), s)
    with_agent (ok (some (ha, status))) s = reconcile_agent ha (record s { status = status })
    with_agent (err e) s = ((failed_with e, some result_error), s)

    -- The outcome, and what the reconciliation counts as.
    pub reconcile : NsName → State W → (Outcome × Option ReconcileResult) × State W
    reconcile n s = let (r, s') = get_hermes_agent p n s in with_agent r s'
