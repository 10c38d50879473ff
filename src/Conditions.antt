-- ===== src/Conditions.antt =====
-- The Ready condition (internal/usecase/hermesagent_conditions.go), and the deferred function by which
-- each resource reconciler reports its error there.
pub mod Laws
use hermes_agent_operator.Prelude.{String, Bool, Option, none, some, if◌then◌else◌}
use hermes_agent_operator.Objects.{Condition, ConditionStatus, cond_true, cond_false}
use hermes_agent_operator.Api.Agent.{HermesAgent}
use hermes_agent_operator.Kube.Client.{Error, Platform}
use hermes_agent_operator.Kube.Exec.{State, Outcome, Handler}
use hermes_agent_operator.Kube.Calls.{update_hermes_agent_status}

abbrev pub condition_ready : String
condition_ready = "Ready"

module _ {W : Type 0} (p : Platform W) (ha : HermesAgent) where
  -- `meta.SetStatusCondition(&ha.Status.Conditions, c)`.
  unfoldable pub set_condition : Condition → State W → Bool × State W
  set_condition c s =
      let status = s.status in
      let (conditions, changed) = p.set_status_condition status.conditions c in
      (changed, record s { status = record status { conditions = conditions } })

  -- `meta.RemoveStatusCondition(&ha.Status.Conditions, type)`.
  unfoldable pub remove_condition : String → State W → Bool × State W
  remove_condition type s =
      let status = s.status in
      let (conditions, changed) = p.remove_status_condition status.conditions type in
      (changed, record s { status = record status { conditions = conditions } })

  abbrev pub ready_condition : ConditionStatus → String → String → Condition
  ready_condition status reason message = record {
    type = condition_ready;
    status = status;
    observed_generation = ha.generation;
    reason = reason;
    message = message;
  }

  unfoldable pub set_ready_condition : ConditionStatus → String → String → State W → Bool × State W
  unfolding set_condition
  set_ready_condition status reason message = set_condition (ready_condition status reason message)

  unfoldable pub mark_ready : State W → Bool × State W
  unfolding set_ready_condition
  mark_ready = set_ready_condition cond_true "ReconcileSucceeded" "Reconciled all managed resources"

  -- The status is written only if it changed, and an error of that write is only logged.
  unfoldable pub mark_reconcile_failed : String → Error → State W → Error × State W
  unfolding set_ready_condition update_hermes_agent_status
  mark_reconcile_failed reason reconcile_err s =
      let (changed, s') = set_ready_condition cond_false reason reconcile_err.text s in
      let (written, s'') = update_hermes_agent_status p ha s' in
      if changed then (reconcile_err, s'') else (reconcile_err, s')

  abbrev pub report : String → Option Error → Outcome → State W → Outcome × State W
  report reason none o s = (o, s)
  report reason (some e) o s =
      let (e', s') = mark_reconcile_failed reason e s in (record o { error = some e' }, s')

  -- `defer func() { if err != nil { err = u.markReconcileFailed(ctx, ha, reason, err) } }()`.
  unfoldable pub deferred : String → Handler W → Handler W
  unfolding mark_reconcile_failed
  deferred reason body s = let (o, s') = body s in report reason o.error o s'
