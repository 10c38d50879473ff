-- ===== src/Conditions/Laws.antt =====
-- The deferred report of a reconciler's error (internal/usecase/hermesagent_conditions.go), followed through
-- the code.
use hermes_agent_operator.Prelude.{
  String, true, false, Option, none, some, All, ◌≡◌, refl, arith, if◌then◌else◌,
}
use hermes_agent_operator.Objects.{cond_false}
use hermes_agent_operator.Api.Agent.{HermesAgent, HermesAgentStatus}
use hermes_agent_operator.Kube.Client.{Error, Platform}
use hermes_agent_operator.Kube.Exec.{State, Outcome, Handler, Request, update_status}
use hermes_agent_operator.Kube.Calls.{update_hermes_agent_status}
use hermes_agent_operator.Kube.Writes.{Writes, Writes-status}
use hermes_agent_operator.Conditions.{set_ready_condition, mark_reconcile_failed, report, deferred}

module _ {W : Type 0} (p : Platform W) (ha : HermesAgent) where
  pub report_outcome :
      (reason : String) (e : Option Error) (o : Outcome) (s : State W)
      → o.error ≡ e
      → (report p ha reason e o s).0 ≡ o
  unfolding mark_reconcile_failed
  report_outcome reason none o s h = refl
  report_outcome reason (some e) o s h = ground arith

  -- Whatever a reconciler returns, its deferred report returns the same: neither the result nor the
  -- error is replaced, also when the write of the status fails.
  deferred_outcome :
      (reason : String) (body : Handler W) (s : State W)
      → (deferred p ha reason body s).0 ≡ (body s).0
  unfolding deferred
  deferred_outcome reason body s = report_outcome reason (body s).0.error (body s).0 (body s).1 refl

module _ {W : Type 0} (p : Platform W) (ha : HermesAgent) {P : Request → Type 0}
    (status_ok : (st : HermesAgentStatus) → P (update_status st)) where
  Writes-mark : (reason : String) (e : Error) → Writes P (mark_reconcile_failed p ha reason e)
  unfolding mark_reconcile_failed
  Writes-mark reason e = record {
    at = λ s h.
        let (changed, s') = set_ready_condition p ha cond_false reason e.text s in
        let written : All P (update_hermes_agent_status p ha s').1.log =
          (Writes-status p ha status_ok).at s' h in
        (elim changed
          as (λ b.
            All P
              (if◌then◌else◌ {A = Error × State W} b (e, (update_hermes_agent_status p ha s').1)
                (e, s')).1.log) [ true ↦ written | false ↦ h ]);
  }

  Writes-report :
      (reason : String) (e : Option Error) (o : Outcome) → Writes P (report p ha reason e o)
  Writes-report reason none o = record { at = λ s h. h }
  Writes-report reason (some e) o = record { at = (Writes-mark reason e).at }

  -- The deferred report adds at most a write of the status.
  pub Writes-deferred :
      (reason : String) (body : Handler W) → Writes P body → Writes P (deferred p ha reason body)
  unfolding deferred
  Writes-deferred reason body h = record {
    at = λ s k. let (o, s') = body s in (Writes-report reason o.error o).at s' (h.at s k);
  }
