-- ===== src/Managed.antt =====
-- What the reconcilers of the Service, the Ingress and the NetworkPolicy have in common
-- (internal/usecase/hermesagent_service.go, hermesagent_ingress.go, hermesagent_networkpolicy.go): one
-- object, and its name in the status.
pub mod Sends
pub mod Plan
pub mod Wanted
pub mod Requests
pub mod Lists
use hermes_agent_operator.Prelude.{String, Bool, Option, none, some, is_some, if◌then◌else◌}
use hermes_agent_operator.Objects.{NsName}
use hermes_agent_operator.Api.Agent.{HermesAgent, HermesAgentStatus}
use hermes_agent_operator.Kube.Client.{Platform, Kind, Object}
use hermes_agent_operator.Kube.Exec.{
  Outcome, Handler, Exec, Call, pure, attempt, modify_status, finish, when, done, ◌>>=◌, ◌>>◌,
}
use hermes_agent_operator.Kube.Calls.{get, create, update, delete, update_hermes_agent_status}
use hermes_agent_operator.Conditions.{deferred}

-- Of one object: where it is, whether it is asked for, what is sent for it (to create it, where there
-- is none; in place of the existing one, where there is one), whether the existing one is as it should
-- be, the status with its name in it, and the reason of the condition on failure.
pub record Managed (k : Kind) : Type 0 where
  pub ns_name : NsName
  pub wanted : Bool
  pub built : Option (Object k) → Object k
  pub settled : Object k → Bool
  pub recorded : String → HermesAgentStatus → HermesAgentStatus
  pub reason : String

module _ {W : Type 0} (p : Platform W) (ha : HermesAgent) {k : Kind} (m : Managed k) where
  pub record_name : String → Exec W Outcome
  record_name name = do
    modify_status (m.recorded name)
    attempt (update_hermes_agent_status p ha)
    pure done

  pub remove_object : Option (Object k) → Exec W Outcome
  remove_object existing = do
    when (is_some existing) (attempt (delete p k m.ns_name))
    record_name ""

  pub refresh_object : Object k → Exec W Outcome
  refresh_object existing = do attempt (update p ha k (m.built (some existing))); pure done

  pub put_object : Option (Object k) → Exec W Outcome
  put_object none = do attempt (create p ha k (m.built none)); record_name ha.name
  put_object (some existing) = if m.settled existing then pure done else refresh_object existing

  pub with_object : Option (Object k) → Exec W Outcome
  with_object existing = if m.wanted then put_object existing else remove_object existing

  pub managed_body : Exec W Outcome
  managed_body = do existing ← attempt (get p k m.ns_name); with_object existing

  pub reconcile_managed : Handler W
  reconcile_managed = deferred p ha m.reason (finish managed_body)
