-- ===== src/Workload.antt =====
-- The StatefulSet's reconciler (internal/usecase/hermesagent_statefulset.go), and what it reads of the
-- egress Secrets (internal/usecase/hermesagent_statefulset_egress.go). The pod template is a parameter.
pub mod Inputs
pub mod Names
pub mod Writes
pub mod Refines
pub mod TokenNames
mod Examples
use hermes_agent_operator.Prelude.{
  ℕ, ◌*◌, String, ◌⧺◌, Bool, true, false, Option, none, some, List, [], ◌∷◌, not, ◌||◌, ◌==◌,
  str_eq, StringMap, lookup, insert, get_or, length, contains, if_some, if◌then◌else◌,
}
use hermes_agent_operator.Objects.{NsName, ConfigMap, StatefulSet, Pod, PodPhase, pod_running}
use hermes_agent_operator.Api.Agent.{
  HermesAgent, HermesAgentStatus, HermesAgentPhase, pending, unknown, suspended, is_suspended,
  get_hermes_name,
}
use hermes_agent_operator.Api.Egress.{egress_enabled}
use hermes_agent_operator.Kube.Client.{Error, Cause, inputs_pending, Result, ok, err, Platform}
use hermes_agent_operator.Kube.Exec.{
  State, Outcome, Handler, Call, Exec, pure, return, attempt, tried, acted, gets, modify_status,
  finish, when, done, requeue, second, retry_delay, failed_with, ◌>>=◌, ◌>>◌,
}
use hermes_agent_operator.Kube.Calls.{
  get_stateful_set, get_config_map, get_pod, create_stateful_set, update_stateful_set,
  delete_stateful_set, delete_pod, update_hermes_agent_status,
}
use hermes_agent_operator.Conditions.{deferred, mark_ready}
use hermes_agent_operator.PodStatus.{
  hermes_agent_phase, init_container_failure, pod_status_reason, apply_init_failed_condition,
}
use hermes_agent_operator.Workload.Inputs.{
  StatefulSetInputs, config_map_data_hash, desired_spec_hash, egress_pod_inputs,
}
use hermes_agent_operator.Workload.Names.{same_volume_claim_template_names}

abbrev pub annotation_desired_spec_hash : String
annotation_desired_spec_hash = "hermeum.app/desired-spec-hash"

abbrev pub record_stateful_set : String → HermesAgentStatus → HermesAgentStatus
record_stateful_set name status =
    let managed = status.managed_resources in
    record status { managed_resources = record managed { stateful_set = name } }

abbrev pub record_phase : HermesAgentPhase → String → HermesAgentStatus → HermesAgentStatus
record_phase phase reason status = record status { phase = phase; reason = reason }

abbrev pub with_hash : String → StatefulSet → StatefulSet
with_hash hash sts =
    let meta = sts.meta in
    record sts {
      meta = record meta {
        annotations = insert meta.annotations annotation_desired_spec_hash hash;
      };
    }

abbrev pub with_version : StatefulSet → String → StatefulSet
with_version sts version =
    let meta = sts.meta in record sts { meta = record meta { resource_version = version } }

-- `sts.Annotations[annotationDesiredSpecHash]`, "" where there is none.
abbrev pub hash_of : StatefulSet → String
hash_of sts = get_or (lookup sts.meta.annotations annotation_desired_spec_hash) ""

abbrev pub is_running : PodPhase → Bool
is_running pod_running = true
is_running _ = false

-- `pod != nil && pod.Status.Phase == corev1.PodRunning`.
abbrev pub was_running : Option Pod → Bool
was_running pod = if_some pod (λ x. is_running x.phase) false

abbrev pub not_ready : HermesAgentPhase → Bool
not_ready pending = true
not_ready unknown = true
not_ready _ = false

abbrev pub set_ns_name : HermesAgent → NsName
set_ns_name ha = record { namespace = ha.namespace; name = ha.name }

abbrev pub pod_ns_name : HermesAgent → NsName
pod_ns_name ha = record { namespace = ha.namespace; name = ha.name ⧺ "-0" }

abbrev pub bootstrap_ns_name : HermesAgent → NsName
bootstrap_ns_name ha = record { namespace = ha.namespace; name = get_hermes_name ha }

module _ {W : Type 0} (p : Platform W)
    (build_stateful_set : HermesAgent → StatefulSetInputs → StatefulSet) (ha : HermesAgent) where
  -- What is sent: the built StatefulSet, with the hash of its spec.
  abbrev pub desired_set : StatefulSetInputs → StatefulSet
  desired_set inputs =
      let built = build_stateful_set ha inputs in with_hash (desired_spec_hash p built) built

  -- Secrets that are not visible yet are waited for, with no error.
  abbrev pub or_wait : Cause → Error → Exec W StatefulSetInputs
  or_wait inputs_pending e = return (requeue (2 * second))
  or_wait _ e = return (failed_with e)

  pub with_egress_inputs : String → Result (List String × String) → Exec W StatefulSetInputs
  with_egress_inputs config_hash (ok (names, hash)) =
      pure (record { config_hash = config_hash; egress_token_names = names; egress_hash = hash })
  with_egress_inputs config_hash (err e) = or_wait e.cause e

  pub read_inputs : String → Exec W StatefulSetInputs
  read_inputs config_hash =
      if egress_enabled ha.spec.egress
      then (tried (egress_pod_inputs p ha) >>= λ r. with_egress_inputs config_hash r)
      else pure (record { config_hash = config_hash; egress_token_names = []; egress_hash = "" })

  -- The claim templates cannot change: it is deleted once, and created by a later reconciliation.
  pub reshape : Exec W (Unit {0})
  reshape = do attempt (delete_stateful_set p (set_ns_name ha)); return (requeue retry_delay)

  pub replace_set : StatefulSet → StatefulSet → Option Pod → Exec W (Unit {0})
  replace_set sts desired pod = do
    attempt (update_stateful_set p ha (with_version desired sts.meta.resource_version))
    when (not (was_running pod)) (attempt (delete_pod p (pod_ns_name ha)))

  pub update_set : StatefulSet → StatefulSet → Exec W (Unit {0})
  update_set sts desired = do
    pod ← attempt (get_pod p (pod_ns_name ha))
    replace_set sts desired pod

  pub refresh_set : StatefulSet → StatefulSet → String → Exec W (Unit {0})
  refresh_set sts desired hash =
      if str_eq (hash_of sts) hash then pure tt else update_set sts desired

  pub put_set : Option StatefulSet → StatefulSet → String → Exec W (Unit {0})
  put_set none desired hash = attempt (create_stateful_set p ha desired)
  put_set (some sts) desired hash =
      if same_volume_claim_template_names sts desired then refresh_set sts desired hash else reshape

  abbrev pub status_of_pod : Result (Option Pod) → HermesAgentPhase × Option Pod
  status_of_pod (ok none) = (pending, none)
  status_of_pod (ok (some pod)) = (hermes_agent_phase pod, some pod)
  status_of_pod (err e) = (unknown, none)

  abbrev pub pod_status : Result (Option Pod) × State W → (HermesAgentPhase × Option Pod) × State W
  pod_status (r, s) = (status_of_pod r, s)

  pub derive_status : State W → (HermesAgentPhase × Option Pod) × State W
  derive_status s =
      if is_suspended ha then ((suspended, none), s) else pod_status (get_pod p (pod_ns_name ha) s)

  pub report_status : Exec W Outcome
  report_status = do
    modify_status (record_stateful_set ha.name)
    derived ← acted derive_status
    modify_status
        (record_phase derived.0 (pod_status_reason derived.1 (init_container_failure derived.1)))
    acted (apply_init_failed_condition p ha (init_container_failure derived.1))
    acted (mark_ready p ha)
    attempt (update_hermes_agent_status p ha)
    phase ← gets (λ s. s.status.phase)
    pure (if not_ready phase then requeue (10 * second) else done)

  pub with_inputs : Option StatefulSet → StatefulSetInputs → Exec W Outcome
  with_inputs sts inputs = do
    put_set sts (desired_set inputs) (desired_spec_hash p (build_stateful_set ha inputs))
    report_status

  pub contents_of : Option ConfigMap → StringMap String
  contents_of cm = if_some cm (λ x. x.contents) []

  pub rest_of : Option StatefulSet → Exec W Outcome
  rest_of sts = do
    cm ← attempt (get_config_map p (bootstrap_ns_name ha))
    inputs ← read_inputs (config_map_data_hash p (contents_of cm))
    with_inputs sts inputs

  pub stateful_set_body : Exec W Outcome
  stateful_set_body = do sts ← attempt (get_stateful_set p (set_ns_name ha)); rest_of sts

  unfoldable pub reconcile_stateful_set : Handler W
  reconcile_stateful_set = deferred p ha "StatefulSetReconcileFailed" (finish stateful_set_body)
