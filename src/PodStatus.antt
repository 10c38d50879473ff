-- ===== src/PodStatus.antt =====
-- The diagnosis of a Pod (internal/usecase/hermesagent_statefulset_podstatus.go): the phase, the first
-- failure that its status reports, and the first failure among its init containers. A loop that
-- returns at its first hit is a recursion on the list.
pub mod Init
pub mod Reason
mod Examples
use hermes_agent_operator.Prelude.{
  String, ◌⧺◌, Bool, true, false, Option, none, some, List, [], ◌∷◌, not, ◌&&◌, ◌||◌, ◌==◌, str_eq,
  is_empty, get_or, if_some, if◌then◌else◌,
}
use hermes_agent_operator.Objects.{
  Condition, ConditionStatus, cond_true, cond_false, cond_unknown, Pod, PodPhase, pod_pending,
  pod_running, pod_succeeded, pod_failed, pod_unknown, PodCondition, ContainerStatus,
  ContainerStateTerminated, ContainerStateWaiting,
}
use hermes_agent_operator.Api.Agent.{
  HermesAgent, HermesAgentPhase, pending, running, succeeded, failed, unknown,
}
use hermes_agent_operator.Kube.Client.{Platform}
use hermes_agent_operator.Kube.Exec.{State}
use hermes_agent_operator.Conditions.{set_condition, remove_condition}

-- `container` is empty for a failure of the Pod itself.
pub record PodFailure : Type 0 where
  pub container : String
  pub init : Bool
  pub reason : String
  pub message : String

abbrev phase_of : PodPhase → HermesAgentPhase
phase_of pod_pending = pending
phase_of pod_running = running
phase_of pod_succeeded = succeeded
phase_of pod_failed = failed
phase_of pod_unknown = unknown

pub hermes_agent_phase : Pod → HermesAgentPhase
hermes_agent_phase pod = phase_of pod.phase

abbrev is_false : ConditionStatus → Bool
is_false cond_true = false
is_false cond_false = true
is_false cond_unknown = false

-- `t != nil && t.ExitCode != 0 && t.Reason != ""`.
abbrev pub exit_reason : Option ContainerStateTerminated → Bool
exit_reason none = false
exit_reason (some t) = not (t.exit_code == 0) && not (is_empty t.reason)

abbrev pub waiting_failure : String → Bool → ContainerStateWaiting → PodFailure
waiting_failure container init w = record {
  container = container;
  init = init;
  reason = w.reason;
  message = w.message;
}

abbrev pub exit_failure : String → Bool → ContainerStateTerminated → PodFailure
exit_failure container init t = record {
  container = container;
  init = init;
  reason = t.reason;
  message = t.message;
}

-- The loop over the conditions of a pending Pod.
unschedulable : List PodCondition → Option PodFailure
unschedulable [] = none
unschedulable (c ∷ cs) =
    if c.scheduled && is_false c.status && not (is_empty c.reason)
    then some (record { container = ""; init = false; reason = c.reason; message = c.message })
    else unschedulable cs

-- The loop over the init containers of a pending Pod.
init_waiting : List ContainerStatus → Option PodFailure
init_waiting [] = none
init_waiting (c ∷ cs) =
    let rest = init_waiting cs in
    if_some c.waiting
      (λ w. if is_empty w.reason then rest else some (waiting_failure c.name true w)) rest

-- The loop over the init containers of any other Pod.
init_failed : List ContainerStatus → Option PodFailure
init_failed [] = none
init_failed (c ∷ cs) =
    let rest = init_failed cs in
    let waiting =
      if_some c.waiting
        (λ w. if is_empty w.reason then rest else some (waiting_failure c.name true w)) rest in
    if_some c.terminated
      (λ t. if exit_reason (some t) then some (exit_failure c.name true t) else waiting) waiting

-- The loop over the containers.
container_failed : List ContainerStatus → Option PodFailure
container_failed [] = none
container_failed (c ∷ cs) =
    let rest = container_failed cs in
    let exited =
      if_some c.last_terminated
        (λ t. if exit_reason (some t) then some (exit_failure c.name false t) else rest) rest in
    if_some c.waiting
      (λ w. if is_empty w.reason then exited else some (waiting_failure c.name false w)) exited

-- `return` at the first loop that finds a failure.
abbrev pub or_else : Option PodFailure → Option PodFailure → Option PodFailure
or_else none g = g
or_else (some f) g = some f

abbrev pub is_pending : PodPhase → Bool
is_pending pod_pending = true
is_pending _ = false

pub first_pod_failure : Option Pod → Option PodFailure
unfolding unschedulable init_waiting init_failed container_failed
first_pod_failure none = none
first_pod_failure (some pod) =
    if is_pending pod.phase
    then or_else (unschedulable pod.conditions) (init_waiting pod.init_container_statuses)
    else or_else (init_failed pod.init_container_statuses) (
        or_else (container_failed pod.container_statuses) (
          if is_empty pod.reason
          then none
          else some (record { container = ""; init = false; reason = pod.reason; message = "" })))

-- `GetReason`.
abbrev pub get_reason : Option PodFailure → String
get_reason none = ""
get_reason (some f) = f.reason

abbrev pub starting_up : String → Bool
starting_up reason = str_eq reason "PodInitializing" || str_eq reason "ContainerCreating"

abbrev pub termination_reason : ContainerStateTerminated → String
termination_reason t = if is_empty t.reason then "Error" else t.reason

-- The message of a waiting container: its last termination message, if it has one.
abbrev last_message : ContainerStatus → ContainerStateWaiting → String
last_message c w =
    if_some c.last_terminated (λ t. if is_empty t.message then w.message else t.message) w.message

-- The test of an init container's waiting state, after that of its termination.
pub waiting_diagnosis : ContainerStatus → Option ContainerStateWaiting → Option PodFailure
waiting_diagnosis c none = none
waiting_diagnosis c (some w) =
    if is_empty w.reason || starting_up w.reason
    then none
    else some
        (record { container = c.name; init = true; reason = w.reason; message = last_message c w })

-- The test of its termination; `rest` is what the tests below it find.
pub exit_diagnosis :
    ContainerStatus → Option ContainerStateTerminated → Option PodFailure → Option PodFailure
exit_diagnosis c none rest = rest
exit_diagnosis c (some t) rest =
    if t.exit_code == 0
    then rest
    else some (record {
      container = c.name;
      init = true;
      reason = termination_reason t;
      message = t.message;
    })

-- The body of the loop of `initContainerFailure`, for one container: none is `continue`.
pub init_diagnosis : ContainerStatus → Option PodFailure
unfolding waiting_diagnosis exit_diagnosis
init_diagnosis c = exit_diagnosis c c.terminated (waiting_diagnosis c c.waiting)

pub first_init_failure : List ContainerStatus → Option PodFailure
unfolding init_diagnosis
first_init_failure [] = none
first_init_failure (c ∷ cs) = or_else (init_diagnosis c) (first_init_failure cs)

pub init_container_failure : Option Pod → Option PodFailure
unfolding first_init_failure
init_container_failure none = none
init_container_failure (some pod) = first_init_failure pod.init_container_statuses

pub pod_status_reason : Option Pod → Option PodFailure → String
unfolding first_pod_failure
pod_status_reason pod init_failure =
    if is_empty (get_reason init_failure)
    then get_reason (first_pod_failure pod)
    else get_reason init_failure

module _ {W : Type 0} (p : Platform W) (ha : HermesAgent) where
  abbrev clear_init_failed : State W → Bool × State W
  clear_init_failed = remove_condition p ha "InitFailed"

  abbrev init_failed_message : PodFailure → String
  init_failed_message f =
      let message = "Init container " ⧺ f.container ⧺ " failed" in
      if is_empty f.message then message else message ⧺ ": " ⧺ f.message

  unfoldable pub apply_init_failed_condition : Option PodFailure → State W → Bool × State W
  apply_init_failed_condition none s = clear_init_failed s
  apply_init_failed_condition (some f) s =
      if f.init
      then set_condition p ha
          (record {
            type = "InitFailed";
            status = cond_true;
            observed_generation = ha.generation;
            reason = f.reason;
            message = init_failed_message f;
          })
          s
      else clear_init_failed s
