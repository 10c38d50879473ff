-- ===== src/PodStatus/Examples.antt =====
-- The theorems on the diagnosis, at concrete Pods.
use hermes_agent_operator.Prelude.{String, none, some, List, [], ◌∷◌, All, ◌≡◌, ◌↔◌, refl, true}
use hermes_agent_operator.Objects.{Pod, PodPhase, pod_pending, ContainerStatus}
use hermes_agent_operator.Kube.Samples.{meta_of}
use hermes_agent_operator.PodStatus.{
  PodFailure, init_container_failure, first_init_failure, init_diagnosis, exit_diagnosis,
  waiting_diagnosis,
}
use hermes_agent_operator.PodStatus.Init.{IsHealthy, IsFirstFailure, init_container_failure_lem}

abbrev exited : ContainerStatus
exited = record {
  name = "seed";
  waiting = none;
  terminated = some (record { exit_code = 3; reason = ""; message = "no space" });
  last_terminated = none;
}

abbrev sample_pod : PodPhase → String → List ContainerStatus → Pod
sample_pod phase reason init = record {
  meta = meta_of "hermes-0";
  phase = phase;
  reason = reason;
  conditions = [];
  init_container_statuses = init;
  container_statuses = [];
}

abbrev seed_failure : PodFailure
seed_failure = record { container = "seed"; init = true; reason = "Error"; message = "no space" }

init_container_failure_lem_example :
    (init_container_failure (some (sample_pod pod_pending "" (exited ∷ []))) ≡ none
      ↔ All IsHealthy (exited ∷ []))
    × ((f : PodFailure)
        → init_container_failure (some (sample_pod pod_pending "" (exited ∷ []))) ≡ some f
        → IsFirstFailure (exited ∷ []) f)
init_container_failure_lem_example =
    init_container_failure_lem (sample_pod pod_pending "" (exited ∷ []))

seed_fails :
    init_container_failure (some (sample_pod pod_pending "" (exited ∷ []))) ≡ some seed_failure
unfolding init_container_failure first_init_failure init_diagnosis exit_diagnosis waiting_diagnosis
seed_fails = refl
