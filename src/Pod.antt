-- ===== src/Pod.antt =====
-- The pod that the StatefulSet runs (buildStatefulSet, internal/usecase/hermesagent_statefulset.go, and the
-- builders of its parts). `q` stands for fmt's verb %q, in the scripts.
pub mod Parts
pub mod DotEnv
pub mod Storage
pub mod Steps
pub mod Hermes
pub mod Sidecars
pub mod Egress
mod Found
pub mod Tokens
mod Extends
mod Home
mod Labels
mod Items
mod Ports
mod Mounts
mod Examples
use hermes_agent_operator.Prelude.{
  ℕ, String, StringMap, List, [], ◌∷◌, ◌++◌, insert, none, if◌then◌else◌,
}
use hermes_agent_operator.PodTemplate.{Container, PodSpec, PodTemplateSpec, Volume}
use hermes_agent_operator.Objects.{StatefulSet}
use hermes_agent_operator.Api.Agent.{
  HermesAgent, is_suspended, resource_labels, selector_labels, get_service_account_name,
}
use hermes_agent_operator.Api.Accessors.{copy_into, pod_template_labels}
use hermes_agent_operator.Workload.Inputs.{StatefulSetInputs}
use hermes_agent_operator.Pod.Parts.{map_spec}
use hermes_agent_operator.Pod.Hermes.{build_hermes_container}
use hermes_agent_operator.Pod.Sidecars.{build_searxng_container, build_camofox_container}
use hermes_agent_operator.Pod.Egress.{build_egress_container}

-- Without its containers and volumes.
abbrev pub bare_stateful_set : HermesAgent → StatefulSetInputs → StatefulSet
bare_stateful_set ha inputs = record {
  meta = record {
    name = ha.name;
    namespace = ha.namespace;
    labels = resource_labels ha;
    annotations = [];
    resource_version = "";
    creation_timestamp = 0;
    deletion_timestamp = none;
  };
  replicas = if is_suspended ha then 0 else 1;
  selector = selector_labels ha;
  max_unavailable = 1;
  template = record {
    labels = pod_template_labels ha;
    annotations =
        copy_into (("hermeum.app/config-hash", inputs.config_hash) ∷ []) ha.spec.pod_annotations;
    spec = record {
      init_containers = [];
      containers = [];
      volumes = [];
      host_users = ha.spec.host_users;
      priority_class_name = ha.spec.priority_class_name;
      runtime_class_name = ha.spec.runtime_class_name;
      seccomp_profile = "RuntimeDefault";
      service_account_name = get_service_account_name ha;
    };
  };
  volume_claim_templates = [];
}

-- What the user adds comes behind what the operator adds.
abbrev pub with_user_parts : HermesAgent → PodSpec → PodSpec
with_user_parts ha spec = record spec {
  init_containers = spec.init_containers ++ ha.spec.init_containers;
  containers = spec.containers ++ ha.spec.sidecars;
  volumes = spec.volumes ++ ha.spec.extra_volumes;
}

module _ (q : String → String) where
  unfoldable pub build_stateful_set : HermesAgent → StatefulSetInputs → StatefulSet
  build_stateful_set ha inputs =
      let hermes = build_hermes_container q ha (bare_stateful_set ha inputs) in
      let searxng = build_searxng_container ha hermes in
      let camofox = build_camofox_container ha searxng in
      map_spec (with_user_parts ha)
        (build_egress_container ha camofox inputs.egress_token_names inputs.egress_hash)
