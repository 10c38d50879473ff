-- ===== src/Pod/Mounts.antt =====
-- The mounts of the pod and its volumes (internal/usecase/hermesagent_statefulset.go).
mod Covers
mod Init
pub mod Stages
mod Hermes
use hermes_agent_operator.Prelude.{String, List, ◌++◌, All, All-append}
use hermes_agent_operator.Api.Agent.{HermesAgent}
use hermes_agent_operator.Workload.Inputs.{StatefulSetInputs}
use hermes_agent_operator.Pod.{build_stateful_set, bare_stateful_set}
use hermes_agent_operator.Pod.Hermes.{build_hermes_container}
use hermes_agent_operator.Pod.Sidecars.{
  build_searxng_container, build_camofox_container, if_searxng, if_camofox,
}
use hermes_agent_operator.Pod.Egress.{build_egress_container, if_egress}
use hermes_agent_operator.Pod.Extends.{
  Extends-trans, if_searxng-Extends, if_camofox-Extends, if_egress-Extends, user_parts-Extends,
}
use hermes_agent_operator.Pod.Mounts.Stages.{
  AreThere, IsMounted, AllMounted, searxng-AllMounted, camofox-AllMounted, egress-AllMounted,
}
use hermes_agent_operator.Pod.Mounts.Hermes.{hermes-AllMounted}

-- In the built StatefulSet each mount of each container and init container names a volume or a claim
-- template, if those do that the spec adds: its extra mounts, and the mounts of its own init containers
-- and sidecars.
pub build_stateful_set-AllMounted :
    (q : String → String) (ha : HermesAgent) (inputs : StatefulSetInputs)
    → AreThere (build_stateful_set q ha inputs) ha.spec.extra_volume_mounts
    → All (IsMounted (build_stateful_set q ha inputs)) ha.spec.init_containers
    → All (IsMounted (build_stateful_set q ha inputs)) ha.spec.sidecars
    → AllMounted (build_stateful_set q ha inputs) (build_stateful_set q ha inputs)
unfolding build_stateful_set build_searxng_container build_camofox_container build_egress_container
build_stateful_set-AllMounted q ha inputs extra inits sidecars =
    let hermes = build_hermes_container q ha (bare_stateful_set ha inputs) in
    let searxng = if_searxng ha ha.spec.searxng hermes in
    let camofox = if_camofox ha ha.spec.camofox searxng in
    let names = inputs.egress_token_names in
    let egress = if_egress ha ha.spec.egress names inputs.egress_hash camofox in
    let whole = build_stateful_set q ha inputs in
    let from_egress = user_parts-Extends ha egress in
    let from_camofox =
      Extends-trans (if_egress-Extends ha ha.spec.egress camofox names inputs.egress_hash)
        from_egress in
    let from_searxng = Extends-trans (if_camofox-Extends ha ha.spec.camofox searxng) from_camofox in
    let all =
      egress-AllMounted whole ha ha.spec.egress names inputs.egress_hash camofox from_egress (
        camofox-AllMounted whole ha ha.spec.camofox searxng from_camofox (
          searxng-AllMounted whole ha ha.spec.searxng hermes from_searxng
            (hermes-AllMounted q ha inputs extra))) in
    record {
      init =
          All-append _ egress.template.spec.init_containers ha.spec.init_containers all.init inits;
      main = All-append _ egress.template.spec.containers ha.spec.sidecars all.main sidecars;
    }
