-- ===== src/Pod/Labels.antt =====
-- The labels by which the pods are selected.
use hermes_agent_operator.Prelude.{
  refl, [], String, StringMap, [], ◌≡◌, ◌∙◌, some, lookup, insert, lookup-insert, All,
}
use hermes_agent_operator.Api.Agent.{HermesAgent, resource_labels, selector_labels}
use hermes_agent_operator.Api.Accessors.{copy_into, pod_template_labels}
use hermes_agent_operator.Api.Security
use hermes_agent_operator.Service.{build_service}
use hermes_agent_operator.NetworkPolicy.{build_network_policy}
use hermes_agent_operator.Workload.Inputs.{StatefulSetInputs}
use hermes_agent_operator.Pod.{build_stateful_set}
use hermes_agent_operator.Pod.Hermes.{build_hermes_container}
use hermes_agent_operator.Pod.Extends.{build_stateful_set-Extends}

-- The selector matches the labels.
abbrev pub Selects : StringMap String → StringMap String → Type 0
Selects selector labels = All (λ kv. lookup labels kv.0 ≡ some kv.1) selector

-- The labels of the operator are copied last.
pod_template_labels-Selects :
    (ha : HermesAgent) → Selects (resource_labels ha) (pod_template_labels ha)
unfolding pod_template_labels
pod_template_labels-Selects ha =
    let user = copy_into [] ha.spec.pod_labels in
    let named = insert user "app.kubernetes.io/name" "hermes-agent" in
    let of_agent = insert named "app.kubernetes.io/instance" ha.name in
    let last : (k : String) → _ =
      λ k. lookup-insert of_agent "app.kubernetes.io/managed-by" k "hermes-agent-operator" in
    (
      last "app.kubernetes.io/name"
          ∙ (lookup-insert named "app.kubernetes.io/instance" "app.kubernetes.io/name" ha.name
              ∙ lookup-insert user "app.kubernetes.io/name" "app.kubernetes.io/name"
                  "hermes-agent"),
      (
        last "app.kubernetes.io/instance"
            ∙ lookup-insert named "app.kubernetes.io/instance" "app.kubernetes.io/instance" ha.name,
        (last "app.kubernetes.io/managed-by", tt),
      ),
    )

-- The labels of the pod template of the built StatefulSet, whatever labels the spec adds, are matched by
-- the selector of the StatefulSet, by that of the built Service and by that of the built NetworkPolicy,
-- which has no expressions; and each label that the operator gives to its resources has the operator's value in them.
pub build_stateful_set-Selects :
    (q : String → String) (ha : HermesAgent) (inputs : StatefulSetInputs)
    (np : Security.NetworkPolicy)
    → Selects
        (build_stateful_set q ha inputs).selector
        (build_stateful_set q ha inputs).template.labels
      × Selects (build_service ha).selector (build_stateful_set q ha inputs).template.labels
      × Selects
          (build_network_policy ha np).pod_selector.match_labels
          (build_stateful_set q ha inputs).template.labels
      × ((build_network_policy ha np).pod_selector.match_expressions ≡ [])
      × Selects (resource_labels ha) (build_stateful_set q ha inputs).template.labels
unfolding build_hermes_container build_service build_network_policy
build_stateful_set-Selects q ha inputs np =
    let x = build_stateful_set-Extends q ha inputs in
    let labels = pod_template_labels-Selects ha in
    let mine : Selects (selector_labels ha) (build_stateful_set q ha inputs).template.labels =
      rw x.same_labels (labels.0, (labels.1.0, tt)) in
    (rw x.same_selector mine, mine, mine, refl, rw x.same_labels labels)
