-- ===== src/Workload/Examples.antt =====
-- The theorems on the StatefulSet, at a concrete cluster and concrete names.
use hermes_agent_operator.Prelude.{String, true, none, List, [], ◌∷◌, map, ◌≡◌, ◌↔◌, refl}
use hermes_agent_operator.Objects.{StatefulSet}
use hermes_agent_operator.Api.Agent.{HermesAgent}
use hermes_agent_operator.Kube.Samples.{claim_template, sample_agent, sample_set}
use hermes_agent_operator.Workload.Inputs.{StatefulSetInputs}
use hermes_agent_operator.Workload.Names.{same_volume_claim_template_names}
use hermes_agent_operator.Workload.Names.SameSet.{IsSameSet, same_volume_claim_template_names_iff}

abbrev agent : HermesAgent
agent = sample_agent none none

abbrev built : HermesAgent → StatefulSetInputs → StatefulSet
built ha inputs =
    let template = sample_set.template in
    record sample_set {
      template = record template {
        annotations = ("hermeum.app/config-hash", inputs.config_hash) ∷ [];
      };
    }

abbrev with_templates : List String → StatefulSet
with_templates names = record sample_set { volume_claim_templates = map claim_template names }

same_volume_claim_template_names_iff_example :
    (same_volume_claim_template_names
        (with_templates ("hermes-data" ∷ "camofox-data" ∷ []))
        (with_templates ("camofox-data" ∷ "hermes-data" ∷ []))
      ≡ true)
    ↔ IsSameSet ("hermes-data" ∷ "camofox-data" ∷ []) ("camofox-data" ∷ "hermes-data" ∷ [])
same_volume_claim_template_names_iff_example =
    same_volume_claim_template_names_iff (with_templates ("hermes-data" ∷ "camofox-data" ∷ []))
      (with_templates ("camofox-data" ∷ "hermes-data" ∷ [])) (refl, (refl, tt)) (refl, (refl, tt))
