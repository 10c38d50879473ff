-- ===== src/Pod/Extends.antt =====
-- The builders behind the first, and the user's parts, against the first one's StatefulSet
-- (internal/usecase/hermesagent_statefulset.go).
use hermes_agent_operator.Prelude.{
  String, true, false, Option, none, some, List, [], ◌∷◌, ◌++◌, ◌≡◌, ◌∙◌, sym, refl, if◌then◌else◌,
}
use mathlib.Core.List.{append-nil, append_assoc}
use hermes_agent_operator.PodTemplate.{Volume}
use hermes_agent_operator.Objects.{StatefulSet}
use hermes_agent_operator.Api.Agent.{HermesAgent, SearxNg, Camofox}
use hermes_agent_operator.Api.Egress.{Egress}
use hermes_agent_operator.Workload.Inputs.{StatefulSetInputs}
use hermes_agent_operator.Pod.Parts.{map_spec}
use hermes_agent_operator.Pod.{build_stateful_set, bare_stateful_set, with_user_parts}
use hermes_agent_operator.Pod.Hermes.{build_hermes_container}
use hermes_agent_operator.Pod.Sidecars.{
  build_searxng_container, build_camofox_container, if_searxng, if_camofox, add_searxng,
  add_camofox, searxng_volumes, camofox_volumes,
}
use hermes_agent_operator.Pod.Egress.{
  build_egress_container, if_egress, add_egress, with_egress_hash, egress_config_volume,
  egress_agent_ca_volume,
}

abbrev pub volumes : StatefulSet → List Volume
volumes sts = sts.template.spec.volumes

-- The second is the first with more volumes, in these respects.
pub record Extends (a : StatefulSet) (b : StatefulSet) : Type 0 where
  pub same_name : b.meta.name ≡ a.meta.name
  pub same_templates : b.volume_claim_templates ≡ a.volume_claim_templates
  pub same_selector : b.selector ≡ a.selector
  pub same_labels : b.template.labels ≡ a.template.labels
  pub more : List Volume
  pub adds : volumes b ≡ volumes a ++ more

Extends-refl : (a : StatefulSet) → Extends a a
Extends-refl a = record {
  same_name = refl;
  same_templates = refl;
  same_selector = refl;
  same_labels = refl;
  more = [];
  adds = sym (append-nil (volumes a));
}

pub Extends-trans : {a b c : StatefulSet} → Extends a b → Extends b c → Extends a c
Extends-trans {a} {b} {c} h k = record {
  same_name = k.same_name ∙ h.same_name;
  same_templates = k.same_templates ∙ h.same_templates;
  same_selector = k.same_selector ∙ h.same_selector;
  same_labels = k.same_labels ∙ h.same_labels;
  more = h.more ++ k.more;
  adds = k.adds ∙ rw h.adds (append_assoc (volumes a) h.more k.more);
}

pub if_searxng-Extends :
    (ha : HermesAgent) (sx : Option SearxNg) (sts : StatefulSet)
    → Extends sts (if_searxng ha sx sts)
if_searxng-Extends ha none sts = Extends-refl sts
if_searxng-Extends ha (some sx) sts =
    elim sx.enabled as (λ b. Extends sts (if b then map_spec (add_searxng ha sx) sts else sts)) [
      | true ↦ record {
        same_name = refl;
        same_templates = refl;
        same_selector = refl;
        same_labels = refl;
        more = searxng_volumes ha sx;
        adds = refl;
      }
      | false ↦ Extends-refl sts
    ]

pub if_camofox-Extends :
    (ha : HermesAgent) (cx : Option Camofox) (sts : StatefulSet)
    → Extends sts (if_camofox ha cx sts)
if_camofox-Extends ha none sts = Extends-refl sts
if_camofox-Extends ha (some cx) sts =
    elim cx.enabled as (λ b. Extends sts (if b then map_spec (add_camofox ha cx) sts else sts)) [
      | true ↦ record {
        same_name = refl;
        same_templates = refl;
        same_selector = refl;
        same_labels = refl;
        more = camofox_volumes ha cx;
        adds = refl;
      }
      | false ↦ Extends-refl sts
    ]

pub if_egress-Extends :
    (ha : HermesAgent) (eg : Option Egress) (sts : StatefulSet) (names : List String)
    (hash : String)
    → Extends sts (if_egress ha eg names hash sts)
if_egress-Extends ha none sts names hash = Extends-refl sts
if_egress-Extends ha (some eg) sts names hash =
    elim eg.enabled
      as (λ b.
        Extends sts
          (if b then map_spec (add_egress ha eg names) (with_egress_hash hash sts) else sts)) [
            | true ↦ record {
              same_name = refl;
              same_templates = refl;
              same_selector = refl;
              same_labels = refl;
              more = egress_config_volume ha ∷ egress_agent_ca_volume ha ∷ [];
              adds = refl;
            }
            | false ↦ Extends-refl sts
          ]

pub user_parts-Extends :
    (ha : HermesAgent) (sts : StatefulSet) → Extends sts (map_spec (with_user_parts ha) sts)
user_parts-Extends ha sts = record {
  same_name = refl;
  same_templates = refl;
  same_selector = refl;
  same_labels = refl;
  more = ha.spec.extra_volumes;
  adds = refl;
}

pub build_stateful_set-Extends :
    (q : String → String) (ha : HermesAgent) (inputs : StatefulSetInputs)
    → Extends
        (build_hermes_container q ha (bare_stateful_set ha inputs))
        (build_stateful_set q ha inputs)
unfolding build_stateful_set build_searxng_container build_camofox_container build_egress_container
build_stateful_set-Extends q ha inputs =
    let hermes = build_hermes_container q ha (bare_stateful_set ha inputs) in
    let searxng = if_searxng ha ha.spec.searxng hermes in
    let camofox = if_camofox ha ha.spec.camofox searxng in
    let egress = if_egress ha ha.spec.egress inputs.egress_token_names inputs.egress_hash camofox in
    Extends-trans (if_searxng-Extends ha ha.spec.searxng hermes) (
      Extends-trans (if_camofox-Extends ha ha.spec.camofox searxng) (
        Extends-trans
          (if_egress-Extends ha ha.spec.egress camofox inputs.egress_token_names inputs.egress_hash)
          (user_parts-Extends ha egress)))
