-- ===== src/Pod/Home.antt =====
-- The claim behind the agent's data volume (internal/usecase/hermesagent_statefulset_hermes.go,
-- hermesagent_snapshot.go).
use hermes_agent_operator.Prelude.{
  String, ◌⧺◌, Bool, true, false, Option, none, some, List, [], ◌∷◌, ◌++◌, ◌≡◌, ◌∙◌, ap, refl, not,
  ◌&&◌, ◌||◌, str_eq, Bool-cases, inl, inr, is_empty, and_then, if_some, arith, if◌then◌else◌,
}
use hermes_agent_operator.PodTemplate.{Volume, VolumeSource, claim_volume}
use hermes_agent_operator.Objects.{StatefulSet, claim_names}
use hermes_agent_operator.Api.Hermes.{
  HermesPersistence, get_persistence, get_existing_claim, get_existing_snapshot, restored_pvc_name,
}
use hermes_agent_operator.Api.Agent.{HermesAgent}
use hermes_agent_operator.Snapshot.{build_data_pvc_name}
use hermes_agent_operator.Restore.{stateful_set_has_volume_claim_template, has_template}
use hermes_agent_operator.Workload.Inputs.{StatefulSetInputs}
use hermes_agent_operator.Pod.{build_stateful_set}
use hermes_agent_operator.Pod.Parts.{hermes_home_volume, scratch}
use hermes_agent_operator.Pod.Storage.{home_storage}
use hermes_agent_operator.Pod.Hermes.{hermes_volumes, build_hermes_container}
use hermes_agent_operator.Pod.Extends.{volumes, build_stateful_set-Extends}

abbrev pub find_volume : String → List Volume → Option VolumeSource
find_volume name [] = none
find_volume name (v ∷ vs) = if str_eq v.name name then some v.source else find_volume name vs

abbrev pub claim_of : VolumeSource → Option String
claim_of (claim_volume claim) = some claim
claim_of _ = none

-- The claim that the first pod of the StatefulSet mounts under the name of the data volume: that of a
-- claim template, which takes precedence, or the claim of a volume.
abbrev pub data_claim : StatefulSet → Option String
data_claim sts =
    if stateful_set_has_volume_claim_template sts hermes_home_volume
    then some ("hermes-data-" ⧺ (sts.meta.name ⧺ "-0"))
    else and_then (find_volume hermes_home_volume (volumes sts)) claim_of

abbrev pub is_persistent : Option HermesPersistence → Bool
is_persistent hp =
    not (is_empty (get_existing_claim hp))
    || (not (is_empty (get_existing_snapshot hp)) || if_some hp (λ p. p.enabled) false)

-- Whether the claim is the StatefulSet's own.
abbrev pub has_own_claim : Option HermesPersistence → Bool
has_own_claim hp =
    is_empty (get_existing_claim hp)
    && (is_empty (get_existing_snapshot hp) && if_some hp (λ p. p.enabled) false)

find_volume-append :
    (name : String) (xs ys : List Volume) (v : VolumeSource)
    → find_volume name xs ≡ some v
    → find_volume name (xs ++ ys) ≡ some v
find_volume-append name [] ys v e = ground arith
find_volume-append name (x ∷ xs) ys v e = ground (arith, find_volume-append name xs ys v)

home_template_lem :
    (hp : Option HermesPersistence)
    → has_template (claim_names (home_storage hp).1) hermes_home_volume ≡ has_own_claim hp
unfolding home_storage
home_template_lem none = refl
home_template_lem (some p) = ground arith

-- The source of the volume, where it is one of the pod's volumes.
abbrev home_source : Option HermesPersistence → VolumeSource
home_source hp =
    if is_empty (get_existing_claim hp)
    then (if is_empty (get_existing_snapshot hp)
        then scratch
        else claim_volume (restored_pvc_name (get_existing_snapshot hp)))
    else claim_volume (get_existing_claim hp)

home_volume_lem :
    (hp : Option HermesPersistence)
    → has_own_claim hp ≡ false
    → find_volume hermes_home_volume (home_storage hp).0 ≡ some (home_source hp)
unfolding home_storage
home_volume_lem none e = refl
home_volume_lem (some p) e = ground arith

by_flags :
    (c s e : Bool) (a b own : String)
    → (if c && (s && e)
        then some own
        else claim_of (if c then (if s then scratch else claim_volume b) else claim_volume a))
      ≡ (if not c || (not s || e)
          then some (if not c then a else if not s then b else own)
          else none)
by_flags true true true a b own = refl
by_flags true true false a b own = refl
by_flags true false e a b own = refl
by_flags false s e a b own = refl

-- What is found among the volumes of the first builder is found among all.
pub find-home :
    (q : String → String) (ha : HermesAgent) (inputs : StatefulSetInputs)
    → has_own_claim (get_persistence ha.spec.hermes) ≡ false
    → find_volume hermes_home_volume (volumes (build_stateful_set q ha inputs))
      ≡ some (home_source (get_persistence ha.spec.hermes))
unfolding build_hermes_container hermes_volumes
find-home q ha inputs e =
    let x = build_stateful_set-Extends q ha inputs in
    let hp = get_persistence ha.spec.hermes in
    rw x.adds (
      find_volume-append hermes_home_volume (hermes_volumes ha) x.more (home_source hp) (
        find_volume-append hermes_home_volume (home_storage hp).0 _ (home_source hp)
          (home_volume_lem hp e)))

pub built_template :
    (q : String → String) (ha : HermesAgent) (inputs : StatefulSetInputs)
    → stateful_set_has_volume_claim_template (build_stateful_set q ha inputs) hermes_home_volume
      ≡ has_own_claim (get_persistence ha.spec.hermes)
unfolding build_hermes_container stateful_set_has_volume_claim_template
built_template q ha inputs =
    rw (build_stateful_set-Extends q ha inputs).same_templates
      (home_template_lem (get_persistence ha.spec.hermes))

data_claim_lem :
    (q : String → String) (ha : HermesAgent) (inputs : StatefulSetInputs)
    → data_claim (build_stateful_set q ha inputs) ≡ (
        if has_own_claim (get_persistence ha.spec.hermes)
        then some ("hermes-data-" ⧺ (ha.name ⧺ "-0"))
        else claim_of (home_source (get_persistence ha.spec.hermes)))
unfolding build_hermes_container
data_claim_lem q ha inputs = elim (Bool-cases (has_own_claim (get_persistence ha.spec.hermes))) [
  | inl own ↦
      rw (built_template q ha inputs)
        (rw own (rw (build_stateful_set-Extends q ha inputs).same_name refl))
  | inr none_own ↦
      rw (built_template q ha inputs)
        (rw none_own (ap (λ o. and_then o claim_of) (find-home q ha inputs none_own)))
]

-- Whatever the spec adds, the claim that the first pod of the built StatefulSet mounts under the name of
-- the data volume is the claim of which the snapshot reconciler takes snapshots, if the spec names an
-- existing claim or snapshot or has persistence on, and otherwise there is none. The StatefulSet has a
-- claim template of that name, for which a restore would replace it, only if persistence is on and the
-- spec names neither an existing claim nor a snapshot.
pub data_claim-build_stateful_set :
    (q : String → String) (ha : HermesAgent) (inputs : StatefulSetInputs)
    → (data_claim (build_stateful_set q ha inputs) ≡ (
        if is_persistent (get_persistence ha.spec.hermes)
        then some (build_data_pvc_name ha)
        else none))
      × (stateful_set_has_volume_claim_template (build_stateful_set q ha inputs) "hermes-data"
          ≡ has_own_claim (get_persistence ha.spec.hermes))
unfolding build_data_pvc_name
data_claim-build_stateful_set q ha inputs =
    let hp = get_persistence ha.spec.hermes in
    (
      data_claim_lem q ha inputs
          ∙ by_flags (is_empty (get_existing_claim hp)) (is_empty (get_existing_snapshot hp))
              (if_some hp (λ p. p.enabled) false) (get_existing_claim hp)
              (restored_pvc_name (get_existing_snapshot hp)) ("hermes-data-" ⧺ (ha.name ⧺ "-0")),
      built_template q ha inputs,
    )
