-- ===== src/Pod/Storage.antt =====
-- The agent's data volume (internal/usecase/hermesagent_statefulset_hermes.go).
use hermes_agent_operator.Prelude.{Option, none, some, List, [], ◌∷◌, is_empty, if◌then◌else◌}
use hermes_agent_operator.PodTemplate.{Volume, claim_volume}
use hermes_agent_operator.Objects.{PersistentVolumeClaim, claim_pending}
use hermes_agent_operator.Api.Hermes.{
  HermesPersistence, get_existing_claim, get_existing_snapshot, restored_pvc_name,
}
use hermes_agent_operator.Api.Accessors.{get_size}
use hermes_agent_operator.Pod.Parts.{hermes_home_volume, scratch, volume}

abbrev pub home_template : HermesPersistence → PersistentVolumeClaim
home_template hp = record {
  meta = record {
    name = hermes_home_volume;
    namespace = "";
    labels = [];
    annotations = [];
    resource_version = "";
    creation_timestamp = 0;
    deletion_timestamp = none;
  };
  storage = get_size hp;
  storage_class_name = hp.storage_class_name;
  data_source = none;
  phase = claim_pending;
}

-- A claim template, or a scratch volume without persistence.
abbrev pub own_home : Option HermesPersistence → List Volume × List PersistentVolumeClaim
own_home none = (volume hermes_home_volume scratch ∷ [], [])
own_home (some hp) =
    if hp.enabled then ([], home_template hp ∷ []) else (volume hermes_home_volume scratch ∷ [], [])

-- An existing claim before that of a snapshot before one of its own.
unfoldable pub home_storage : Option HermesPersistence → List Volume × List PersistentVolumeClaim
home_storage hp =
    let claim = get_existing_claim hp in
    let snapshot = get_existing_snapshot hp in
    if is_empty claim
    then (if is_empty snapshot
        then own_home hp
        else (volume hermes_home_volume (claim_volume (restored_pvc_name snapshot)) ∷ [], []))
    else (volume hermes_home_volume (claim_volume claim) ∷ [], [])
