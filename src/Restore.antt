-- ===== src/Restore.antt =====
-- Restoring the data volume from a snapshot (internal/usecase/hermesagent_restore.go): the reconciler,
-- the claim it provisions and the readiness of the source.
pub mod Requests
pub mod Gate
mod Examples
use hermes_agent_operator.Prelude.{
  ℕ, String, ◌⧺◌, Bool, true, false, Option, none, some, List, [], ◌∷◌, ◌||◌, str_eq, is_empty,
  get_or, if_some, and_then, if◌then◌else◌,
}
use hermes_agent_operator.Objects.{
  claim_names, NsName, ConditionStatus, cond_true, PersistentVolumeClaim, StatefulSet,
  claim_pending,
}
use hermes_agent_operator.Api.Hermes.{HermesPersistence, restored_pvc_name, get_persistence}
use hermes_agent_operator.Api.Agent.{HermesAgent}
use hermes_agent_operator.Kube.Client.{
  Error, Cause, already_exists, no_match, Result, ok, err, quoted, VolumeSnapshot, Platform,
}
use hermes_agent_operator.Kube.Exec.{
  State, Outcome, Handler, Exec, pure, return, attempt, tried, acted, finish, when, done, requeue,
  failed_with, retry_delay, ◌>>=◌, ◌>>◌,
}
use hermes_agent_operator.Kube.Calls.{
  get_persistent_volume_claim, create_persistent_volume_claim, get_stateful_set,
  delete_stateful_set, get_volume_snapshot, update_hermes_agent_status,
}
use hermes_agent_operator.Conditions.{set_condition, remove_condition}
use hermes_agent_operator.Snapshot.{restore_source}

-- `snapshot != nil && snapshot.Status != nil && snapshot.Status.ReadyToUse != nil && *…`.
abbrev pub is_ready : VolumeSnapshot → Bool
is_ready snapshot = if_some snapshot.status (λ st. get_or st.ready_to_use false) false

abbrev pub restore_failed : String
restore_failed = "RestoreFailed"

abbrev pub has_template : List String → String → Bool
has_template [] name = false
has_template (t ∷ ts) name = str_eq t name || has_template ts name

unfoldable pub stateful_set_has_volume_claim_template : StatefulSet → String → Bool
stateful_set_has_volume_claim_template sts name =
    has_template (claim_names sts.volume_claim_templates) name

unfoldable pub build_restored_pvc : HermesAgent → VolumeSnapshot → PersistentVolumeClaim
build_restored_pvc ha snapshot = record {
  meta = record {
    name = restored_pvc_name snapshot.meta.name;
    namespace = ha.namespace;
    labels = [];
    annotations = [];
    resource_version = "";
    creation_timestamp = 0;
    deletion_timestamp = none;
  };
  storage = get_or (and_then snapshot.status (λ st. st.restore_size)) "10Gi";
  storage_class_name =
      and_then (get_persistence ha.spec.hermes) (λ (hp : HermesPersistence). hp.storage_class_name);
  data_source = some (record {
    api_group = "snapshot.storage.k8s.io";
    kind = "VolumeSnapshot";
    name = snapshot.meta.name;
  });
  phase = claim_pending;
}

abbrev pub is_no_match : Cause → Bool
is_no_match no_match = true
is_no_match _ = false

abbrev is_already_exists : Cause → Bool
is_already_exists already_exists = true
is_already_exists _ = false

module _ {W : Type 0} (p : Platform W) (ha : HermesAgent) where
  abbrev pub ns_name : NsName
  ns_name = record { namespace = ha.namespace; name = ha.name }

  abbrev pub restored_ns_name : NsName
  restored_ns_name = record {
    namespace = ha.namespace;
    name = restored_pvc_name (restore_source ha);
  }

  abbrev pub source_ns_name : NsName
  source_ns_name = record { namespace = ha.namespace; name = restore_source ha }

  abbrev write_status : Exec W (Unit {0})
  write_status = attempt (update_hermes_agent_status p ha)

  pub set_restore_failed : String → String → State W → Bool × State W
  set_restore_failed reason message = set_condition p ha (record {
    type = restore_failed;
    status = cond_true;
    observed_generation = ha.generation;
    reason = reason;
    message = message;
  })

  pub clear_restore_failed : State W → Bool × State W
  clear_restore_failed = remove_condition p ha restore_failed

  clear_stale : Exec W Outcome
  clear_stale = do changed ← acted clear_restore_failed; when changed write_status; pure done

  -- The condition is set, and the source counts as not there.
  not_ready : String → String → Exec W (Option VolumeSnapshot)
  not_ready reason message = do acted (set_restore_failed reason message); write_status; pure none

  snapshot_not_ready : Exec W (Option VolumeSnapshot)
  snapshot_not_ready = not_ready "SnapshotNotReady" (
      "VolumeSnapshot "
      ⧺ quoted (restore_source ha)
      ⧺ " not found or not ReadyToUse in namespace "
      ⧺ quoted ha.namespace)

  check_ready : Result (Option VolumeSnapshot) → Exec W (Option VolumeSnapshot)
  check_ready (ok none) = snapshot_not_ready
  check_ready (ok (some snapshot)) =
      if is_ready snapshot then pure (some snapshot) else snapshot_not_ready
  check_ready (err e) =
      if is_no_match e.cause
      then not_ready "VolumeSnapshotsNotInstalled"
          "The VolumeSnapshot CRD (snapshot.storage.k8s.io/v1) is not installed; install the snapshot-controller to enable restores"
      else return (failed_with e)

  pub get_ready_snapshot : Exec W (Option VolumeSnapshot)
  get_ready_snapshot = do found ← tried (get_volume_snapshot p source_ns_name); check_ready found

  -- The StatefulSet is deleted, and the next reconcile recreates it.
  remove_for_reshape : Exec W Outcome
  remove_for_reshape = do attempt (delete_stateful_set p ns_name); return (requeue retry_delay)

  -- The reshape gate, for the StatefulSet that was read.
  reshape : Option StatefulSet → Exec W Outcome
  reshape none = clear_stale
  reshape (some sts) =
      if stateful_set_has_volume_claim_template sts "hermes-data"
      then remove_for_reshape
      else clear_stale

  gate : Exec W Outcome
  gate = do sts ← attempt (get_stateful_set p ns_name); reshape sts

  -- The claim was read again after its creation.
  provisioned : Option PersistentVolumeClaim → Exec W Outcome
  provisioned none = return (requeue retry_delay)
  provisioned (some _) = gate

  reread : Exec W Outcome
  reread = do
    restored ← attempt (get_persistent_volume_claim p restored_ns_name)
    provisioned restored

  after_create : Result (Unit {0}) → Exec W Outcome
  after_create (ok _) = reread
  after_create (err e) = if is_already_exists e.cause then reread else return (failed_with e)

  provision : Option VolumeSnapshot → Exec W Outcome
  provision none = return (requeue retry_delay)
  provision (some source) = do
    created ← tried (create_persistent_volume_claim p ha (build_restored_pvc ha source))
    after_create created

  with_claim : Option PersistentVolumeClaim → Exec W Outcome
  with_claim none = do source ← get_ready_snapshot; provision source
  with_claim (some _) = gate

  restore : Exec W Outcome
  restore = do
    restored ← attempt (get_persistent_volume_claim p restored_ns_name)
    with_claim restored

  restore_body : Exec W Outcome
  restore_body = if is_empty (restore_source ha) then clear_stale else restore

  pub reconcile_restore : Handler W
  reconcile_restore = finish restore_body
