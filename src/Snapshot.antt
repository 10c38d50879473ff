-- ===== src/Snapshot.antt =====
-- Periodic snapshots (internal/usecase/hermesagent_snapshot.go): which snapshots are kept, what is
-- created, and the reconciler. `sort.SliceStable` is the stable insertion sort below; a stable sort by
-- a strict weak order has one result.
pub mod Split
pub mod Requests
pub mod Retention
mod Examples
use hermes_agent_operator.Prelude.{
  ℕ, ◌-◌, String, ◌⧺◌, Bool, true, false, Option, none, some, List, [], ◌∷◌, not, ◌||◌, ◌==◌, ltb,
  leb, str_eq, is_empty, get_or, is_some, length, take, drop, filter, map, if◌then◌else◌,
}
use hermes_agent_operator.Objects.{
  NsName, ConditionStatus, cond_true, PersistentVolumeClaim, ClaimPhase, claim_pending, claim_bound,
  claim_lost,
}
use hermes_agent_operator.Api.Hermes.{
  get_existing_claim, get_existing_snapshot, restored_pvc_name, snapshot_enabled, get_schedule,
  get_retention, get_volume_snapshot_class_name, get_persistence, get_snapshot, HermesSnapshot,
}
use hermes_agent_operator.Api.Agent.{HermesAgent, HermesAgentStatus, SnapshotRef, is_suspended}
use hermes_agent_operator.Kube.Client.{
  Error, Cause, already_exists, no_match, Result, ok, err, quoted, VolumeSnapshot, Platform,
}
use hermes_agent_operator.Kube.Exec.{
  State, Outcome, Handler, Exec, pure, return, attempt, tried, acted, gets, modify_status, finish,
  when, done, requeue, failed_with, retry_delay, ◌>>=◌, ◌>>◌,
}
use hermes_agent_operator.Kube.Calls.{
  get_persistent_volume_claim, list_volume_snapshots, create_volume_snapshot,
  delete_volume_snapshot, update_hermes_agent_status, read_clock,
}
use hermes_agent_operator.Conditions.{set_condition, remove_condition}

-- `sorted[i].CreationTimestamp.After(sorted[j].CreationTimestamp.Time)`.
abbrev pub newer : VolumeSnapshot → VolumeSnapshot → Bool
newer a b = ltb b.meta.creation_timestamp a.meta.creation_timestamp

-- `x` goes before what it stood before, unless that is newer.
pub insert_sorted : VolumeSnapshot → List VolumeSnapshot → List VolumeSnapshot
insert_sorted x [] = x ∷ []
insert_sorted x (y ∷ ys) = if newer y x then y ∷ insert_sorted x ys else x ∷ y ∷ ys

pub sort_newest_first : List VolumeSnapshot → List VolumeSnapshot
unfolding insert_sorted
sort_newest_first [] = []
sort_newest_first (x ∷ xs) = insert_sorted x (sort_newest_first xs)

-- The live snapshots and the deprecated ones.
pub split_snapshots : List VolumeSnapshot → ℕ → List VolumeSnapshot × List VolumeSnapshot
unfolding sort_newest_first
split_snapshots snapshots retention =
    let sorted = sort_newest_first snapshots in
    if leb (length sorted) retention
    then (sorted, [])
    else (take retention sorted, drop retention sorted)

abbrev pub snapshot_ref : VolumeSnapshot → SnapshotRef
snapshot_ref snap = record {
  name = snap.meta.name;
  pvc = snap.spec.source.persistent_volume_claim_name;
  creation_time = snap.meta.creation_timestamp;
}

-- The `continue` of the loop of `snapshotRefs`.
abbrev pub is_skipped : VolumeSnapshot → Bool
is_skipped snap =
    is_empty snap.meta.name
    || snap.meta.creation_timestamp == 0
    || is_some snap.meta.deletion_timestamp

pub snapshot_refs : List VolumeSnapshot → List SnapshotRef
snapshot_refs [] = []
snapshot_refs (snap ∷ rest) =
    let refs = snapshot_refs rest in if is_skipped snap then refs else snapshot_ref snap ∷ refs

abbrev pub restore_source : HermesAgent → String
restore_source ha = get_existing_snapshot (get_persistence ha.spec.hermes)

unfoldable pub build_data_pvc_name : HermesAgent → String
build_data_pvc_name ha =
    let claim = get_existing_claim (get_persistence ha.spec.hermes) in
    if not (is_empty claim)
    then claim
    else if not (is_empty (restore_source ha))
    then restored_pvc_name (restore_source ha)
    else "hermes-data-" ⧺ ha.name ⧺ "-0"

-- `class_name != nil && *class_name != ""`.
abbrev pub non_empty : Option String → Option String
non_empty none = none
non_empty (some c) = if is_empty c then none else some c

unfoldable pub build_snapshot : HermesAgent → String → VolumeSnapshot
build_snapshot ha name = record {
  meta = record {
    name = name;
    namespace = ha.namespace;
    labels = [];
    annotations = [];
    resource_version = "";
    creation_timestamp = 0;
    deletion_timestamp = none;
  };
  spec = record {
    source = record { persistent_volume_claim_name = build_data_pvc_name ha };
    volume_snapshot_class_name =
        non_empty (get_volume_snapshot_class_name (get_snapshot ha.spec.hermes));
  };
  status = none;
}

-- The restore source is never pruned.
pub without_source : String → List VolumeSnapshot → List VolumeSnapshot
without_source source deprecated =
    if is_empty source
    then deprecated
    else filter (λ snap. not (str_eq snap.meta.name source)) deprecated

abbrev is_bound : Option PersistentVolumeClaim → Bool
is_bound none = false
is_bound (some pvc) = elim pvc.phase [
  | claim_pending ↦ false
  | claim_bound ↦ true
  | claim_lost ↦ false
]

abbrev is_no_match : Cause → Bool
is_no_match no_match = true
is_no_match _ = false

abbrev is_already_exists : Cause → Bool
is_already_exists already_exists = true
is_already_exists _ = false

abbrev unsupported : String
unsupported = "SnapshotUnsupported"

module _ {W : Type 0} (p : Platform W) (ha : HermesAgent) where
  abbrev snap : Option HermesSnapshot
  snap = get_snapshot ha.spec.hermes

  abbrev write_status : Exec W (Unit {0})
  write_status = attempt (update_hermes_agent_status p ha)

  pub set_snapshot_unsupported : String → String → State W → Bool × State W
  set_snapshot_unsupported reason message = set_condition p ha (record {
    type = unsupported;
    status = cond_true;
    observed_generation = ha.generation;
    reason = reason;
    message = message;
  })

  pub clear_snapshot_unsupported : State W → Bool × State W
  clear_snapshot_unsupported = remove_condition p ha unsupported

  -- Clears a stale condition, and writes the status if there was one.
  clear_stale : Exec W (Unit {0})
  clear_stale = do changed ← acted clear_snapshot_unsupported; when changed write_status

  -- The loop that deletes the outdated snapshots.
  pub delete_outdated : List VolumeSnapshot → Exec W (Unit {0})
  delete_outdated [] = pure tt
  delete_outdated (old ∷ rest) =
      attempt
        (delete_volume_snapshot p (record { namespace = old.meta.namespace; name = old.meta.name }))
      >>= λ _. delete_outdated rest

  -- The snapshot is there, now or before: list again, and record the status.
  record_run : (ℕ → ℕ) → ℕ → Exec W Outcome
  record_run schedule now = do
    snapshots ← attempt (list_volume_snapshots p ha.namespace ha.name)
    let live = (split_snapshots snapshots (get_retention snap)).0
    modify_status λ status. record status {
      snapshot = record { last_schedule_time = some now; snapshots = snapshot_refs live };
    }
    write_status
    let next_run = schedule now
    pure (if next_run == 0 then done else requeue (next_run - now))

  after_create : (ℕ → ℕ) → ℕ → Result (Unit {0}) → Exec W Outcome
  after_create schedule now (ok _) = record_run schedule now
  after_create schedule now (err e) =
      if is_already_exists e.cause then record_run schedule now else return (failed_with e)

  -- Whether a run is due at `now`, and the run.
  run_at : (ℕ → ℕ) → ℕ → ℕ → Exec W Outcome
  run_at schedule now next_time =
      if next_time == 0
      then return (requeue retry_delay)
      else if ltb now next_time
      then return (requeue (next_time - now))
      else (tried (
            create_volume_snapshot p ha
              (build_snapshot ha (build_data_pvc_name ha ⧺ "-" ⧺ p.format_timestamp now)))
          >>= after_create schedule now)

  -- From `now := time.Now()`: whether a run is due, and the run.
  run_if_due : (ℕ → ℕ) → Exec W Outcome
  run_if_due schedule = do
    now ← acted (read_clock p)
    last ← gets (λ s. get_or s.status.snapshot.last_schedule_time ha.creation_timestamp)
    run_at schedule now (schedule last)

  api_absent : Exec W Outcome
  api_absent = do
    acted (
        set_snapshot_unsupported "VolumeSnapshotsNotInstalled"
          "The VolumeSnapshot CRD (snapshot.storage.k8s.io/v1) is not installed; install the snapshot-controller to enable periodic backups")
    write_status
    pure done

  -- From the answer of the list on.
  pub with_snapshots : (ℕ → ℕ) → Result (List VolumeSnapshot) → Exec W Outcome
  with_snapshots schedule (ok snapshots) = do
    clear_stale
    delete_outdated
        (without_source (restore_source ha) (split_snapshots snapshots (get_retention snap)).1)
    run_if_due schedule
  with_snapshots schedule (err e) =
      if is_no_match e.cause then api_absent else return (failed_with e)

  with_schedule : Result (ℕ → ℕ) → Exec W Outcome
  with_schedule (ok schedule) = do
    listed ← tried (list_volume_snapshots p ha.namespace ha.name)
    with_snapshots schedule listed
  with_schedule (err e) = do
    acted (
        set_snapshot_unsupported "InvalidSchedule"
          ("Invalid schedule " ⧺ quoted (get_schedule snap) ⧺ ": " ⧺ e.text))
    write_status
    pure (requeue retry_delay)

  with_claim : Option PersistentVolumeClaim → Exec W Outcome
  with_claim pvc =
      if is_bound pvc
      then with_schedule (p.parse_standard (get_schedule snap))
      else return (requeue retry_delay)

  take_snapshots : Exec W Outcome
  take_snapshots = do
    pvc ← attempt (
        get_persistent_volume_claim p
          (record { namespace = ha.namespace; name = build_data_pvc_name ha }))
    with_claim pvc

  snapshot_body : Exec W Outcome
  snapshot_body =
      if snapshot_enabled snap
      then (if is_suspended ha then return done else take_snapshots)
      else (do clear_stale; pure done)

  pub reconcile_snapshot : Handler W
  reconcile_snapshot = finish snapshot_body
