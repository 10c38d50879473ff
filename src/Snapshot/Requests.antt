-- ===== src/Snapshot/Requests.antt =====
-- What the snapshot reconciler asks of the cluster, whatever the cluster answers.
use hermes_agent_operator.Prelude.{
  ℕ, String, some, List, [], ◌∷◌, ◌≡◌, ◌≢◌, refl, ◌⊎◌, inl, inr, All, arith, eq_iff, lookup,
  is_empty, str_eq, Bool-cases, filter, not,
}
use hermes_agent_operator.Api.Agent.{HermesAgent}
use hermes_agent_operator.Kube.Client.{
  Result, ok, err, VolumeSnapshot, volume_snapshot, volume_snapshot_list, Platform,
}
use hermes_agent_operator.Kube.Exec.{State, Request, create, update, delete, update_status}
use hermes_agent_operator.Kube.Calls.{snapshot_agent_label, labelled}
use hermes_agent_operator.Kube.Writes.{
  Writes, Writes-finish, Writes-bind, Writes-attempt, Writes-delete, writes_rules,
}
use hermes_agent_operator.Conditions.{set_condition, remove_condition}
use hermes_agent_operator.Snapshot.{
  restore_source, build_data_pvc_name, build_snapshot, without_source, set_snapshot_unsupported,
  clear_snapshot_unsupported, clear_stale, delete_outdated, record_run, after_create, run_at,
  run_if_due, api_absent, with_snapshots, with_schedule, with_claim, take_snapshots, snapshot_body,
  reconcile_snapshot,
}

-- The writes that the reconciler may make: a snapshot of the data volume in the agent's namespace with
-- the agent's label, a deletion of a snapshot that is not the restore source, and the status.
abbrev pub IsSnapshotWrite : HermesAgent → Request → Type 0
IsSnapshotWrite ha (create volume_snapshot o) =
    (o.spec.source.persistent_volume_claim_name ≡ build_data_pvc_name ha)
    × (lookup o.meta.labels snapshot_agent_label ≡ some ha.name)
    × (o.meta.namespace ≡ ha.namespace)
IsSnapshotWrite ha (create _ o) = ⊥
IsSnapshotWrite ha (update _ o) = ⊥
IsSnapshotWrite ha (delete volume_snapshot_list n) =
    (restore_source ha ≡ "") ⊎ (n.name ≢ restore_source ha)
IsSnapshotWrite ha (delete _ n) = ⊥
IsSnapshotWrite ha (update_status _) = Unit

abbrev IsPrunable : String → VolumeSnapshot → Type 0
IsPrunable source snap = (source ≡ "") ⊎ (snap.meta.name ≢ source)

filter-IsPrunable :
    (source : String) (snaps : List VolumeSnapshot)
    → All (IsPrunable source) (filter (λ snap. not (str_eq snap.meta.name source)) snaps)
filter-IsPrunable source [] = tt
filter-IsPrunable source (x ∷ xs) = elim (Bool-cases (str_eq x.meta.name source)) [
  | inl e ↦ rw e (filter-IsPrunable source xs)
  | inr e ↦ rw e (inr (ground (arith, eq_iff x.meta.name source)), filter-IsPrunable source xs)
]

All-IsPrunable :
    (snaps : List VolumeSnapshot) (source : String) → source ≡ "" → All (IsPrunable source) snaps
All-IsPrunable [] source e = tt
All-IsPrunable (x ∷ xs) source e = (inl e, All-IsPrunable xs source e)

pub without_source-IsPrunable :
    (source : String) (snaps : List VolumeSnapshot)
    → All (IsPrunable source) (without_source source snaps)
unfolding without_source
without_source-IsPrunable source snaps = elim (Bool-cases (is_empty source)) [
  | inl e ↦ rw e (All-IsPrunable snaps source (ground (arith, eq_iff source "")))
  | inr e ↦ rw e (filter-IsPrunable source snaps)
]

module _ {W : Type 0} (p : Platform W) (ha : HermesAgent) where
  Writes-set :
      (reason message : String)
      → Writes (IsSnapshotWrite ha) (set_snapshot_unsupported p ha reason message)
  unfolding set_snapshot_unsupported set_condition
  Writes-set reason message = record { at = λ s h. h }

  Writes-clear : Writes (IsSnapshotWrite ha) (clear_snapshot_unsupported p ha)
  unfolding clear_snapshot_unsupported remove_condition
  Writes-clear = record { at = λ s h. h }

  ruleset rules = (writes_rules, Writes-set, Writes-clear)

  Writes-clear_stale : Writes (IsSnapshotWrite ha) (clear_stale p ha)
  unfolding clear_stale
  Writes-clear_stale = search rules depth 9

  Writes-delete_outdated :
      (snaps : List VolumeSnapshot)
      → All (IsPrunable (restore_source ha)) snaps
      → Writes (IsSnapshotWrite ha) (delete_outdated p ha snaps)
  unfolding delete_outdated
  Writes-delete_outdated [] h = search rules
  Writes-delete_outdated (x ∷ xs) h =
      Writes-bind _ _ (Writes-attempt _ (Writes-delete p volume_snapshot_list _ h.0))
        (λ _. Writes-delete_outdated xs h.1)

  Writes-record_run :
      (schedule : ℕ → ℕ) (now : ℕ) → Writes (IsSnapshotWrite ha) (record_run p ha schedule now)
  unfolding record_run
  Writes-record_run schedule now = search rules depth 9

  Writes-after_create :
      (schedule : ℕ → ℕ) (now : ℕ) (r : Result (Unit {0}))
      → Writes (IsSnapshotWrite ha) (after_create p ha schedule now r)
  unfolding after_create
  Writes-after_create schedule now (ok u) = Writes-record_run schedule now
  Writes-after_create schedule now (err e) = search (rules, Writes-record_run)

  created_snapshot :
      (name : String)
      → IsSnapshotWrite ha (create volume_snapshot (labelled ha (build_snapshot ha name)))
  unfolding build_snapshot
  created_snapshot name = (refl, refl, refl)

  Writes-run_at :
      (schedule : ℕ → ℕ) (now next_time : ℕ)
      → Writes (IsSnapshotWrite ha) (run_at p ha schedule now next_time)
  unfolding run_at
  Writes-run_at schedule now next_time =
      search (rules, Writes-after_create, created_snapshot) depth 9

  Writes-run_if_due : (schedule : ℕ → ℕ) → Writes (IsSnapshotWrite ha) (run_if_due p ha schedule)
  unfolding run_if_due
  Writes-run_if_due schedule = search (rules, Writes-run_at) depth 9

  Writes-api_absent : Writes (IsSnapshotWrite ha) (api_absent p ha)
  unfolding api_absent
  Writes-api_absent = search rules depth 9

  Writes-with_snapshots :
      (schedule : ℕ → ℕ) (r : Result (List VolumeSnapshot))
      → Writes (IsSnapshotWrite ha) (with_snapshots p ha schedule r)
  unfolding with_snapshots
  Writes-with_snapshots schedule (ok snapshots) = search (
    rules, Writes-clear_stale, Writes-run_if_due, Writes-delete_outdated, without_source-IsPrunable,
  )
  Writes-with_snapshots schedule (err e) = search (rules, Writes-api_absent)

  Writes-with_schedule : (r : Result (ℕ → ℕ)) → Writes (IsSnapshotWrite ha) (with_schedule p ha r)
  unfolding with_schedule
  Writes-with_schedule (ok schedule) = search (rules, Writes-with_snapshots)
  Writes-with_schedule (err e) = search rules depth 9

  Writes-take_snapshots : Writes (IsSnapshotWrite ha) (take_snapshots p ha)
  unfolding take_snapshots with_claim
  Writes-take_snapshots = search (rules, Writes-with_schedule) depth 9

  Writes-snapshot_body : Writes (IsSnapshotWrite ha) (snapshot_body p ha)
  unfolding snapshot_body
  Writes-snapshot_body = search (rules, Writes-take_snapshots, Writes-clear_stale) depth 9

  -- Whatever the cluster answers, each write that the reconciler adds to the log is the creation of a
  -- VolumeSnapshot of the agent's data volume, in its namespace and with its label, the deletion of a
  -- snapshot that is not the restore source, or a write of the status.
  pub reconcile_snapshot-writes :
      (s : State W)
      → All (IsSnapshotWrite ha) s.log
      → All (IsSnapshotWrite ha) (reconcile_snapshot p ha s).1.log
  unfolding reconcile_snapshot
  reconcile_snapshot-writes s h = (Writes-finish (snapshot_body p ha) Writes-snapshot_body).at s h
