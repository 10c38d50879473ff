-- ===== src/Restore/Requests.antt =====
-- What the restore reconciler asks of the cluster, whatever the cluster answers.
use hermes_agent_operator.Prelude.{String, Option, none, some, ◌≡◌, refl, All, subst, sym}
use hermes_agent_operator.Objects.{DataSource, StatefulSet, PersistentVolumeClaim}
use hermes_agent_operator.Api.Agent.{HermesAgent}
use hermes_agent_operator.Kube.Client.{
  Result, ok, err, VolumeSnapshot, stateful_set, persistent_volume_claim, Platform,
}
use hermes_agent_operator.Kube.Exec.{State, Request, create, update, delete, update_status}
use hermes_agent_operator.Kube.Writes.{
  OnlyOwns, Writes, Writes-finish, Writes-return, Writes-bind, Writes-attempt, Writes-tried,
  Writes-delete, Writes-create, writes_rules,
}
use hermes_agent_operator.Conditions.{set_condition, remove_condition}
use hermes_agent_operator.Restore.{
  set_restore_failed, clear_restore_failed, clear_stale, not_ready, snapshot_not_ready, check_ready,
  get_ready_snapshot, remove_for_reshape, reshape, gate, provisioned, reread, after_create,
  provision, with_claim, restore, restore_body, reconcile_restore, build_restored_pvc,
}

-- The writes that the reconciler may make: a claim whose data source is a VolumeSnapshot, in the agent's
-- namespace, the deletion of the agent's own StatefulSet, and the status. No snapshot is touched.
abbrev pub IsRestoreWrite : HermesAgent → Request → Type 0
IsRestoreWrite ha (create persistent_volume_claim o) =
    (o.meta.namespace ≡ ha.namespace)
    × ((d : DataSource) × (o.data_source ≡ some d) × (d.kind ≡ "VolumeSnapshot"))
IsRestoreWrite ha (create _ o) = ⊥
IsRestoreWrite ha (update _ o) = ⊥
IsRestoreWrite ha (delete stateful_set n) = (n.name ≡ ha.name) × (n.namespace ≡ ha.namespace)
IsRestoreWrite ha (delete _ n) = ⊥
IsRestoreWrite ha (update_status _) = Unit

module _ {W : Type 0} (p : Platform W) (ha : HermesAgent) where
  Writes-set :
      (reason message : String)
      → Writes (IsRestoreWrite ha) (set_restore_failed p ha reason message)
  unfolding set_restore_failed set_condition
  Writes-set reason message = record { at = λ s h. h }

  Writes-clear : Writes (IsRestoreWrite ha) (clear_restore_failed p ha)
  unfolding clear_restore_failed remove_condition
  Writes-clear = record { at = λ s h. h }

  ruleset rules = (writes_rules, Writes-set, Writes-clear)

  Writes-clear_stale : Writes (IsRestoreWrite ha) (clear_stale p ha)
  unfolding clear_stale
  Writes-clear_stale = search rules depth 9

  Writes-not_ready :
      (reason message : String) → Writes (IsRestoreWrite ha) (not_ready p ha reason message)
  unfolding not_ready
  Writes-not_ready reason message = search rules depth 9

  Writes-check_ready :
      (r : Result (Option VolumeSnapshot)) → Writes (IsRestoreWrite ha) (check_ready p ha r)
  unfolding check_ready snapshot_not_ready
  Writes-check_ready (ok none) = search (rules, Writes-not_ready)
  Writes-check_ready (ok (some snapshot)) = search (rules, Writes-not_ready)
  Writes-check_ready (err e) = search (rules, Writes-not_ready)

  Writes-get_ready : Writes (IsRestoreWrite ha) (get_ready_snapshot p ha)
  unfolding get_ready_snapshot
  Writes-get_ready = search (rules, Writes-check_ready)

  Writes-remove : Writes (IsRestoreWrite ha) (remove_for_reshape p ha)
  unfolding remove_for_reshape
  Writes-remove =
      Writes-bind _ _ (Writes-attempt _ (Writes-delete p stateful_set _ (refl, refl)))
        (λ _. Writes-return _)

  Writes-reshape : (sts : Option StatefulSet) → Writes (IsRestoreWrite ha) (reshape p ha sts)
  unfolding reshape
  Writes-reshape none = Writes-clear_stale
  Writes-reshape (some sts) = search (rules, Writes-remove, Writes-clear_stale)

  Writes-gate : Writes (IsRestoreWrite ha) (gate p ha)
  unfolding gate
  Writes-gate = search (rules, Writes-reshape)

  Writes-provisioned :
      (c : Option PersistentVolumeClaim) → Writes (IsRestoreWrite ha) (provisioned p ha c)
  unfolding provisioned
  Writes-provisioned none = search rules
  Writes-provisioned (some c) = Writes-gate

  Writes-after_create : (r : Result (Unit {0})) → Writes (IsRestoreWrite ha) (after_create p ha r)
  unfolding after_create reread
  Writes-after_create (ok u) = search (rules, Writes-provisioned)
  Writes-after_create (err e) = search (rules, Writes-provisioned)

  restored_claim :
      (snapshot : VolumeSnapshot)
      → IsRestoreWrite ha (create persistent_volume_claim (build_restored_pvc ha snapshot))
  unfolding build_restored_pvc
  restored_claim snapshot = (refl, (_, refl, refl))

  module _ (owns : OnlyOwns p) where
    Writes-provision :
        (source : Option VolumeSnapshot) → Writes (IsRestoreWrite ha) (provision p ha source)
    unfolding provision
    Writes-provision none = search rules
    Writes-provision (some source) =
        Writes-bind _ _
          (Writes-tried _ (
            Writes-create p ha persistent_volume_claim (build_restored_pvc ha source) (λ o' e.
              subst (λ o. IsRestoreWrite ha (create persistent_volume_claim o))
                (sym (owns persistent_volume_claim ha _ o' e)) (restored_claim source))))
          Writes-after_create

    Writes-with_claim :
        (c : Option PersistentVolumeClaim) → Writes (IsRestoreWrite ha) (with_claim p ha c)
    unfolding with_claim
    Writes-with_claim none = search (rules, Writes-get_ready, Writes-provision)
    Writes-with_claim (some c) = Writes-gate

    Writes-restore_body : Writes (IsRestoreWrite ha) (restore_body p ha)
    unfolding restore_body restore
    Writes-restore_body = search (rules, Writes-with_claim, Writes-clear_stale)

    -- Where setting the controller reference changes only the owner references, each write that the
    -- reconciler adds to the log, whatever the cluster answers, is the creation of a claim in the
    -- agent's namespace whose data source is a VolumeSnapshot, the deletion of the agent's own
    -- StatefulSet, or a write of the status.
    pub reconcile_restore-writes :
        (s : State W)
        → All (IsRestoreWrite ha) s.log
        → All (IsRestoreWrite ha) (reconcile_restore p ha s).1.log
    unfolding reconcile_restore
    reconcile_restore-writes s h = (Writes-finish (restore_body p ha) Writes-restore_body).at s h
