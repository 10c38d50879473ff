-- ===== src/Restore/Gate.antt =====
-- The order of a restore (internal/usecase/hermesagent_restore.go): the claim, its source and the
-- StatefulSet.
use hermes_agent_operator.Prelude.{
  String, true, Option, none, some, ◌≡◌, ◌≢◌, ◌⊎◌, inl, inr, Bool-cases, arith, All, subst,
}
use hermes_agent_operator.Objects.{NsName, PersistentVolumeClaim}
use hermes_agent_operator.Api.Agent.{HermesAgent}
use hermes_agent_operator.Kube.Client.{
  Error, Result, ok, err, VolumeSnapshot, persistent_volume_claim, volume_snapshot, Platform,
}
use hermes_agent_operator.Kube.Exec.{
  State, Request, delete, Exec, Outcome, next, stop, pure, return, acted, attempt, tried, ◌>>=◌,
}
use hermes_agent_operator.Kube.Calls.{get, or_nil}
use hermes_agent_operator.Kube.Writes.{Writes, Writes-finish, writes_rules}
use hermes_agent_operator.Conditions.{set_condition, remove_condition}
use hermes_agent_operator.Restore.{
  is_ready, is_no_match, source_ns_name, set_restore_failed, clear_restore_failed, clear_stale,
  not_ready, snapshot_not_ready, check_ready, get_ready_snapshot, provisioned, reread, after_create,
  provision, with_claim, restore, restore_body, reconcile_restore,
}

-- Whatever claim is read, and whenever, the cluster has none to show.
abbrev pub NeverFound : {W : Type 0} → Platform W → Type 0
NeverFound {W} p =
    (n : NsName) (w : W) → (e : Error) × ((p.client_get persistent_volume_claim n w).0 ≡ err e)

abbrev pub IsNoDeletion : Request → Type 0
IsNoDeletion (delete k n) = ⊥
IsNoDeletion _ = Unit

-- What a read that found nothing leaves to the code behind it.
or_nil_absent :
    {A : Type 0} (e : Error) → (or_nil {A = A} (err e) ≡ ok none) ⊎ (or_nil {A = A} (err e) ≡ err e)
or_nil_absent e = ground arith

module _ {W : Type 0} {P : Request → Type 0} (p : Platform W) where
  Writes-absent :
      {B : Type 0} (n : NsName) (f : Option PersistentVolumeClaim → Exec W B)
      → NeverFound p
      → Writes P (f none)
      → Writes P (attempt (get p persistent_volume_claim n) >>= f)
  unfolding ◌>>=◌ attempt get
  Writes-absent n f absent h = record {
    at = λ s k.
        let (e, q) = absent n s.world in
        elim (or_nil_absent {A = PersistentVolumeClaim} e) [
          | inl none_read ↦ rw (q, none_read) (h.at _ k)
          | inr failed ↦ rw (q, failed) k
        ];
  }

stop_is_not_next : {A : Type 0} {o : Outcome} {a : A} → stop o ≡ next a → ⊥
stop_is_not_next h = cc

module _ {W : Type 0} (p : Platform W) (ha : HermesAgent) where
  Writes-set :
      (reason message : String) → Writes IsNoDeletion (set_restore_failed p ha reason message)
  unfolding set_restore_failed set_condition
  Writes-set reason message = record { at = λ s h. h }

  Writes-clear : Writes IsNoDeletion (clear_restore_failed p ha)
  unfolding clear_restore_failed remove_condition
  Writes-clear = record { at = λ s h. h }

  ruleset rules = (writes_rules, Writes-set, Writes-clear)

  Writes-clear_stale : Writes IsNoDeletion (clear_stale p ha)
  unfolding clear_stale
  Writes-clear_stale = search rules depth 9

  Writes-not_ready : (reason message : String) → Writes IsNoDeletion (not_ready p ha reason message)
  unfolding not_ready
  Writes-not_ready reason message = search rules depth 9

  Writes-check_ready :
      (r : Result (Option VolumeSnapshot)) → Writes IsNoDeletion (check_ready p ha r)
  unfolding check_ready snapshot_not_ready
  Writes-check_ready (ok none) = search (rules, Writes-not_ready)
  Writes-check_ready (ok (some snapshot)) = search (rules, Writes-not_ready)
  Writes-check_ready (err e) = search (rules, Writes-not_ready)

  Writes-get_ready : Writes IsNoDeletion (get_ready_snapshot p ha)
  unfolding get_ready_snapshot
  Writes-get_ready = search (rules, Writes-check_ready)

  module _ (absent : NeverFound p) where
    Writes-reread : Writes IsNoDeletion (reread p ha)
    unfolding reread provisioned
    Writes-reread = Writes-absent p _ (provisioned p ha) absent (search rules)

    Writes-after_create : (r : Result (Unit {0})) → Writes IsNoDeletion (after_create p ha r)
    unfolding after_create
    Writes-after_create (ok u) = Writes-reread
    Writes-after_create (err e) = search (rules, Writes-reread)

    Writes-provision :
        (source : Option VolumeSnapshot) → Writes IsNoDeletion (provision p ha source)
    unfolding provision
    Writes-provision none = search rules
    Writes-provision (some source) = search (rules, Writes-after_create)

    Writes-without_claim : Writes IsNoDeletion (with_claim p ha none)
    unfolding with_claim
    Writes-without_claim = search (rules, Writes-get_ready, Writes-provision)

    Writes-restore : Writes IsNoDeletion (restore p ha)
    unfolding restore
    Writes-restore = Writes-absent p _ (with_claim p ha) absent Writes-without_claim

    Writes-restore_body : Writes IsNoDeletion (restore_body p ha)
    unfolding restore_body
    Writes-restore_body = search (rules, Writes-restore, Writes-clear_stale)

    -- Where every read of a claim answers with an error, such as that it is not found, no request that
    -- the reconciler adds to the log is a deletion, so the agent keeps its StatefulSet.
    pub reconcile_restore-keeps_running :
        (s : State W) → All IsNoDeletion s.log → All IsNoDeletion (reconcile_restore p ha s).1.log
    unfolding reconcile_restore
    reconcile_restore-keeps_running s h =
        (Writes-finish (restore_body p ha) Writes-restore_body).at s h

  not_ready_none :
      (reason message : String) (s : State W) {v : VolumeSnapshot}
      → (not_ready p ha reason message s).0 ≢ next (some v)
  unfolding not_ready acted attempt pure ◌>>=◌
  not_ready_none reason message s h = ground arith

  check_ready_ready :
      (r : Result (Option VolumeSnapshot)) (s : State W) {v : VolumeSnapshot}
      → (check_ready p ha r s).0 ≡ next (some v)
      → (r ≡ ok (some v)) × (is_ready v ≡ true)
  unfolding check_ready snapshot_not_ready pure return
  check_ready_ready (ok none) s h = absurd (not_ready_none _ _ s h)
  check_ready_ready (ok (some snapshot)) s {v} h = elim (Bool-cases (is_ready snapshot)) [
    | inl e ↦
        let same : snapshot ≡ v = cc (rw e at h) in (cc same, subst (λ x. is_ready x ≡ true) same e)
    | inr e ↦ absurd (not_ready_none _ _ s (rw e at h))
  ]
  check_ready_ready (err e) s h = elim (Bool-cases (is_no_match e.cause)) [
    | inl c ↦ absurd (not_ready_none _ _ s (rw c at h))
    | inr c ↦ absurd (stop_is_not_next (rw c at h))
  ]

  -- The reconciler goes on with a source snapshot only if the cluster answered with it, and it is ready
  -- to use.
  get_ready_snapshot-is_ready :
      (s : State W) {v : VolumeSnapshot}
      → (get_ready_snapshot p ha s).0 ≡ next (some v)
      → ((get p volume_snapshot (source_ns_name p ha) s).0 ≡ ok (some v)) × (is_ready v ≡ true)
  unfolding get_ready_snapshot tried ◌>>=◌
  get_ready_snapshot-is_ready s h = check_ready_ready _ _ h
