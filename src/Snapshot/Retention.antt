-- ===== src/Snapshot/Retention.antt =====
-- The snapshot reconciler over time (internal/usecase/hermesagent_snapshot.go): when it runs, and
-- retention where the cluster does not accept a deletion by the kind of the list.
use hermes_agent_operator.Prelude.{
  All, ℕ, Bool, true, false, List, [], ◌∷◌, ◌≡◌, ◌≢◌, ◌∙◌, ap, refl, is_some, some,
}
use hermes_agent_operator.Objects.{NsName, PersistentVolumeClaim, claim_bound}
use hermes_agent_operator.Api.Hermes.{get_retention, get_schedule, get_snapshot, snapshot_enabled}
use hermes_agent_operator.Api.Agent.{HermesAgent, is_suspended}
use hermes_agent_operator.Kube.Client.{
  Error, no_match, Result, ok, err, VolumeSnapshot, volume_snapshot_list, persistent_volume_claim,
  Platform,
}
use hermes_agent_operator.Kube.Exec.{
  Request, update_status, ◌>>◌, State, Exec, Outcome, Flow, next, stop, pure, attempt, tried, acted,
  finish, when, done, continue, outcome, or_retry, Call, ◌>>=◌,
}
use hermes_agent_operator.Kube.Calls.{
  get, list_volume_snapshots, delete, update_hermes_agent_status,
}
use hermes_agent_operator.Kube.Writes.{
  Writes, Writes-if, Writes-return, Writes-finish, writes_rules,
}
use hermes_agent_operator.Conditions.{remove_condition}
use hermes_agent_operator.Snapshot.{
  build_data_pvc_name, clear_snapshot_unsupported, restore_source, without_source, split_snapshots,
  delete_outdated, run_if_due, clear_stale, with_snapshots, with_schedule, with_claim,
  take_snapshots, snapshot_body, reconcile_snapshot,
}

abbrev pub IsStatusWrite : Request → Type 0
IsStatusWrite (update_status st) = Unit
IsStatusWrite _ = ⊥

-- The reconciler has returned with an error.
abbrev IsError : {A : Type 0} → Flow A → Type 0
IsError (next a) = ⊥
IsError (stop o) = is_some o.error ≡ true

-- If the reconciler has returned, it has with an error.
abbrev IsErrorIfStopped : {A : Type 0} → Flow A → Type 0
IsErrorIfStopped (next a) = Unit
IsErrorIfStopped (stop o) = is_some o.error ≡ true

record Errs {W A : Type 0} (m : Exec W A) : Type 0 where
  at : (s : State W) → IsError (m s).0

record StopsInError {W A : Type 0} (m : Exec W A) : Type 0 where
  at : (s : State W) → IsErrorIfStopped (m s).0

module _ {W A B : Type 0} where
  IsError-continue :
      (r : Flow A) (f : A → Exec W B) (s : State W) → IsError r → IsError (continue r f s).0
  IsError-continue (next a) f s h = absurd h
  IsError-continue (stop o) f s h = h

  Errs-bind : (m : Exec W A) (f : A → Exec W B) → Errs m → Errs (m >>= f)
  unfolding ◌>>=◌
  Errs-bind m f h = record { at = λ s. IsError-continue (m s).0 f (m s).1 (h.at s) }

  stopped_continue :
      (r : Flow A) (f : A → Exec W B) (s : State W)
      → IsErrorIfStopped r
      → ((a : A) → Errs (f a))
      → IsError (continue r f s).0
  stopped_continue (next a) f s h k = (k a).at s
  stopped_continue (stop o) f s h k = h

  Errs-after :
      (m : Exec W A) (f : A → Exec W B) → StopsInError m → ((a : A) → Errs (f a)) → Errs (m >>= f)
  unfolding ◌>>=◌
  Errs-after m f h k = record { at = λ s. stopped_continue (m s).0 f (m s).1 (h.at s) k }

  Stops-acted :
      (m : State W → A × State W) (f : A → Exec W B)
      → ((a : A) → StopsInError (f a))
      → StopsInError (acted m >>= f)
  unfolding ◌>>=◌ acted
  Stops-acted m f h = record { at = λ s. (h (m s).0).at (m s).1 }

stopped_or_retry : {A : Type 0} (r : Result A) → IsErrorIfStopped (or_retry r)
stopped_or_retry (ok a) = tt
stopped_or_retry (err e) = refl

outcome_error : (r : Flow Outcome) → IsError r → is_some (outcome r).error ≡ true
outcome_error (next o) h = absurd h
outcome_error (stop o) h = h

module _ {W : Type 0} where
  Stops-attempt : {A : Type 0} (m : Call W A) → StopsInError (attempt m)
  unfolding attempt
  Stops-attempt m = record { at = λ s. stopped_or_retry (m s).0 }

  Stops-when : (b : Bool) (m : Exec W (Unit {0})) → StopsInError m → StopsInError (when b m)
  unfolding when pure
  Stops-when true m h = h
  Stops-when false m h = record { at = λ s. tt }

module _ {W : Type 0} (p : Platform W) (ha : HermesAgent) where
  Writes-clear : Writes IsStatusWrite (clear_snapshot_unsupported p ha)
  unfolding clear_snapshot_unsupported remove_condition
  Writes-clear = record { at = λ s h. h }

  Writes-disabled : Writes IsStatusWrite (do clear_stale p ha; pure done)
  unfolding clear_stale
  Writes-disabled = search (writes_rules, Writes-clear) depth 9

  Writes-suspended : is_suspended ha ≡ true → Writes IsStatusWrite (snapshot_body p ha)
  unfolding snapshot_body
  Writes-suspended e = rw e (
      Writes-if (snapshot_enabled (get_snapshot ha.spec.hermes)) _ _ (λ _. Writes-return done)
        (λ _. Writes-disabled))

  -- For a suspended agent, whether or not its snapshots are enabled, the only request that the
  -- reconciler adds to the log is a write of the status: no snapshot is created or deleted.
  pub reconcile_snapshot-suspended :
      (s : State W)
      → is_suspended ha ≡ true
      → All IsStatusWrite s.log
      → All IsStatusWrite (reconcile_snapshot p ha s).1.log
  unfolding reconcile_snapshot
  reconcile_snapshot-suspended s e h =
      (Writes-finish (snapshot_body p ha) (Writes-suspended e)).at s h

  -- The cluster does not know the kind VolumeSnapshotList as the kind of an object.
  abbrev pub RefusesListKind : Type 0
  RefusesListKind =
      (n : NsName) (w : W)
      → (e : Error) × ((p.client_delete volume_snapshot_list n w).0 ≡ err e) × (e.cause ≡ no_match)

  delete_refused : (n : NsName) → RefusesListKind → Errs (attempt (delete p volume_snapshot_list n))
  unfolding attempt delete
  delete_refused n h = record { at = λ s. let (e, q, c) = h n s.world in rw (q, c) refl }

  Stops-clear_stale : StopsInError (clear_stale p ha)
  unfolding clear_stale
  Stops-clear_stale =
      Stops-acted _ _
        (λ changed. Stops-when changed _ (Stops-attempt (update_hermes_agent_status p ha)))

  Errs-delete_outdated :
      (old : VolumeSnapshot) (rest : List VolumeSnapshot)
      → RefusesListKind
      → Errs (delete_outdated p ha (old ∷ rest))
  unfolding delete_outdated
  Errs-delete_outdated old rest h = Errs-bind _ _ (delete_refused _ h)

  Errs-some_old :
      (old : List VolumeSnapshot) → old ≢ [] → RefusesListKind → Errs (delete_outdated p ha old)
  Errs-some_old [] h k = absurd (h refl)
  Errs-some_old (x ∷ xs) h k = Errs-delete_outdated x xs k

  with_snapshots-fails :
      (schedule : ℕ → ℕ) (snapshots : List VolumeSnapshot) (s : State W)
      → RefusesListKind
      → without_source
          (restore_source ha)
          (split_snapshots snapshots (get_retention (get_snapshot ha.spec.hermes))).1
        ≢ []
      → is_some (finish (with_snapshots p ha schedule (ok snapshots)) s).0.error ≡ true
  unfolding with_snapshots finish
  with_snapshots-fails schedule snapshots s h some_old = outcome_error _ (
      (Errs-after (clear_stale p ha) _ Stops-clear_stale
          (λ _. Errs-bind _ (λ _. run_if_due p ha schedule) (Errs-some_old _ some_old h))).at
        s)

  abbrev pub claim_name : NsName
  claim_name = record { namespace = ha.namespace; name = build_data_pvc_name ha }

  as_listed :
      (schedule : ℕ → ℕ) (snapshots : List VolumeSnapshot) (s : State W)
      {pvc : PersistentVolumeClaim}
      → snapshot_enabled (get_snapshot ha.spec.hermes) ≡ true
      → is_suspended ha ≡ false
      → (get p persistent_volume_claim claim_name s).0 ≡ ok (some pvc)
      → pvc.phase ≡ claim_bound
      → p.parse_standard (get_schedule (get_snapshot ha.spec.hermes)) ≡ ok schedule
      → (list_volume_snapshots p ha.namespace ha.name
          (get p persistent_volume_claim claim_name s).1).0
        ≡ ok snapshots
      → reconcile_snapshot p ha s
        ≡ finish
            (with_snapshots p ha schedule (ok snapshots))
            (list_volume_snapshots p ha.namespace ha.name
              (get p persistent_volume_claim claim_name s).1).1
  unfolding reconcile_snapshot snapshot_body take_snapshots with_claim with_schedule attempt tried
      finish ◌>>=◌
  as_listed schedule snapshots s on awake claim bound parsed listed =
      rw on (rw awake (rw claim (rw bound (rw parsed (rw listed refl)))))

  -- If the cluster refuses, as of no known kind, every deletion that names the kind VolumeSnapshotList:
  -- for an agent that is not suspended and has snapshots on, with a bound claim and a schedule that
  -- parses, the reconciler returns an error whenever the cluster lists snapshots of which an outdated one
  -- is not the restore source.
  pub reconcile_snapshot-fails :
      (schedule : ℕ → ℕ) (snapshots : List VolumeSnapshot) (s : State W)
      {pvc : PersistentVolumeClaim}
      → RefusesListKind
      → snapshot_enabled (get_snapshot ha.spec.hermes) ≡ true
      → is_suspended ha ≡ false
      → (get p persistent_volume_claim claim_name s).0 ≡ ok (some pvc)
      → pvc.phase ≡ claim_bound
      → p.parse_standard (get_schedule (get_snapshot ha.spec.hermes)) ≡ ok schedule
      → (list_volume_snapshots p ha.namespace ha.name
          (get p persistent_volume_claim claim_name s).1).0
        ≡ ok snapshots
      → without_source
          (restore_source ha)
          (split_snapshots snapshots (get_retention (get_snapshot ha.spec.hermes))).1
        ≢ []
      → is_some (reconcile_snapshot p ha s).0.error ≡ true
  reconcile_snapshot-fails schedule snapshots s refuses on awake claim bound parsed listed
        some_old =
      ap (λ (x : Outcome × State W). is_some x.0.error)
        (as_listed schedule snapshots s on awake claim bound parsed listed)
      ∙ with_snapshots-fails schedule snapshots _ refuses some_old
