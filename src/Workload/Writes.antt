-- ===== src/Workload/Writes.antt =====
-- What the StatefulSet's reconciler (internal/usecase/hermesagent_statefulset.go) does to the StatefulSet
-- and its Pod, as a relation.
use hermes_agent_operator.Prelude.{
  String, Bool, true, false, Option, none, some, List, [], ◌∷◌, ◌++◌, ◌≡◌, ◌≢◌, refl, ap, arith,
  ◌∙◌, not, str_eq, Bool-cases, inl, inr, if◌then◌else◌,
}
use hermes_agent_operator.Objects.{
  StatefulSet, Pod, PodPhase, pod_pending, pod_running, pod_succeeded, pod_failed, pod_unknown,
}
use hermes_agent_operator.Api.Agent.{HermesAgent}
use hermes_agent_operator.Kube.Client.{Error, Result, ok, err, Platform, pod, stateful_set}
use hermes_agent_operator.Kube.Exec.{
  State, Request, create, update, delete, Flow, next, stop, Exec, attempt, when, continue, or_retry,
  ◌>>=◌,
}
use hermes_agent_operator.Kube.Calls.{get, update_stateful_set, delete_pod}
use hermes_agent_operator.Managed.Sends.{
  Owns, object_requests, Sends, Sends-pure, Sends-return, Sends-attempt, Sends-bind, Sends-delete,
  Sends-create, Sends-update,
}
use hermes_agent_operator.Workload.Inputs.{StatefulSetInputs}
use hermes_agent_operator.Workload.Names.{same_volume_claim_template_names}
use hermes_agent_operator.Workload.{
  hash_of, with_version, is_running, was_running, set_ns_name, pod_ns_name, reshape, replace_set,
  update_set, refresh_set, put_set,
}

-- The Pod is not there, or is in another phase than Running.
abbrev pub IsNotRunning : Option Pod → Type 0
IsNotRunning none = Unit
IsNotRunning (some shown) = shown.phase ≢ pod_running

-- One run from a state, from the StatefulSet that the cluster showed to the one that is desired, with its
-- hash: the requests that change an object, the newest first.
pub data SetWrites {W : Type 0} (p : Platform W) (ha : HermesAgent) (s : State W)
    : Option StatefulSet → StatefulSet → String → List Request → Type 0 where
  -- there is none, and it is created
  created :
      {d : StatefulSet} {hash : String} → SetWrites p ha s none d hash (create stateful_set d ∷ [])
  -- the names of the claim templates differ, and it is deleted
  reshaped :
      {sts d : StatefulSet} {hash : String}
      → same_volume_claim_template_names sts d ≡ false
      → SetWrites p ha s (some sts) d hash (delete stateful_set (set_ns_name ha) ∷ [])
  -- it has the hash that is desired
  unchanged :
      {sts d : StatefulSet} {hash : String}
      → same_volume_claim_template_names sts d ≡ true
      → str_eq (hash_of sts) hash ≡ true
      → SetWrites p ha s (some sts) d hash []
  -- it has another hash, and the Pod cannot be read
  unread :
      {sts d : StatefulSet} {hash : String} {e : Error}
      → same_volume_claim_template_names sts d ≡ true
      → str_eq (hash_of sts) hash ≡ false
      → (get p pod (pod_ns_name ha) s).0 ≡ err e
      → SetWrites p ha s (some sts) d hash []
  -- it has another hash, and the update, after the Pod was read, is refused
  refused :
      {sts d : StatefulSet} {hash : String} {shown : Option Pod} {e : Error}
      → same_volume_claim_template_names sts d ≡ true
      → str_eq (hash_of sts) hash ≡ false
      → (get p pod (pod_ns_name ha) s).0 ≡ ok shown
      → (update_stateful_set p ha
          (with_version d sts.meta.resource_version)
          (get p pod (pod_ns_name ha) s).1).0
        ≡ err e
      → SetWrites p ha s
          (some sts)
          d
          hash
          (update stateful_set (with_version d sts.meta.resource_version) ∷ [])
  -- it has another hash and is updated, and its running Pod is kept
  kept :
      {sts d : StatefulSet} {hash : String} {shown : Pod}
      → same_volume_claim_template_names sts d ≡ true
      → str_eq (hash_of sts) hash ≡ false
      → (get p pod (pod_ns_name ha) s).0 ≡ ok (some shown)
      → shown.phase ≡ pod_running
      → SetWrites p ha s
          (some sts)
          d
          hash
          (update stateful_set (with_version d sts.meta.resource_version) ∷ [])
  -- it has another hash and is updated, and then its Pod, which did not run, is deleted
  restarted :
      {sts d : StatefulSet} {hash : String} {shown : Option Pod}
      → same_volume_claim_template_names sts d ≡ true
      → str_eq (hash_of sts) hash ≡ false
      → (get p pod (pod_ns_name ha) s).0 ≡ ok shown
      → IsNotRunning shown
      → SetWrites p ha s (some sts) d hash (
          delete pod (pod_ns_name ha)
          ∷ update stateful_set (with_version d sts.meta.resource_version)
          ∷ [])

running_phase : (ph : PodPhase) → is_running ph ≡ true → ph ≡ pod_running
running_phase pod_running h = refl
running_phase pod_pending h = ground arith
running_phase pod_succeeded h = ground arith
running_phase pod_failed h = ground arith
running_phase pod_unknown h = ground arith

was_running-IsNotRunning : (shown : Option Pod) → was_running shown ≡ false → IsNotRunning shown
was_running-IsNotRunning none h = tt
was_running-IsNotRunning (some shown) h =
    λ e. let running : is_running shown.phase ≡ true = rw e refl in ground arith

was_running-phase :
    (shown : Option Pod)
    → was_running shown ≡ true
    → (x : Pod) × (shown ≡ some x) × (x.phase ≡ pod_running)
was_running-phase none h = ground arith
was_running-phase (some shown) h = (shown, refl, running_phase shown.phase h)

-- The requests of an action are among those that `R` allows from the state it starts in.
pub record Follows {W X : Type 0} (R : State W → List Request → Type 0) (m : State W → X × State W)
    : Type 0 where
  pub at :
      (s : State W)
      → (qs : List Request) × R s qs × (object_requests (m s).1.log ≡ qs ++ object_requests s.log)

module _ {W : Type 0} {R : State W → List Request → Type 0} where
  pub Follows-Sends :
      {X : Type 0} {qs : List Request} (m : State W → X × State W)
      → ((s : State W) → R s qs)
      → Sends qs m
      → Follows R m
  Follows-Sends {qs = qs} m r h = record { at = λ s. (qs, r s, h.at s) }

  pub Follows-if :
      {X : Type 0} (b : Bool) (m n : State W → X × State W)
      → (b ≡ true → Follows R m)
      → (b ≡ false → Follows R n)
      → Follows R (if b then m else n)
  Follows-if true m n hm hn = hm refl
  Follows-if false m n hm hn = hn refl

stays :
    {W A B : Type 0} (r : Flow A) (f : A → Exec W B) (s : State W)
    → ((a : A) → Sends [] (f a))
    → object_requests (continue r f s).1.log ≡ object_requests s.log
stays (next a) f s h = (h a).at s
stays (stop o) f s h = refl

module _ {W A B : Type 0} {R : State W → List Request → Type 0} where
  -- What comes after asks for nothing.
  pub Follows-after :
      (m : Exec W A) (f : A → Exec W B)
      → Follows R m
      → ((a : A) → Sends [] (f a))
      → Follows R (m >>= f)
  unfolding ◌>>=◌
  Follows-after m f hm hf = record {
    at = λ s. let (r, s') = m s in let (qs, k, e) = hm.at s in (qs, k, stays r f s' hf ∙ e);
  }

module _ {W : Type 0} (p : Platform W) (build : HermesAgent → StatefulSetInputs → StatefulSet)
    (ha : HermesAgent) (owns : Owns p) (sts d : StatefulSet) (hash : String) where
  module _ (same : same_volume_claim_template_names sts d ≡ true)
      (changed : str_eq (hash_of sts) hash ≡ false) where
    -- The Pod, once the StatefulSet is updated.
    restart :
        (s : State W) (shown : Option Pod)
        → (get p pod (pod_ns_name ha) s).0 ≡ ok shown
        → (t u : State W)
        → object_requests u.log
          ≡ update stateful_set (with_version d sts.meta.resource_version) ∷ object_requests t.log
        → (r : Result (Unit {0}))
        → (update_stateful_set p ha
            (with_version d sts.meta.resource_version)
            (get p pod (pod_ns_name ha) s).1).0
          ≡ r
        → (qs : List Request) × SetWrites p ha s (some sts) d hash qs
          × (object_requests
                (continue
                  (or_retry r)
                  (λ _. when (not (was_running shown)) (attempt (delete_pod p (pod_ns_name ha))))
                  u).1.log
              ≡ qs ++ object_requests t.log)
    unfolding when
    restart s shown g t u h (err e) f = (_, refused same changed g f, h)
    restart s shown g t u h (ok x) f = elim (Bool-cases (was_running shown)) [
      | inl e ↦
          let (x, there, runs) = was_running-phase shown e in
          rw e (
            _,
            kept same changed (g ∙ ap (λ (o : Option Pod). ok o) there) runs,
            (Sends-pure tt).at u ∙ h,
          )
      | inr e ↦ rw e (
        _,
        restarted same changed g (was_running-IsNotRunning shown e),
        (Sends-attempt _ (Sends-delete p ha pod (pod_ns_name ha))).at u
            ∙ ap (λ (l : List Request). delete pod (pod_ns_name ha) ∷ l) h,
      )
    ]

    replaced :
        (s : State W) (shown : Option Pod)
        → (get p pod (pod_ns_name ha) s).0 ≡ ok shown
        → (qs : List Request) × SetWrites p ha s (some sts) d hash qs
          × (object_requests
                (replace_set p build ha sts d shown (get p pod (pod_ns_name ha) s).1).1.log
              ≡ qs ++ object_requests (get p pod (pod_ns_name ha) s).1.log)
    unfolding replace_set attempt ◌>>=◌
    replaced s shown g =
        let q = with_version d sts.meta.resource_version in
        let t = (get p pod (pod_ns_name ha) s).1 in
        let (r, u) = update_stateful_set p ha q t in
        restart s shown g t u ((Sends-update p ha owns stateful_set q).at t) r refl

    after_pod :
        (s : State W) (r : Result (Option Pod))
        → (get p pod (pod_ns_name ha) s).0 ≡ r
        → (qs : List Request) × SetWrites p ha s (some sts) d hash qs
          × (object_requests
                (continue
                  (or_retry r)
                  (replace_set p build ha sts d)
                  (get p pod (pod_ns_name ha) s).1).1.log
              ≡ qs ++ object_requests (get p pod (pod_ns_name ha) s).1.log)
    after_pod s (ok shown) g = replaced s shown g
    after_pod s (err e) g = ([], unread same changed g, refl)

    Follows-update_set :
        Follows (λ s. SetWrites p ha s (some sts) d hash) (update_set p build ha sts d)
    unfolding update_set attempt ◌>>=◌ get
    Follows-update_set = record { at = λ s. after_pod s (get p pod (pod_ns_name ha) s).0 refl }

  Follows-refresh_set :
      same_volume_claim_template_names sts d ≡ true
      → Follows (λ s. SetWrites p ha s (some sts) d hash) (refresh_set p build ha sts d hash)
  unfolding refresh_set
  Follows-refresh_set same =
      Follows-if _ _ _ (λ e. Follows-Sends _ (λ s. unchanged same e) (Sends-pure tt))
        (λ e. Follows-update_set same e)

  Follows-reshape :
      same_volume_claim_template_names sts d ≡ false
      → Follows (λ s. SetWrites p ha s (some sts) d hash) (reshape p build ha)
  unfolding reshape
  Follows-reshape differs =
      Follows-Sends _ (λ s. reshaped differs)
        (Sends-bind _ _ (Sends-attempt _ (Sends-delete p ha stateful_set (set_ns_name ha)))
          (λ _. Sends-return _))

module _ {W : Type 0} (p : Platform W) (build : HermesAgent → StatefulSetInputs → StatefulSet)
    (ha : HermesAgent) (owns : Owns p) where
  -- Whatever the cluster answers, what is done to bring the StatefulSet to the desired one is one of the
  -- cases.
  pub Follows-put_set :
      (existing : Option StatefulSet) (d : StatefulSet) (hash : String)
      → Follows (λ s. SetWrites p ha s existing d hash) (put_set p build ha existing d hash)
  unfolding put_set
  Follows-put_set none d hash =
      Follows-Sends _ (λ s. created) (Sends-attempt _ (Sends-create p ha owns stateful_set d))
  Follows-put_set (some sts) d hash =
      Follows-if _ _ _ (λ e. Follows-refresh_set p build ha owns sts d hash e)
        (λ e. Follows-reshape p build ha owns sts d hash e)
