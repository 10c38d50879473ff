-- ===== src/PodStatus/Reason.antt =====
-- The reason of the status (internal/usecase/hermesagent_statefulset_podstatus.go).
use hermes_agent_operator.Prelude.{
  String, Bool, true, false, Option, none, some, List, [], ◌∷◌, ◌≡◌, ◌≢◌, arith, eq_iff, if_some,
  is_empty, if◌then◌else◌, subst, Bool-cases, inl, inr,
}
use hermes_agent_operator.Objects.{
  Pod, PodCondition, ContainerStatus, ContainerStateTerminated, ContainerStateWaiting,
}
use hermes_agent_operator.PodStatus.{
  PodFailure, unschedulable, init_waiting, init_failed, container_failed, first_pod_failure,
  waiting_failure, exit_failure, exit_reason, or_else, is_pending, init_container_failure,
  get_reason, pod_status_reason,
}
use hermes_agent_operator.PodStatus.Init.{init_container_failure-IsFirstFailure}

-- Nothing is reported, or something with a reason.
abbrev HasReason : Option PodFailure → Type 0
HasReason none = Unit
HasReason (some f) = f.reason ≢ ""

unschedulable-HasReason : (cs : List PodCondition) → HasReason (unschedulable cs)
unfolding unschedulable
unschedulable-HasReason [] = tt
unschedulable-HasReason (c ∷ cs) = ground (arith, eq_iff c.reason "", unschedulable-HasReason cs)

module _ {A : Type 0} where
  HasReason-if_some :
      (o : Option A) (f : A → Option PodFailure) (n : Option PodFailure)
      → ((a : A) → HasReason (f a))
      → HasReason n
      → HasReason (if_some o f n)
  HasReason-if_some none f n hf hn = hn
  HasReason-if_some (some a) f n hf hn = hf a

waiting-HasReason :
    (w : ContainerStateWaiting) (name : String) (init : Bool) (rest : Option PodFailure)
    → HasReason rest
    → HasReason (if is_empty w.reason then rest else some (waiting_failure name init w))
waiting-HasReason w name init rest h = ground (arith, eq_iff w.reason "")

exit-HasReason :
    (t : ContainerStateTerminated) (name : String) (init : Bool) (rest : Option PodFailure)
    → HasReason rest
    → HasReason (if exit_reason (some t) then some (exit_failure name init t) else rest)
exit-HasReason t name init rest h = ground (arith, eq_iff t.reason "")

init_waiting-HasReason : (cs : List ContainerStatus) → HasReason (init_waiting cs)
unfolding init_waiting
init_waiting-HasReason [] = tt
init_waiting-HasReason (c ∷ cs) =
    let rest = init_waiting-HasReason cs in
    HasReason-if_some c.waiting _ _ (λ w. waiting-HasReason w c.name true _ rest) rest

init_failed-HasReason : (cs : List ContainerStatus) → HasReason (init_failed cs)
unfolding init_failed
init_failed-HasReason [] = tt
init_failed-HasReason (c ∷ cs) =
    let rest = init_failed-HasReason cs in
    let waiting =
      HasReason-if_some c.waiting
        (λ w. if is_empty w.reason then init_failed cs else some (waiting_failure c.name true w)) _
        (λ w. waiting-HasReason w c.name true _ rest) rest in
    HasReason-if_some c.terminated _ _ (λ t. exit-HasReason t c.name true _ waiting) waiting

container_failed-HasReason : (cs : List ContainerStatus) → HasReason (container_failed cs)
unfolding container_failed
container_failed-HasReason [] = tt
container_failed-HasReason (c ∷ cs) =
    let rest = container_failed-HasReason cs in
    let exited =
      HasReason-if_some c.last_terminated
        (λ t.
          if exit_reason (some t) then some (exit_failure c.name false t) else container_failed cs)
        _ (λ t. exit-HasReason t c.name false _ rest) rest in
    HasReason-if_some c.waiting _ _ (λ w. waiting-HasReason w c.name false _ exited) exited

or_else-HasReason : (f g : Option PodFailure) → HasReason f → HasReason g → HasReason (or_else f g)
or_else-HasReason none g hf hg = hg
or_else-HasReason (some f) g hf hg = hf

first-HasReason : (pod : Pod) → HasReason (first_pod_failure (some pod))
unfolding first_pod_failure
first-HasReason pod = elim (Bool-cases (is_pending pod.phase)) [
  | inl e ↦ rw e (
      or_else-HasReason _ _ (unschedulable-HasReason pod.conditions)
        (init_waiting-HasReason pod.init_container_statuses))
  | inr e ↦ rw e (
      or_else-HasReason _ _ (init_failed-HasReason pod.init_container_statuses) (
        or_else-HasReason _ _ (container_failed-HasReason pod.container_statuses)
          (ground (arith, eq_iff pod.reason ""))))
]

some-HasReason : {o : Option PodFailure} {f : PodFailure} → HasReason o → o ≡ some f → f.reason ≢ ""
some-HasReason h e = subst HasReason e h

-- A failure that a Pod reports, on any path of the diagnosis, has a reason that is not empty.
first_pod_failure-reason :
    (pod : Pod) {f : PodFailure} → first_pod_failure (some pod) ≡ some f → f.reason ≢ ""
first_pod_failure-reason pod h = some-HasReason (first-HasReason pod) h

-- The reason of the status is that of the init container failure when there is one, whatever else the
-- Pod reports; otherwise it is that of the Pod's first failure, which, on any path of the diagnosis, has
-- a reason that is not empty.
pod_status_reason_precedence :
    (pod : Pod)
    → ((f : PodFailure)
        → init_container_failure (some pod) ≡ some f
        → pod_status_reason (some pod) (init_container_failure (some pod)) ≡ f.reason)
      × (init_container_failure (some pod) ≡ none
          → pod_status_reason (some pod) (init_container_failure (some pod))
            ≡ get_reason (first_pod_failure (some pod)))
      × ((f : PodFailure) → first_pod_failure (some pod) ≡ some f → f.reason ≢ "")
unfolding pod_status_reason
pod_status_reason_precedence pod = (
  λ f e.
      let named = (init_container_failure-IsFirstFailure pod e).described.2 in
      rw e (ground (arith, eq_iff f.reason "")),
  λ e. rw e,
  λ f h. first_pod_failure-reason pod h,
)
