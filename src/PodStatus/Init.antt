-- ===== src/PodStatus/Init.antt =====
-- The failure of the init containers (internal/usecase/hermesagent_statefulset_podstatus.go) against a
-- description of a healthy one.
use hermes_agent_operator.Prelude.{
  true, Option, none, some, List, [], ◌∷◌, ◌++◌, All, ◌≡◌, ◌≢◌, refl, ◌↔◌, ◌⊎◌, Option-cases, ap,
  ◌∙◌, inl, inr, arith, eq_iff,
}
use hermes_agent_operator.Objects.{
  Pod, ContainerStatus, ContainerStateTerminated, ContainerStateWaiting,
}
use hermes_agent_operator.PodStatus.{
  PodFailure, waiting_diagnosis, exit_diagnosis, init_diagnosis, first_init_failure,
  init_container_failure, starting_up,
}

abbrev pub HasExitedWell : Option ContainerStateTerminated → Type 0
HasExitedWell none = Unit
HasExitedWell (some t) = t.exit_code ≡ 0

abbrev pub IsWaitingItsTurn : Option ContainerStateWaiting → Type 0
IsWaitingItsTurn none = Unit
IsWaitingItsTurn (some w) = (w.reason ≡ "") ⊎ (starting_up w.reason ≡ true)

abbrev pub IsHealthy : ContainerStatus → Type 0
IsHealthy c = HasExitedWell c.terminated × IsWaitingItsTurn c.waiting

-- What the diagnosis of an unhealthy container says.
abbrev pub Describes : ContainerStatus → PodFailure → Type 0
Describes c f = (f.container ≡ c.name) × (f.init ≡ true) × (f.reason ≢ "")

waiting_none :
    (c : ContainerStatus) (w : Option ContainerStateWaiting)
    → waiting_diagnosis c w ≡ none ↔ IsWaitingItsTurn w
unfolding waiting_diagnosis
waiting_none c none = (λ _. tt, λ _. refl)
waiting_none c (some w) =
    (λ h. ground (arith, eq_iff w.reason ""), λ h. ground (arith, eq_iff w.reason ""))

exit_none :
    (c : ContainerStatus) (t : Option ContainerStateTerminated) (rest : Option PodFailure)
    → exit_diagnosis c t rest ≡ none ↔ HasExitedWell t × (rest ≡ none)
unfolding exit_diagnosis
exit_none c none rest = (λ h. (tt, h), λ h. h.1)
exit_none c (some t) rest = (λ h. ground arith, λ h. ground arith)

-- One container is passed over exactly when it is healthy.
IsHealthy-iff : (c : ContainerStatus) → init_diagnosis c ≡ none ↔ IsHealthy c
unfolding init_diagnosis
IsHealthy-iff c = (
  λ h.
      let q = (exit_none c c.terminated (waiting_diagnosis c c.waiting)).0 h in
      (q.0, (waiting_none c c.waiting).0 q.1),
  λ h.
      (exit_none c c.terminated (waiting_diagnosis c c.waiting)).1
        (h.0, (waiting_none c c.waiting).1 h.1),
)

waiting-Describes :
    (c : ContainerStatus) (w : Option ContainerStateWaiting) {f : PodFailure}
    → waiting_diagnosis c w ≡ some f
    → Describes c f
unfolding waiting_diagnosis
waiting-Describes c none h = cc
waiting-Describes c (some w) {f} h = ground (arith, eq_iff w.reason "", eq_iff f.reason "")

exit-Describes :
    (c : ContainerStatus) (t : Option ContainerStateTerminated) (rest : Option PodFailure)
    {f : PodFailure}
    → exit_diagnosis c t rest ≡ some f
    → (rest ≡ some f → Describes c f)
    → Describes c f
unfolding exit_diagnosis
exit-Describes c none rest h k = k h
exit-Describes c (some t) rest {f} h k =
    ground (arith, eq_iff t.reason "", eq_iff f.reason "", eq_iff "Error" "")

diagnosis-Describes :
    (c : ContainerStatus) {f : PodFailure} → init_diagnosis c ≡ some f → Describes c f
unfolding init_diagnosis
diagnosis-Describes c h =
    exit-Describes c c.terminated (waiting_diagnosis c c.waiting) h (waiting-Describes c c.waiting)

-- The first failing container of a list, and all before it healthy.
pub record IsFirstFailure (cs : List ContainerStatus) (f : PodFailure) : Type 0 where
  pub before : List ContainerStatus
  pub at : ContainerStatus
  pub after : List ContainerStatus
  pub splits : cs ≡ before ++ (at ∷ after)
  pub healthy : All IsHealthy before
  pub unhealthy : ¬ IsHealthy at
  pub described : Describes at f

first_none_iff : (cs : List ContainerStatus) → first_init_failure cs ≡ none ↔ All IsHealthy cs
unfolding first_init_failure
first_none_iff [] = (λ _. tt, λ _. refl)
first_none_iff (c ∷ cs) = elim (Option-cases (init_diagnosis c)) [
  | inl e ↦ (
    λ h. ((IsHealthy-iff c).0 e, (first_none_iff cs).0 (rw e at h)),
    λ h. rw e ((first_none_iff cs).1 h.1),
  )
  | inr (f, e) ↦ (λ h. cc (rw e at h), λ h. cc (e, (IsHealthy-iff c).1 h.0))
]

first_some :
    (cs : List ContainerStatus) {f : PodFailure}
    → first_init_failure cs ≡ some f
    → IsFirstFailure cs f
unfolding first_init_failure
first_some [] h = cc
first_some (c ∷ cs) {f} h = elim (Option-cases (init_diagnosis c)) [
  | inl e ↦
      let rest = first_some cs {f = f} (rw e at h) in
      record {
        before = c ∷ rest.before;
        at = rest.at;
        after = rest.after;
        splits = ap (λ (l : List ContainerStatus). c ∷ l) rest.splits;
        healthy = ((IsHealthy-iff c).0 e, rest.healthy);
        unhealthy = rest.unhealthy;
        described = rest.described;
      }
  | inr (g, e) ↦ record {
    before = [];
    at = c;
    after = cs;
    splits = refl;
    healthy = tt;
    unhealthy = λ k. cc (e, (IsHealthy-iff c).1 k);
    described = diagnosis-Describes c (e ∙ (rw e at h));
  }
]

-- A Pod reports no init container failure exactly when each of its init containers has exited with 0 or
-- has not exited, and waits, if it does, with no reason or with one of the two start-up reasons.
init_container_failure-none_iff :
    (pod : Pod)
    → init_container_failure (some pod) ≡ none ↔ All IsHealthy pod.init_container_statuses
unfolding init_container_failure
init_container_failure-none_iff pod = first_none_iff pod.init_container_statuses

-- A reported init container failure is that of an init container which is not healthy and before which
-- all are healthy; it names that container, is marked as an init failure, and its reason is not empty.
pub init_container_failure-IsFirstFailure :
    (pod : Pod) {f : PodFailure}
    → init_container_failure (some pod) ≡ some f
    → IsFirstFailure pod.init_container_statuses f
unfolding init_container_failure
init_container_failure-IsFirstFailure pod h = first_some pod.init_container_statuses h

-- A Pod reports no init container failure exactly when each of its init containers has exited with 0 or
-- has not exited, and waits, if it does, with no reason or with one of the two start-up reasons; and a
-- reported one is that of an init container which is not healthy in this sense and before which all
-- are, names that container, is marked as an init failure, and has a reason that is not empty.
pub init_container_failure_lem :
    (pod : Pod)
    → (init_container_failure (some pod) ≡ none ↔ All IsHealthy pod.init_container_statuses)
      × ((f : PodFailure)
          → init_container_failure (some pod) ≡ some f
          → IsFirstFailure pod.init_container_statuses f)
init_container_failure_lem pod =
    (init_container_failure-none_iff pod, λ f h. init_container_failure-IsFirstFailure pod h)
