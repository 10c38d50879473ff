-- ===== src/Reconcile/Order.antt =====
-- The order of the reconcilers in a reconciliation (internal/usecase/hermesagent.go), and what it is
-- counted as.
use hermes_agent_operator.Prelude.{
  ℕ, true, false, Option, none, some, List, [], ◌∷◌, ◌++◌, ◌≡◌, ◌↔◌, ◌||◌, ◌==◌, not, refl, subst,
  ap, is_some, Bool-cases, inl, inr, arith,
}
use hermes_agent_operator.Api.Agent.{HermesAgent}
use hermes_agent_operator.Kube.Client.{Error, Platform}
use hermes_agent_operator.Kube.Exec.{State, Outcome, Flow, next, stop, Handler, pure, ◌>>=◌}
use hermes_agent_operator.HermesConfigMap.{reconcile_hermes_config_map}
use hermes_agent_operator.HermesSecret.{reconcile_hermes_secret}
use hermes_agent_operator.Egress.Ca.{reconcile_egress_ca}
use hermes_agent_operator.Egress.Tokens.{reconcile_egress_secret}
use hermes_agent_operator.ServiceAccount.{reconcile_service_account}
use hermes_agent_operator.SearxngSecret.{reconcile_searxng_secret}
use hermes_agent_operator.SearxngConfigMap.{reconcile_searxng_config_map}
use hermes_agent_operator.Role.{reconcile_role}
use hermes_agent_operator.Service.{reconcile_service}
use hermes_agent_operator.Ingress.{reconcile_ingress}
use hermes_agent_operator.NetworkPolicy.{reconcile_network_policy}
use hermes_agent_operator.Restore.{reconcile_restore}
use hermes_agent_operator.Snapshot.{reconcile_snapshot}
use hermes_agent_operator.Pod.{build_stateful_set}
use hermes_agent_operator.Workload.{reconcile_stateful_set}
use hermes_agent_operator.Reconcile.{
  ReconcileResult, result_success, result_error, ends, completed, step, run_all, all_steps,
  reconcile_agent,
}

-- Neither an error nor something to requeue.
pub record IsZero (o : Outcome) : Type 0 where
  pub no_error : o.error ≡ none
  pub no_requeue : o.requeue_after ≡ 0

-- An error counts as one; without an error nothing is counted.
pub record CountsAs (o : Outcome) (r : Option ReconcileResult) : Type 0 where
  pub of_error : is_some o.error ≡ true → r ≡ some result_error
  pub of_requeue : o.error ≡ none → r ≡ none

zero_parts : (e : Option Error) (n : ℕ) → (is_some e || not (n == 0)) ≡ false → (e ≡ none) × (n ≡ 0)
zero_parts none n h = (refl, ground arith)
zero_parts (some e) n h = ground arith

not_ends-IsZero : (o : Outcome) → ends o ≡ false → IsZero o
not_ends-IsZero o h =
    let (e, n) = zero_parts o.error o.requeue_after h in record { no_error = e; no_requeue = n }

IsZero-not_ends : (o : Outcome) → IsZero o → ends o ≡ false
IsZero-not_ends o z = rw z.no_error (rw z.no_requeue refl)

ends-not_zero : (o : Outcome) → ends o ≡ true → IsZero o → ⊥
ends-not_zero o h z = let e : ends o ≡ false = IsZero-not_ends o z in ground arith

not_success : some result_error ≡ some result_success → ⊥
not_success h = cc

not_counted : none ≡ some result_success → ⊥
not_counted h = cc

as_success : (r : Flow (Unit {0})) → (completed r).1 ≡ some result_success → r ≡ next tt
as_success (next u) h = refl
as_success (stop o) h = elim (Bool-cases (is_some o.error)) [
  | inl e ↦ absurd (not_success (rw e at h))
  | inr e ↦ absurd (not_counted (rw e at h))
]

module _ {W : Type 0} where
  -- The handlers run one after the other, each from the state that the one before it left, and each
  -- comes back with no error and nothing to requeue.
  pub data Completes : List (Handler W) → State W → State W → Type 0 where
    nothing : {s : State W} → Completes [] s s
    one_more :
        {h : Handler W} {hs : List (Handler W)} {s t : State W}
        → IsZero (h s).0
        → Completes hs (h s).1 t
        → Completes (h ∷ hs) s t

  -- Those before one handler complete; that one ends the run; and those after it do not run.
  pub record EndsAt (hs : List (Handler W)) (s : State W) (o : Outcome) (t : State W) : Type 0 where
    pub before : List (Handler W)
    pub last : Handler W
    pub after : List (Handler W)
    pub order : hs ≡ before ++ (last ∷ after)
    pub reached : State W
    pub so_far : Completes before s reached
    pub result : last reached ≡ (o, t)
    pub is_end : ¬ IsZero o

  -- How a run of the handlers went.
  pub IsRun : List (Handler W) → State W → Flow (Unit {0}) → State W → Type 0
  IsRun hs s (next u) t = Completes hs s t
  IsRun hs s (stop o) t = EndsAt hs s o t

  after_step :
      (h : Handler W) (hs : List (Handler W)) (s : State W) (r : Flow (Unit {0})) (t : State W)
      → IsZero (h s).0
      → IsRun hs (h s).1 r t
      → IsRun (h ∷ hs) s r t
  unfolding IsRun
  after_step h hs s (next u) t e run = one_more e run
  after_step h hs s (stop o) t e run = record {
    before = h ∷ run.before;
    last = run.last;
    after = run.after;
    order = ap (λ l. h ∷ l) run.order;
    reached = run.reached;
    so_far = one_more e run.so_far;
    result = run.result;
    is_end = run.is_end;
  }

  run_all-IsRun :
      (hs : List (Handler W)) (s : State W) → IsRun hs s (run_all hs s).0 (run_all hs s).1
  unfolding IsRun run_all step pure ◌>>=◌
  run_all-IsRun [] s = nothing
  run_all-IsRun (h ∷ hs) s = elim (Bool-cases (ends (h s).0)) [
    | inl e ↦ rw e (record {
      before = [];
      last = h;
      after = hs;
      order = refl;
      reached = s;
      so_far = nothing;
      result = refl;
      is_end = ends-not_zero (h s).0 e;
    })
    | inr e ↦ rw e (
        after_step h hs s (run_all hs (h s).1).0 (run_all hs (h s).1).1 (not_ends-IsZero (h s).0 e)
          (run_all-IsRun hs (h s).1))
  ]

  Completes-run :
      {hs : List (Handler W)} {s t : State W} → Completes hs s t → run_all hs s ≡ (next tt, t)
  unfolding run_all step pure ◌>>=◌
  Completes-run nothing = refl
  Completes-run (one_more e rest) = rw (IsZero-not_ends _ e) (Completes-run rest)

  IsRun-both :
      (hs : List (Handler W)) (s : State W) (r : Flow (Unit {0})) (t : State W)
      → (run_all hs s).0 ≡ r
      → (run_all hs s).1 ≡ t
      → IsRun hs s r t
  IsRun-both hs s r t e f =
      subst (λ x. IsRun hs s x t) e
        (subst (λ x. IsRun hs s (run_all hs s).0 x) f (run_all-IsRun hs s))

  module _ (p : Platform W) (ha : HermesAgent) where
    -- The reconcilers as `Reconcile` calls them.
    abbrev pub reconcilers : List (Handler W)
    reconcilers =
        reconcile_hermes_config_map p ha
        ∷ reconcile_hermes_secret p ha
        ∷ reconcile_searxng_config_map p ha
        ∷ reconcile_searxng_secret p ha
        ∷ reconcile_service_account p ha
        ∷ reconcile_role p ha
        ∷ reconcile_service p ha
        ∷ reconcile_ingress p ha
        ∷ reconcile_network_policy p ha
        ∷ reconcile_egress_ca p ha
        ∷ reconcile_egress_secret p ha
        ∷ reconcile_restore p ha
        ∷ reconcile_stateful_set p (build_stateful_set p.go_quote) ha
        ∷ reconcile_snapshot p ha
        ∷ []

    -- A reconciliation counts as a success exactly if the fourteen reconcilers ran one after the other,
    -- from the one of the Hermes ConfigMap to the one of the snapshots, each from the state the one
    -- before it left, and each came back with neither an error nor something to requeue. The state that
    -- is left is then that of the last.
    pub reconcile_agent-success_iff :
        (s : State W)
        → ((reconcile_agent p ha s).0.1 ≡ some result_success)
          ↔ Completes reconcilers s (reconcile_agent p ha s).1
    unfolding reconcile_agent IsRun all_steps
    reconcile_agent-success_iff s = (
      λ h. IsRun-both reconcilers s (next tt) (run_all reconcilers s).1 (as_success _ h) refl,
      λ c. let e = ap (λ (r : Flow (Unit {0}) × State W). (completed r.0).1) (Completes-run c) in e,
    )
