-- ===== src/SearxngSecret/Requests.antt =====
-- What the reconciler of SearXNG's Secret asks of the cluster, whatever the cluster answers.
use hermes_agent_operator.Prelude.{
  String, Bool, true, false, Option, none, some, ◌≡◌, refl, All, arith, not, subst, sym,
}
use hermes_agent_operator.Objects.{Secret}
use hermes_agent_operator.Api.Agent.{HermesAgent, get_searxng_name, searxng_enabled}
use hermes_agent_operator.Kube.Client.{secret, Platform}
use hermes_agent_operator.Kube.Exec.{State, Request, create, update, delete, update_status, finish}
use hermes_agent_operator.Kube.Writes.{
  OnlyOwns, Writes, Writes-if, Writes-finish, Writes-bind, Writes-attempt, Writes-when,
  Writes-delete, Writes-create, Writes-random, writes_rules,
}
use hermes_agent_operator.Conditions.Laws.{Writes-deferred}
use hermes_agent_operator.SearxngSecret.{
  build_searxng_secret, record_and_finish, remove_searxng_secret, keep_searxng_secret, with_secret,
  searxng_secret_body, reconcile_searxng_secret,
}

abbrev pub IsSearxngs : HermesAgent → String → String → Type 0
IsSearxngs ha namespace name = (namespace ≡ ha.namespace) × (name ≡ get_searxng_name ha)

abbrev pub IsSearxngWrite : HermesAgent → Request → Type 0
IsSearxngWrite ha (create secret o) =
    (searxng_enabled ha.spec.searxng ≡ true) × IsSearxngs ha o.meta.namespace o.meta.name
IsSearxngWrite ha (create _ o) = ⊥
IsSearxngWrite ha (update _ o) = ⊥
IsSearxngWrite ha (delete secret n) =
    (searxng_enabled ha.spec.searxng ≡ false) × IsSearxngs ha n.namespace n.name
IsSearxngWrite ha (delete _ n) = ⊥
IsSearxngWrite ha (update_status _) = Unit

built :
    (ha : HermesAgent) (raw : String)
    → searxng_enabled ha.spec.searxng ≡ true
    → IsSearxngWrite ha (create secret (build_searxng_secret ha raw))
unfolding build_searxng_secret
built ha raw on = (on, (refl, refl))

is_off : (b : Bool) → not b ≡ true → b ≡ false
is_off b h = ground arith

is_on : (b : Bool) → not b ≡ false → b ≡ true
is_on b h = ground arith

module _ {W : Type 0} (p : Platform W) (ha : HermesAgent) where
  Writes-record : (name : String) → Writes (IsSearxngWrite ha) (record_and_finish p ha name)
  unfolding record_and_finish
  Writes-record name = search writes_rules depth 9

  Writes-remove :
      (existing : Option Secret)
      → searxng_enabled ha.spec.searxng ≡ false
      → Writes (IsSearxngWrite ha) (remove_searxng_secret p ha existing)
  unfolding remove_searxng_secret
  Writes-remove existing off =
      Writes-bind _ _
        (Writes-when _ _ (λ _. Writes-attempt _ (Writes-delete p secret _ (off, (refl, refl)))))
        (λ _. Writes-record _)

  module _ (owns : OnlyOwns p) where
    Writes-keep :
        (existing : Option Secret)
        → searxng_enabled ha.spec.searxng ≡ true
        → Writes (IsSearxngWrite ha) (keep_searxng_secret p ha existing)
    unfolding keep_searxng_secret
    Writes-keep (some o) on = search writes_rules
    Writes-keep none on = Writes-bind _ _ (Writes-attempt _ (Writes-random p 32)) (λ raw.
        Writes-bind _ _
          (Writes-attempt _ (
            Writes-create p ha secret (build_searxng_secret ha raw) (λ o' e.
              subst (λ o. IsSearxngWrite ha (create secret o)) (sym (owns secret ha _ o' e))
                (built ha raw on))))
          (λ _. Writes-record _))

    Writes-with_secret :
        (existing : Option Secret) → Writes (IsSearxngWrite ha) (with_secret p ha existing)
    unfolding with_secret
    Writes-with_secret existing =
        Writes-if _ _ _ (λ h. Writes-remove existing (is_off _ h))
          (λ h. Writes-keep existing (is_on _ h))

    Writes-body : Writes (IsSearxngWrite ha) (searxng_secret_body p ha)
    unfolding searxng_secret_body
    Writes-body = search (writes_rules, Writes-with_secret)

    -- Where setting the controller reference changes only the owner references, each write that the
    -- reconciler adds to the log, whatever the cluster answers, is the creation of SearXNG's Secret,
    -- with SearXNG enabled; or its deletion, with SearXNG disabled; or a write of the status. The
    -- generated value is never changed: there is no update.
    reconcile_searxng_secret-writes :
        (s : State W)
        → All (IsSearxngWrite ha) s.log
        → All (IsSearxngWrite ha) (reconcile_searxng_secret p ha s).1.log
    unfolding reconcile_searxng_secret
    reconcile_searxng_secret-writes s h =
        (Writes-deferred p ha (λ st. tt) "SearXNGSecretReconcileFailed"
            (finish (searxng_secret_body p ha)) (Writes-finish _ Writes-body)).at
          s h
