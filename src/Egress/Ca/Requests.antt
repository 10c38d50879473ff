-- ===== src/Egress/Ca/Requests.antt =====
-- What the CA reconciler asks of the cluster, whatever the cluster answers.
use hermes_agent_operator.Prelude.{
  String, Bool, true, false, Option, none, some, ◌≡◌, ◌≢◌, refl, All, arith, eq_iff, not, ◌&&◌,
  is_some, str_eq, is_empty, subst, sym,
}
use hermes_agent_operator.Objects.{NsName, Secret}
use hermes_agent_operator.Api.Egress.{egress_enabled, get_ca_secret_ref_name}
use hermes_agent_operator.Api.Agent.{HermesAgent, get_egress_ca_secret_name}
use hermes_agent_operator.Kube.Client.{secret, Platform}
use hermes_agent_operator.Kube.Exec.{State, Request, create, update, delete, update_status, finish}
use hermes_agent_operator.Kube.Writes.{
  OnlyOwns, Writes, Writes-if, Writes-finish, Writes-bind, Writes-attempt, Writes-when,
  Writes-delete, Writes-create, writes_rules,
}
use hermes_agent_operator.Conditions.Laws.{Writes-deferred}
use hermes_agent_operator.Egress.Ca.{
  generate, build_egress_ca_secret, record_egress_ca_secret, drop_managed, use_user_secret,
  keep_managed, disabled, with_existing, egress_ca_body, reconcile_egress_ca,
}

-- The Secret of the operator's own, in the agent's namespace.
abbrev pub IsManaged : HermesAgent → NsName → Type 0
IsManaged ha n = (n.namespace ≡ ha.namespace) × (n.name ≡ get_egress_ca_secret_name ha)

-- The writes that the reconciler may make: it creates the managed Secret, with egress enabled and no
-- reference; it deletes the managed Secret, when no reference has its name; and it writes the status.
abbrev pub IsCaWrite : HermesAgent → Request → Type 0
IsCaWrite ha (create secret o) =
    (egress_enabled ha.spec.egress ≡ true)
    × ((get_ca_secret_ref_name ha.spec.egress ≡ "")
        × IsManaged ha (record { namespace = o.meta.namespace; name = o.meta.name }))
IsCaWrite ha (create _ o) = ⊥
IsCaWrite ha (update _ o) = ⊥
IsCaWrite ha (delete secret n) =
    IsManaged ha n × (get_ca_secret_ref_name ha.spec.egress ≢ get_egress_ca_secret_name ha)
IsCaWrite ha (delete _ n) = ⊥
IsCaWrite ha (update_status _) = Unit

module _ {W : Type 0} (p : Platform W) (ha : HermesAgent) where
  Writes-record : (name : String) → Writes (IsCaWrite ha) (record_egress_ca_secret p ha name)
  unfolding record_egress_ca_secret
  Writes-record name = search writes_rules depth 9

  not_named : (a b : String) (found : Bool) → (found && not (str_eq a b)) ≡ true → a ≢ b
  not_named a b found h = ground (arith, eq_iff a b)

  Writes-drop : (existing : Option Secret) → Writes (IsCaWrite ha) (drop_managed p ha existing)
  unfolding drop_managed
  Writes-drop existing = Writes-when _ _ (λ h.
      Writes-attempt _
        (Writes-delete p secret _ ((refl, refl), not_named _ _ (is_some existing) h)))

  Writes-user : (existing : Option Secret) → Writes (IsCaWrite ha) (use_user_secret p ha existing)
  unfolding use_user_secret
  Writes-user existing = search (writes_rules, Writes-drop, Writes-record) depth 9

  Writes-disabled : (existing : Option Secret) → Writes (IsCaWrite ha) (disabled p ha existing)
  unfolding disabled
  Writes-disabled existing = search (writes_rules, Writes-drop, Writes-record) depth 9

  Writes-generate : Writes (IsCaWrite ha) (generate p ha)
  unfolding generate
  Writes-generate = record { at = λ s h. h }

  managed_write :
      (pair : String × String)
      → egress_enabled ha.spec.egress ≡ true
      → get_ca_secret_ref_name ha.spec.egress ≡ ""
      → IsCaWrite ha (create secret (build_egress_ca_secret p ha pair))
  unfolding build_egress_ca_secret
  managed_write (cert, key) on none_named = (on, (none_named, (refl, refl)))

  module _ (owns : OnlyOwns p) where
    Writes-keep :
        (existing : Option Secret)
        → egress_enabled ha.spec.egress ≡ true
        → get_ca_secret_ref_name ha.spec.egress ≡ ""
        → Writes (IsCaWrite ha) (keep_managed p ha existing)
    unfolding keep_managed
    Writes-keep (some o) on none_named = Writes-record _
    Writes-keep none on none_named = Writes-bind _ _ (Writes-attempt _ Writes-generate) (λ pair.
        Writes-bind _ _
          (Writes-attempt _ (
            Writes-create p ha secret (build_egress_ca_secret p ha pair) (λ o' e.
              subst (λ o. IsCaWrite ha (create secret o)) (sym (owns secret ha _ o' e))
                (managed_write pair on none_named))))
          (λ _. Writes-record _))

    no_name : (r : String) → not (is_empty r) ≡ false → r ≡ ""
    no_name r h = ground (arith, eq_iff r "")

    is_on : (b : Bool) → not b ≡ false → b ≡ true
    is_on b h = ground arith

    Writes-with_existing :
        (existing : Option Secret) → Writes (IsCaWrite ha) (with_existing p ha existing)
    unfolding with_existing
    Writes-with_existing existing =
        Writes-if _ _ _ (λ off. Writes-disabled existing)
          (λ on.
            Writes-if _ _ _ (λ named. Writes-user existing)
              (λ named. Writes-keep existing (is_on _ on) (no_name _ named)))

    Writes-body : Writes (IsCaWrite ha) (egress_ca_body p ha)
    unfolding egress_ca_body
    Writes-body = search (writes_rules, Writes-with_existing)

    -- Where setting the controller reference changes only the owner references, each write that the
    -- reconciler adds to the log, whatever the cluster answers, is the creation of the managed CA
    -- Secret, with egress enabled and no user-supplied one referenced; or the deletion of the managed
    -- CA Secret, when it is not itself the one that the user references; or a write of the status. A
    -- CA is never updated.
    pub reconcile_egress_ca-writes :
        (s : State W)
        → All (IsCaWrite ha) s.log
        → All (IsCaWrite ha) (reconcile_egress_ca p ha s).1.log
    unfolding reconcile_egress_ca
    reconcile_egress_ca-writes s h =
        (Writes-deferred p ha (λ st. tt) "EgressCAReconcileFailed" (finish (egress_ca_body p ha))
            (Writes-finish _ Writes-body)).at
          s h
