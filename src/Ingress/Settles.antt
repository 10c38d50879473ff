-- ===== src/Ingress/Settles.antt =====
-- The reconciler of the Ingress (internal/usecase/hermesagent_ingress.go) once the Ingress is stored.
use hermes_agent_operator.Prelude.{true, Option, none, some, ◌≡◌, arith, str_eq, eq_iff, keys}
use hermes_agent_operator.Objects.{Ingress, IngressRule, IngressTls, HttpIngressPath}
use hermes_agent_operator.Api.Networking
use hermes_agent_operator.Api.Networking.{get_ingress, ingress_enabled}
use hermes_agent_operator.Api.Agent.{HermesAgent}
use hermes_agent_operator.Kube.Client.{ok, Platform, ingress}
use hermes_agent_operator.Kube.Exec.{State, done}
use hermes_agent_operator.Managed.Lists.{
  Distinct, lists_equal_refl, options_equal_refl, str_eq_refl, contents_equal_refl,
}
use hermes_agent_operator.Managed.Plan.{reconcile_managed-settled}
use hermes_agent_operator.Ingress.{
  build_ingress, path_equal, rule_equal, tls_equal, ingress_equal, sent_ingress, managed_ingress,
  reconcile_ingress,
}

-- What the cluster keeps of an Ingress that is sent: all but the metadata, and the annotations.
pub record IsStored (sent shown : Ingress) : Type 0 where
  pub class_name : shown.ingress_class_name ≡ sent.ingress_class_name
  pub rules : shown.rules ≡ sent.rules
  pub tls : shown.tls ≡ sent.tls
  pub annotations : shown.meta.annotations ≡ sent.meta.annotations

path_equal_refl : (a : HttpIngressPath) → path_equal a a ≡ true
path_equal_refl a = ground (
  arith,
  eq_iff a.path a.path,
  eq_iff a.path_type a.path_type,
  eq_iff a.service_name a.service_name,
)

rule_equal_refl : (a : IngressRule) → rule_equal a a ≡ true
rule_equal_refl a = rw (str_eq_refl a.host) (lists_equal_refl path_equal path_equal_refl a.paths)

tls_equal_refl : (a : IngressTls) → tls_equal a a ≡ true
tls_equal_refl a = rw (lists_equal_refl str_eq str_eq_refl a.hosts) (str_eq_refl a.secret_name)

ingress_equal_refl :
    (a b : Ingress) → Distinct (keys a.meta.annotations) → IsStored a b → ingress_equal a b ≡ true
unfolding ingress_equal
ingress_equal_refl a b d h = rw (h.class_name) (
    rw (h.rules) (
      rw (h.tls) (
        rw (h.annotations) (
          rw (options_equal_refl str_eq str_eq_refl a.ingress_class_name) (
            rw (lists_equal_refl rule_equal rule_equal_refl a.rules) (
              rw (lists_equal_refl tls_equal tls_equal_refl a.tls)
                (contents_equal_refl a.meta.annotations d)))))))

is_settled :
    (ha : HermesAgent) (ing : Networking.Ingress) (existing : Option Ingress) (o : Ingress)
    → Distinct (keys ing.annotations)
    → IsStored (sent_ingress ha ing existing) o
    → ingress_equal (build_ingress ha ing) o ≡ true
unfolding build_ingress
is_settled ha ing none o d h = ingress_equal_refl (build_ingress ha ing) o d h
is_settled ha ing (some e) o d h = ingress_equal_refl (build_ingress ha ing) o d (record {
  class_name = h.class_name;
  rules = h.rules;
  tls = h.tls;
  annotations = h.annotations;
})

-- Where the spec has an Ingress that is on, and the cluster shows it as the reconciler sent it, be it to
-- create it or in place of an existing one: the reconciler returns without error or delay, and writes
-- neither the Ingress nor the status. The annotations of the spec have distinct keys.
reconcile_ingress-settles :
    {W : Type 0} (p : Platform W) (ha : HermesAgent) (ing : Networking.Ingress) (s : State W)
    (existing : Option Ingress) (shown : Ingress)
    → get_ingress ha.spec.networking ≡ some ing
    → ing.enabled ≡ true
    → Distinct (keys ing.annotations)
    → (p.client_get ingress (record { namespace = ha.namespace; name = ha.name }) s.world).0
      ≡ ok shown
    → IsStored (sent_ingress ha ing existing) shown
    → reconcile_ingress p ha s ≡ (
      done,
      record s {
        world =
            (p.client_get ingress (record { namespace = ha.namespace; name = ha.name }) s.world).1;
      },
    )
unfolding reconcile_ingress
reconcile_ingress-settles p ha ing s existing shown e on d g h =
    reconcile_managed-settled p ha (managed_ingress ha) s shown (rw e on) g
      (rw e (is_settled ha ing existing shown d h))
