-- ===== src/Managed/Wanted.antt =====
-- When the spec asks for a Service, an Ingress and a NetworkPolicy (api/v1alpha1, and the ports of
-- internal/usecase/hermesagent_service.go).
use hermes_agent_operator.Prelude.{
  Bool, true, false, Option, none, some, List, [], ◌∷◌, ◌++◌, ◌≡◌, ◌≢◌, ◌⊎◌, inl, inr, refl, sym,
  ap, ◌∙◌, arith, get_or, map, length, not, ◌==◌, if◌then◌else◌,
}
use hermes_agent_operator.Objects.{ServicePort}
use hermes_agent_operator.Api.Hermes.{
  get_api_server, get_webhook, api_server_enabled, webhook_enabled,
}
use hermes_agent_operator.Api.Networking
use hermes_agent_operator.Api.Networking.{get_service, get_ingress, ingress_enabled}
use hermes_agent_operator.Api.Security
use hermes_agent_operator.Api.Security.{get_network_policy, network_policy_enabled}
use hermes_agent_operator.Api.Agent.{HermesAgent}
use hermes_agent_operator.Service.{
  listener_port, listener_ports, build_service_ports, build_service, carried_over, service_equal,
  managed_service, reconcile_service,
}
use hermes_agent_operator.Service

-- A listener of the agent is on, or the spec has ports of its own for the Service.
abbrev pub HasPort : HermesAgent → Type 0
HasPort ha =
    (api_server_enabled (get_api_server ha.spec.hermes) ≡ true)
    ⊎ ((webhook_enabled (get_webhook ha.spec.hermes) ≡ true)
        ⊎ ((svc : Networking.Service) × (get_service ha.spec.networking ≡ some svc)
            × (svc.ports ≢ [])))

-- The spec has an Ingress that is on.
abbrev pub HasIngress : HermesAgent → Type 0
HasIngress ha =
    (ing : Networking.Ingress) × (get_ingress ha.spec.networking ≡ some ing) × (ing.enabled ≡ true)

-- The spec has a network policy that is not switched off.
abbrev pub HasPolicy : HermesAgent → Type 0
HasPolicy ha =
    (np : Security.NetworkPolicy) × (get_network_policy ha.spec.security ≡ some np)
    × (np.enabled ≢ some false)

listens :
    (a b : Bool) (x y : ServicePort)
    → not (length ((if a then x ∷ [] else []) ++ (if b then y ∷ [] else [])) == 0) ≡ true
    → (a ≡ true) ⊎ (b ≡ true)
listens true b x y h = inl refl
listens false true x y h = inr refl
listens false false x y h = ground arith

listens_or :
    (a b : Bool) (x y : ServicePort) (ps : List Networking.ServicePort)
    → not (
        length
          (((if a then x ∷ [] else []) ++ (if b then y ∷ [] else [])) ++ map Service.spec_port ps)
        == 0)
      ≡ true
    → (a ≡ true) ⊎ ((b ≡ true) ⊎ (ps ≢ []))
listens_or true b x y ps h = inl refl
listens_or false true x y ps h = inr (inl refl)
listens_or false false x y [] h = ground arith
listens_or false false x y (p ∷ ps) h = inr (inr (λ e. cc))

abbrev spec_ports : Option Networking.Service → List Networking.ServicePort
spec_ports none = []
spec_ports (some svc) = svc.ports

pub service_on :
    (ha : HermesAgent) (svc : Option Networking.Service)
    → get_service ha.spec.networking ≡ svc
    → not (length (build_service_ports ha svc) == 0) ≡ true
    → HasPort ha
unfolding build_service_ports
service_on ha none e h = elim (listens _ _ _ _ h) [ inl a ↦ inl a | inr b ↦ inr (inl b) ]
service_on ha (some svc) e h = elim (listens_or _ _ _ _ svc.ports h) [
  | inl a ↦ inl a
  | inr r ↦ elim r [ inl b ↦ inr (inl b) | inr c ↦ inr (inr (svc, e, c)) ]
]

silent :
    (a b : Bool) (x y : ServicePort)
    → not (length ((if a then x ∷ [] else []) ++ (if b then y ∷ [] else [])) == 0) ≡ false
    → (a ≡ false) × (b ≡ false)
silent true true x y h = ground arith
silent true false x y h = ground arith
silent false true x y h = ground arith
silent false false x y h = (refl, refl)

silent_or :
    (a b : Bool) (x y : ServicePort) (ps : List Networking.ServicePort)
    → not (
        length
          (((if a then x ∷ [] else []) ++ (if b then y ∷ [] else [])) ++ map Service.spec_port ps)
        == 0)
      ≡ false
    → (a ≡ false) × ((b ≡ false) × (ps ≡ []))
silent_or true true x y ps h = ground arith
silent_or true false x y ps h = ground arith
silent_or false true x y ps h = ground arith
silent_or false false x y [] h = (refl, (refl, refl))
silent_or false false x y (p ∷ ps) h = ground arith

not_both : {b : Bool} → b ≡ false → b ≡ true → ⊥
not_both f t = ground arith

pub service_off :
    (ha : HermesAgent) (svc : Option Networking.Service)
    → get_service ha.spec.networking ≡ svc
    → not (length (build_service_ports ha svc) == 0) ≡ false
    → ¬ HasPort ha
unfolding build_service_ports
service_off ha none e h (inl a) = not_both (silent _ _ _ _ h).0 a
service_off ha none e h (inr (inl b)) = not_both (silent _ _ _ _ h).1 b
service_off ha none e h (inr (inr (svc, there, ports))) = let k = sym e ∙ there in cc
service_off ha (some svc) e h (inl a) = not_both (silent_or _ _ _ _ svc.ports h).0 a
service_off ha (some svc) e h (inr (inl b)) = not_both (silent_or _ _ _ _ svc.ports h).1.0 b
service_off ha (some svc) e h (inr (inr (svc', there, ports))) = ports (
    ap (λ (o : Option Networking.Service). spec_ports o) (sym there ∙ e)
    ∙ (silent_or _ _ _ _ svc.ports h).1.1)

pub ingress_on :
    (ha : HermesAgent) (o : Option Networking.Ingress)
    → get_ingress ha.spec.networking ≡ o
    → ingress_enabled o ≡ true
    → HasIngress ha
ingress_on ha none e h = ground arith
ingress_on ha (some ing) e h = (ing, e, h)

pub ingress_off :
    (ha : HermesAgent) (o : Option Networking.Ingress)
    → get_ingress ha.spec.networking ≡ o
    → ingress_enabled o ≡ false
    → ¬ HasIngress ha
ingress_off ha none e h (ing, there, on) = let k = sym e ∙ there in cc
ingress_off ha (some ing') e h (ing, there, on) =
    not_both h (ap ingress_enabled (sym e ∙ there) ∙ on)

not_off : (o : Option Bool) → get_or o true ≡ true → o ≢ some false
not_off none h e = cc
not_off (some true) h e = cc
not_off (some false) h e = ground arith

is_off : (o : Option Bool) → get_or o true ≡ false → o ≡ some false
is_off none h = ground arith
is_off (some true) h = ground arith
is_off (some false) h = refl

pub policy_on :
    (ha : HermesAgent) (o : Option Security.NetworkPolicy)
    → get_network_policy ha.spec.security ≡ o
    → network_policy_enabled o ≡ true
    → HasPolicy ha
policy_on ha none e h = ground arith
policy_on ha (some np) e h = (np, e, not_off np.enabled h)

pub policy_off :
    (ha : HermesAgent) (o : Option Security.NetworkPolicy)
    → get_network_policy ha.spec.security ≡ o
    → network_policy_enabled o ≡ false
    → ¬ HasPolicy ha
policy_off ha none e h (np, there, on) = let k = sym e ∙ there in cc
policy_off ha (some np') e h (np, there, on) =
    on (is_off np.enabled (ap network_policy_enabled (sym (sym e ∙ there)) ∙ h))
