-- ===== src/Service/Settles.antt =====
-- What the reconciler of the Service (internal/usecase/hermesagent_service.go) does once it is stored.
use hermes_agent_operator.Prelude.{
  ℕ, String, Bool, if◌then◌else◌, true, false, Option, none, some, List, [], ◌∷◌, map, ◌≡◌, refl,
  ap, ◌∙◌, ◌⊎◌, inl, inr, arith, eq_iff, keys, str_eq, All, All-append, Bool-cases,
}
use hermes_agent_operator.Objects.{Service, ServicePort}
use hermes_agent_operator.Api.Hermes.{
  Hermes, get_api_server, get_webhook, api_server_enabled, webhook_enabled,
}
use hermes_agent_operator.Api.Networking
use hermes_agent_operator.Api.Networking.{get_service}
use hermes_agent_operator.Api.Agent.{HermesAgent}
use hermes_agent_operator.Kube.Client.{ok, Platform, service}
use hermes_agent_operator.Kube.Exec.{State, update, done}
use hermes_agent_operator.Kube.Calls.{get}
use hermes_agent_operator.Managed.Sends.{Owns, object_requests}
use hermes_agent_operator.Managed.Lists.{
  Distinct, lists_equal, lists_equal_refl, options_equal_refl, str_eq_refl, contents_equal_refl,
}
use hermes_agent_operator.Managed.Plan.{reconcile_managed-requests, reconcile_managed-settled}
use hermes_agent_operator.Service.{
  spec_port, listener_port, listener_ports, build_service_ports, build_service, service_port_equal,
  service_equal, sent_service, carried_over, managed_service, reconcile_service,
}

-- The ports as they were sent, but for the node ports, which the API server allocates.
abbrev pub ArePorts : List ServicePort → List ServicePort → Type 0
ArePorts [] [] = Unit
ArePorts [] (y ∷ ys) = ⊥
ArePorts (x ∷ xs) [] = ⊥
ArePorts (x ∷ xs) (y ∷ ys) = (record x { node_port = 0 } ≡ y) × ArePorts xs ys

abbrev pub NoNodePorts : List ServicePort → Type 0
NoNodePorts ports = All (λ x. x.node_port ≡ 0) ports

-- What the cluster keeps of a Service that is sent. It may set node ports, the resource version, the
-- ClusterIP, and whatever else the comparison does not read.
pub record IsStored (sent shown : Service) : Type 0 where
  pub ports : ArePorts shown.ports sent.ports
  pub type : shown.type ≡ sent.type
  pub annotations : shown.meta.annotations ≡ sent.meta.annotations

service_port_equal_refl : (a : ServicePort) → service_port_equal a a ≡ true
service_port_equal_refl a = ground (
  arith,
  eq_iff a.name a.name,
  eq_iff a.protocol a.protocol,
  options_equal_refl str_eq str_eq_refl a.app_protocol,
)

without_node_ports :
    (shown sent : List ServicePort) → ArePorts shown sent → NoNodePorts shown → shown ≡ sent
without_node_ports [] [] h z = refl
without_node_ports [] (y ∷ ys) h z = absurd h
without_node_ports (x ∷ xs) [] h z = absurd h
without_node_ports (x ∷ xs) (y ∷ ys) h z =
    let same : x ≡ y = ap (λ (n : ℕ). record x { node_port = n }) z.0 ∙ h.0 in
    rw same (rw (without_node_ports xs ys h.1 z.1) refl)

no_node_ports :
    (sent shown : List ServicePort)
    → NoNodePorts sent
    → lists_equal service_port_equal sent shown ≡ true
    → NoNodePorts shown
no_node_ports [] [] z h = tt
no_node_ports [] (y ∷ ys) z h = ground arith
no_node_ports (x ∷ xs) [] z h = ground arith
no_node_ports (x ∷ xs) (y ∷ ys) z h = (ground (arith, z.0), no_node_ports xs ys z.1 (ground arith))

spec_ports-NoNodePorts : (ps : List Networking.ServicePort) → NoNodePorts (map spec_port ps)
spec_ports-NoNodePorts [] = tt
spec_ports-NoNodePorts (p ∷ ps) = (refl, spec_ports-NoNodePorts ps)

listener_if :
    (b : Bool) (name : String) (n : ℕ) → NoNodePorts (if b then listener_port name n ∷ [] else [])
listener_if true name n = (refl, tt)
listener_if false name n = tt

listener_ports-NoNodePorts : (h : Option Hermes) → NoNodePorts (listener_ports h)
listener_ports-NoNodePorts h =
    All-append (λ x. x.node_port ≡ 0) _ _
      (listener_if (api_server_enabled (get_api_server h)) "api-server" _)
      (listener_if (webhook_enabled (get_webhook h)) "webhook" _)

built_ports-NoNodePorts :
    (ha : HermesAgent) (svc : Option Networking.Service) → NoNodePorts (build_service_ports ha svc)
unfolding build_service_ports
built_ports-NoNodePorts ha none = listener_ports-NoNodePorts ha.spec.hermes
built_ports-NoNodePorts ha (some svc) =
    All-append (λ x. x.node_port ≡ 0) _ _ (listener_ports-NoNodePorts ha.spec.hermes)
      (spec_ports-NoNodePorts svc.ports)

built-NoNodePorts : (ha : HermesAgent) → (let built = build_service ha in NoNodePorts built.ports)
unfolding build_service
built-NoNodePorts ha = built_ports-NoNodePorts ha (get_service ha.spec.networking)

service_equal_stored :
    (a b : Service)
    → Distinct (keys a.meta.annotations)
    → IsStored a b
    → NoNodePorts b.ports
    → service_equal a b ≡ true
unfolding service_equal
service_equal_stored a b d h z = rw (without_node_ports b.ports a.ports h.ports z) (
    rw (h.type) (
      rw (h.annotations) (
        rw (lists_equal_refl service_port_equal service_port_equal_refl a.ports)
          (rw (str_eq_refl a.type) (contents_equal_refl a.meta.annotations d)))))

service_equal-NoNodePorts :
    (a b : Service) → NoNodePorts a.ports → service_equal a b ≡ true → NoNodePorts b.ports
unfolding service_equal
service_equal-NoNodePorts a b z h = no_node_ports a.ports b.ports z (ground arith)

from_sent :
    (ha : HermesAgent) (existing : Option Service) (o : Service)
    → IsStored (sent_service ha existing) o
    → IsStored (carried_over (build_service ha) o) o
from_sent ha none o h = record { ports = h.ports; type = h.type; annotations = h.annotations }
from_sent ha (some e) o h = record { ports = h.ports; type = h.type; annotations = h.annotations }

module _ {W : Type 0} (p : Platform W) (ha : HermesAgent) (s : State W) where
  is_renewed :
      (shown : Service)
      → Owns p
      → (let m = managed_service ha in m.wanted ≡ true)
      → (let m = managed_service ha in (p.client_get service m.ns_name s.world).0 ≡ ok shown)
      → service_equal (carried_over (build_service ha) shown) shown ≡ false
      → object_requests (reconcile_service p ha s).1.log
        ≡ update service (sent_service ha (some shown)) ∷ object_requests s.log
  unfolding reconcile_service get
  is_renewed shown owns wanted g e =
      reconcile_managed-requests p ha (managed_service ha) owns s ∙ rw g (rw wanted (rw e refl))

  -- Where setting the controller reference of an object that is sent succeeds, the Service has a port, and
  -- the cluster shows it as the reconciler sent it, be it to create it or in place of an existing one,
  -- with any resource version, ClusterIP and node ports: if no port has a node port, the reconciler returns
  -- without error or delay, and writes neither the Service nor the status; and if one has, the one request
  -- that changes an object is an update of the Service. The annotations of the spec have distinct keys.
  pub reconcile_service-settles :
      (existing : Option Service) (shown : Service)
      → Owns p
      → (let m = managed_service ha in m.wanted ≡ true)
      → (let built = build_service ha in Distinct (keys built.meta.annotations))
      → (let m = managed_service ha in (p.client_get service m.ns_name s.world).0 ≡ ok shown)
      → IsStored (sent_service ha existing) shown
      → (NoNodePorts shown.ports
          × (reconcile_service p ha s ≡ (
            done,
            (let m = managed_service ha in
                record s { world = (p.client_get service m.ns_name s.world).1 }),
          )))
        ⊎ ((¬ NoNodePorts shown.ports)
            × (object_requests (reconcile_service p ha s).1.log
                ≡ update service (sent_service ha (some shown)) ∷ object_requests s.log))
  unfolding reconcile_service
  reconcile_service-settles existing shown owns wanted d g h =
      let sent : Service = carried_over (build_service ha) shown in
      elim (Bool-cases (service_equal sent shown)) [
        | inl e ↦ inl (
          service_equal-NoNodePorts sent shown (built-NoNodePorts ha) e,
          reconcile_managed-settled p ha (managed_service ha) s shown wanted g e,
        )
        | inr e ↦ inr (
          λ z.
              let k : service_equal sent shown ≡ true =
                service_equal_stored sent shown d (from_sent ha existing shown h) z in
              ground arith,
          is_renewed shown owns wanted g e,
        )
      ]
