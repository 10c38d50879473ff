-- ===== src/NetworkPolicy/Settles.antt =====
-- The reconciler of the NetworkPolicy (internal/usecase/hermesagent_networkpolicy.go) once the policy is
-- stored.
use hermes_agent_operator.Prelude.{
  ℕ, str_eq, Bool, true, false, Option, none, some, List, [], ◌∷◌, map, All, All-append, ◌≡◌, refl,
  arith, String, is_some, get_or, subst, ap, ◌∙◌, ◌⊎◌, inl, inr, Bool-cases, All-append_right,
  if◌then◌else◌,
}
use hermes_agent_operator.Objects.{
  NetworkPolicy, NetworkPolicyPort, NetworkPolicyPeer, NetworkPolicyRule,
}
use hermes_agent_operator.Api.Security
use hermes_agent_operator.Api.Security.{
  get_network_policy, network_policy_enabled, should_allow_dns,
}
use hermes_agent_operator.Api.Agent.{HermesAgent, selector_labels}
use hermes_agent_operator.Kube.Client.{ok, Platform, network_policy}
use hermes_agent_operator.Kube.Exec.{State, update, done}
use hermes_agent_operator.Kube.Calls.{get}
use hermes_agent_operator.Managed.Sends.{Owns, object_requests}
use hermes_agent_operator.PodTemplate.{ContainerPort}
use hermes_agent_operator.Api.Hermes.{
  Hermes, get_api_server, get_webhook, get_ports, api_server_enabled, webhook_enabled,
}
use hermes_agent_operator.Managed.Lists.{lists_equal, lists_equal_refl_on, options_equal}
use hermes_agent_operator.Managed.Plan.{reconcile_managed-requests, reconcile_managed-settled}
use hermes_agent_operator.NetworkPolicy.Equal.{IsPeer, IsRule, rule_equal_refl, selector_equal_refl}
use hermes_agent_operator.NetworkPolicy.{
  labels_selector, namespace_peer, cidr_peer, allowed_peers, ingress_rules, open_ports, dns_rule,
  https_rule, build_network_policy_ingress, build_network_policy_egress, build_network_policy,
  tcp_port, declared_port, port_equal, rule_equal, network_policy_equal, sent_network_policy,
  managed_network_policy, reconcile_network_policy,
}

-- A port for which no protocol is given gets TCP when it is stored.
abbrev pub stored_port : NetworkPolicyPort → NetworkPolicyPort
stored_port p = record p { protocol = some (get_or p.protocol "TCP") }

abbrev pub stored_rule : NetworkPolicyRule → NetworkPolicyRule
stored_rule r = record r { ports = map stored_port r.ports }

-- What the cluster keeps of a NetworkPolicy that is sent: its spec, with the protocols filled in.
pub record IsStored (sent shown : NetworkPolicy) : Type 0 where
  pub pod_selector : shown.pod_selector ≡ sent.pod_selector
  pub policy_types : shown.policy_types ≡ sent.policy_types
  pub ingress : shown.ingress ≡ map stored_rule sent.ingress
  pub egress : shown.egress ≡ map stored_rule sent.egress

-- The rule gives the protocol of each of its ports.
abbrev pub GivesProtocols : NetworkPolicyRule → Type 0
GivesProtocols r = All (λ q. is_some q.protocol ≡ true) r.ports

blocks-IsPeer : (cidrs : List String) → All IsPeer (map cidr_peer cidrs)
blocks-IsPeer [] = tt
blocks-IsPeer (c ∷ cs) = ((tt, tt), blocks-IsPeer cs)

namespaces-IsPeer : (names : List String) → All IsPeer (map namespace_peer names)
namespaces-IsPeer [] = tt
namespaces-IsPeer (n ∷ ns) = ((tt, (refl, tt)), namespaces-IsPeer ns)

ingress_rules-IsRule :
    (peers : List NetworkPolicyPeer) (ports : List NetworkPolicyPort)
    → All IsPeer peers
    → All IsRule (ingress_rules peers ports)
ingress_rules-IsRule peers [] h = tt
ingress_rules-IsRule peers (p ∷ ps) h = (h, tt)

dns-IsRule : (b : Bool) → All IsRule (if b then dns_rule ∷ [] else [])
dns-IsRule true = (tt, tt)
dns-IsRule false = tt

same_protocol : (o : Option String) → is_some o ≡ true → some (get_or o "TCP") ≡ o
same_protocol none h = ground arith
same_protocol (some x) h = refl

same_port : (p : NetworkPolicyPort) → is_some p.protocol ≡ true → stored_port p ≡ p
same_port p h = ap (λ (o : Option String). record p { protocol = o }) (same_protocol p.protocol h)

given_protocol :
    (o : Option String) (d : String)
    → options_equal str_eq o (some (get_or o d)) ≡ true
    → is_some o ≡ true
given_protocol none d h = ground arith
given_protocol (some x) d h = refl

same_ports :
    (ps : List NetworkPolicyPort)
    → All (λ q. is_some q.protocol ≡ true) ps
    → map stored_port ps ≡ ps
same_ports [] h = refl
same_ports (p ∷ ps) h =
    rw (same_ports ps h.1) (ap (λ (x : NetworkPolicyPort). x ∷ ps) (same_port p h.0))

same_rules : (rs : List NetworkPolicyRule) → All GivesProtocols rs → map stored_rule rs ≡ rs
same_rules [] h = refl
same_rules (r ∷ rs) h =
    rw (same_rules rs h.1)
      (ap (λ (ps : List NetworkPolicyPort). record r { ports = ps } ∷ rs) (same_ports r.ports h.0))

ports_given :
    (ps : List NetworkPolicyPort)
    → lists_equal port_equal ps (map stored_port ps) ≡ true
    → All (λ q. is_some q.protocol ≡ true) ps
ports_given [] h = tt
ports_given (p ∷ ps) h =
    (given_protocol p.protocol "TCP" (ground arith), ports_given ps (ground arith))

rules_given :
    (rs : List NetworkPolicyRule)
    → lists_equal rule_equal rs (map stored_rule rs) ≡ true
    → All GivesProtocols rs
rules_given [] h = tt
rules_given (r ∷ rs) h = (ports_given r.ports (ground arith), rules_given rs (ground arith))

tcp_if :
    (b : Bool) (n : ℕ) → All (λ q. is_some q.protocol ≡ true) (if b then tcp_port n ∷ [] else [])
tcp_if true n = (refl, tt)
tcp_if false n = tt

declared_protocols :
    (ps : List ContainerPort) → All (λ q. is_some q.protocol ≡ true) (map declared_port ps)
declared_protocols [] = tt
declared_protocols (p ∷ ps) = (refl, declared_protocols ps)

open_protocols : (h : Option Hermes) → All (λ q. is_some q.protocol ≡ true) (open_ports h)
open_protocols h =
    All-append _ _ _
      (All-append _ _ _ (tcp_if (api_server_enabled (get_api_server h)) _)
        (tcp_if (webhook_enabled (get_webhook h)) _))
      (declared_protocols (get_ports h))

ingress_rules-GivesProtocols :
    (peers : List NetworkPolicyPeer) (ports : List NetworkPolicyPort)
    → All (λ q. is_some q.protocol ≡ true) ports
    → All GivesProtocols (ingress_rules peers ports)
ingress_rules-GivesProtocols peers [] h = tt
ingress_rules-GivesProtocols peers (p ∷ ps) h = (h, tt)

dns-GivesProtocols : (b : Bool) → All GivesProtocols (if b then dns_rule ∷ [] else [])
dns-GivesProtocols true = ((refl, (refl, tt)), tt)
dns-GivesProtocols false = tt

module _ (ha : HermesAgent) (np : Security.NetworkPolicy)
    (selectors : All IsRule np.additional_egress) where
  ingress-IsRule : All IsRule (build_network_policy_ingress ha np)
  unfolding build_network_policy_ingress
  ingress-IsRule = ingress_rules-IsRule (allowed_peers np) (open_ports ha.spec.hermes) (
      All-append IsPeer _ _ (blocks-IsPeer np.allowed_ingress_cidrs)
        (namespaces-IsPeer np.allowed_ingress_namespaces))

  egress-IsRule : All IsRule (build_network_policy_egress np)
  unfolding build_network_policy_egress
  egress-IsRule =
      All-append IsRule _ (https_rule np ∷ np.additional_egress) (dns-IsRule (should_allow_dns np))
        (blocks-IsPeer np.allowed_egress_cidrs, selectors)

  ingress-GivesProtocols : All GivesProtocols (build_network_policy_ingress ha np)
  unfolding build_network_policy_ingress
  ingress-GivesProtocols =
      ingress_rules-GivesProtocols (allowed_peers np) (open_ports ha.spec.hermes)
        (open_protocols ha.spec.hermes)

  built_equal :
      (o : NetworkPolicy)
      → All GivesProtocols np.additional_egress
      → IsStored (build_network_policy ha np) o
      → network_policy_equal (build_network_policy ha np) o ≡ true
  unfolding network_policy_equal build_network_policy build_network_policy_egress
  built_equal o given h = rw (h.pod_selector) (
      rw (h.policy_types) (
        rw (h.ingress ∙ same_rules (build_network_policy_ingress ha np) ingress-GivesProtocols) (
          rw
            (h.egress
              ∙ same_rules (build_network_policy_egress np) (
                  All-append GivesProtocols _ (https_rule np ∷ np.additional_egress)
                    (dns-GivesProtocols (should_allow_dns np)) ((refl, tt), given)))
            (rw
              (selector_equal_refl (some (labels_selector (selector_labels ha))) (refl, (refl, tt)))
              (rw (lists_equal_refl_on rule_equal IsRule rule_equal_refl _ ingress-IsRule)
                (lists_equal_refl_on rule_equal IsRule rule_equal_refl _ egress-IsRule))))))

  equal_given :
      (o : NetworkPolicy)
      → IsStored (build_network_policy ha np) o
      → network_policy_equal (build_network_policy ha np) o ≡ true
      → All GivesProtocols np.additional_egress
  unfolding network_policy_equal build_network_policy build_network_policy_egress
  equal_given o h e =
      let egress = build_network_policy_egress np in
      let same : lists_equal rule_equal egress o.egress ≡ true = ground arith in
      let all_given : All GivesProtocols egress = rules_given egress (
        subst (λ (l : List NetworkPolicyRule). lists_equal rule_equal egress l ≡ true) (h.egress)
          same) in
      (All-append_right GivesProtocols (if should_allow_dns np then dns_rule ∷ [] else [])
        (https_rule np ∷ np.additional_egress) all_given).1

  as_built :
      (existing : Option NetworkPolicy) (o : NetworkPolicy)
      → IsStored (sent_network_policy ha np existing) o
      → IsStored (build_network_policy ha np) o
  as_built none o h = h
  as_built (some e) o h = record {
    pod_selector = h.pod_selector;
    policy_types = h.policy_types;
    ingress = h.ingress;
    egress = h.egress;
  }

  -- Where setting the controller reference of an object that is sent succeeds, the spec has a network
  -- policy that is on, and the cluster shows it as the reconciler sent it, be it to create it or in place
  -- of an existing one, with TCP for each port without a protocol: if the spec's own egress rules give the
  -- protocol of each of their ports, the reconciler returns without error or delay, and writes neither the
  -- NetworkPolicy nor the status; and if they do not, the one request that changes an object is an update
  -- of the NetworkPolicy. The selectors of the spec's own egress rules have distinct keys.
  pub reconcile_network_policy-settles :
      {W : Type 0} (p : Platform W) (s : State W) (existing : Option NetworkPolicy)
      (shown : NetworkPolicy)
      → Owns p
      → get_network_policy ha.spec.security ≡ some np
      → network_policy_enabled (some np) ≡ true
      → (p.client_get network_policy
          (record { namespace = ha.namespace; name = ha.name })
          s.world).0
        ≡ ok shown
      → IsStored (sent_network_policy ha np existing) shown
      → (All GivesProtocols np.additional_egress
          × (reconcile_network_policy p ha s ≡ (
            done,
            record s {
              world =
                  (p.client_get network_policy
                    (record { namespace = ha.namespace; name = ha.name })
                    s.world).1;
            },
          )))
        ⊎ ((¬ All GivesProtocols np.additional_egress)
            × (object_requests (reconcile_network_policy p ha s).1.log
                ≡ update network_policy (sent_network_policy ha np (some shown))
                  ∷ object_requests s.log))
  unfolding reconcile_network_policy get
  reconcile_network_policy-settles p s existing shown owns e on g h =
      let stored = as_built existing shown h in
      elim (Bool-cases (network_policy_equal (build_network_policy ha np) shown)) [
        | inl t ↦ inl (
          equal_given shown stored t,
          reconcile_managed-settled p ha (managed_network_policy ha) s shown (rw e on) g (rw e t),
        )
        | inr t ↦ inr (
          λ given. let k = built_equal shown given stored in ground arith,
          reconcile_managed-requests p ha (managed_network_policy ha) owns s
              ∙ rw g (rw e (rw on (rw t refl))),
        )
      ]
