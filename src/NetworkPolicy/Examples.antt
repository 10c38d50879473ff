-- ===== src/NetworkPolicy/Examples.antt =====
-- The theorems on the NetworkPolicy, at a concrete cluster and agent.
use hermes_agent_operator.Prelude.{
  map, All, ◌⊎◌, String, is_some, Bool, false, none, some, [], ◌∷◌, ◌≡◌, refl,
}
use hermes_agent_operator.Objects.{NetworkPolicy, NetworkPolicyPeer}
use hermes_agent_operator.Api.Security
use hermes_agent_operator.Api.Agent.{HermesAgent}
use hermes_agent_operator.Kube.Client.{Result, ok, err, Kind, Object, network_policy}
use hermes_agent_operator.Kube.Exec.{update, done}
use hermes_agent_operator.Kube.Samples.{no_object, cluster, start, sample_agent}
use hermes_agent_operator.NetworkPolicy.{
  labels_selector, tcp_port, build_network_policy, sent_network_policy, reconcile_network_policy,
}
use hermes_agent_operator.NetworkPolicy.Settles.{
  stored_rule, GivesProtocols, reconcile_network_policy-settles,
}
use hermes_agent_operator.Managed.Sends.{object_requests}

abbrev asked_for : Security.NetworkPolicy
asked_for = record {
  enabled = none;
  allowed_ingress_cidrs = "10.0.0.0/8" ∷ [];
  allowed_ingress_namespaces = "monitoring" ∷ [];
  allowed_egress_cidrs = [];
  allow_dns = none;
  additional_egress =
      (record {
        peers =
            (record {
              pod_selector = none;
              namespace_selector = some (labels_selector (("team", "a") ∷ ("tier", "db") ∷ []));
              ip_block = none;
            })
            ∷ [];
        ports = tcp_port 5432 ∷ record { protocol = none; port = none; end_port = none } ∷ [];
      })
      ∷ [];
}

abbrev agent : HermesAgent
agent =
    let base = sample_agent none none in
    let spec = base.spec in
    record base {
      spec = record spec {
        security = some (record { rbac = none; network_policy = some asked_for });
      };
    }

-- As it was sent, with the protocols filled in.
abbrev stored : NetworkPolicy
stored =
    let sent = build_network_policy agent asked_for in
    record sent { ingress = map stored_rule sent.ingress; egress = map stored_rule sent.egress }

abbrev shows_policy : (k : Kind) → Result (Object k)
shows_policy network_policy = ok stored
shows_policy _ = err no_object

-- Traffic of an address block.
abbrev is_block : NetworkPolicyPeer → Bool
is_block peer = is_some peer.ip_block

-- No port of the Pod has a name.
abbrev unnamed : String → Bool
unnamed name = false

reconcile_network_policy-settles_example :
    (All GivesProtocols asked_for.additional_egress
      × (reconcile_network_policy (cluster shows_policy) agent start ≡ (done, start)))
    ⊎ ((¬ All GivesProtocols asked_for.additional_egress)
        × (object_requests (reconcile_network_policy (cluster shows_policy) agent start).1.log
            ≡ update network_policy (sent_network_policy agent asked_for (some stored)) ∷ []))
reconcile_network_policy-settles_example =
    reconcile_network_policy-settles agent asked_for (((tt, (refl, (refl, tt))), tt), tt)
      (cluster shows_policy) start none stored (λ k ha o. refl) refl refl refl
      (record { pod_selector = refl; policy_types = refl; ingress = refl; egress = refl })
