-- ===== src/NetworkPolicy.antt =====
-- The agent's NetworkPolicy (internal/usecase/hermesagent_networkpolicy.go): what may reach the Pod, at
-- the ports on which it listens, and what the Pod may reach.
pub mod Admits
pub mod Equal
pub mod Settles
mod Examples
use hermes_agent_operator.Prelude.{
  ℕ, String, Bool, true, false, Option, none, some, List, [], ◌∷◌, ◌++◌, map, StringMap, ◌&&◌, ◌==◌,
  str_eq, is_empty, get_or, if◌then◌else◌,
}
use hermes_agent_operator.Objects.{
  IntOrString, int_port, named_port, LabelSelectorRequirement, LabelSelector, IpBlock,
  NetworkPolicy, NetworkPolicyPort, NetworkPolicyPeer, NetworkPolicyRule,
}
use hermes_agent_operator.PodTemplate.{ContainerPort}
use hermes_agent_operator.Api.Hermes.{
  Hermes, get_api_server, get_webhook, get_ports, api_server_enabled, api_server_port,
  webhook_enabled, webhook_port,
}
use hermes_agent_operator.Api.Security
use hermes_agent_operator.Api.Security.{
  get_network_policy, network_policy_enabled, should_allow_dns,
}
use hermes_agent_operator.Api.Agent.{
  HermesAgent, HermesAgentStatus, resource_labels, selector_labels,
}
use hermes_agent_operator.Kube.Client.{Platform, network_policy}
use hermes_agent_operator.Kube.Exec.{Handler}
use hermes_agent_operator.HermesSecret.{contents_equal}
use hermes_agent_operator.Managed.{Managed, reconcile_managed}
use hermes_agent_operator.Managed.Lists.{lists_equal, options_equal}

abbrev pub namespace_name_label : String
namespace_name_label = "kubernetes.io/metadata.name"

abbrev pub tcp_port : ℕ → NetworkPolicyPort
tcp_port port = record { protocol = some "TCP"; port = some (int_port port); end_port = none }

abbrev pub udp_port : ℕ → NetworkPolicyPort
udp_port port = record { protocol = some "UDP"; port = some (int_port port); end_port = none }

-- A port of `hermes.ports`, TCP unless it says otherwise.
abbrev pub declared_port : ContainerPort → NetworkPolicyPort
declared_port p = record {
  protocol = some (if is_empty p.protocol then "TCP" else p.protocol);
  port = some (int_port p.container_port);
  end_port = none;
}

-- The ports on which the Pod listens.
abbrev pub open_ports : Option Hermes → List NetworkPolicyPort
open_ports h =
    (if api_server_enabled (get_api_server h)
      then tcp_port (api_server_port (get_api_server h)) ∷ []
      else [])
    ++ (if webhook_enabled (get_webhook h)
        then tcp_port (webhook_port (get_webhook h)) ∷ []
        else [])
    ++ map declared_port (get_ports h)

abbrev pub labels_selector : StringMap String → LabelSelector
labels_selector labels = record { match_labels = labels; match_expressions = [] }

abbrev pub namespace_peer : String → NetworkPolicyPeer
namespace_peer ns = record {
  pod_selector = none;
  namespace_selector = some (labels_selector ((namespace_name_label, ns) ∷ []));
  ip_block = none;
}

abbrev pub cidr_peer : String → NetworkPolicyPeer
cidr_peer cidr = record {
  pod_selector = none;
  namespace_selector = none;
  ip_block = some (record { cidr = cidr; except = [] });
}

abbrev pub allowed_peers : Security.NetworkPolicy → List NetworkPolicyPeer
allowed_peers np =
    map cidr_peer np.allowed_ingress_cidrs ++ map namespace_peer np.allowed_ingress_namespaces

-- No rule where there is no port.
abbrev pub ingress_rules : List NetworkPolicyPeer → List NetworkPolicyPort → List NetworkPolicyRule
ingress_rules peers [] = []
ingress_rules peers (port ∷ ports) = record { peers = peers; ports = port ∷ ports } ∷ []

unfoldable pub build_network_policy_ingress :
    HermesAgent → Security.NetworkPolicy → List NetworkPolicyRule
build_network_policy_ingress ha np = ingress_rules (allowed_peers np) (open_ports ha.spec.hermes)

abbrev pub dns_rule : NetworkPolicyRule
dns_rule = record { peers = []; ports = udp_port 53 ∷ tcp_port 53 ∷ [] }

abbrev pub https_rule : Security.NetworkPolicy → NetworkPolicyRule
https_rule np = record { peers = map cidr_peer np.allowed_egress_cidrs; ports = tcp_port 443 ∷ [] }

unfoldable pub build_network_policy_egress : Security.NetworkPolicy → List NetworkPolicyRule
build_network_policy_egress np =
    (if should_allow_dns np then dns_rule ∷ [] else []) ++ (https_rule np ∷ np.additional_egress)

unfoldable pub build_network_policy : HermesAgent → Security.NetworkPolicy → NetworkPolicy
build_network_policy ha np = record {
  meta = record {
    name = ha.name;
    namespace = ha.namespace;
    labels = resource_labels ha;
    annotations = [];
    resource_version = "";
    creation_timestamp = 0;
    deletion_timestamp = none;
  };
  pod_selector = labels_selector (selector_labels ha);
  policy_types = "Ingress" ∷ "Egress" ∷ [];
  ingress = build_network_policy_ingress ha np;
  egress = build_network_policy_egress np;
}

abbrev pub int_or_string_equal : IntOrString → IntOrString → Bool
int_or_string_equal (int_port a) (int_port b) = a == b
int_or_string_equal (int_port a) (named_port b) = false
int_or_string_equal (named_port a) (int_port b) = false
int_or_string_equal (named_port a) (named_port b) = str_eq a b

-- `equality.Semantic.DeepEqual` on each of the types: pointers by what they point to.
abbrev pub port_equal : NetworkPolicyPort → NetworkPolicyPort → Bool
port_equal a b =
    options_equal str_eq a.protocol b.protocol
    && options_equal int_or_string_equal a.port b.port
    && options_equal (λ m n. m == n) a.end_port b.end_port

abbrev pub requirement_equal : LabelSelectorRequirement → LabelSelectorRequirement → Bool
requirement_equal a b =
    str_eq a.key b.key && str_eq a.operator b.operator && lists_equal str_eq a.values b.values

abbrev pub selector_equal : LabelSelector → LabelSelector → Bool
selector_equal a b =
    contents_equal a.match_labels b.match_labels
    && lists_equal requirement_equal a.match_expressions b.match_expressions

abbrev pub ip_block_equal : IpBlock → IpBlock → Bool
ip_block_equal a b = str_eq a.cidr b.cidr && lists_equal str_eq a.except b.except

abbrev pub peer_equal : NetworkPolicyPeer → NetworkPolicyPeer → Bool
peer_equal a b =
    options_equal selector_equal a.pod_selector b.pod_selector
    && options_equal selector_equal a.namespace_selector b.namespace_selector
    && options_equal ip_block_equal a.ip_block b.ip_block

abbrev pub rule_equal : NetworkPolicyRule → NetworkPolicyRule → Bool
rule_equal a b = lists_equal peer_equal a.peers b.peers && lists_equal port_equal a.ports b.ports

unfoldable pub network_policy_equal : NetworkPolicy → NetworkPolicy → Bool
network_policy_equal a b =
    selector_equal a.pod_selector b.pod_selector
    && lists_equal str_eq a.policy_types b.policy_types
    && lists_equal rule_equal a.ingress b.ingress
    && lists_equal rule_equal a.egress b.egress

abbrev pub with_version : NetworkPolicy → String → NetworkPolicy
with_version desired version =
    let meta = desired.meta in record desired { meta = record meta { resource_version = version } }

abbrev pub record_network_policy : String → HermesAgentStatus → HermesAgentStatus
record_network_policy name status =
    let managed = status.managed_resources in
    record status { managed_resources = record managed { network_policy = name } }

abbrev pub sent_network_policy :
    HermesAgent → Security.NetworkPolicy → Option NetworkPolicy → NetworkPolicy
sent_network_policy ha np none = build_network_policy ha np
sent_network_policy ha np (some existing) =
    with_version (build_network_policy ha np) existing.meta.resource_version

-- What `security` asks for where it is not set: nothing is built from it, since it is off then.
abbrev pub no_network_policy : Security.NetworkPolicy
no_network_policy = record {
  enabled = some false;
  allowed_ingress_cidrs = [];
  allowed_ingress_namespaces = [];
  allowed_egress_cidrs = [];
  allow_dns = none;
  additional_egress = [];
}

abbrev pub managed_network_policy : HermesAgent → Managed network_policy
managed_network_policy ha =
    let wanted : Option Security.NetworkPolicy = get_network_policy ha.spec.security in
    let np : Security.NetworkPolicy = get_or wanted no_network_policy in
    record {
      ns_name = record { namespace = ha.namespace; name = ha.name };
      wanted = network_policy_enabled wanted;
      built = sent_network_policy ha np;
      settled = λ existing. network_policy_equal (build_network_policy ha np) existing;
      recorded = record_network_policy;
      reason = "NetworkPolicyReconcileFailed";
    }

unfoldable pub reconcile_network_policy : {W : Type 0} → Platform W → HermesAgent → Handler W
reconcile_network_policy p ha = reconcile_managed p ha (managed_network_policy ha)
