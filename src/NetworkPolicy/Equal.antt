-- ===== src/NetworkPolicy/Equal.antt =====
-- The comparison of two NetworkPolicies (networkPolicyEqual, internal/usecase/hermesagent_networkpolicy.go)
-- on one and the same part.
use hermes_agent_operator.Prelude.{
  ℕ, ◌==◌, str_eq, true, Option, none, some, All, ◌≡◌, refl, arith, keys,
}
use hermes_agent_operator.Objects.{
  IntOrString, int_port, named_port, LabelSelectorRequirement, LabelSelector, IpBlock,
  NetworkPolicyPort, NetworkPolicyPeer, NetworkPolicyRule,
}
use hermes_agent_operator.Managed.Lists.{
  Distinct, lists_equal_refl, lists_equal_refl_on, options_equal, options_equal_refl, str_eq_refl,
  contents_equal_refl,
}
use hermes_agent_operator.NetworkPolicy.{
  int_or_string_equal, requirement_equal, selector_equal, ip_block_equal, port_equal, peer_equal,
  rule_equal,
}

-- The labels of a selector are a Go map.
abbrev pub IsSelector : Option LabelSelector → Type 0
IsSelector none = Unit
IsSelector (some l) = Distinct (keys l.match_labels)

abbrev pub IsPeer : NetworkPolicyPeer → Type 0
IsPeer peer = IsSelector peer.pod_selector × IsSelector peer.namespace_selector

abbrev pub IsRule : NetworkPolicyRule → Type 0
IsRule r = All IsPeer r.peers

nat_equal_refl : (n : ℕ) → (n == n) ≡ true
nat_equal_refl n = ground arith

int_or_string_equal_refl : (a : IntOrString) → int_or_string_equal a a ≡ true
int_or_string_equal_refl (int_port n) = ground arith
int_or_string_equal_refl (named_port n) = str_eq_refl n

port_equal_refl : (a : NetworkPolicyPort) → port_equal a a ≡ true
port_equal_refl a = rw (options_equal_refl str_eq str_eq_refl a.protocol) (
    rw (options_equal_refl int_or_string_equal int_or_string_equal_refl a.port)
      (options_equal_refl (λ m n. m == n) nat_equal_refl a.end_port))

requirement_equal_refl : (a : LabelSelectorRequirement) → requirement_equal a a ≡ true
requirement_equal_refl a =
    rw (str_eq_refl a.key)
      (rw (str_eq_refl a.operator) (lists_equal_refl str_eq str_eq_refl a.values))

pub selector_equal_refl :
    (o : Option LabelSelector) → IsSelector o → options_equal selector_equal o o ≡ true
selector_equal_refl none h = refl
selector_equal_refl (some l) h =
    rw (contents_equal_refl l.match_labels h)
      (lists_equal_refl requirement_equal requirement_equal_refl l.match_expressions)

ip_block_equal_refl : (a : IpBlock) → ip_block_equal a a ≡ true
ip_block_equal_refl a = rw (str_eq_refl a.cidr) (lists_equal_refl str_eq str_eq_refl a.except)

peer_equal_refl : (a : NetworkPolicyPeer) → IsPeer a → peer_equal a a ≡ true
peer_equal_refl a (pods, namespaces) = rw (selector_equal_refl a.pod_selector pods) (
    rw (selector_equal_refl a.namespace_selector namespaces)
      (options_equal_refl ip_block_equal ip_block_equal_refl a.ip_block))

pub rule_equal_refl : (a : NetworkPolicyRule) → IsRule a → rule_equal a a ≡ true
rule_equal_refl a h =
    rw (lists_equal_refl_on peer_equal IsPeer peer_equal_refl a.peers h)
      (lists_equal_refl port_equal port_equal_refl a.ports)
