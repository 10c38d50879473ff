-- ===== src/NetworkPolicy/Admits.antt =====
-- What a NetworkPolicy lets through (internal/usecase/hermesagent_networkpolicy.go), as Kubernetes reads
-- it: a rule admits traffic of a peer to a port if its list of peers is empty or one of them matches, and
-- its list of ports is empty or one of them covers the port.
use hermes_agent_operator.Prelude.{
  ℕ, String, Bool, true, false, Option, none, some, List, [], All, ◌∷◌, ◌++◌, map, ◌&&◌, ◌||◌, ◌==◌,
  ◌≡◌, refl, arith, leb, str_eq, is_empty, get_or, if◌then◌else◌,
}
use hermes_agent_operator.PodTemplate.{ContainerPort}
use hermes_agent_operator.Objects.{
  IntOrString, int_port, named_port, NetworkPolicyPort, NetworkPolicyPeer, NetworkPolicyRule,
  ServicePort,
}
use hermes_agent_operator.Api.Hermes.{
  Hermes, get_api_server, get_webhook, api_server_enabled, api_server_port, webhook_port,
  webhook_enabled, get_ports,
}
use hermes_agent_operator.Api.Security
use hermes_agent_operator.NetworkPolicy.{tcp_port, open_ports, declared_port, port_equal}
use hermes_agent_operator.Service.{listener_ports, listener_port}

abbrev pub any : {A : Type 0} → (A → Bool) → List A → Bool
any f [] = false
any f (x ∷ xs) = f x || any f xs

-- An empty list restricts nothing.
abbrev pub unrestricted_or : {A : Type 0} → (A → Bool) → List A → Bool
unrestricted_or f [] = true
unrestricted_or f (x ∷ xs) = any f (x ∷ xs)

abbrev pub is_nil : {A : Type 0} → List A → Bool
is_nil [] = true
is_nil (x ∷ xs) = false

pub any-append :
    {A : Type 0} (f : A → Bool) (xs ys : List A) → any f (xs ++ ys) ≡ any f xs || any f ys
any-append f [] ys = refl
any-append f (x ∷ xs) ys = ground (arith, any-append f xs ys)

-- Traffic to a number of a port with a protocol. Which peers it matches, and which named ports of the
-- Pod it goes to, are any tests.
module _ (matches : NetworkPolicyPeer → Bool) (named : String → Bool) (protocol : String)
    (number : ℕ) where
  -- A port that is not given is every port, an end makes it a range, and the protocol is TCP if none is
  -- given.
  abbrev pub covers_number : Option IntOrString → Option ℕ → Bool
  covers_number none last = true
  covers_number (some (int_port n)) none = n == number
  covers_number (some (int_port n)) (some last) = leb n number && leb number last
  covers_number (some (named_port name)) last = named name

  abbrev pub port_covers : NetworkPolicyPort → Bool
  port_covers p = str_eq (get_or p.protocol "TCP") protocol && covers_number p.port p.end_port

  abbrev pub rule_admits : NetworkPolicyRule → Bool
  rule_admits r = unrestricted_or matches r.peers && unrestricted_or port_covers r.ports

  abbrev pub admits : List NetworkPolicyRule → Bool
  admits = any rule_admits

  -- Traffic of a block of addresses, or of a namespace by its name.
  abbrev pub from_block : String → Bool
  from_block cidr = matches (record {
    pod_selector = none;
    namespace_selector = none;
    ip_block = some (record { cidr = cidr; except = [] });
  })

  abbrev pub from_namespace : String → Bool
  from_namespace name = matches (record {
    pod_selector = none;
    namespace_selector = some (record {
      match_labels = ("kubernetes.io/metadata.name", name) ∷ [];
      match_expressions = [];
    });
    ip_block = none;
  })

  -- Traffic that the spec allows into the Pod: of its blocks and namespaces, or any if it names neither.
  abbrev pub comes_from : Security.NetworkPolicy → Bool
  comes_from np =
      (is_nil np.allowed_ingress_cidrs && is_nil np.allowed_ingress_namespaces)
      || any from_block np.allowed_ingress_cidrs
      || any from_namespace np.allowed_ingress_namespaces

  abbrev pub goes_to_declared : ContainerPort → Bool
  goes_to_declared p =
      str_eq (if is_empty p.protocol then "TCP" else p.protocol) protocol
      && p.container_port == number

  -- Traffic to the API server, to the webhook, or to another port of the agent.
  abbrev pub goes_to : Option Hermes → Bool
  goes_to h =
      (api_server_enabled (get_api_server h)
        && (str_eq "TCP" protocol && api_server_port (get_api_server h) == number))
      || (webhook_enabled (get_webhook h)
          && (str_eq "TCP" protocol && webhook_port (get_webhook h) == number))
      || any goes_to_declared (get_ports h)

  -- Traffic from the Pod: DNS where it is allowed, HTTPS to the blocks of the spec, or to anywhere if it
  -- names none, and what the spec's own rules admit.
  abbrev pub leaves : Security.NetworkPolicy → Bool
  leaves np =
      (get_or np.allow_dns true
        && ((str_eq "UDP" protocol || str_eq "TCP" protocol) && 53 == number))
      || ((is_nil np.allowed_egress_cidrs || any from_block np.allowed_egress_cidrs)
          && (str_eq "TCP" protocol && 443 == number))
      || admits np.additional_egress

-- The port of the Pod to which a port of the Service leads.
abbrev pub target_of : ServicePort → NetworkPolicyPort
target_of p = record {
  protocol = some p.protocol;
  port = some (int_port p.target_port);
  end_port = none;
}

-- The policy opens the port to which a port of the Service leads.
abbrev pub IsOpen : Option Hermes → ServicePort → Type 0
IsOpen h p = any (port_equal (target_of p)) (open_ports h) ≡ true

tcp_port_equal : (n : ℕ) → port_equal (tcp_port n) (tcp_port n) ≡ true
tcp_port_equal n = ground arith

listeners-IsOpen :
    (api_on hook_on : Bool) (api hook : ℕ) (more : List NetworkPolicyPort)
    → All
        (λ p.
          any (port_equal (target_of p)) (
            (if api_on then tcp_port api ∷ [] else [])
            ++ (if hook_on then tcp_port hook ∷ [] else [])
            ++ more)
          ≡ true)
        ((if api_on then listener_port "api-server" api ∷ [] else [])
          ++ (if hook_on then listener_port "webhook" hook ∷ [] else []))
listeners-IsOpen true true api hook more =
    (rw (tcp_port_equal api) refl, (ground (arith, tcp_port_equal hook), tt))
listeners-IsOpen true false api hook more = (rw (tcp_port_equal api) refl, tt)
listeners-IsOpen false true api hook more = (rw (tcp_port_equal hook) refl, tt)
listeners-IsOpen false false api hook more = tt

-- Each port of the Service for the API server or the webhook leads to a port of the Pod that the policy
-- opens.
pub listener_ports-IsOpen : (h : Option Hermes) → All (IsOpen h) (listener_ports h)
listener_ports-IsOpen h =
    listeners-IsOpen (api_server_enabled (get_api_server h)) (webhook_enabled (get_webhook h))
      (api_server_port (get_api_server h)) (webhook_port (get_webhook h))
      (map declared_port (get_ports h))
