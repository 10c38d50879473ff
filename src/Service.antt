-- ===== src/Service.antt =====
-- The agent's Service (internal/usecase/hermesagent_service.go): a port for the API server, one for the
-- webhook, and those of the spec.
pub mod Settles
mod Examples
use hermes_agent_operator.Prelude.{
  ℕ, String, Bool, true, false, Option, none, some, List, [], ◌∷◌, ◌++◌, map, not, ◌&&◌, ◌==◌,
  str_eq, is_empty, get_or, if_some, length, if◌then◌else◌,
}
use hermes_agent_operator.Objects.{NsName, Service, ServicePort}
use hermes_agent_operator.Api.Hermes.{
  Hermes, get_api_server, get_webhook, api_server_enabled, api_server_port, webhook_enabled,
  webhook_port,
}
use hermes_agent_operator.Api.Networking
use hermes_agent_operator.Api.Networking.{get_service, get_type}
use hermes_agent_operator.Api.Agent.{
  HermesAgent, HermesAgentStatus, resource_labels, selector_labels,
}
use hermes_agent_operator.Kube.Client.{Platform, service}
use hermes_agent_operator.Kube.Exec.{Handler}
use hermes_agent_operator.HermesSecret.{contents_equal}
use hermes_agent_operator.Managed.{Managed, reconcile_managed}
use hermes_agent_operator.Managed.Lists.{lists_equal, options_equal}

abbrev pub tcp : String
tcp = "TCP"

abbrev pub listener_port : String → ℕ → ServicePort
listener_port name port = record {
  name = name;
  port = port;
  target_port = port;
  protocol = tcp;
  node_port = 0;
  app_protocol = none;
}

-- The ports of the API server and the webhook, each when it is on.
abbrev pub listener_ports : Option Hermes → List ServicePort
listener_ports h =
    (if api_server_enabled (get_api_server h)
      then listener_port "api-server" (api_server_port (get_api_server h)) ∷ []
      else [])
    ++ (if webhook_enabled (get_webhook h)
        then listener_port "webhook" (webhook_port (get_webhook h)) ∷ []
        else [])

-- A port of the spec: its target is the port itself, and its protocol TCP, unless it says otherwise.
abbrev pub spec_port : Networking.ServicePort → ServicePort
spec_port p = record {
  name = p.name;
  port = p.port;
  target_port = get_or p.target_port p.port;
  protocol = if is_empty p.protocol then tcp else p.protocol;
  node_port = 0;
  app_protocol = none;
}

unfoldable pub build_service_ports : HermesAgent → Option Networking.Service → List ServicePort
build_service_ports ha none = listener_ports ha.spec.hermes
build_service_ports ha (some svc) = listener_ports ha.spec.hermes ++ map spec_port svc.ports

unfoldable pub build_service : HermesAgent → Service
build_service ha =
    let svc : Option Networking.Service = get_service ha.spec.networking in
    record {
      meta = record {
        name = ha.name;
        namespace = ha.namespace;
        labels = resource_labels ha;
        annotations = if_some svc (λ x. x.annotations) [];
        resource_version = "";
        creation_timestamp = 0;
        deletion_timestamp = none;
      };
      type = get_type svc;
      selector = selector_labels ha;
      ports = build_service_ports ha svc;
      cluster_ip = "";
    }

abbrev pub service_port_equal : ServicePort → ServicePort → Bool
service_port_equal a b =
    str_eq a.name b.name
    && a.port == b.port
    && a.target_port == b.target_port
    && str_eq a.protocol b.protocol
    && a.node_port == b.node_port
    && options_equal str_eq a.app_protocol b.app_protocol

unfoldable pub service_equal : Service → Service → Bool
service_equal a b =
    lists_equal service_port_equal a.ports b.ports
    && str_eq a.type b.type
    && contents_equal a.meta.annotations b.meta.annotations

-- The ClusterIP of the existing Service is carried over, since it cannot change.
abbrev pub carried_over : Service → Service → Service
carried_over desired existing = record desired { cluster_ip = existing.cluster_ip }

abbrev pub with_version : Service → String → Service
with_version desired version =
    let meta = desired.meta in record desired { meta = record meta { resource_version = version } }

abbrev pub record_service : String → HermesAgentStatus → HermesAgentStatus
record_service name status =
    let managed = status.managed_resources in
    record status { managed_resources = record managed { service = name } }

abbrev pub sent_service : HermesAgent → Option Service → Service
sent_service ha none = build_service ha
sent_service ha (some existing) =
    with_version (carried_over (build_service ha) existing) existing.meta.resource_version

abbrev pub managed_service : HermesAgent → Managed service
managed_service ha = record {
  ns_name = record { namespace = ha.namespace; name = ha.name };
  wanted = let desired = build_service ha in not (length desired.ports == 0);
  built = sent_service ha;
  settled = λ existing. service_equal (carried_over (build_service ha) existing) existing;
  recorded = record_service;
  reason = "ServiceReconcileFailed";
}

unfoldable pub reconcile_service : {W : Type 0} → Platform W → HermesAgent → Handler W
reconcile_service p ha = reconcile_managed p ha (managed_service ha)
