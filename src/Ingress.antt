-- ===== src/Ingress.antt =====
-- The agent's Ingress (internal/usecase/hermesagent_ingress.go): the hosts, paths and TLS entries of the
-- spec, each path to a port of the agent's Service.
pub mod Settles
use hermes_agent_operator.Prelude.{
  String, Bool, Option, none, some, [], map, ◌&&◌, ◌==◌, str_eq, is_empty, false, get_or,
  if◌then◌else◌,
}
use hermes_agent_operator.Objects.{Ingress, IngressRule, IngressTls, HttpIngressPath}
use hermes_agent_operator.Api.Networking
use hermes_agent_operator.Api.Networking.{get_ingress, ingress_enabled}
use hermes_agent_operator.Api.Agent.{HermesAgent, HermesAgentStatus, resource_labels}
use hermes_agent_operator.Kube.Client.{Platform, ingress}
use hermes_agent_operator.Kube.Exec.{Handler}
use hermes_agent_operator.HermesSecret.{contents_equal}
use hermes_agent_operator.Managed.{Managed, reconcile_managed}
use hermes_agent_operator.Managed.Lists.{lists_equal, options_equal}

-- A path of the spec: "/" and a prefix, unless it says otherwise.
abbrev pub build_ingress_path : HermesAgent → Networking.IngressPath → HttpIngressPath
build_ingress_path ha p = record {
  path = if is_empty p.path then "/" else p.path;
  path_type = if is_empty p.path_type then "Prefix" else p.path_type;
  service_name = ha.name;
  service_port = p.port;
}

abbrev pub build_ingress_rule : HermesAgent → Networking.IngressHost → IngressRule
build_ingress_rule ha h = record { host = h.host; paths = map (build_ingress_path ha) h.paths }

abbrev pub build_ingress_tls : Networking.IngressTls → IngressTls
build_ingress_tls t = record { hosts = t.hosts; secret_name = t.secret_name }

unfoldable pub build_ingress : HermesAgent → Networking.Ingress → Ingress
build_ingress ha ing = record {
  meta = record {
    name = ha.name;
    namespace = ha.namespace;
    labels = resource_labels ha;
    annotations = ing.annotations;
    resource_version = "";
    creation_timestamp = 0;
    deletion_timestamp = none;
  };
  ingress_class_name = ing.class_name;
  rules = map (build_ingress_rule ha) ing.hosts;
  tls = map build_ingress_tls ing.tls;
}

abbrev pub path_equal : HttpIngressPath → HttpIngressPath → Bool
path_equal a b =
    str_eq a.path b.path
    && str_eq a.path_type b.path_type
    && str_eq a.service_name b.service_name
    && a.service_port == b.service_port

abbrev pub rule_equal : IngressRule → IngressRule → Bool
rule_equal a b = str_eq a.host b.host && lists_equal path_equal a.paths b.paths

abbrev pub tls_equal : IngressTls → IngressTls → Bool
tls_equal a b = lists_equal str_eq a.hosts b.hosts && str_eq a.secret_name b.secret_name

unfoldable pub ingress_equal : Ingress → Ingress → Bool
ingress_equal a b =
    options_equal str_eq a.ingress_class_name b.ingress_class_name
    && lists_equal rule_equal a.rules b.rules
    && lists_equal tls_equal a.tls b.tls
    && contents_equal a.meta.annotations b.meta.annotations

abbrev pub with_version : Ingress → String → Ingress
with_version desired version =
    let meta = desired.meta in record desired { meta = record meta { resource_version = version } }

abbrev pub record_ingress : String → HermesAgentStatus → HermesAgentStatus
record_ingress name status =
    let managed = status.managed_resources in
    record status { managed_resources = record managed { ingress = name } }

abbrev pub sent_ingress : HermesAgent → Networking.Ingress → Option Ingress → Ingress
sent_ingress ha ing none = build_ingress ha ing
sent_ingress ha ing (some existing) =
    with_version (build_ingress ha ing) existing.meta.resource_version

-- What `networking` asks for where it is not set: an Ingress that is off, with nothing in it.
abbrev pub no_ingress : Networking.Ingress
no_ingress = record { enabled = false; class_name = none; annotations = []; hosts = []; tls = [] }

abbrev pub managed_ingress : HermesAgent → Managed ingress
managed_ingress ha =
    let wanted : Option Networking.Ingress = get_ingress ha.spec.networking in
    let ing : Networking.Ingress = get_or wanted no_ingress in
    record {
      ns_name = record { namespace = ha.namespace; name = ha.name };
      wanted = ingress_enabled wanted;
      built = sent_ingress ha ing;
      settled = λ existing. ingress_equal (build_ingress ha ing) existing;
      recorded = record_ingress;
      reason = "IngressReconcileFailed";
    }

unfoldable pub reconcile_ingress : {W : Type 0} → Platform W → HermesAgent → Handler W
reconcile_ingress p ha = reconcile_managed p ha (managed_ingress ha)
