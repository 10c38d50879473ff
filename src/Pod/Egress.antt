-- ===== src/Pod/Egress.antt =====
-- The egress proxy's container, and what the agent's container gets for it (buildEgressContainer,
-- internal/usecase/hermesagent_statefulset_egress.go).
use hermes_agent_operator.Prelude.{
  String, true, false, Option, none, some, List, [], ◌∷◌, ◌++◌, map, insert, is_empty, get_or,
  if◌then◌else◌,
}
use hermes_agent_operator.PodTemplate.{
  Container, EnvVar, EnvFromSource, PodSpec, SecurityContext, Volume, secret_key_ref, secret_volume,
  projected,
}
use hermes_agent_operator.Objects.{StatefulSet}
use hermes_agent_operator.Api.Egress.{Egress, get_credentials_secret_name}
use hermes_agent_operator.Api.Agent.{HermesAgent, get_egress_secret_name}
use hermes_agent_operator.Api.Images.{egress_image}
use hermes_agent_operator.Api.Accessors.{no_resources}
use hermes_agent_operator.Egress.Ca.{managed_cert_key, managed_key_key}
use hermes_agent_operator.Egress.Refs.{get_egress_ca_source}
use hermes_agent_operator.Egress.Tokens.{proxy_config_key}
use hermes_agent_operator.Pod.Parts.{
  hermes_container_name, bare_container, item, read_only_mount, volume, seccomp_only, map_spec,
  change_container,
}

unfoldable pub build_egress_container_security_context : SecurityContext
build_egress_container_security_context = record seccomp_only {
  allow_privilege_escalation = some false;
  run_as_non_root = some true;
  run_as_user = some 65532;
  run_as_group = some 65532;
  read_only_root_filesystem = some true;
  dropped = "ALL" ∷ [];
}

-- The agent's env var of a proxy token.
abbrev pub token_env : HermesAgent → String → EnvVar
token_env ha name = record {
  name = name;
  value = "";
  value_from = some (secret_key_ref (get_egress_secret_name ha) name);
}

-- The tokens come last; and the CA's certificate.
abbrev pub with_tokens : HermesAgent → List String → Container → Container
with_tokens ha names c = record c {
  env = c.env ++ map (token_env ha) names;
  volume_mounts = c.volume_mounts ++ (read_only_mount "egress-agent-ca" "/etc/hermes-egress" ∷ []);
}

abbrev pub credentials_env_from : String → List EnvFromSource
credentials_env_from name =
    if is_empty name
    then []
    else record { prefix = ""; config_map_ref = none; secret_ref = some name } ∷ []

abbrev pub egress_container : HermesAgent → Egress → Container
egress_container ha eg = record (bare_container "iron-proxy" (egress_image eg)) {
  args = "-config" ∷ "/etc/iron-proxy/proxy.yaml" ∷ [];
  env_from = credentials_env_from (get_credentials_secret_name ha.spec.egress);
  env = eg.env;
  resources = get_or eg.resources no_resources;
  security_context = some build_egress_container_security_context;
  volume_mounts = read_only_mount "egress-config" "/etc/iron-proxy" ∷ [];
}

-- The proxy's side: its configuration, and the CA's certificate and key under fixed names.
abbrev pub egress_config_volume : HermesAgent → Volume
egress_config_volume ha =
    let (ca, (cert_key, key_key)) = get_egress_ca_source ha in
    volume "egress-config" (
      projected (
        record { name = get_egress_secret_name ha; items = item proxy_config_key ∷ [] }
        ∷ record {
          name = ca;
          items =
              record { key = cert_key; path = managed_cert_key }
              ∷ record { key = key_key; path = managed_key_key }
              ∷ [];
        }
        ∷ []))

-- The agent's side: the certificate alone, readable by all.
abbrev pub egress_agent_ca_volume : HermesAgent → Volume
egress_agent_ca_volume ha =
    let (ca, (cert_key, key_key)) = get_egress_ca_source ha in
    volume "egress-agent-ca"
      (secret_volume ca (record { key = cert_key; path = "ca.crt" } ∷ []) (some 292))

abbrev pub add_egress : HermesAgent → Egress → List String → PodSpec → PodSpec
add_egress ha eg names spec = record spec {
  containers =
      change_container hermes_container_name (with_tokens ha names) spec.containers
      ++ (egress_container ha eg ∷ []);
  volumes = spec.volumes ++ (egress_config_volume ha ∷ egress_agent_ca_volume ha ∷ []);
}

abbrev pub with_egress_hash : String → StatefulSet → StatefulSet
with_egress_hash hash sts =
    let template = sts.template in
    record sts {
      template = record template {
        annotations = insert template.annotations "hermeum.app/egress-hash" hash;
      };
    }

abbrev pub if_egress :
    HermesAgent → Option Egress → List String → String → StatefulSet → StatefulSet
if_egress ha none names hash sts = sts
if_egress ha (some eg) names hash sts =
    if eg.enabled then map_spec (add_egress ha eg names) (with_egress_hash hash sts) else sts

unfoldable pub build_egress_container :
    HermesAgent → StatefulSet → List String → String → StatefulSet
build_egress_container ha sts names hash = if_egress ha ha.spec.egress names hash sts
