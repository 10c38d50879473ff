-- ===== src/Pod/Sidecars.antt =====
-- SearXNG's and Camofox's containers (internal/usecase/hermesagent_statefulset_searxng.go,
-- hermesagent_statefulset_camofox.go).
use hermes_agent_operator.Prelude.{
  String, Bool, true, false, Option, none, some, List, [], ◌∷◌, ◌++◌, is_empty, get_or,
  if◌then◌else◌,
}
use hermes_agent_operator.PodTemplate.{
  Container, EnvVar, PodSpec, SecurityContext, Volume, VolumeSource, claim_volume,
  config_map_volume, secret_key_ref,
}
use hermes_agent_operator.Objects.{StatefulSet}
use hermes_agent_operator.Api.Agent.{HermesAgent, SearxNg, Camofox, get_searxng_name}
use hermes_agent_operator.Api.Images.{searxng_image, camofox_image}
use hermes_agent_operator.Api.Accessors.{
  no_resources, searxng_claim, searxng_persistent, camofox_claim, get_camofox_name,
}
use hermes_agent_operator.Pod.Parts.{
  hermes_container_name, bare_container, literal, mount, read_only_mount, volume, scratch, tcp_port,
  seccomp_only, map_spec, change_container, add_env,
}

unfoldable pub build_searxng_container_security_context : SecurityContext
build_searxng_container_security_context = record seccomp_only {
  allow_privilege_escalation = some false;
  run_as_non_root = some true;
  run_as_user = some 977;
  run_as_group = some 977;
  dropped = "ALL" ∷ [];
}

unfoldable pub build_searxng_chown_security_context : SecurityContext
build_searxng_chown_security_context = record seccomp_only {
  allow_privilege_escalation = some false;
  run_as_user = some 0;
  run_as_group = some 0;
  added = "CHOWN" ∷ [];
  dropped = "ALL" ∷ [];
}

unfoldable pub build_camofox_container_security_context : SecurityContext
build_camofox_container_security_context = record seccomp_only {
  allow_privilege_escalation = some false;
  dropped = "ALL" ∷ [];
}

-- An existing claim before the managed one before a scratch volume.
abbrev pub sidecar_storage : String → Bool → String → VolumeSource
sidecar_storage claim persistent managed =
    if is_empty claim
    then (if persistent then claim_volume managed else scratch)
    else claim_volume claim

abbrev pub searxng_init_container : SearxNg → Container
searxng_init_container sx = record (bare_container "init-searxng-config" (searxng_image sx)) {
  command = "/bin/sh" ∷ "-ec" ∷ [];
  termination_message_policy = "FallbackToLogsOnError";
  args =
      "cp -r /bootstrap-searxng/. /etc/searxng/ && chown -R 977:977 /etc/searxng /var/cache/searxng"
      ∷ [];
  volume_mounts =
      read_only_mount "searxng-bootstrap" "/bootstrap-searxng"
      ∷ mount "searxng-config" "/etc/searxng"
      ∷ mount "searxng-cache" "/var/cache/searxng"
      ∷ [];
  security_context = some build_searxng_chown_security_context;
}

abbrev pub searxng_secret_env : HermesAgent → EnvVar
searxng_secret_env ha = record {
  name = "SEARXNG_SECRET";
  value = "";
  value_from = some (secret_key_ref (get_searxng_name ha) "SEARXNG_SECRET");
}

abbrev pub searxng_container : HermesAgent → SearxNg → Container
searxng_container ha sx = record (bare_container "searxng" (searxng_image sx)) {
  ports = tcp_port "searxng" 8080 ∷ [];
  env = literal "SEARXNG_BASE_URL" "http://localhost:8080/" ∷ searxng_secret_env ha ∷ sx.env;
  resources = get_or sx.resources no_resources;
  volume_mounts =
      mount "searxng-config" "/etc/searxng" ∷ mount "searxng-cache" "/var/cache/searxng" ∷ [];
  security_context = some build_searxng_container_security_context;
}

abbrev pub searxng_volumes : HermesAgent → SearxNg → List Volume
searxng_volumes ha sx =
    volume "searxng-config" scratch
    ∷ volume "searxng-bootstrap" (config_map_volume (get_searxng_name ha) [])
    ∷ volume "searxng-cache"
        (sidecar_storage (searxng_claim sx) (searxng_persistent sx) (get_searxng_name ha))
    ∷ []

abbrev pub add_searxng : HermesAgent → SearxNg → PodSpec → PodSpec
add_searxng ha sx spec = record spec {
  init_containers = spec.init_containers ++ (searxng_init_container sx ∷ []);
  containers =
      change_container hermes_container_name
        (add_env (literal "SEARXNG_URL" "http://localhost:8080" ∷ [])) spec.containers
      ++ (searxng_container ha sx ∷ []);
  volumes = spec.volumes ++ searxng_volumes ha sx;
}

abbrev pub if_searxng : HermesAgent → Option SearxNg → StatefulSet → StatefulSet
if_searxng ha none sts = sts
if_searxng ha (some sx) sts = if sx.enabled then map_spec (add_searxng ha sx) sts else sts

unfoldable pub build_searxng_container : HermesAgent → StatefulSet → StatefulSet
build_searxng_container ha sts = if_searxng ha ha.spec.searxng sts

abbrev pub camofox_container : Camofox → Container
camofox_container cx = record (bare_container "camofox" (camofox_image cx)) {
  env = cx.env;
  resources = get_or cx.resources no_resources;
  security_context = some build_camofox_container_security_context;
  volume_mounts = mount "camofox-data" "/root/.camofox" ∷ [];
}

abbrev pub camofox_volumes : HermesAgent → Camofox → List Volume
camofox_volumes ha cx =
    volume "camofox-data"
      (sidecar_storage (camofox_claim cx) cx.persistence.enabled (get_camofox_name ha))
    ∷ []

abbrev pub add_camofox : HermesAgent → Camofox → PodSpec → PodSpec
add_camofox ha cx spec = record spec {
  containers =
      change_container hermes_container_name
        (add_env (literal "CAMOFOX_URL" "http://localhost:9377" ∷ [])) spec.containers
      ++ (camofox_container cx ∷ []);
  volumes = spec.volumes ++ camofox_volumes ha cx;
}

abbrev pub if_camofox : HermesAgent → Option Camofox → StatefulSet → StatefulSet
if_camofox ha none sts = sts
if_camofox ha (some cx) sts = if cx.enabled then map_spec (add_camofox ha cx) sts else sts

unfoldable pub build_camofox_container : HermesAgent → StatefulSet → StatefulSet
build_camofox_container ha sts = if_camofox ha ha.spec.camofox sts
