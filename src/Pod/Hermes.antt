-- ===== src/Pod/Hermes.antt =====
-- The agent's container, the init containers that configure its profiles, and their volumes
-- (buildHermesContainer, internal/usecase/hermesagent_statefulset_hermes.go).
use hermes_agent_operator.Prelude.{
  ℕ, String, ◌⧺◌, Bool, true, false, some, List, [], ◌∷◌, ◌++◌, map, and_then, if◌then◌else◌,
}
use hermes_agent_operator.PodTemplate.{
  Container, ContainerPort, EnvVar, PodSpec, SecurityContext, Volume, VolumeMount, empty_dir,
  config_map_volume, secret_volume,
}
use hermes_agent_operator.PodTemplate
use hermes_agent_operator.Objects.{StatefulSet}
use hermes_agent_operator.Api.Hermes.{
  HermesProfile, HermesInitScript, get_persistence, get_ports, get_api_server, get_webhook,
  api_server_enabled, api_server_port, webhook_enabled, webhook_port,
}
use hermes_agent_operator.Api.Agent.{HermesAgent, get_hermes_name, get_egress_secret_name}
use hermes_agent_operator.Api.Egress.{egress_enabled}
use hermes_agent_operator.Api.Images.{hermes_image}
use hermes_agent_operator.Api.Accessors.{
  get_env, get_env_from, get_resources, get_liveness, get_readiness, get_startup, get_probe,
  get_dot_env, should_init_chown_data, get_init_scripts,
}
use hermes_agent_operator.Egress.Proxy.{get_agent_proxy_env}
use hermes_agent_operator.HermesConfigMap.Data.{sorted_profile_names, profile_of}
use hermes_agent_operator.Pod.Parts.{
  hermes_container_name, hermes_home_volume, bare_container, literal, mount, read_only_mount,
  volume, scratch, tcp_port, seccomp_only, map_spec,
}
use hermes_agent_operator.Pod.DotEnv.{
  Mounted, secret_source, default_mounts, profile_mounts, credentials_mounts,
}
use hermes_agent_operator.Pod.Storage.{home_storage}
use hermes_agent_operator.Pod.Steps.{
  default_dot_env, writes_dot_env, writes_profile_dot_env, default_steps, profile_steps,
}
use hermes_agent_operator.Scripts.{combine_init_steps}
use hermes_agent_operator.Scripts.Files.{build_egress_dot_env_append_script}

unfoldable pub build_init_container_security_context : SecurityContext
build_init_container_security_context = record seccomp_only {
  run_as_non_root = some true;
  run_as_user = some 10000;
  run_as_group = some 10000;
  allow_privilege_escalation = some false;
  dropped = "ALL" ∷ [];
}

abbrev pub home_env : HermesAgent → List EnvVar
home_env ha =
    literal "HERMES_HOME" "/opt/data" ∷ literal "HOME" "/opt/data/home" ∷ get_env ha.spec.hermes

abbrev pub shell_container : HermesAgent → String → String → List VolumeMount → Container
shell_container ha name text mounts = record (bare_container name (hermes_image ha.spec.hermes)) {
  command = "/bin/sh" ∷ "-ec" ∷ [];
  args = text ∷ [];
  termination_message_policy = "FallbackToLogsOnError";
  env = home_env ha;
  env_from = get_env_from ha.spec.hermes;
  volume_mounts = mounts;
}

-- An init container as the hermes user (initContainer).
abbrev pub hermes_init_container : HermesAgent → String → String → List VolumeMount → Container
hermes_init_container ha name text mounts = record (shell_container ha name text mounts) {
  security_context = some build_init_container_security_context;
}

abbrev pub init_mounts : List VolumeMount
init_mounts =
    mount hermes_home_volume "/opt/data"
    ∷ read_only_mount "bootstrap" "/bootstrap"
    ∷ mount "tmp" "/tmp"
    ∷ []

abbrev pub port_if : Bool → String → ℕ → List ContainerPort
port_if b name port = if b then tcp_port name port ∷ [] else []

abbrev pub container_ports : HermesAgent → List ContainerPort
container_ports ha =
    let api = get_api_server ha.spec.hermes in
    let hook = get_webhook ha.spec.hermes in
    get_ports ha.spec.hermes
    ++ (port_if (api_server_enabled api) "api-server" (api_server_port api)
        ++ port_if (webhook_enabled hook) "webhook" (webhook_port hook))

abbrev pub health_check : ℕ → ℕ → ℕ → ℕ → PodTemplate.Probe
health_check delay period timeout threshold = record {
  command = "hermes" ∷ "gateway" ∷ "status" ∷ [];
  initial_delay_seconds = delay;
  period_seconds = period;
  timeout_seconds = timeout;
  failure_threshold = threshold;
}

abbrev pub agent_container : HermesAgent → Container
agent_container ha = record (bare_container hermes_container_name (hermes_image ha.spec.hermes)) {
  args = "gateway" ∷ "run" ∷ [];
  working_dir = "/opt/hermes";
  ports = container_ports ha;
  env =
      literal "HERMES_HOME" "/opt/data"
      ∷ literal "HOME" "/opt/data/home"
      ∷ literal "PYTHONPATH" "/opt/data/.python-packages"
      ∷ literal "NODE_PATH" "/opt/data/.npm-packages/lib/node_modules"
      ∷ get_env ha.spec.hermes;
  env_from = get_env_from ha.spec.hermes;
  resources = get_resources ha.spec.hermes;
  security_context = some seccomp_only;
  liveness_probe = get_probe (get_liveness ha.spec.hermes) (health_check 15 20 5 3);
  readiness_probe = get_probe (get_readiness ha.spec.hermes) (health_check 5 10 5 3);
  startup_probe = get_probe (get_startup ha.spec.hermes) (health_check 0 10 5 10);
  volume_mounts =
      mount "dshm" "/dev/shm"
      ∷ mount hermes_home_volume "/opt/data"
      ∷ mount "tmp" "/tmp"
      ∷ ha.spec.extra_volume_mounts;
}

abbrev pub fixed_volumes : HermesAgent → List Volume
fixed_volumes ha =
    volume "dshm" (empty_dir "Memory" (some "1Gi"))
    ∷ volume "tmp" scratch
    ∷ volume "bootstrap" (config_map_volume (get_hermes_name ha) [])
    ∷ []

abbrev pub egress_tokens_volumes : HermesAgent → List Volume
egress_tokens_volumes ha =
    if egress_enabled ha.spec.egress
    then volume "hermes-egress-tokens" (secret_source (get_egress_secret_name ha)) ∷ []
    else []

abbrev pub egress_tokens_mounts : HermesAgent → List VolumeMount
egress_tokens_mounts ha =
    if egress_enabled ha.spec.egress
    then read_only_mount "hermes-egress-tokens" "/hermes-egress-tokens" ∷ []
    else []

abbrev pub chown_container : HermesAgent → Container
chown_container ha =
    shell_container ha "init-chown-data" "chown -R 10000:10000 /opt/data"
      (mount hermes_home_volume "/opt/data" ∷ [])

abbrev pub chown_containers : HermesAgent → List Container
chown_containers ha = if should_init_chown_data ha.spec.hermes then chown_container ha ∷ [] else []

-- What the .env of the default profile needs, where it is written.
abbrev pub default_env_volumes : HermesAgent → List Volume
default_env_volumes ha =
    if writes_dot_env ha then (default_mounts ha (default_dot_env ha)).volumes else []

abbrev pub default_env_mounts : HermesAgent → List VolumeMount
default_env_mounts ha =
    if writes_dot_env ha
    then (default_mounts ha (default_dot_env ha)).mounts ++ egress_tokens_mounts ha
    else []

abbrev pub profile_credentials : String → HermesProfile → Mounted
profile_credentials name profile =
    credentials_mounts name (and_then profile.distribution (λ d. d.git_credentials))

abbrev pub profile_volumes : HermesAgent → String → HermesProfile → List Volume
profile_volumes ha name profile =
    (profile_credentials name profile).volumes
    ++ (if writes_profile_dot_env ha profile
        then (profile_mounts ha name (get_dot_env profile.workspace)).volumes
        else [])

abbrev pub profile_volume_mounts : HermesAgent → String → HermesProfile → List VolumeMount
profile_volume_mounts ha name profile =
    (profile_credentials name profile).mounts
    ++ (if writes_profile_dot_env ha profile
        then (profile_mounts ha name (get_dot_env profile.workspace)).mounts
          ++ egress_tokens_mounts ha
        else [])

-- The loop over the profiles, for their volumes.
abbrev pub all_profile_volumes : HermesAgent → List String → List Volume
all_profile_volumes ha [] = []
all_profile_volumes ha (name ∷ names) =
    profile_volumes ha name (profile_of ha name) ++ all_profile_volumes ha names

abbrev pub script_container : HermesAgent → HermesInitScript → Container
script_container ha is =
    hermes_init_container ha is.name is.script
      (mount hermes_home_volume "/opt/data" ∷ mount "tmp" "/tmp" ∷ [])

unfoldable pub hermes_volumes : HermesAgent → List Volume
hermes_volumes ha =
    fixed_volumes ha
    ++ ((home_storage (get_persistence ha.spec.hermes)).0
        ++ (egress_tokens_volumes ha
            ++ (default_env_volumes ha ++ all_profile_volumes ha (sorted_profile_names ha))))

module _ (q : String → String) where
  abbrev pub default_container : HermesAgent → Container
  default_container ha =
      hermes_init_container ha "init-hermes" (combine_init_steps (default_steps q ha))
        (init_mounts ++ default_env_mounts ha)

  abbrev pub profile_container : HermesAgent → String → Container
  profile_container ha name =
      let profile : HermesProfile = profile_of ha name in
      hermes_init_container ha ("init-profile-" ⧺ name)
        (combine_init_steps (profile_steps q ha name profile))
        (init_mounts ++ profile_volume_mounts ha name profile)

  abbrev pub egress_init_container : HermesAgent → Container
  egress_init_container ha =
      hermes_init_container ha "init-egress"
        (build_egress_dot_env_append_script (get_agent_proxy_env ha.spec.egress)) init_mounts

  abbrev pub egress_containers : HermesAgent → List Container
  egress_containers ha = if egress_enabled ha.spec.egress then egress_init_container ha ∷ [] else []

  -- In the order in which they run.
  unfoldable pub hermes_init_containers : HermesAgent → List Container
  hermes_init_containers ha =
      chown_containers ha
      ++ ((default_container ha ∷ map (profile_container ha) (sorted_profile_names ha))
          ++ (map (script_container ha) (get_init_scripts ha.spec.hermes) ++ egress_containers ha))

  abbrev pub add_hermes : HermesAgent → PodSpec → PodSpec
  add_hermes ha spec = record spec {
    init_containers = spec.init_containers ++ hermes_init_containers ha;
    containers = spec.containers ++ (agent_container ha ∷ []);
    volumes = spec.volumes ++ hermes_volumes ha;
  }

  unfoldable pub build_hermes_container : HermesAgent → StatefulSet → StatefulSet
  build_hermes_container ha sts = record (map_spec (add_hermes ha) sts) {
    volume_claim_templates =
        sts.volume_claim_templates ++ (home_storage (get_persistence ha.spec.hermes)).1;
  }
