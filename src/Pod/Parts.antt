-- ===== src/Pod/Parts.antt =====
-- What the builders of the pod's parts share.
use hermes_agent_operator.Prelude.{
  ℕ, String, true, false, none, List, [], ◌∷◌, ◌++◌, str_eq, if◌then◌else◌,
}
use hermes_agent_operator.PodTemplate.{
  Container, EnvVar, KeyToPath, PodSpec, SecurityContext, Volume, VolumeMount, VolumeSource,
  empty_dir, ContainerPort,
}
use hermes_agent_operator.Objects.{StatefulSet}
use hermes_agent_operator.Api.Accessors.{no_resources}

abbrev pub hermes_container_name : String
hermes_container_name = "hermes-agent"

abbrev pub hermes_home_volume : String
hermes_home_volume = "hermes-data"

-- A container of which only the name and the image are set.
abbrev pub bare_container : String → String → Container
bare_container name image = record {
  name = name;
  image = image;
  image_pull_policy = "IfNotPresent";
  command = [];
  args = [];
  working_dir = "";
  ports = [];
  env = [];
  env_from = [];
  resources = no_resources;
  security_context = none;
  liveness_probe = none;
  readiness_probe = none;
  startup_probe = none;
  volume_mounts = [];
  termination_message_policy = "";
}

abbrev pub literal : String → String → EnvVar
literal name value = record { name = name; value = value; value_from = none }

abbrev pub mount : String → String → VolumeMount
mount name path = record { name = name; mount_path = path; read_only = false }

abbrev pub read_only_mount : String → String → VolumeMount
read_only_mount name path = record { name = name; mount_path = path; read_only = true }

abbrev pub volume : String → VolumeSource → Volume
volume name source = record { name = name; source = source }

abbrev pub scratch : VolumeSource
scratch = empty_dir "" none

-- A key, under its own name.
abbrev pub item : String → KeyToPath
item key = record { key = key; path = key }

abbrev pub tcp_port : String → ℕ → ContainerPort
tcp_port name port = record { name = name; container_port = port; protocol = "TCP" }

-- Nothing set but the seccomp profile.
abbrev pub seccomp_only : SecurityContext
seccomp_only = record {
  run_as_non_root = none;
  run_as_user = none;
  run_as_group = none;
  allow_privilege_escalation = none;
  read_only_root_filesystem = none;
  added = [];
  dropped = [];
  seccomp_profile = "RuntimeDefault";
}

abbrev pub map_spec : (PodSpec → PodSpec) → StatefulSet → StatefulSet
map_spec f sts =
    let template = sts.template in
    record sts { template = record template { spec = f template.spec } }

-- The first container of the name, changed in place (findContainer).
abbrev pub change_container : String → (Container → Container) → List Container → List Container
change_container name f [] = []
change_container name f (c ∷ cs) =
    let rest = change_container name f cs in if str_eq c.name name then f c ∷ cs else c ∷ rest

abbrev pub add_env : List EnvVar → Container → Container
add_env vars c = record c { env = c.env ++ vars }
