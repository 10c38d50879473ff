-- ===== src/PodTemplate.antt =====
-- The pod template of a StatefulSet (`corev1.PodTemplateSpec` and below): the fields that the operator
-- sets, which are also those that a container or a volume of the spec is read with. A
-- `resource.Quantity` is its canonical text.
use hermes_agent_operator.Prelude.{ℕ, String, StringMap, Bool, Option, List}

-- A source of one value; the operator writes the first alone.
pub data EnvVarSource : Type 0 where
  secret_key_ref : String → String → EnvVarSource
  other_value : String → EnvVarSource

pub record EnvVar : Type 0 where
  pub name : String
  pub value : String
  pub value_from : Option EnvVarSource

pub record EnvFromSource : Type 0 where
  pub prefix : String
  pub config_map_ref : Option String
  pub secret_ref : Option String

pub record ContainerPort : Type 0 where
  pub name : String
  pub container_port : ℕ
  pub protocol : String

pub record VolumeMount : Type 0 where
  pub name : String
  pub mount_path : String
  pub read_only : Bool

-- Of a ConfigMap or a Secret, the key, and the file that it becomes.
pub record KeyToPath : Type 0 where
  pub key : String
  pub path : String

pub record SecretProjection : Type 0 where
  pub name : String
  pub items : List KeyToPath

-- No items stand for every key. `other_volume` is a source that only the user's volumes have.
pub data VolumeSource : Type 0 where
  empty_dir : String → Option String → VolumeSource
  config_map_volume : String → List KeyToPath → VolumeSource
  secret_volume : String → List KeyToPath → Option ℕ → VolumeSource
  claim_volume : String → VolumeSource
  projected : List SecretProjection → VolumeSource
  other_volume : String → VolumeSource

pub record Volume : Type 0 where
  pub name : String
  pub source : VolumeSource

pub record SecurityContext : Type 0 where
  pub run_as_non_root : Option Bool
  pub run_as_user : Option ℕ
  pub run_as_group : Option ℕ
  pub allow_privilege_escalation : Option Bool
  pub read_only_root_filesystem : Option Bool
  pub added : List String
  pub dropped : List String
  pub seccomp_profile : String

pub record Probe : Type 0 where
  pub command : List String
  pub initial_delay_seconds : ℕ
  pub period_seconds : ℕ
  pub timeout_seconds : ℕ
  pub failure_threshold : ℕ

pub record ResourceRequirements : Type 0 where
  pub limits : StringMap String
  pub requests : StringMap String

pub record Container : Type 0 where
  pub name : String
  pub image : String
  pub image_pull_policy : String
  pub command : List String
  pub args : List String
  pub working_dir : String
  pub ports : List ContainerPort
  pub env : List EnvVar
  pub env_from : List EnvFromSource
  pub resources : ResourceRequirements
  pub security_context : Option SecurityContext
  pub liveness_probe : Option Probe
  pub readiness_probe : Option Probe
  pub startup_probe : Option Probe
  pub volume_mounts : List VolumeMount
  pub termination_message_policy : String

pub record PodSpec : Type 0 where
  pub init_containers : List Container
  pub containers : List Container
  pub volumes : List Volume
  pub host_users : Option Bool
  pub priority_class_name : String
  pub runtime_class_name : Option String
  pub seccomp_profile : String
  pub service_account_name : String

pub record PodTemplateSpec : Type 0 where
  pub labels : StringMap String
  pub annotations : StringMap String
  pub spec : PodSpec
