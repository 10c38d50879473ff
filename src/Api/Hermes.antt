-- ===== src/Api/Hermes.antt =====
-- spec.hermes (api/v1alpha1/hermesagent_hermes.go): storage, snapshots, API server, webhook, ports.
use hermes_agent_operator.Prelude.{
  ℕ, String, StringMap, is_empty, if_some, if◌then◌else◌, ◌⧺◌, Bool, false, Option, none, some,
  List, [], get_or, and_then,
}
use hermes_agent_operator.Json.{Json}
use hermes_agent_operator.PodTemplate.{EnvVar, EnvFromSource, ContainerPort, ResourceRequirements}

pub record HermesPersistence : Type 0 where
  pub enabled : Bool
  pub size : Option String
  pub storage_class_name : Option String
  pub existing_claim : Option String
  pub existing_snapshot : Option String

pub record HermesSnapshot : Type 0 where
  pub enabled : Bool
  pub schedule : String
  pub retention : Option ℕ
  pub volume_snapshot_class_name : Option String

pub record HermesStorage : Type 0 where
  pub persistence : Option HermesPersistence
  pub snapshot : Option HermesSnapshot

pub record HermesApiServer : Type 0 where
  pub enabled : Bool
  pub port : Option ℕ
  pub cors_origins : List String

pub record HermesWebhook : Type 0 where
  pub enabled : Bool
  pub port : Option ℕ

pub record HermesConfigMapKeyRef : Type 0 where
  pub name : String
  pub key : String

pub record HermesConfig : Type 0 where
  pub raw : Option Json
  pub config_map_ref : Option HermesConfigMapKeyRef
  pub api_server : Option HermesApiServer
  pub webhook : Option HermesWebhook

pub record HermesDotEnv : Type 0 where
  pub secret_ref : Option String
  pub config_map_ref : Option String
  pub secret_refs : List String
  pub config_map_refs : List String

pub record HermesWorkspace : Type 0 where
  pub files : StringMap String
  pub dot_env : Option HermesDotEnv

pub record HermesPlugin : Type 0 where
  pub identifier : String
  pub enable : Option Bool
  pub ref : String

pub record HermesSkill : Type 0 where
  pub identifier : String
  pub category : String
  pub name : String
  pub force : Bool

pub record HermesCron : Type 0 where
  pub name : String
  pub schedule : String
  pub prompt : String
  pub deliver : String
  pub repeat : Option ℕ
  pub skills : List String
  pub script : String
  pub no_agent : Bool
  pub workdir : String
  pub monitor_script : String
  pub monitor_url : String
  pub model : String
  pub provider : String
  pub reasoning_effort : String
  pub continuity : Bool
  pub profile : String

pub record HermesBundle : Type 0 where
  pub name : String
  pub skills : List String
  pub description : String
  pub instruction : String
  pub force : Bool

pub record HermesPipPackages : Type 0 where
  pub install : List String
  pub extra_args : List String

pub record HermesNpmPackages : Type 0 where
  pub install : List String

pub record HermesPackages : Type 0 where
  pub pip : Option HermesPipPackages
  pub npm : Option HermesNpmPackages

pub record HermesInitScript : Type 0 where
  pub name : String
  pub script : String

pub record HermesGitCredentials : Type 0 where
  pub secret_ref : String
  pub key : String

pub record HermesProfileDistribution : Type 0 where
  pub source : String
  pub ref : String
  pub update_on_start : Option Bool
  pub force_config : Bool
  pub resume_crons : List String
  pub git_credentials : Option HermesGitCredentials

pub record Probe : Type 0 where
  pub enabled : Option Bool
  pub initial_delay_seconds : Option ℕ
  pub period_seconds : Option ℕ
  pub timeout_seconds : Option ℕ
  pub failure_threshold : Option ℕ

pub record Probes : Type 0 where
  pub liveness : Option Probe
  pub readiness : Option Probe
  pub startup : Option Probe

pub record HermesProfileConfig : Type 0 where
  pub raw : Option Json
  pub config_map_ref : Option HermesConfigMapKeyRef

pub record HermesProfile : Type 0 where
  pub clone : Bool
  pub distribution : Option HermesProfileDistribution
  pub config : Option HermesProfileConfig
  pub workspace : Option HermesWorkspace
  pub plugins : List HermesPlugin
  pub skills : List HermesSkill
  pub crons : List HermesCron
  pub bundles : List HermesBundle

pub record Hermes : Type 0 where
  pub image : Option Json
  pub config : Option HermesConfig
  pub storage : Option HermesStorage
  pub workspace : Option HermesWorkspace
  pub packages : Option HermesPackages
  pub plugins : List HermesPlugin
  pub skills : List HermesSkill
  pub crons : List HermesCron
  pub bundles : List HermesBundle
  pub env : List EnvVar
  pub env_from : List EnvFromSource
  pub resources : Option ResourceRequirements
  pub probes : Option Probes
  pub ports : List ContainerPort
  pub init_chown_data : Bool
  pub init_scripts : List HermesInitScript
  pub profiles : StringMap HermesProfile

abbrev pub default_snapshot_retention : ℕ
default_snapshot_retention = 3

abbrev pub default_api_server_port : ℕ
default_api_server_port = 8642

abbrev pub default_webhook_port : ℕ
default_webhook_port = 8644

abbrev pub get_existing_claim : Option HermesPersistence → String
get_existing_claim none = ""
get_existing_claim (some p) = get_or p.existing_claim ""

abbrev pub get_existing_snapshot : Option HermesPersistence → String
get_existing_snapshot none = ""
get_existing_snapshot (some p) = get_or p.existing_snapshot ""

unfoldable pub restored_pvc_name : String → String
restored_pvc_name snapshot_name = snapshot_name ⧺ "-restore"

abbrev pub snapshot_enabled : Option HermesSnapshot → Bool
snapshot_enabled none = false
snapshot_enabled (some s) = s.enabled

abbrev pub get_schedule : Option HermesSnapshot → String
get_schedule none = ""
get_schedule (some s) = s.schedule

abbrev pub get_retention : Option HermesSnapshot → ℕ
get_retention none = default_snapshot_retention
get_retention (some s) = get_or s.retention default_snapshot_retention

abbrev pub get_volume_snapshot_class_name : Option HermesSnapshot → Option String
get_volume_snapshot_class_name none = none
get_volume_snapshot_class_name (some s) = s.volume_snapshot_class_name

abbrev pub api_server_enabled : Option HermesApiServer → Bool
api_server_enabled none = false
api_server_enabled (some a) = a.enabled

abbrev pub api_server_port : Option HermesApiServer → ℕ
api_server_port none = default_api_server_port
api_server_port (some a) = get_or a.port default_api_server_port

abbrev pub webhook_enabled : Option HermesWebhook → Bool
webhook_enabled none = false
webhook_enabled (some w) = w.enabled

abbrev pub webhook_port : Option HermesWebhook → ℕ
webhook_port none = default_webhook_port
webhook_port (some w) = get_or w.port default_webhook_port

abbrev pub get_api_server : Option Hermes → Option HermesApiServer
get_api_server h = and_then h (λ x. and_then x.config (λ c. c.api_server))

abbrev pub get_webhook : Option Hermes → Option HermesWebhook
get_webhook h = and_then h (λ x. and_then x.config (λ c. c.webhook))

abbrev pub get_persistence : Option Hermes → Option HermesPersistence
get_persistence h = and_then h (λ x. and_then x.storage (λ s. s.persistence))

abbrev pub get_snapshot : Option Hermes → Option HermesSnapshot
get_snapshot h = and_then h (λ x. and_then x.storage (λ s. s.snapshot))

abbrev pub get_ports : Option Hermes → List ContainerPort
get_ports none = []
get_ports (some h) = h.ports

abbrev pub get_key : HermesConfigMapKeyRef → String
get_key r = if is_empty r.key then "config.yaml" else r.key

abbrev pub get_cors_origins : Option HermesApiServer → List String
get_cors_origins a = if_some a (λ x. x.cors_origins) []

abbrev pub get_config : Option Hermes → Option Json
get_config h = and_then h (λ x. and_then x.config (λ c. c.raw))

abbrev pub get_config_map_ref : Option Hermes → Option HermesConfigMapKeyRef
get_config_map_ref h = and_then h (λ x. and_then x.config (λ c. c.config_map_ref))

abbrev pub get_workspace : Option Hermes → Option HermesWorkspace
get_workspace h = and_then h (λ x. x.workspace)

abbrev pub get_profiles : Option Hermes → StringMap HermesProfile
get_profiles h = if_some h (λ x. x.profiles) []
