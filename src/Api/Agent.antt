-- ===== src/Api/Agent.antt =====
-- The HermesAgent and its status (api/v1alpha1/hermesagent_types.go). `HermesAgent` holds the metadata
-- and the spec, which no reconciler writes; the status, which they write, is a value of its own.
use hermes_agent_operator.Prelude.{
  ℕ, String, ◌⧺◌, StringMap, Bool, false, Option, none, some, List, [], ◌∷◌, get_or, if_some,
  if◌then◌else◌,
}
use hermes_agent_operator.Objects.{Condition}
use hermes_agent_operator.Json.{Json}
use hermes_agent_operator.PodTemplate.{Container, EnvVar, ResourceRequirements, Volume, VolumeMount}
use hermes_agent_operator.Api.Hermes.{Hermes}
use hermes_agent_operator.Api.Security.{
  HermesSecurity, Rbac, get_rbac, should_create_service_account,
}
use hermes_agent_operator.Api.Networking.{Networking}
use hermes_agent_operator.Api.Egress.{Egress}

pub data HermesAgentPhase : Type 0 where
  pending running succeeded failed unknown suspended : HermesAgentPhase

pub record SnapshotRef : Type 0 where
  pub name : String
  pub pvc : String
  pub creation_time : ℕ

pub record SnapshotStatus : Type 0 where
  pub last_schedule_time : Option ℕ
  pub snapshots : List SnapshotRef

pub record ManagedResources : Type 0 where
  pub hermes_config_map : String
  pub hermes_secret : String
  pub searxng_config_map : String
  pub searxng_secret : String
  pub service_account : String
  pub role : String
  pub role_binding : String
  pub service : String
  pub ingress : String
  pub network_policy : String
  pub egress_secret : String
  pub egress_ca_secret : String
  pub stateful_set : String

pub record HermesAgentStatus : Type 0 where
  pub phase : HermesAgentPhase
  pub reason : String
  pub conditions : List Condition
  pub managed_resources : ManagedResources
  pub snapshot : SnapshotStatus

pub record SearxNgPersistence : Type 0 where
  pub enabled : Bool
  pub size : Option String
  pub storage_class_name : Option String
  pub existing_claim : Option String

pub record SearxNg : Type 0 where
  pub enabled : Bool
  pub image : Option Json
  pub resources : Option ResourceRequirements
  pub config_files : StringMap String
  pub persistence : Option SearxNgPersistence
  pub env : List EnvVar

pub record CamofoxPersistenceSpec : Type 0 where
  pub enabled : Bool
  pub size : Option String
  pub storage_class_name : Option String
  pub existing_claim : Option String

pub record Camofox : Type 0 where
  pub enabled : Bool
  pub image : Option Json
  pub resources : Option ResourceRequirements
  pub persistence : CamofoxPersistenceSpec
  pub env : List EnvVar

pub record HermesAgentSpec : Type 0 where
  pub suspend : Option Bool
  pub hermes : Option Hermes
  pub security : Option HermesSecurity
  pub networking : Option Networking
  pub searxng : Option SearxNg
  pub camofox : Option Camofox
  pub egress : Option Egress
  pub init_containers : List Container
  pub sidecars : List Container
  pub extra_volumes : List Volume
  pub extra_volume_mounts : List VolumeMount
  pub host_users : Option Bool
  pub pod_annotations : StringMap String
  pub pod_labels : StringMap String
  pub priority_class_name : String
  pub runtime_class_name : Option String

pub record HermesAgent : Type 0 where
  pub name : String
  pub namespace : String
  pub generation : ℕ
  pub creation_timestamp : ℕ
  pub spec : HermesAgentSpec

abbrev pub is_suspended : HermesAgent → Bool
is_suspended ha = get_or ha.spec.suspend false

abbrev pub get_hermes_name : HermesAgent → String
get_hermes_name ha = ha.name ⧺ "-hermes"

abbrev pub get_searxng_name : HermesAgent → String
get_searxng_name ha = ha.name ⧺ "-searxng"

abbrev pub get_egress_secret_name : HermesAgent → String
get_egress_secret_name ha = ha.name ⧺ "-egress"

abbrev pub get_egress_ca_secret_name : HermesAgent → String
get_egress_ca_secret_name ha = ha.name ⧺ "-egress-ca"

abbrev pub searxng_enabled : Option SearxNg → Bool
searxng_enabled none = false
searxng_enabled (some s) = s.enabled

abbrev pub camofox_enabled : Option Camofox → Bool
camofox_enabled none = false
camofox_enabled (some c) = c.enabled

abbrev pub get_service_account_name : HermesAgent → String
get_service_account_name ha =
    let r : Option Rbac = get_rbac ha.spec.security in
    if should_create_service_account r then ha.name else if_some r (λ x. x.service_account_name) ""

abbrev pub resource_labels : HermesAgent → StringMap String
resource_labels ha =
    ("app.kubernetes.io/name", "hermes-agent")
    ∷ ("app.kubernetes.io/instance", ha.name)
    ∷ ("app.kubernetes.io/managed-by", "hermes-agent-operator")
    ∷ []

abbrev pub selector_labels : HermesAgent → StringMap String
selector_labels ha =
    ("app.kubernetes.io/name", "hermes-agent") ∷ ("app.kubernetes.io/instance", ha.name) ∷ []
