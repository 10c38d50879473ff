-- ===== src/Pod/DotEnv.antt =====
-- What the .env files are written from: the keys of the operator's own ConfigMap and Secret, and the
-- ConfigMaps and Secrets of workspace.dotEnv (internal/usecase/hermesagent_statefulset_hermes.go).
use hermes_agent_operator.Prelude.{
  ℕ, ◌+◌, String, ◌⧺◌, Bool, true, false, Option, none, some, List, [], ◌∷◌, ◌++◌, decimal, if_some,
  if◌then◌else◌,
}
use hermes_agent_operator.PodTemplate.{
  KeyToPath, Volume, VolumeMount, VolumeSource, config_map_volume, secret_volume,
}
use hermes_agent_operator.Api.Hermes.{
  HermesDotEnv, HermesGitCredentials, get_api_server, get_webhook, api_server_enabled,
  webhook_enabled, get_cors_origins,
}
use hermes_agent_operator.Api.Agent.{HermesAgent, get_hermes_name, searxng_enabled, camofox_enabled}
use hermes_agent_operator.Pod.Parts.{item, read_only_mount, volume}

-- Volumes, their mounts, and the directories that the .env is written from.
pub record Mounted : Type 0 where
  pub volumes : List Volume
  pub mounts : List VolumeMount
  pub paths : List String

abbrev pub nothing : Mounted
nothing = record { volumes = []; mounts = []; paths = [] }

abbrev pub joined : Mounted → Mounted → Mounted
joined a b = record {
  volumes = a.volumes ++ b.volumes;
  mounts = a.mounts ++ b.mounts;
  paths = a.paths ++ b.paths;
}

-- A volume that is mounted under its own name at the root.
abbrev pub mounted : String → VolumeSource → Mounted
mounted name source = record {
  volumes = volume name source ∷ [];
  mounts = read_only_mount name ("/" ⧺ name) ∷ [];
  paths = ("/" ⧺ name) ∷ [];
}

abbrev pub config_map_source : String → VolumeSource
config_map_source name = config_map_volume name []

abbrev pub secret_source : String → VolumeSource
secret_source name = secret_volume name [] none

-- The loop over the references.
abbrev pub mount_each : (String → VolumeSource) → String → ℕ → List String → Mounted
mount_each source prefix i [] = nothing
mount_each source prefix i (ref ∷ refs) =
    joined (mounted (prefix ⧺ ("-" ⧺ decimal i)) (source ref))
      (mount_each source prefix (i + 1) refs)

abbrev pub mount_one : (String → VolumeSource) → String → Option String → Mounted
mount_one source name ref = if_some ref (λ r. mounted name (source r)) nothing

-- ConfigMaps before Secrets, the single one of each before the others.
abbrev pub dot_env_mounts : String → HermesDotEnv → Mounted
dot_env_mounts suffix de =
    let maps = "hermes-dotenv-configmap" ⧺ suffix in
    let secrets = "hermes-dotenv-secret" ⧺ suffix in
    joined (mount_one config_map_source maps de.config_map_ref) (
      joined (mount_each config_map_source maps 0 de.config_map_refs) (
        joined (mount_one secret_source secrets de.secret_ref)
          (mount_each secret_source secrets 0 de.secret_refs)))

abbrev pub user_mounts : String → Option HermesDotEnv → Mounted
user_mounts suffix de = if_some de (λ x. dot_env_mounts suffix x) nothing

abbrev pub items_if : Bool → List KeyToPath → List KeyToPath
items_if b items = if b then items else []

abbrev pub any_items : {A : Type 0} → List A → Bool
any_items [] = false
any_items (x ∷ xs) = true

unfoldable pub build_profile_sidecar_dot_env_items : HermesAgent → List KeyToPath
build_profile_sidecar_dot_env_items ha =
    items_if (searxng_enabled ha.spec.searxng) (item "SEARXNG_URL" ∷ [])
    ++ items_if (camofox_enabled ha.spec.camofox) (item "CAMOFOX_URL" ∷ [])

unfoldable pub build_operator_dot_env_items : HermesAgent → List KeyToPath
build_operator_dot_env_items ha =
    let api = get_api_server ha.spec.hermes in
    let api_on = api_server_enabled api in
    items_if api_on (
      item "API_SERVER_ENABLED"
      ∷ item "API_SERVER_HOST"
      ∷ item "API_SERVER_PORT"
      ∷ items_if (any_items (get_cors_origins api)) (item "API_SERVER_CORS_ORIGINS" ∷ []))
    ++ (items_if (webhook_enabled (get_webhook ha.spec.hermes))
          (item "WEBHOOK_ENABLED" ∷ item "WEBHOOK_PORT" ∷ [])
        ++ (items_if (searxng_enabled ha.spec.searxng) (item "SEARXNG_URL" ∷ [])
            ++ items_if (camofox_enabled ha.spec.camofox) (item "CAMOFOX_URL" ∷ [])))

unfoldable pub build_operator_dot_env_secret_items : HermesAgent → List KeyToPath
build_operator_dot_env_secret_items ha =
    items_if (api_server_enabled (get_api_server ha.spec.hermes)) (item "API_SERVER_KEY" ∷ [])
    ++ items_if (webhook_enabled (get_webhook ha.spec.hermes)) (item "WEBHOOK_SECRET" ∷ [])

-- Some items of a ConfigMap or a Secret; no volume for none.
abbrev pub mount_items : (List KeyToPath → VolumeSource) → String → List KeyToPath → Mounted
mount_items source name items = if any_items items then mounted name (source items) else nothing

-- The keys of the agent's own ConfigMap and Secret.
abbrev pub own_config_source : HermesAgent → List KeyToPath → VolumeSource
own_config_source ha items = config_map_volume (get_hermes_name ha) items

abbrev pub own_secret_source : HermesAgent → List KeyToPath → VolumeSource
own_secret_source ha items = secret_volume (get_hermes_name ha) items none

-- The operator's own, for the default profile.
abbrev pub operator_mounts : HermesAgent → Mounted
operator_mounts ha =
    joined
      (mount_items (own_config_source ha) "hermes-operator-dotenv-configmap"
        (build_operator_dot_env_items ha))
      (mount_items (own_secret_source ha) "hermes-operator-dotenv-secret"
        (build_operator_dot_env_secret_items ha))

abbrev pub default_mounts : HermesAgent → Option HermesDotEnv → Mounted
default_mounts ha de = joined (operator_mounts ha) (user_mounts "" de)

-- Those of a named profile.
abbrev pub profile_mounts : HermesAgent → String → Option HermesDotEnv → Mounted
profile_mounts ha name de =
    joined
      (mount_items (own_config_source ha) ("hermes-operator-dotenv-profile-" ⧺ name)
        (build_profile_sidecar_dot_env_items ha))
      (user_mounts ("-profile-" ⧺ name) de)

-- The credentials of a private repository, which no .env is written from.
abbrev pub credentials_mounts : String → Option HermesGitCredentials → Mounted
credentials_mounts name none = nothing
credentials_mounts name (some c) =
    let m = mounted ("hermes-git-credentials-" ⧺ name) (secret_source c.secret_ref) in
    record m { paths = [] }
