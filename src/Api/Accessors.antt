-- ===== src/Api/Accessors.antt =====
-- The accessors that the pod template is built from (api/v1alpha1/hermesagent_hermes.go,
-- hermesagent_sidecars.go, hermesagent_types.go).
use hermes_agent_operator.Prelude.{
  String, ◌⧺◌, StringMap, insert, Bool, true, false, Option, none, some, List, [], ◌∷◌, not, ◌&&◌,
  ◌||◌, is_empty, is_some, get_or, and_then, if_some, if◌then◌else◌,
}
use hermes_agent_operator.PodTemplate.{EnvVar, EnvFromSource, ResourceRequirements}
use hermes_agent_operator.PodTemplate
use hermes_agent_operator.Api.Hermes.{
  Hermes, HermesPersistence, HermesWorkspace, HermesDotEnv, HermesPipPackages, HermesNpmPackages,
  HermesPlugin, HermesSkill, HermesCron, HermesBundle, HermesInitScript, HermesGitCredentials,
  HermesProfileDistribution, HermesProfile, Probe, get_config, get_config_map_ref,
}
use hermes_agent_operator.Api.Agent.{HermesAgent, SearxNg, Camofox, resource_labels}

abbrev pub get_size : HermesPersistence → String
get_size p = get_or p.size "10Gi"

abbrev pub get_dot_env : Option HermesWorkspace → Option HermesDotEnv
get_dot_env w = and_then w (λ x. x.dot_env)

abbrev pub has_config_document : Option Hermes → Bool
has_config_document h = is_some (get_config h) || is_some (get_config_map_ref h)

abbrev pub profile_has_document : HermesProfile → Bool
profile_has_document p =
    is_some (and_then p.config (λ c. c.raw)) || is_some (and_then p.config (λ c. c.config_map_ref))

abbrev pub get_pip : Option Hermes → Option HermesPipPackages
get_pip h = and_then (and_then h (λ x. x.packages)) (λ p. p.pip)

abbrev pub get_npm : Option Hermes → Option HermesNpmPackages
get_npm h = and_then (and_then h (λ x. x.packages)) (λ p. p.npm)

abbrev pub get_plugins : Option Hermes → List HermesPlugin
get_plugins h = if_some h (λ x. x.plugins) []

abbrev pub get_skills : Option Hermes → List HermesSkill
get_skills h = if_some h (λ x. x.skills) []

abbrev pub get_crons : Option Hermes → List HermesCron
get_crons h = if_some h (λ x. x.crons) []

abbrev pub get_bundles : Option Hermes → List HermesBundle
get_bundles h = if_some h (λ x. x.bundles) []

abbrev pub get_env : Option Hermes → List EnvVar
get_env h = if_some h (λ x. x.env) []

abbrev pub get_env_from : Option Hermes → List EnvFromSource
get_env_from h = if_some h (λ x. x.env_from) []

abbrev pub get_resources : Option Hermes → ResourceRequirements
get_resources h = get_or (and_then h (λ x. x.resources)) (record {
  limits = ("cpu", "2") ∷ ("memory", "4Gi") ∷ [];
  requests = ("cpu", "500m") ∷ ("memory", "1Gi") ∷ [];
})

abbrev pub no_resources : ResourceRequirements
no_resources = record { limits = []; requests = [] }

abbrev pub get_liveness : Option Hermes → Option Probe
get_liveness h = and_then (and_then h (λ x. x.probes)) (λ p. p.liveness)

abbrev pub get_readiness : Option Hermes → Option Probe
get_readiness h = and_then (and_then h (λ x. x.probes)) (λ p. p.readiness)

abbrev pub get_startup : Option Hermes → Option Probe
get_startup h = and_then (and_then h (λ x. x.probes)) (λ p. p.startup)

abbrev pub probe_enabled : Option Probe → Bool
probe_enabled p = if_some p (λ x. get_or x.enabled false) false

-- The defaults, with what the spec overrides.
abbrev pub with_overrides : Probe → PodTemplate.Probe → PodTemplate.Probe
with_overrides p defaults = record defaults {
  initial_delay_seconds = get_or p.initial_delay_seconds defaults.initial_delay_seconds;
  period_seconds = get_or p.period_seconds defaults.period_seconds;
  timeout_seconds = get_or p.timeout_seconds defaults.timeout_seconds;
  failure_threshold = get_or p.failure_threshold defaults.failure_threshold;
}

unfoldable pub get_probe : Option Probe → PodTemplate.Probe → Option PodTemplate.Probe
get_probe none defaults = none
get_probe (some p) defaults =
    if get_or p.enabled false then some (with_overrides p defaults) else none

abbrev pub should_init_chown_data : Option Hermes → Bool
should_init_chown_data h = if_some h (λ x. x.init_chown_data) false

abbrev pub get_init_scripts : Option Hermes → List HermesInitScript
get_init_scripts h = if_some h (λ x. x.init_scripts) []

abbrev pub credentials_key : HermesGitCredentials → String
credentials_key c = if is_empty c.key then ".git-credentials" else c.key

abbrev pub is_pinned : HermesProfileDistribution → Bool
is_pinned d = not (is_empty d.ref)

abbrev pub should_update_on_start : HermesProfileDistribution → Bool
should_update_on_start d = not (is_pinned d) && get_or d.update_on_start true

abbrev pub searxng_claim : SearxNg → String
searxng_claim s = get_or (and_then s.persistence (λ p. p.existing_claim)) ""

abbrev pub searxng_persistent : SearxNg → Bool
searxng_persistent s = if_some s.persistence (λ p. p.enabled) false

abbrev pub camofox_claim : Camofox → String
camofox_claim c = get_or c.persistence.existing_claim ""

abbrev pub get_camofox_name : HermesAgent → String
get_camofox_name ha = ha.name ⧺ "-camofox"

-- `maps.Copy(target, source)`.
abbrev pub copy_into : StringMap String → StringMap String → StringMap String
copy_into target [] = target
copy_into target ((k, v) ∷ source) = copy_into (insert target k v) source

unfoldable pub pod_template_labels : HermesAgent → StringMap String
pod_template_labels ha = copy_into (copy_into [] ha.spec.pod_labels) (resource_labels ha)
