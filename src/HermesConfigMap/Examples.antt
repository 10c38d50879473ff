-- ===== src/HermesConfigMap/Examples.antt =====
-- The theorems on the bootstrap ConfigMap, at a concrete document and a concrete cluster.
use hermes_agent_operator.Prelude.{false, none, some, [], ◌∷◌, ◌≡◌, refl}
use hermes_agent_operator.Json.{rounded, Json, bool, string, object, empty, entry}
use hermes_agent_operator.Api.Agent.{HermesAgent}
use hermes_agent_operator.Kube.Client.{ok}
use hermes_agent_operator.Kube.Samples.{
  bare_hermes, bare_profile, bare_searxng, bare_camofox, sample_agent,
}
use hermes_agent_operator.HermesConfigMap.Defaults.{
  apply_searxng_config_defaults, apply_multiplex_profiles_default, apply_camofox_config_defaults,
}
use hermes_agent_operator.HermesConfigMap.Data.{ResolvedConfigDocuments, default_document}
use hermes_agent_operator.HermesConfigMap.Data.{flattened}
use hermes_agent_operator.HermesConfigMap.Paths.{unflattened, unflattened-flattened}
use hermes_agent_operator.HermesConfigMap.Settings.{HasValue, default_document-HasValue}

-- With both sidecars on, and one profile.
abbrev agent : HermesAgent
agent =
    let base = sample_agent none none in
    let spec = base.spec in
    record base {
      spec = record spec {
        hermes = some (record bare_hermes { profiles = ("work", bare_profile) ∷ [] });
        searxng = some bare_searxng;
        camofox = some bare_camofox;
      };
    }

abbrev document : Json
document = object (
    entry "web" (object (entry "search_backend" (string "brave") empty)) (
      entry "gateway" (object (entry "multiplex_profiles" (bool false) empty)) (
        entry "browser"
          (object (entry "camofox" (object (entry "managed_persistence" (bool false) empty)) empty))
          empty)))

abbrev completed : Json
completed = object (
    entry "web" (object (entry "search_backend" (string "brave") empty)) (
      entry "gateway" (object (entry "multiplex_profiles" (bool false) empty)) (
        entry "browser"
          (object (entry "camofox" (object (entry "managed_persistence" (bool false) empty)) empty))
          empty)))

abbrev resolved : ResolvedConfigDocuments
resolved = record { default = some document; profiles = [] }

is_completed : default_document (λ n. n) agent resolved ≡ ok (some completed)
unfolding rounded default_document apply_searxng_config_defaults apply_multiplex_profiles_default
    apply_camofox_config_defaults
is_completed = refl

default_document-HasValue_example :
    HasValue (λ n. n) ("browser" ∷ "camofox" ∷ "managed_persistence" ∷ []) (bool false) completed
default_document-HasValue_example =
    default_document-HasValue (λ n. n) (λ n. refl) agent resolved document completed refl
      is_completed ("browser" ∷ "camofox" ∷ "managed_persistence" ∷ []) (bool false)
      (record {
        not_root = λ e. cc;
        not_web = λ e. cc;
        not_gateway = λ e. cc;
        not_browser = λ e. cc;
        not_camofox = λ e. cc;
      })
      refl

unflattened-flattened_example :
    unflattened 0 (flattened "skills/my-test/SKILL.md") ≡ "skills/my-test/SKILL.md"
unflattened-flattened_example = unflattened-flattened "skills/my-test/SKILL.md" refl

-- Two paths with one key.
is_shared : flattened "a--b" ≡ flattened "a/b"
is_shared = refl
