-- ===== src/Pod/Examples.antt =====
-- The theorems on the built StatefulSet, at concrete agents.
use hermes_agent_operator.Prelude.{none, some, [], ◌∷◌, ◌≡◌, refl, if◌then◌else◌}
use hermes_agent_operator.PodTemplate.{other_volume}
use hermes_agent_operator.Objects.{Secret}
use hermes_agent_operator.Api.Agent.{HermesAgent, resource_labels}
use hermes_agent_operator.Api.Hermes.{get_persistence}
use hermes_agent_operator.Api.Security
use hermes_agent_operator.Kube.Client.{quoted, ok}
use hermes_agent_operator.Kube.Exec.{next, attempt, pure, ◌>>=◌}
use hermes_agent_operator.Kube.Calls.{read_random}
use hermes_agent_operator.HermesSecret.{
  api_server_key, hermes_secret, build_hermes_secret, add_key, mint,
}
use hermes_agent_operator.HermesConfigMap.Data.{
  ResolvedConfigDocuments, build_hermes_config_map_data, default_document, put_profiles, put_env,
}
use hermes_agent_operator.Pod.DotEnv.{
  build_operator_dot_env_items, build_profile_sidecar_dot_env_items,
  build_operator_dot_env_secret_items,
}
use hermes_agent_operator.Pod.Items.{AllThere, dot_env_items-AllThere}
use hermes_agent_operator.Kube.Samples.{
  cluster, everything, start, sample_agent, bare_hermes, bare_searxng, bare_camofox, bare_profile,
}
use hermes_agent_operator.Snapshot.{build_data_pvc_name}
use hermes_agent_operator.Restore.{stateful_set_has_volume_claim_template}
use hermes_agent_operator.Service.{build_service}
use hermes_agent_operator.NetworkPolicy.{build_network_policy}
use hermes_agent_operator.Workload.Inputs.{StatefulSetInputs}
use hermes_agent_operator.Pod.{build_stateful_set}
use hermes_agent_operator.Pod.Parts.{bare_container, mount}
use hermes_agent_operator.Pod.Egress.{build_egress_container}
use hermes_agent_operator.Pod.Sidecars.{build_camofox_container, build_searxng_container}
use hermes_agent_operator.Pod.Hermes.{build_hermes_container, hermes_volumes}
use hermes_agent_operator.Pod.Storage.{home_storage}
use hermes_agent_operator.Pod.Home.{
  data_claim, is_persistent, has_own_claim, data_claim-build_stateful_set,
}
use hermes_agent_operator.Pod.Labels.{Selects, build_stateful_set-Selects}
use hermes_agent_operator.Pod.Mounts.{build_stateful_set-AllMounted}
use hermes_agent_operator.Pod.Mounts.Stages.{AllMounted}

abbrev plain : HermesAgent
plain = sample_agent none none

abbrev inputs : StatefulSetInputs
inputs = record {
  config_hash = "c";
  egress_token_names = "GEMINI_API_KEY" ∷ "GOOGLE_API_KEY" ∷ "GROQ_API_KEY" ∷ [];
  egress_hash = "e";
}

-- A sidecar and a volume of the user's, SearXNG, Camofox and a profile.
abbrev full : HermesAgent
full =
    let spec = plain.spec in
    record plain {
      spec = record spec {
        hermes = some (record bare_hermes { profiles = ("work", bare_profile) ∷ [] });
        searxng = some bare_searxng;
        camofox = some bare_camofox;
        sidecars =
            record (bare_container "logs" "busybox") {
              volume_mounts = mount "shared" "/logs" ∷ mount "hermes-data" "/data" ∷ [];
            }
            ∷ [];
        extra_volumes = record { name = "shared"; source = other_volume "nfs" } ∷ [];
        extra_volume_mounts = mount "shared" "/shared" ∷ [];
        pod_labels = ("app.kubernetes.io/name", "mine") ∷ ("team", "a") ∷ [];
      };
    }

build_stateful_set-AllMounted_example :
    AllMounted (build_stateful_set quoted full inputs) (build_stateful_set quoted full inputs)
unfolding build_stateful_set build_egress_container build_camofox_container build_searxng_container
    build_hermes_container hermes_volumes home_storage build_operator_dot_env_items
    build_operator_dot_env_secret_items build_profile_sidecar_dot_env_items
build_stateful_set-AllMounted_example =
    build_stateful_set-AllMounted quoted full inputs (refl, tt) tt ((refl, (refl, tt)), tt)

data_claim-build_stateful_set_example :
    (data_claim (build_stateful_set quoted plain inputs) ≡ (
      if is_persistent (get_persistence plain.spec.hermes)
      then some (build_data_pvc_name plain)
      else none))
    × (stateful_set_has_volume_claim_template (build_stateful_set quoted plain inputs) "hermes-data"
        ≡ has_own_claim (get_persistence plain.spec.hermes))
data_claim-build_stateful_set_example = data_claim-build_stateful_set quoted plain inputs

abbrev policy : Security.NetworkPolicy
policy = record {
  enabled = none;
  allowed_ingress_cidrs = [];
  allowed_ingress_namespaces = [];
  allowed_egress_cidrs = [];
  allow_dns = none;
  additional_egress = [];
}

build_stateful_set-Selects_example :
    Selects
      (build_stateful_set quoted full inputs).selector
      (build_stateful_set quoted full inputs).template.labels
    × Selects (build_service full).selector (build_stateful_set quoted full inputs).template.labels
    × Selects
        (build_network_policy full policy).pod_selector.match_labels
        (build_stateful_set quoted full inputs).template.labels
    × ((build_network_policy full policy).pod_selector.match_expressions ≡ [])
    × Selects (resource_labels full) (build_stateful_set quoted full inputs).template.labels
build_stateful_set-Selects_example = build_stateful_set-Selects quoted full inputs policy

abbrev no_documents : ResolvedConfigDocuments
no_documents = record { default = none; profiles = [] }

data_is_built :
    build_hermes_config_map_data (cluster everything) plain no_documents ≡ ok (put_env plain [])
unfolding build_hermes_config_map_data default_document put_profiles
data_is_built = refl

abbrev minted : Secret
minted = hermes_secret (cluster everything) plain ((api_server_key, "00") ∷ [])

secret_is_built : (build_hermes_secret (cluster everything) plain none start).0 ≡ next minted
unfolding build_hermes_secret add_key mint read_random attempt pure ◌>>=◌
secret_is_built = refl

dot_env_items-AllThere_example :
    AllThere (put_env plain []) (build_operator_dot_env_items plain)
    × AllThere (put_env plain []) (build_profile_sidecar_dot_env_items plain)
    × AllThere minted.contents (build_operator_dot_env_secret_items plain)
dot_env_items-AllThere_example =
    dot_env_items-AllThere (cluster everything) plain no_documents (put_env plain []) none start
      minted data_is_built secret_is_built
