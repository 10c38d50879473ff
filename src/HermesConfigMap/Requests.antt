-- ===== src/HermesConfigMap/Requests.antt =====
-- What the reconciler of the bootstrap ConfigMap asks of the cluster, whatever the cluster answers.
use hermes_agent_operator.Prelude.{◌≡◌}
use hermes_agent_operator.Objects.{ConfigMap}
use hermes_agent_operator.Json.{Json}
use hermes_agent_operator.Api.Agent.{HermesAgent, get_hermes_name, resource_labels}
use hermes_agent_operator.Kube.Client.{ok, config_map, Platform}
use hermes_agent_operator.Kube.Exec.{Request, create, update, delete, update_status, Exec}
use hermes_agent_operator.Kube.Writes.{Writes}
use hermes_agent_operator.HermesConfigMap.Data.{
  ResolvedConfigDocuments, validate_config_sources, build_hermes_config_map_data,
}

-- The agent's bootstrap ConfigMap, with what is built from some resolved documents, of a spec whose
-- configurations each have one source at most.
abbrev pub IsBootstrapMap : {W : Type 0} → Platform W → HermesAgent → ConfigMap → Type 0
IsBootstrapMap p ha o =
    (validate_config_sources ha ≡ ok tt)
    × ((o.meta.namespace ≡ ha.namespace)
        × ((o.meta.name ≡ get_hermes_name ha)
            × ((o.meta.labels ≡ resource_labels ha)
                × ((refs : ResolvedConfigDocuments) × (build_hermes_config_map_data p ha refs
                      ≡ ok o.contents)))))

abbrev pub IsBootstrapWrite : {W : Type 0} → Platform W → HermesAgent → Request → Type 0
IsBootstrapWrite p ha (create config_map o) = IsBootstrapMap p ha o
IsBootstrapWrite p ha (create _ o) = ⊥
IsBootstrapWrite p ha (update config_map o) = IsBootstrapMap p ha o
IsBootstrapWrite p ha (update _ o) = ⊥
IsBootstrapWrite p ha (delete _ n) = ⊥
IsBootstrapWrite p ha (update_status _) = Unit
