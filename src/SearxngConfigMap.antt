-- ===== src/SearxngConfigMap.antt =====
-- SearXNG's ConfigMap (internal/usecase/hermesagent_searxng_configmap.go), and the files in it
-- (GetConfigFiles, api/v1alpha1/hermesagent_sidecars.go).
pub mod Requests
mod Examples
use hermes_agent_operator.Prelude.{
  String, Bool, true, false, Option, none, some, List, [], ◌∷◌, StringMap, lookup, insert, not,
  is_some, if_some, if◌then◌else◌,
}
use hermes_agent_operator.Objects.{NsName, ConfigMap}
use hermes_agent_operator.Api.Agent.{
  HermesAgent, HermesAgentStatus, SearxNg, get_searxng_name, searxng_enabled, resource_labels,
}
use hermes_agent_operator.Kube.Client.{Platform}
use hermes_agent_operator.Kube.Exec.{
  Outcome, Handler, Exec, pure, attempt, modify_status, finish, when, done, ◌>>=◌, ◌>>◌,
}
use hermes_agent_operator.Kube.Calls.{
  get_config_map, create_config_map, update_config_map, delete_config_map,
  update_hermes_agent_status,
}
use hermes_agent_operator.Conditions.{deferred}
use hermes_agent_operator.HermesSecret.{contents_equal}

abbrev pub default_searxng_settings : String
default_searxng_settings =
    "# settings.yml\nuse_default_settings: true\n\nsearch:\n  formats:\n    - html\n    - json\n"

abbrev pub settings_file : String
settings_file = "settings.yml"

-- The default is put in where the file is missing.
abbrev pub with_settings : StringMap String → StringMap String
with_settings files =
    if is_some (lookup files settings_file)
    then files
    else insert files settings_file default_searxng_settings

pub get_config_files : Option SearxNg → StringMap String
get_config_files s = with_settings (if_some s (λ x. x.config_files) [])

abbrev pub record_searxng_config_map : String → HermesAgentStatus → HermesAgentStatus
record_searxng_config_map name status =
    let managed = status.managed_resources in
    record status { managed_resources = record managed { searxng_config_map = name } }

-- `version` is "" for one that is created, else that of the existing one.
pub build_searxng_config_map : HermesAgent → String → ConfigMap
build_searxng_config_map ha version = record {
  meta = record {
    name = get_searxng_name ha;
    namespace = ha.namespace;
    labels = resource_labels ha;
    annotations = [];
    resource_version = version;
    creation_timestamp = 0;
    deletion_timestamp = none;
  };
  contents = get_config_files ha.spec.searxng;
}

-- `maps.Equal` of the contents.
pub config_map_data_equal : ConfigMap → ConfigMap → Bool
config_map_data_equal a b = contents_equal a.contents b.contents

module _ {W : Type 0} (p : Platform W) (ha : HermesAgent) where
  abbrev pub config_map_ns_name : NsName
  config_map_ns_name = record { namespace = ha.namespace; name = get_searxng_name ha }

  record_config_map : String → Exec W Outcome
  record_config_map name = do
    modify_status (record_searxng_config_map name)
    attempt (update_hermes_agent_status p ha)
    pure done

  remove_config_map : Option ConfigMap → Exec W Outcome
  remove_config_map existing = do
    when (is_some existing) (attempt (delete_config_map p config_map_ns_name))
    record_config_map ""

  refresh_config_map : ConfigMap → Exec W Outcome
  refresh_config_map existing = do
    attempt (update_config_map p ha (build_searxng_config_map ha existing.meta.resource_version))
    pure done

  put_config_map : Option ConfigMap → Exec W Outcome
  put_config_map none = do
    attempt (create_config_map p ha (build_searxng_config_map ha ""))
    record_config_map (get_searxng_name ha)
  put_config_map (some existing) =
      if config_map_data_equal (build_searxng_config_map ha "") existing
      then pure done
      else refresh_config_map existing

  with_config_map : Option ConfigMap → Exec W Outcome
  with_config_map existing =
      if not (searxng_enabled ha.spec.searxng)
      then remove_config_map existing
      else put_config_map existing

  searxng_config_map_body : Exec W Outcome
  searxng_config_map_body = do
    existing ← attempt (get_config_map p config_map_ns_name)
    with_config_map existing

  pub reconcile_searxng_config_map : Handler W
  reconcile_searxng_config_map =
      deferred p ha "SearXNGConfigMapReconcileFailed" (finish searxng_config_map_body)
