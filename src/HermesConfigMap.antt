-- ===== src/HermesConfigMap.antt =====
-- The agent's bootstrap ConfigMap (internal/usecase/hermesagent_hermes_configmap.go): the configuration
-- documents with their defaults, the workspace files, and the env vars that are no secrets.
pub mod Defaults
pub mod Data
pub mod Sections
pub mod Settings
pub mod Paths
pub mod Reads
pub mod Requests
mod Examples
use Prim.Native.Char.{code}
use hermes_agent_operator.Prelude.{
  String, ◌⧺◌, Bool, true, false, Option, none, some, List, [], ◌∷◌, ◌++◌, ◌&&◌, ◌==◌, is_empty,
  StringMap, lookup, insert, keys, is_some, get_or, and_then, if_some, if◌then◌else◌,
}
use hermes_agent_operator.Objects.{NsName, ConfigMap}
use hermes_agent_operator.Json.{Json, null, object, empty}
use hermes_agent_operator.Api.Hermes.{
  HermesConfigMapKeyRef, HermesProfile, HermesWorkspace, get_key, get_config, get_config_map_ref,
  get_workspace, get_profiles, get_api_server, get_webhook, api_server_enabled, api_server_port,
  webhook_enabled, webhook_port, get_cors_origins,
}
use hermes_agent_operator.Api.Agent.{
  HermesAgent, HermesAgentStatus, Camofox, get_hermes_name, resource_labels, searxng_enabled,
  camofox_enabled,
}
use hermes_agent_operator.Kube.Client.{
  Error, Result, ok, err, on_ok, errorf, wrap, quoted, Platform,
}
use hermes_agent_operator.Kube.Exec.{
  State, Outcome, Handler, Call, Exec, pure, attempt, modify_status, finish, lift, done, ◌>>=◌,
  ◌>>◌,
}
use hermes_agent_operator.Kube.Calls.{
  get_config_map, create_config_map, update_config_map, update_hermes_agent_status,
}
use hermes_agent_operator.Conditions.{deferred}
use hermes_agent_operator.SearxngConfigMap.{config_map_data_equal}
use hermes_agent_operator.Workload.Inputs.{sort_strings, then_call}
use hermes_agent_operator.HermesConfigMap.Defaults.{
  apply_searxng_config_defaults, apply_multiplex_profiles_default, apply_camofox_config_defaults,
}
use hermes_agent_operator.HermesConfigMap.Data.{
  profile_raw, profile_ref, sorted_profile_names, profile_of, validate_config_sources,
  ResolvedConfigDocuments, build_hermes_config_map_data,
}

abbrev pub record_hermes_config_map : HermesAgent → HermesAgentStatus → HermesAgentStatus
record_hermes_config_map ha status =
    let managed = status.managed_resources in
    record status { managed_resources = record managed { hermes_config_map = get_hermes_name ha } }

abbrev pub bootstrap_config_map : HermesAgent → StringMap String → String → ConfigMap
bootstrap_config_map ha m version = record {
  meta = record {
    name = get_hermes_name ha;
    namespace = ha.namespace;
    labels = resource_labels ha;
    annotations = [];
    resource_version = version;
    creation_timestamp = 0;
    deletion_timestamp = none;
  };
  contents = m;
}

-- A document with nothing in it is an empty one.
abbrev pub not_null : Json → Json
not_null null = object empty
not_null document = document

abbrev pub parsed_document : HermesConfigMapKeyRef → Result Json → Result Json
parsed_document ref (ok document) = ok (not_null document)
parsed_document ref (err e) =
    err (wrap ("parsing key " ⧺ quoted (get_key ref) ⧺ " of ConfigMap " ⧺ quoted ref.name) e)

abbrev pub resolving : String → Result Json → Result Json
resolving what (ok document) = ok document
resolving what (err e) = err (wrap ("resolving " ⧺ (what ⧺ "config.configMapRef")) e)

module _ {W : Type 0} (p : Platform W) (ha : HermesAgent) where
  abbrev pub document_in : HermesConfigMapKeyRef → Result (Option ConfigMap) → Result Json
  document_in ref (err e) = err e
  document_in ref (ok none) = err (errorf ("ConfigMap " ⧺ quoted ref.name ⧺ " not found"))
  document_in ref (ok (some cm)) =
      if_some (lookup cm.contents (get_key ref)) (λ text. parsed_document ref (p.yaml_to_json text))
        (err (errorf ("ConfigMap " ⧺ quoted ref.name ⧺ " has no key " ⧺ quoted (get_key ref))))

  pub read_config_document : HermesConfigMapKeyRef → Call W Json
  read_config_document ref s =
      let (r, s') = get_config_map p (record { namespace = ha.namespace; name = ref.name }) s in
      (document_in ref r, s')

  abbrev pub resolve_document : String → HermesConfigMapKeyRef → Call W Json
  resolve_document what ref s = let (r, s') = read_config_document ref s in (resolving what r, s')

  -- The loop over the profiles, by name.
  pub resolve_profiles : List String → StringMap Json → Call W (StringMap Json)
  resolve_profiles [] m s = (ok m, s)
  resolve_profiles (name ∷ names) m s =
      let profile : HermesProfile = profile_of ha name in
      if_some (profile_ref profile)
        (λ ref.
          then_call (resolve_document ("profile " ⧺ quoted name ⧺ " ") ref s)
            (λ document. resolve_profiles names (insert m name document)))
        (resolve_profiles names m s)

  pub resolve_default : Exec W (Option Json)
  resolve_default =
      if_some (get_config_map_ref ha.spec.hermes)
        (λ ref. do document ← attempt (resolve_document "hermes." ref); pure (some document))
        (pure none)

  pub resolve_config_documents : Exec W ResolvedConfigDocuments
  resolve_config_documents = do
    attempt (lift (validate_config_sources ha))
    default ← resolve_default
    profiles ← attempt (resolve_profiles (sorted_profile_names ha) [])
    pure (record { default = default; profiles = profiles })

  abbrev pub hermes_map_ns_name : NsName
  hermes_map_ns_name = record { namespace = ha.namespace; name = get_hermes_name ha }

  pub refresh_hermes_config_map : StringMap String → ConfigMap → Exec W Outcome
  refresh_hermes_config_map m cm = do
    attempt (update_config_map p ha (bootstrap_config_map ha m cm.meta.resource_version))
    pure done

  pub put_hermes_config_map : Option ConfigMap → StringMap String → Exec W Outcome
  put_hermes_config_map none m = do
    attempt (create_config_map p ha (bootstrap_config_map ha m ""))
    modify_status (record_hermes_config_map ha)
    attempt (update_hermes_agent_status p ha)
    pure done
  put_hermes_config_map (some cm) m =
      if config_map_data_equal (bootstrap_config_map ha m "") cm
      then pure done
      else refresh_hermes_config_map m cm

  unfoldable pub hermes_config_map_body : Exec W Outcome
  hermes_config_map_body = do
    cm ← attempt (get_config_map p hermes_map_ns_name)
    refs ← resolve_config_documents
    m ← attempt (lift (build_hermes_config_map_data p ha refs))
    put_hermes_config_map cm m

  unfoldable pub reconcile_hermes_config_map : Handler W
  reconcile_hermes_config_map =
      deferred p ha "HermesConfigMapReconcileFailed" (finish hermes_config_map_body)
